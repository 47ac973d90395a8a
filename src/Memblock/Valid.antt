-- ===== src/Memblock/Valid.antt =====
-- The links of the tracker: which chains and lists of memblock.c a block stands in.
use memleax.Prelude.{
  ℕ, ◌<◌, ◌≡◌, false, Option, none, some, [], ◌∷◌, arith, if◌then◌else◌, ◌==◌, erase, count,
  count-append, count-erase, count-cons, count-nil,
}
use memleax.Hash.{hash_slot, hash_add, hash_delete}
use memleax.State.{Memblock, Tracker, Env}
use memleax.Memblock.{link_block, unlink_block, resize_block, memblock_expire_one}

abbrev pub in_active : Option Memblock → ℕ
in_active none = 0
in_active (some mb) = if mb.expired then 0 else 1

abbrev pub in_expire : Option Memblock → ℕ
in_expire none = 0
in_expire (some mb) = if mb.expired then 1 else 0

abbrev pub in_chain : ℕ → Option Memblock → ℕ
in_chain n none = 0
in_chain n (some mb) = if hash_slot (mb.pointer ∷ []) == n then 1 else 0

-- A live block stands once in the list that its flag says, and once in the chain of its pointer;
-- nothing else is linked; and its callstack exists.
pub record IsValid (s : Tracker) : Type 0 where
  pub linked_active : (a : ℕ) → count a s.active ≡ in_active (s.block a)
  pub linked_expire : (a : ℕ) → count a s.expire ≡ in_expire (s.block a)
  pub hashed : (a n : ℕ) → count a (s.memblock_hash n) ≡ in_chain n (s.block a)
  pub owned : (a : ℕ) (mb : Memblock) → s.block a ≡ some mb → mb.callstack < s.callstack_num

pub link-IsValid :
    (e : Env) (a c pointer size : ℕ) (s : Tracker)
    → IsValid s
    → s.block a ≡ none
    → c < s.callstack_num
    → IsValid (link_block e a c pointer size s)
unfolding hash_add
link-IsValid e a c pointer size s v free known = record {
  linked_active = λ q.
      ground (
        arith,
        v.linked_active q,
        count-append q s.active (a ∷ []),
        count-cons q a [],
        count-nil q,
      );
  linked_expire = λ q. ground (arith, v.linked_expire q);
  hashed = λ q n. ground (arith, v.hashed q n, v.hashed a n, count-cons q a (s.memblock_hash n));
  owned = λ q mb h. ground (arith, v.owned q mb);
}

module _ (a : ℕ) (mb : Memblock) (s : Tracker) (v : IsValid s) (live : s.block a ≡ some mb) where
  pub unlink-IsValid : (now free_time : ℕ) → IsValid (unlink_block now a free_time mb s)
  unfolding hash_delete
  unlink-IsValid now free_time = record {
    linked_active =
        λ q. ground (arith, v.linked_active q, v.linked_active a, count-erase a q s.active);
    linked_expire =
        λ q. ground (arith, v.linked_expire q, v.linked_expire a, count-erase a q s.expire);
    hashed = λ q n. ground (arith, v.hashed q n, v.hashed a n, count-erase a q (s.memblock_hash n));
    owned = λ q mb' h. ground (arith, v.owned q mb');
  }

  pub resize-IsValid : (size : ℕ) → IsValid (resize_block a size mb s)
  resize-IsValid size = record {
    linked_active = λ q. ground (arith, v.linked_active q, v.linked_active a);
    linked_expire = λ q. ground (arith, v.linked_expire q, v.linked_expire a);
    hashed = λ q n. ground (arith, v.hashed q n, v.hashed a n);
    owned = λ q mb' h. ground (arith, v.owned q mb', v.owned a mb);
  }

  pub expire_one-IsValid : mb.expired ≡ false → IsValid (memblock_expire_one a mb s)
  unfolding memblock_expire_one
  expire_one-IsValid young = record {
    linked_active =
        λ q. ground (arith, v.linked_active q, v.linked_active a, count-erase a q s.active);
    linked_expire = λ q. ground (
      arith,
      v.linked_expire q,
      v.linked_expire a,
      count-erase a q s.expire,
      count-append q (erase a s.expire) (a ∷ []),
      count-cons q a [],
      count-nil q,
    );
    hashed = λ q n. ground (arith, v.hashed q n, v.hashed a n);
    owned = λ q mb' h. ground (arith, v.owned q mb', v.owned a mb);
  }
