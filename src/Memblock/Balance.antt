-- ===== src/Memblock/Balance.antt =====
-- The counters of a callstack against the blocks that are linked: steps on one block.
use memleax.Prelude.{
  ℕ, ◌+◌, ◌%◌, ◌^◌, ◌≡◌, true, false, Option, none, some, [], ◌∷◌, ◌++◌, arith, update, erase,
  count, erase-absent,
}
use memleax.State.{Memblock, Tracker, Env}
use memleax.Memblock.{link_block, unlink_block, resize_block, memblock_expire_one}
use memleax.Memblock.Valid.{IsValid}
use memleax.Memblock.Weights.{owned_by, bytes_by, weigh, weigh-change, weigh-erase, weigh-append}

-- The blocks of a callstack that are not freed, their bytes, and those that have expired.
abbrev pub live_blocks : ℕ → Tracker → ℕ
live_blocks c s = weigh (owned_by c) s.block s.active + weigh (owned_by c) s.block s.expire

abbrev pub live_bytes : ℕ → Tracker → ℕ
live_bytes c s = weigh (bytes_by c) s.block s.active + weigh (bytes_by c) s.block s.expire

abbrev pub expired_blocks : ℕ → Tracker → ℕ
expired_blocks c s = weigh (owned_by c) s.block s.expire

-- As `int`s: what was allocated is what was freed and what is live, in blocks and in bytes, and
-- what expired is what was freed after that and what still stands in the list of expired blocks.
pub record IsBalanced (s : Tracker) : Type 0 where
  pub blocks :
      (c : ℕ)
      → (s.callstack c).alloc_count ≡ ((s.callstack c).free_count + live_blocks c s) % 2 ^ 32
  pub bytes :
      (c : ℕ) → (s.callstack c).alloc_size ≡ ((s.callstack c).free_size + live_bytes c s) % 2 ^ 32
  pub expiries :
      (c : ℕ)
      → (s.callstack c).expired_count
        ≡ ((s.callstack c).free_expired_count + expired_blocks c s) % 2 ^ 32

pub link-IsBalanced :
    (e : Env) (a k pointer size : ℕ) (s : Tracker)
    → IsValid s
    → IsBalanced s
    → s.block a ≡ none
    → IsBalanced (link_block e a k pointer size s)
link-IsBalanced e a k pointer size s v bal free = record {
  blocks = λ c. ground (
    arith,
    bal.blocks c,
    v.linked_active a,
    v.linked_expire a,
    weigh-append (owned_by c) s.block a (some mb) s.active,
    weigh-change (owned_by c) s.block a (some mb) s.expire,
  );
  bytes = λ c. ground (
    arith,
    bal.bytes c,
    v.linked_active a,
    v.linked_expire a,
    weigh-append (bytes_by c) s.block a (some mb) s.active,
    weigh-change (bytes_by c) s.block a (some mb) s.expire,
  );
  expiries = λ c. ground (
    arith,
    bal.expiries c,
    v.linked_expire a,
    weigh-change (owned_by c) s.block a (some mb) s.expire,
  );
}
  where
    mb : Memblock
    mb = record { pointer = pointer; size = size; create = e.now; expired = false; callstack = k }

module _ (a : ℕ) (mb : Memblock) (s : Tracker) (v : IsValid s) (bal : IsBalanced s)
    (live : s.block a ≡ some mb) where
  pub unlink-IsBalanced : (now free_time : ℕ) → IsBalanced (unlink_block now a free_time mb s)
  unlink-IsBalanced now free_time = record {
    blocks = λ c. ground (
      arith,
      bal.blocks c,
      v.linked_active a,
      v.linked_expire a,
      weigh-erase (owned_by c) s.block a none s.active,
      weigh-erase (owned_by c) s.block a none s.expire,
    );
    bytes = λ c. ground (
      arith,
      bal.bytes c,
      v.linked_active a,
      v.linked_expire a,
      weigh-erase (bytes_by c) s.block a none s.active,
      weigh-erase (bytes_by c) s.block a none s.expire,
    );
    expiries = λ c. ground (
      arith,
      bal.expiries c,
      v.linked_expire a,
      weigh-erase (owned_by c) s.block a none s.expire,
    );
  }

  pub resize-IsBalanced : (size : ℕ) → IsBalanced (resize_block a size mb s)
  resize-IsBalanced size = record {
    blocks = λ c. ground (
      arith,
      bal.blocks c,
      v.linked_active a,
      v.linked_expire a,
      weigh-change (owned_by c) s.block a (some (record mb { size = size })) s.active,
      weigh-change (owned_by c) s.block a (some (record mb { size = size })) s.expire,
    );
    bytes = λ c. ground (
      arith,
      bal.bytes c,
      v.linked_active a,
      v.linked_expire a,
      weigh-change (bytes_by c) s.block a (some (record mb { size = size })) s.active,
      weigh-change (bytes_by c) s.block a (some (record mb { size = size })) s.expire,
    );
    expiries = λ c. ground (
      arith,
      bal.expiries c,
      v.linked_expire a,
      weigh-change (owned_by c) s.block a (some (record mb { size = size })) s.expire,
    );
  }

  pub expire_one-IsBalanced : mb.expired ≡ false → IsBalanced (memblock_expire_one a mb s)
  unfolding memblock_expire_one
  expire_one-IsBalanced young = record {
    blocks = λ c. ground (
      arith,
      bal.blocks c,
      v.linked_active a,
      v.linked_expire a,
      weigh-erase (owned_by c) s.block a (some old) s.active,
      moved (owned_by c),
    );
    bytes = λ c. ground (
      arith,
      bal.bytes c,
      v.linked_active a,
      v.linked_expire a,
      weigh-erase (bytes_by c) s.block a (some old) s.active,
      moved (bytes_by c),
    );
    expiries = λ c. ground (arith, bal.expiries c, moved (owned_by c));
  }
    where
      old : Memblock
      old = record mb { expired = true }

      absent : count a s.expire ≡ 0
      absent = ground (arith, v.linked_expire a)

      moved :
          (w : Option Memblock → ℕ)
          → weigh w (update s.block a (some old)) (erase a s.expire ++ a ∷ [])
            ≡ weigh w s.block s.expire + w (some old)
      moved w =
          rw (erase-absent a s.expire absent) (weigh-append w s.block a (some old) s.expire absent)
