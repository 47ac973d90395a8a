-- ===== src/Memblock/Consistent.antt =====
-- Every operation of memblock.c keeps the tracker consistent.
use memleax.Prelude.{
  true, ℕ, ◌<◌, ◌≡◌, refl, ◌≢◌, inl, inr, false, Option, none, some, List, arith, ◌==◌, sub64,
  Option-cases, Bool-cases,
}
use memleax.State.{Memblock, Tracker, Env, Event}
use memleax.Callstack.{callstack_current}
use memleax.Callstack.Index.{SameStacks-IsIndexed, NoOverrun, callstack_current_total}
use memleax.Memblock.{
  link_block, unlink_block, resize_block, memblock_expire_one, memblock_new, memblock_delete,
  memblock_update_size, warn_null, new_at,
}
use memleax.Memblock.Valid.{link-IsValid, unlink-IsValid, resize-IsValid, expire_one-IsValid}
use memleax.Memblock.Lookup.{IsConsistent, Returns, Looked, looked}
use memleax.Memblock.Balance.{
  link-IsBalanced, unlink-IsBalanced, resize-IsBalanced, expire_one-IsBalanced,
}

link-IsConsistent :
    (e : Env) (a c pointer size : ℕ) (s : Tracker)
    → IsConsistent s
    → s.block a ≡ none
    → c < s.callstack_num
    → IsConsistent (link_block e a c pointer size s)
link-IsConsistent e a c pointer size s k free known = record {
  valid = link-IsValid e a c pointer size s k.valid free known;
  balanced = link-IsBalanced e a c pointer size s k.valid k.balanced free;
  indexed =
      SameStacks-IsIndexed s _
        (record { same_num = refl; same_hash = refl; same_ips = λ d. ground arith }) k.indexed;
}

pub print-IsConsistent :
    (s : Tracker) (out : List Event) → IsConsistent s → IsConsistent (record s { output = out })
print-IsConsistent s out k = record {
  valid = record {
    linked_active = k.valid.linked_active;
    linked_expire = k.valid.linked_expire;
    hashed = k.valid.hashed;
    owned = k.valid.owned;
  };
  balanced = record {
    blocks = k.balanced.blocks;
    bytes = k.balanced.bytes;
    expiries = k.balanced.expiries;
  };
  indexed = record { chained = k.indexed.chained; distinct = k.indexed.distinct };
}

new_at-IsConsistent :
    (e : Env) (a pointer size : ℕ) (s : Tracker) (r : Option ℕ × Tracker)
    → s.block a ≡ none
    → Looked s r.0 r.1
    → Returns (new_at e a pointer size r) (λ x. IsConsistent x.1)
new_at-IsConsistent e a pointer size s (none, t) free l = l.consistent
new_at-IsConsistent e a pointer size s (some c, t) free l =
    link-IsConsistent e a c pointer size t l.consistent (rw l.blocks free) (l.exists c refl)

warn_null-IsConsistent :
    (s : Tracker) (r : Option ℕ × Tracker)
    → Looked s r.0 r.1
    → r.0 ≢ none
    → Returns (warn_null r) (λ x. IsConsistent x.1)
warn_null-IsConsistent s (none, t) l known = absurd (known refl)
warn_null-IsConsistent s (some c, t) l known = print-IsConsistent t _ l.consistent

new-looked :
    (e : Env) (pointer size : ℕ) (s : Tracker) (r : Option ℕ × Tracker)
    → IsConsistent s
    → ((a : ℕ) → e.malloc_block ≡ some a → s.block a ≡ none)
    → callstack_current e s ≡ some r
    → (pointer ≡ 0 → r.0 ≢ none)
    → Returns (memblock_new e pointer size s) (λ x. IsConsistent x.1)
unfolding memblock_new
new-looked e pointer size s r k free h known = elim (Bool-cases (pointer == 0)) [
  | inl z ↦ rw (z, h) (warn_null-IsConsistent s r (looked e s r k h) (known (ground arith)))
  | inr z ↦ elim (Option-cases e.malloc_block) [
    | inl m ↦ rw (z, m) k
    | inr (a, m) ↦
        rw (z, m, h) (new_at-IsConsistent e a pointer size s r (free a m) (looked e s r k h))
  ]
]

-- An allocation returns with the tracker consistent, if `malloc` returns no address of a live
-- block, no callstack in the table is a proper prefix of the backtrace, and memory for a callstack
-- is there where the API returned NULL.
pub memblock_new-IsConsistent :
    (e : Env) (pointer size : ℕ) (s : Tracker)
    → IsConsistent s
    → ((a : ℕ) → e.malloc_block ≡ some a → s.block a ≡ none)
    → NoOverrun e s
    → (pointer ≡ 0 → e.malloc_callstack ≡ true)
    → Returns (memblock_new e pointer size s) (λ x. IsConsistent x.1)
memblock_new-IsConsistent e pointer size s k free short known =
    let (r, h, there) = callstack_current_total e s k.indexed short in
    new-looked e pointer size s r k free h (λ z. there (known z))

module _ (s : Tracker) (k : IsConsistent s) where
  module _ (a : ℕ) (mb : Memblock) (live : s.block a ≡ some mb) where
    unlink-IsConsistent : (now free_time : ℕ) → IsConsistent (unlink_block now a free_time mb s)
    unlink-IsConsistent now free_time = record {
      valid = unlink-IsValid a mb s k.valid live now free_time;
      balanced = unlink-IsBalanced a mb s k.valid k.balanced live now free_time;
      indexed =
          SameStacks-IsIndexed s _
            (record { same_num = refl; same_hash = refl; same_ips = λ d. ground arith }) k.indexed;
    }

    resize-IsConsistent : (size : ℕ) → IsConsistent (resize_block a size mb s)
    resize-IsConsistent size = record {
      valid = resize-IsValid a mb s k.valid live size;
      balanced = resize-IsBalanced a mb s k.valid k.balanced live size;
      indexed =
          SameStacks-IsIndexed s _
            (record { same_num = refl; same_hash = refl; same_ips = λ d. ground arith }) k.indexed;
    }

    pub expire_one-IsConsistent : mb.expired ≡ false → IsConsistent (memblock_expire_one a mb s)
    unfolding memblock_expire_one
    expire_one-IsConsistent young = record {
      valid = expire_one-IsValid a mb s k.valid live young;
      balanced = expire_one-IsBalanced a mb s k.valid k.balanced live young;
      indexed =
          SameStacks-IsIndexed s _
            (record { same_num = refl; same_hash = refl; same_ips = λ d. ground arith }) k.indexed;
    }

  -- A free of a block that was found, or of NULL, returns with the tracker consistent.
  pub memblock_delete-IsConsistent :
      (now : ℕ) (p : Option ℕ)
      → ((a : ℕ) → p ≡ some a → s.block a ≢ none)
      → Returns (memblock_delete now p s) IsConsistent
  unfolding memblock_delete
  memblock_delete-IsConsistent now none known = k
  memblock_delete-IsConsistent now (some a) known = elim (Option-cases (s.block a)) [
    | inl m ↦ absurd (known a refl m)
    | inr (mb, m) ↦ rw (m, memblock_delete) (unlink-IsConsistent a mb m now (sub64 now mb.create))
  ]

  pub memblock_update_size-IsConsistent :
      (p : Option ℕ) (size : ℕ)
      → ((a : ℕ) → p ≡ some a → s.block a ≢ none)
      → Returns (memblock_update_size p size s) IsConsistent
  unfolding memblock_update_size
  memblock_update_size-IsConsistent none size known = k
  memblock_update_size-IsConsistent (some a) size known = elim (Option-cases (s.block a)) [
    | inl m ↦ absurd (known a refl m)
    | inr (mb, m) ↦ rw (m, memblock_update_size) (resize-IsConsistent a mb m size)
  ]
