-- ===== src/Memblock/Bytes.antt =====
-- The bytes that a report calls leaked: `expired_size - free_expired_size` of a callstack.
use memleax.Prelude.{
  ℕ, ◌+◌, ◌%◌, ◌^◌, ◌≡◌, ◌↔◌, ◌⊎◌, inl, inr, true, false, Option, none, some, arith, count,
  erase-absent, Bool-cases,
}
use memleax.State.{Memblock, Tracker}
use memleax.Memblock.{unlink_block, resize_block, memblock_expire_one}
use memleax.Memblock.Valid.{IsValid}
use memleax.Memblock.Weights.{bytes_by, weigh, weigh-change, weigh-erase, weigh-append}

-- The bytes are those of the expired blocks that are not freed.
abbrev pub HasBytes : Tracker → Type 0
HasBytes s =
    (c : ℕ)
    → (s.callstack c).expired_size
      ≡ ((s.callstack c).free_expired_size + weigh (bytes_by c) s.block s.expire) % 2 ^ 32

module _ (a : ℕ) (mb : Memblock) (s : Tracker) (v : IsValid s) (live : s.block a ≡ some mb) where
  pub unlink-HasBytes :
      (now free_time : ℕ) → HasBytes s → HasBytes (unlink_block now a free_time mb s)
  unlink-HasBytes now free_time h c =
      ground (arith, h c, v.linked_expire a, weigh-erase (bytes_by c) s.block a none s.expire)

  pub expire_one-HasBytes : mb.expired ≡ false → HasBytes s → HasBytes (memblock_expire_one a mb s)
  unfolding memblock_expire_one
  expire_one-HasBytes young h c =
      let absent : count a s.expire ≡ 0 = ground (arith, v.linked_expire a) in
      rw (erase-absent a s.expire absent) (
        ground (
          arith,
          h c,
          weigh-append (bytes_by c) s.block a (some (record mb { expired = true })) s.expire absent,
        ))

  -- The byte counters of the expired blocks are right before. After a `realloc` in place of a live
  -- block they are right exactly when the block has not expired or its size, as an `int`, is what
  -- it was.
  pub resize-HasBytes :
      (size : ℕ)
      → HasBytes s
      → HasBytes (resize_block a size mb s)
        ↔ ((mb.expired ≡ false) ⊎ (size % 2 ^ 32 ≡ mb.size % 2 ^ 32))
  resize-HasBytes size h = (fails, keeps)
    where
      new : Option Memblock
      new = some (record mb { size = size })

      fails :
          HasBytes (resize_block a size mb s)
          → (mb.expired ≡ false) ⊎ (size % 2 ^ 32 ≡ mb.size % 2 ^ 32)
      fails after = elim (Bool-cases mb.expired) [
        | inr young ↦ inl young
        | inl old ↦
            let c = mb.callstack in
            inr (
              ground (
                arith,
                h c,
                after c,
                v.linked_expire a,
                weigh-change (bytes_by c) s.block a new s.expire,
              ))
      ]

      keeps :
          (mb.expired ≡ false) ⊎ (size % 2 ^ 32 ≡ mb.size % 2 ^ 32)
          → HasBytes (resize_block a size mb s)
      keeps why c =
          ground (arith, h c, v.linked_expire a, weigh-change (bytes_by c) s.block a new s.expire)
