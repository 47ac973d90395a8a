-- ===== src/Breakpoint/Handlers.antt =====
-- What the handlers of breakpoint.c do to the tracker.
use memleax.Prelude.{
  ◌^◌, sub64, ◌%◌, subst, ◌*◌, ℕ, ◌≡◌, refl, ◌≢◌, inl, inr, true, Option, none, some, arith, ◌==◌,
  Option-cases, Bool-cases,
}
use mathlib.Core.Option.{some-injective, none-ne-some}
use memleax.State.{Tracker, Env, Memblock}
use memleax.Callstack.Index.{NoOverrun}
use memleax.Memblock.{memblock_new, memblock_delete, memblock_search, unlink_block}
use memleax.Memblock.Search.{Finds, memblock_search-Finds}
use memleax.Memblock.Lookup.{IsConsistent, Returns}
use memleax.Memblock.Consistent.{
  memblock_new-IsConsistent, memblock_delete-IsConsistent, memblock_update_size-IsConsistent,
}
use memleax.Breakpoint.{
  Api, malloc, free, realloc, calloc, bph_free, bph_realloc, handle, search_delete, success,
}

-- What a handler needs of the outside: `malloc` returns no address of a live block, no callstack in
-- the table is a proper prefix of the backtrace, and there is memory for a callstack.
pub record Answers (e : Env) (s : Tracker) : Type 0 where
  pub fresh : (a : ℕ) → e.malloc_block ≡ some a → s.block a ≡ none
  pub short : NoOverrun e s
  pub memory : e.malloc_callstack ≡ true

module _ (e : Env) (s : Tracker) (k : IsConsistent s) where
  found_live :
      (pointer : ℕ) (p : Option ℕ) → Finds pointer s p → (a : ℕ) → p ≡ some a → s.block a ≢ none
  found_live pointer none f a h = λ q. cc
  found_live pointer (some b) (mb, m, same) a h = λ q. ground arith

  search_returns :
      (pointer : ℕ) → (p : Option ℕ) × (memblock_search pointer s ≡ some p) × Finds pointer s p
  search_returns pointer =
      go (memblock_search pointer s) refl (memblock_search-Finds pointer s k.valid)
    where
      go :
          (r : Option (Option ℕ))
          → memblock_search pointer s ≡ r
          → Returns r (Finds pointer s)
          → (p : Option ℕ) × (memblock_search pointer s ≡ some p) × Finds pointer s p
      go none h f = absurd f
      go (some p) h f = (p, h, f)

  unlink_ips :
      (now a free_time : ℕ) (mb : Memblock) (c : ℕ)
      → ((unlink_block now a free_time mb s).callstack c).ips ≡ (s.callstack c).ips
  unlink_ips now a free_time mb c = ground arith

  unlink-Answers :
      (now a free_time : ℕ) (mb : Memblock)
      → Answers e s
      → Answers e (unlink_block now a free_time mb s)
  unlink-Answers now a free_time mb w = record {
    fresh = λ b h. ground (arith, w.fresh b h);
    short = λ c h. rw (unlink_ips now a free_time mb c) (w.short c h);
    memory = w.memory;
  }

  memblock_delete-Answers :
      (now : ℕ) (p : Option ℕ) (t : Tracker)
      → Answers e s
      → memblock_delete now p s ≡ some t
      → Answers e t
  unfolding memblock_delete
  memblock_delete-Answers now none t w h = subst (Answers e) (some-injective _ _ h) w
  memblock_delete-Answers now (some a) t w h = elim (Option-cases (s.block a)) [
    | inl m ↦ absurd (none-ne-some t (rw (m, memblock_delete) at h))
    | inr (mb, m) ↦
        subst (Answers e) (some-injective _ _ (rw (m, memblock_delete) at h))
          (unlink-Answers now a (sub64 now mb.create) mb w)
  ]

  -- A block is looked up and freed, if there is one.
  search_delete_returns :
      Answers e s
      → (pointer : ℕ)
      → (t : Tracker) × (search_delete e pointer s ≡ some t) × IsConsistent t × Answers e t
  unfolding search_delete
  search_delete_returns w pointer =
      let (p, h, f) = search_returns pointer in
      let live = found_live pointer p f in
      elim (Option-cases (memblock_delete e.now_delete p s)) [
        | inl q ↦ absurd (rw q at (memblock_delete-IsConsistent s k e.now_delete p live))
        | inr (t, q) ↦ (
          t,
          rw (h, search_delete, q),
          rw q at (memblock_delete-IsConsistent s k e.now_delete p live),
          memblock_delete-Answers e.now_delete p t w q,
        )
      ]

  malloc_keeps :
      (pointer size : ℕ)
      → Answers e s
      → Returns (memblock_new e pointer size s) (λ r. IsConsistent r.1)
  malloc_keeps pointer size w =
      memblock_new-IsConsistent e pointer size s k w.fresh w.short (λ _. w.memory)

  update_keeps :
      (m : Option Tracker) → Returns m IsConsistent → Returns (success m) (λ r. IsConsistent r.1)
  update_keeps none h = h
  update_keeps (some t) h = h

module _ (e : Env) (s : Tracker) (k : IsConsistent s) (w : Answers e s) where
  free_keeps : (pointer : ℕ) → Returns (bph_free e pointer s) (λ r. IsConsistent r.1)
  unfolding bph_free
  free_keeps pointer = let (t, h, kt, _) = search_delete_returns e s k w pointer in rw h kt

  realloc_keeps :
      (new_pointer old_pointer size : ℕ)
      → Returns (bph_realloc e new_pointer old_pointer size s) (λ r. IsConsistent r.1)
  unfolding bph_realloc
  realloc_keeps new_pointer old_pointer size = elim (Bool-cases (new_pointer == old_pointer)) [
    | inl same ↦
        let (p, h, f) = search_returns e s k old_pointer in
        rw (same, h)
          (update_keeps e s k _
            (memblock_update_size-IsConsistent s k p size (found_live e s k old_pointer p f)))
    | inr moved ↦
        let (t, h, kt, wt) = search_delete_returns e s k w old_pointer in
        rw (moved, h) (malloc_keeps e t kt new_pointer size wt)
  ]

  -- The tracker is consistent, `malloc` gives no address of a live block and has memory for a
  -- callstack, and no callstack of the table is a proper prefix of the backtrace. Then every
  -- handler returns, on all values and arguments, and leaves the tracker consistent.
  pub handle-IsConsistent :
      (api : Api) (value arg1 arg2 : ℕ)
      → Returns (handle api e value arg1 arg2 s) (λ r. IsConsistent r.1)
  unfolding handle
  handle-IsConsistent malloc value arg1 arg2 = malloc_keeps e s k value arg1 w
  handle-IsConsistent free value arg1 arg2 = free_keeps arg1
  handle-IsConsistent realloc value arg1 arg2 = realloc_keeps value arg1 arg2
  handle-IsConsistent calloc value arg1 arg2 = malloc_keeps e s k value (arg1 * arg2 % 2 ^ 64) w
