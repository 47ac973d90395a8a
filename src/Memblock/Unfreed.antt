-- ===== src/Memblock/Unfreed.antt =====
-- `memblock_count`: the age of the oldest block of a callstack that is not freed.
use Prim.Native.Nat.{max}
use mathlib.Core.Option.{some-injective, none-ne-some}
use memleax.Prelude.{
  All-count, ℕ, ◌+◌, ◌-◌, ◌^◌, ◌≤◌, ◌<◌, ◌≡◌, refl, sym, ap, ◌≢◌, Option, none, some, List, [], ◌∷◌,
  ◌++◌, arith, if◌then◌else◌, ◌==◌, All, count-append, Option-cases, inl, inr,
}
use memleax.State.{Memblock, Tracker}
use memleax.Memblock.{count_loop, count_one, memblock_count}
use memleax.Memblock.Valid.{IsValid}
use memleax.Memblock.Lookup.{IsConsistent, Returns, Returns-imp}
use memleax.Memblock.Order.{Ascending, creates, IsOrdered}

-- The greatest age of a block of callstack `c`, 0 if there is none.
unfoldable pub oldest : ℕ → ℕ → (ℕ → Option Memblock) → List ℕ → ℕ
oldest now c b [] = 0
oldest now c b (a ∷ l) = elim (b a) [
  | none ↦ oldest now c b l
  | some mb ↦
      if mb.callstack == c then max (now - mb.create) (oldest now c b l) else oldest now c b l
]

All-zip : (P Q : ℕ → Type 0) (l : List ℕ) → All P l → All Q l → All (λ t. P t × Q t) l
All-zip P Q [] h k = tt
All-zip P Q (x ∷ l) h k = ((h.0, k.0), All-zip P Q l h.1 k.1)

-- No younger block is older than a first one.
oldest-le :
    (now c : ℕ) (b : ℕ → Option Memblock) (first : ℕ) (l : List ℕ)
    → All (λ t. first ≤ t) (creates b l)
    → oldest now c b l ≤ now - first
unfolding oldest creates
oldest-le now c b first [] h = omega arith
oldest-le now c b first (a ∷ l) h = ground (arith, oldest-le now c b first l h.1)

-- The loop gives a callstack that has no age yet that of its oldest block in the list.
record Counted (now : ℕ) (l : List ℕ) (s t : Tracker) : Type 0 where
  unfree :
      (c : ℕ)
      → (t.callstack c).unfree_max ≡ (
          if (s.callstack c).unfree_max == 0
          then oldest now c s.block l
          else (s.callstack c).unfree_max)
  same_block : t.block ≡ s.block
  same_active : t.active ≡ s.active
  same_expire : t.expire ≡ s.expire

module _ (now : ℕ) where
  visit :
      (a : ℕ) (l : List ℕ) (s t : Tracker) (mb : Memblock)
      → s.block a ≡ some mb
      → All (λ c. mb.create ≤ c) (creates s.block l)
      → mb.create ≤ now
      → now < mb.create + 2 ^ 31
      → now < 2 ^ 63
      → Counted now l (count_one now mb s) t
      → Counted now (a ∷ l) s t
  unfolding oldest
  visit a l s t mb m later past short rep x = record {
    unfree = λ c. ground (arith, x.unfree c, oldest-le now c s.block mb.create l later);
    same_block = x.same_block;
    same_active = x.same_active;
    same_expire = x.same_expire;
  }

  count_loop-Counted :
      (l : List ℕ) (s : Tracker)
      → All (λ a. s.block a ≢ none) l
      → Ascending (creates s.block l)
      → All (λ t. (t ≤ now) × (now < t + 2 ^ 31)) (creates s.block l)
      → now < 2 ^ 63
      → Returns (count_loop now l s) (Counted now l s)
  unfolding count_loop oldest creates
  count_loop-Counted [] s live up past rep = record {
    unfree = λ c. ground arith;
    same_block = refl;
    same_active = refl;
    same_expire = refl;
  }
  count_loop-Counted (a ∷ l) s live up past rep = elim (Option-cases (s.block a)) [
    | inl m ↦ absurd (live.0 m)
    | inr (mb, m) ↦
        rw (m, count_loop)
          (Returns-imp (Counted now l (count_one now mb s)) (Counted now (a ∷ l) s) _
            (λ t x. visit a l s t mb m (rw m at up.0) (rw m at past.0.0) (rw m at past.0.1) rep x)
            (count_loop-Counted l (count_one now mb s) live.1 up.1 past.1 rep))
  ]

  count_loop-append :
      (l m : List ℕ) (s : Tracker)
      → count_loop now (l ++ m) s
        ≡ elim (count_loop now l s) [ none ↦ none | some t ↦ count_loop now m t ]
  unfolding count_loop
  count_loop-append [] m s = refl
  count_loop-append (a ∷ l) m s = elim (Option-cases (s.block a)) [
    | inl h ↦ rw (h, count_loop)
    | inr (mb, h) ↦ rw (h, count_loop) (count_loop-append l m (count_one now mb s))
  ]

  count_loop-active :
      (l : List ℕ) (s t : Tracker) → count_loop now l s ≡ some t → t.active ≡ s.active
  unfolding count_loop
  count_loop-active [] s t h = sym (ap (λ (x : Tracker). x.active) (some-injective _ _ h))
  count_loop-active (a ∷ l) s t h = elim (Option-cases (s.block a)) [
    | inl m ↦ absurd (none-ne-some t (rw (m, count_loop) at h))
    | inr (mb, m) ↦ count_loop-active l (count_one now mb s) t (rw (m, count_loop) at h)
  ]

  -- The two loops are one over both lists.
  pub two_loops : (s : Tracker) → memblock_count now s ≡ count_loop now (s.expire ++ s.active) s
  unfolding memblock_count
  two_loops s = elim (Option-cases (count_loop now s.expire s)) [
    | inl h ↦ rw (count_loop-append, memblock_count, h)
    | inr (t, h) ↦ rw (count_loop-append, memblock_count, h, count_loop-active s.expire s t h) refl
  ]

  pub blocks_live : (s : Tracker) → IsValid s → All (λ a. s.block a ≢ none) (s.expire ++ s.active)
  blocks_live s v = All-count _ _ (λ a h m.
      ground (arith, v.linked_active a, v.linked_expire a, count-append a s.expire s.active))

  -- On a consistent tracker with ordered lists and ages below 2 ^ 31 seconds, `memblock_count`
  -- gives each callstack the age of its oldest block that is not freed, 0 if there is none, where
  -- no age was there before.
  pub memblock_count-oldest :
      (s : Tracker)
      → IsConsistent s
      → IsOrdered now s
      → All (λ t. now < t + 2 ^ 31) (creates s.block (s.expire ++ s.active))
      → ((c : ℕ) → (s.callstack c).unfree_max ≡ 0)
      → Returns
          (memblock_count now s)
          λ t. (c : ℕ) → (t.callstack c).unfree_max ≡ oldest now c s.block (s.expire ++ s.active)
  memblock_count-oldest s k o short none_yet =
      let l = s.expire ++ s.active in
      rw two_loops (
        Returns-imp (Counted now l s) _ _ (λ t x c. ground (arith, x.unfree c, none_yet c))
          (count_loop-Counted l s (blocks_live s k.valid) o.ascending
            (All-zip (λ t. t ≤ now) (λ t. now < t + 2 ^ 31) (creates s.block l) o.past short)
            o.representable))
