-- ===== src/Memblock/Lifetimes.antt =====
-- What the counters of `memblock_delete` say of the lifetimes of the blocks of one callstack.
use Prim.Native.Nat.{max, min}
use memleax.Prelude.{
  inr, Bool, Bool-cases, false, ◌||◌, ◌==◌, if◌then◌else◌, ap, ◌∙◌, ℕ, ◌+◌, ◌%◌, ◌^◌, ◌<◌, ◌≡◌, inl,
  refl, List, [], ◌∷◌, arith, length, All,
}
use memleax.State.{Callstack, Memblock}
use memleax.Memblock.{count_free}

-- Blocks freed one after the other, each with its lifetime.
unfoldable pub frees : List (Memblock × ℕ) → Callstack → Callstack
frees [] cs = cs
frees ((mb, t) ∷ l) cs = frees l (count_free mb t cs)

unfoldable pub longest : List (Memblock × ℕ) → ℕ
longest [] = 0
longest ((mb, t) ∷ l) = max t (longest l)

unfoldable pub total : List (Memblock × ℕ) → ℕ
total [] = 0
total ((mb, t) ∷ l) = t + total l

unfoldable pub times : List (Memblock × ℕ) → List ℕ
times [] = []
times ((mb, t) ∷ l) = t ∷ times l

-- After a sequence of frees, with lifetimes below 2 ^ 31 seconds, `free_max` is the greatest of
-- what it was and the longest lifetime.
pub free_max-longest :
    (l : List (Memblock × ℕ)) (cs : Callstack)
    → All (λ t. t < 2 ^ 31) (times l)
    → cs.free_max < 2 ^ 31
    → (frees l cs).free_max ≡ max cs.free_max (longest l)
unfolding frees longest times
free_max-longest [] cs h m = omega arith
free_max-longest ((mb, t) ∷ l) cs h m = ground (arith, free_max-longest l (count_free mb t cs) h.1)

-- After a sequence of frees `free_count` and `free_total` have grown by the number and the sum of
-- the lifetimes, as `int`s.
pub free_total-total :
    (l : List (Memblock × ℕ)) (cs : Callstack)
    → cs.free_total < 2 ^ 32
    → cs.free_count < 2 ^ 32
    → ((frees l cs).free_total ≡ (cs.free_total + total l) % 2 ^ 32)
      × ((frees l cs).free_count ≡ (cs.free_count + length l) % 2 ^ 32)
unfolding frees total
free_total-total [] cs h k = omega arith
free_total-total ((mb, t) ∷ l) cs h k =
    omega (arith, free_total-total l (count_free mb t cs) (omega arith) (omega arith))

-- Whether a block was freed within its first second.
abbrev pub has_zero : List ℕ → Bool
has_zero [] = false
has_zero (t ∷ l) = t == 0 || has_zero l

-- What is behind the last zero; everything where there is none.
abbrev pub since_zero : List ℕ → List ℕ
since_zero [] = []
since_zero (t ∷ l) =
    let later = since_zero l in if has_zero l then later else if t == 0 then l else t ∷ later

-- The least of a number and some others; of some numbers, 0 for none.
abbrev pub smallest : ℕ → List ℕ → ℕ
smallest m [] = m
smallest m (t ∷ l) = smallest (min m t) l

abbrev pub least : List ℕ → ℕ
least [] = 0
least (t ∷ l) = smallest t l

no_zero : (l : List ℕ) → has_zero l ≡ false → since_zero l ≡ l
no_zero [] h = refl
no_zero (t ∷ l) h =
    let (here, later) = or_false (t == 0) (has_zero l) h in
    rw (since_zero, later, here) (ap (λ r. t ∷ r) (no_zero l later))
  where
    or_false : (a b : Bool) → a || b ≡ false → (a ≡ false) × (b ≡ false)
    or_false a b e = ground (arith, e)

-- The minimum after some frees, from a minimum before.
abbrev after : List ℕ → ℕ → ℕ
after l m = if has_zero l then least (since_zero l) else if m == 0 then least l else smallest m l

after_first :
    (t : ℕ) (l : List ℕ) (m : ℕ) → after l (if m == 0 then t else min m t) ≡ after (t ∷ l) m
after_first t l m = elim (Bool-cases (has_zero l)) [
  | inl e ↦ elim (Bool-cases (t == 0)) [
    | inl z ↦ rw (after, e, z) refl
    | inr z ↦ rw (after, e, z) refl
  ]
  | inr e ↦ elim (Bool-cases (t == 0)) [
    | inl z ↦ elim (Bool-cases (m == 0)) [
      | inl y ↦ rw (after, e, y, z) refl
      | inr y ↦ let zero : min m t ≡ 0 = ground arith in rw (after, e, z, y, zero) refl
    ]
    | inr z ↦ elim (Bool-cases (m == 0)) [
      | inl y ↦ rw (after, e, y, z) refl
      | inr y ↦
          let some_left : (min m t == 0) ≡ false = ground arith in
          rw (after, e, z, y, some_left) refl
    ]
  ]
]

min-since_zero :
    (l : List (Memblock × ℕ)) (cs : Callstack)
    → All (λ t. t < 2 ^ 31) (times l)
    → cs.free_min < 2 ^ 31
    → (frees l cs).free_min ≡ after (times l) cs.free_min
unfolding frees times
min-since_zero [] cs h m = ground arith
min-since_zero ((mb, t) ∷ l) cs h m =
    let ts = times l in
    let next = count_free mb t cs in
    let step : next.free_min ≡ (if cs.free_min == 0 then t else min cs.free_min t) = ground arith in
    let ih : (frees l next).free_min
        ≡ after ts (if cs.free_min == 0 then t else min cs.free_min t) =
      min-since_zero l next h.1 (ground (arith, step)) ∙ ap (after ts) step in
    ih ∙ after_first t ts cs.free_min

-- Blocks are freed one after the other, with lifetimes below 2 ^ 31 seconds, and `free_min` is 0 before. Then it
-- is not the shortest of all lifetimes, but of those that come after the last free of a block within
-- its first second, and 0 where none does: such a free makes memleax forget those before.
pub free_min-since_zero :
    (l : List (Memblock × ℕ)) (cs : Callstack)
    → cs.free_min ≡ 0
    → All (λ t. t < 2 ^ 31) (times l)
    → (frees l cs).free_min ≡ least (since_zero (times l))
free_min-since_zero l cs z h =
    min-since_zero l cs h (omega (arith, z)) ∙ (elim (Bool-cases (has_zero (times l))) [
      | inl e ↦ rw e refl
      | inr e ↦ rw (e, z, no_zero (times l) e) refl
    ])
