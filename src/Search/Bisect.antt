-- ===== src/Search/Bisect.antt =====
-- The binary search ends and answers as a search of the whole array would.

use memleax.Prelude.{
  inside_list, get_elem-lt, ◌==◌, ◌/◌, ◌-◌, inl, inr, zero, suc, true, false, some, none, ltb, none,
  Bool-cases, ◌||◌, arith, false, suc, true, ◌+◌, some, ◌^◌, Option, get_elem?, length, ◌<◌, ◌≤◌,
  Bool, List, ℕ, ◌≡◌,
}
use memleax.Search.{bisect, binary_search}

-- In the order of the array: below an element is below all later ones, above one is above all
-- earlier ones.
pub record IsOrdered {ℓ} {A : Type ℓ} (below above : A → Bool) (table : List A) : Type ℓ where
  pub below_later :
      (i j : ℕ) (x y : A)
      → i ≤ j
      → get_elem? table i ≡ some x
      → get_elem? table j ≡ some y
      → below x ≡ true
      → below y ≡ true
  pub above_earlier :
      (i j : ℕ) (x y : A)
      → i ≤ j
      → get_elem? table i ≡ some x
      → get_elem? table j ≡ some y
      → above y ≡ true
      → above x ≡ true

-- It is enough to know this of two elements at different places.
module _ {ℓ} {A : Type ℓ} (below above : A → Bool) (table : List A) where
  abbrev pub Strictly : (ℕ → ℕ → A → A → Type 0) → Type ℓ
  Strictly P =
      (i j : ℕ) (x y : A)
      → i < j
      → get_elem? table i ≡ some x
      → get_elem? table j ≡ some y
      → P i j x y

  pub strict-IsOrdered :
      Strictly (λ i j x y. below x ≡ true → below y ≡ true)
      → Strictly (λ i j x y. above y ≡ true → above x ≡ true)
      → IsOrdered below above table
  strict-IsOrdered later earlier = record {
    below_later = λ i j x y h at at' b. elim (Bool-cases (i == j)) [
      | inl e ↦ let same : i ≡ j = ground (arith, e) in ground (arith, at, at', same, b)
      | inr n ↦ later i j x y (ground arith) at at' b
    ];
    above_earlier = λ i j x y h at at' b. elim (Bool-cases (i == j)) [
      | inl e ↦ let same : i ≡ j = ground (arith, e) in ground (arith, at, at', same, b)
      | inr n ↦ earlier i j x y (ground arith) at at' b
    ];
  }

-- What a search may answer: an element with the address neither below nor above it, or nothing
-- when the array has no such element.
pub data Answer {ℓ} {A : Type ℓ} (below above : A → Bool) (table : List A)
    : Option (Option A) → Type ℓ where
  hit :
      (i : ℕ) (x : A)
      → get_elem? table i ≡ some x
      → below x ≡ false
      → above x ≡ false
      → Answer below above table (some (some x))
  miss :
      ((i : ℕ) (x : A) → get_elem? table i ≡ some x → below x || above x ≡ true)
      → Answer below above table (some none)

-- No fault; and if something is found, it has a property.
abbrev pub Within {ℓ} : {A : Type ℓ} → (A → Type 0) → Option (Option A) → Type 0
Within P none = ⊥
Within P (some none) = Unit {0}
Within P (some (some x)) = P x

module _ {ℓ} {A : Type ℓ} (below above : A → Bool) (table : List A) (small : length table ≤ 2 ^ 30)
    (P : A → Type 0) (all : (i : ℕ) (x : A) → get_elem? table i ≡ some x → P x) where
  bisect-Within :
      (fuel min top : ℕ)
      → top < min + fuel
      → min ≤ top
      → top ≤ length table
      → Within P (bisect below above table fuel min top)
  unfolding bisect
  bisect-Within zero min top enough order bound = absurd (omega arith)
  bisect-Within (suc fuel) min top enough order bound = elim (Bool-cases (ltb min top)) [
    | inr e ↦ rw e tt
    | inl lt ↦
        let mid = (min + (top - 1)) / 2 in
        let fits : ltb (min + (top - 1)) (2 ^ 31) ≡ true = ground (arith, bound, small) in
        let (x, e) = inside_list table mid (ground (arith, bound)) in
        rw (lt, fits, e)
          (elim (Bool-cases (below x)) [
            | inl b ↦
                rw b
                  (bisect-Within fuel min mid (ground arith) (ground arith) (ground (arith, bound)))
            | inr b ↦ rw b (elim (Bool-cases (above x)) [
              | inl a ↦ rw a (bisect-Within fuel (mid + 1) top (ground arith) (ground arith) bound)
              | inr a ↦ rw a (all mid x e)
            ])
          ])
  ]

  -- Whatever the order of the array.
  pub binary_search-Within : Within P (binary_search below above table)
  unfolding binary_search
  binary_search-Within =
      bisect-Within (suc (length table)) 0 (length table) (omega arith) (omega arith) (omega arith)

module _ {ℓ} {A : Type ℓ} (below above : A → Bool) (table : List A)
    (ordered : IsOrdered below above table) (small : length table ≤ 2 ^ 30) where
  -- What the loop has ruled out: what is before `min` and from `top` on.
  record Rest (min top : ℕ) : Type ℓ where
    order : min ≤ top
    bound : top ≤ length table
    before : (i : ℕ) (x : A) → i < min → get_elem? table i ≡ some x → above x ≡ true
    after : (i : ℕ) (x : A) → top ≤ i → get_elem? table i ≡ some x → below x ≡ true

  bisect-Answer :
      (fuel min top : ℕ)
      → top < min + fuel
      → Rest min top
      → Answer below above table (bisect below above table fuel min top)
  unfolding bisect
  bisect-Answer zero min top enough rest = absurd (omega (arith, rest.order))
  bisect-Answer (suc fuel) min top enough rest = elim (Bool-cases (ltb min top)) [
    | inr e ↦ rw e (
        miss (λ i x at. elim (Bool-cases (ltb i min)) [
          | inl before ↦ ground (arith, rest.before i x (ground arith) at)
          | inr after ↦ ground (arith, rest.order, rest.after i x (ground arith) at)
        ]))
    | inl lt ↦
        let mid = (min + (top - 1)) / 2 in
        let fits : ltb (min + (top - 1)) (2 ^ 31) ≡ true = ground (arith, rest.bound, small) in
        let (x, e) = inside_list table mid (ground (arith, rest.bound)) in
        rw (lt, fits, e)
          (elim (Bool-cases (below x)) [
            | inl b ↦ rw b (
                bisect-Answer fuel min mid (ground arith) (record {
                  order = ground arith;
                  bound = ground (arith, rest.bound);
                  before = rest.before;
                  after = λ i y h at. ordered.below_later mid i x y h e at b;
                }))
            | inr b ↦ rw b (elim (Bool-cases (above x)) [
              | inl a ↦ rw a (
                  bisect-Answer fuel (mid + 1) top (ground arith) (record {
                    order = ground arith;
                    bound = rest.bound;
                    before = λ i y h at. ordered.above_earlier i mid y x (omega arith) at e a;
                    after = rest.after;
                  }))
              | inr a ↦ rw a (hit mid x e b a)
            ])
          ])
  ]

  pub binary_search-Answer : Answer below above table (binary_search below above table)
  unfolding binary_search
  binary_search-Answer = bisect-Answer (suc (length table)) 0 (length table) (omega arith) (record {
    order = omega arith;
    bound = omega arith;
    before = λ i x h. absurd (omega arith);
    after = λ i x h at. absurd (omega (arith, get_elem-lt table i x at));
  })
