-- ===== src/Search/Image.antt =====
-- The binary search in the image of an array.
use mathlib.Core.Option
use memleax.Prelude.{
  ◌^◌, ltb, inr, ◌/◌, [], inl, length, ◌-◌, Bool-cases, length-map, ◌+◌, ◌∷◌, get_elem?, map, ◌≡◌,
  Bool, List, Option, ℕ, refl, zero, suc, none, some,
}
use memleax.Search.{compared, bisect, binary_search}

-- What is found, mapped.
abbrev pub image {ℓ} : {A B : Type ℓ} → (A → B) → Option (Option A) → Option (Option B)
image f none = none
image f (some none) = some none
image f (some (some x)) = some (some (f x))

get_elem-map {ℓ} :
    {A B : Type ℓ} (f : A → B) (xs : List A) (i : ℕ)
    → get_elem? (map f xs) i ≡ Option.map f (get_elem? xs i)
get_elem-map f [] i = refl
get_elem-map f (x ∷ xs) zero = refl
get_elem-map f (x ∷ xs) (suc i) = get_elem-map f xs i

module _ {ℓ} {A B : Type ℓ} (f : A → B) (below above : B → Bool) (xs : List A) where
  abbrev below' : A → Bool
  below' x = below (f x)

  abbrev above' : A → Bool
  above' x = above (f x)

  compared-map :
      (o : Option A) (l' u' : Option (Option A)) {l u : Option (Option B)}
      → l ≡ image f l'
      → u ≡ image f u'
      → compared below above (map f xs) (Option.map f o) l u
        ≡ image f (compared below' above' xs o l' u')
  compared-map none l' u' e e' = refl
  compared-map (some x) l' u' e e' = elim (Bool-cases (below (f x))) [
    | inl b ↦ rw b e
    | inr b ↦ rw b (elim (Bool-cases (above (f x))) [ inl a ↦ rw a e' | inr a ↦ rw a refl ])
  ]

  bisect-map :
      (fuel min top : ℕ)
      → bisect below above (map f xs) fuel min top ≡ image f (bisect below' above' xs fuel min top)
  unfolding bisect
  bisect-map zero min top = refl
  bisect-map (suc fuel) min top =
      let sum = min + (top - 1) in
      let mid = sum / 2 in
      let here =
        compared-map (get_elem? xs mid) (bisect below' above' xs fuel min mid)
          (bisect below' above' xs fuel (mid + 1) top) (bisect-map fuel min mid)
          (bisect-map fuel (mid + 1) top) in
      elim (Bool-cases (ltb min top)) [
        | inr e ↦ rw (bisect, e) refl
        | inl e ↦ elim (Bool-cases (ltb sum (2 ^ 31))) [
          | inr e' ↦ rw (bisect, e, e') refl
          | inl e' ↦ rw (bisect, e, e', get_elem-map f xs mid) here
        ]
      ]

  pub binary_search-map :
      binary_search below above (map f xs) ≡ image f (binary_search below' above' xs)
  unfolding binary_search
  binary_search-map = rw (length-map f xs) (bisect-map (suc (length xs)) 0 (length xs))
