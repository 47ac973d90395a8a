-- ===== src/Sort.antt =====
-- qsort of the C library, which is given: what the code relies on when it sorts an array.
use mathlib.Core.Option.{none-ne-some, some-injective}
use memleax.Prelude.{
  All-imp, subst, ◌∙◌, ℕ, zero, suc, ◌<◌, ◌≤◌, ◌≡◌, refl, List, [], ◌∷◌, arith, ltb, slt32, length,
  count, count-cons, get_elem?, All, some, ap,
}

-- The same elements in another order.
pub data Permutes {ℓ} {A : Type ℓ} : List A → List A → Type ℓ where
  same : (xs : List A) → Permutes xs xs
  keeps : (x : A) {xs ys : List A} → Permutes xs ys → Permutes (x ∷ xs) (x ∷ ys)
  swaps : (x y : A) (xs : List A) → Permutes (x ∷ y ∷ xs) (y ∷ x ∷ xs)
  joins : {xs ys zs : List A} → Permutes xs ys → Permutes ys zs → Permutes xs zs

-- Every pair of elements in their order.
abbrev pub Pairwise {ℓ κ} : {A : Type ℓ} → (A → A → Type κ) → List A → Type κ
Pairwise R [] = Unit
Pairwise R (x ∷ xs) = All (R x) xs × Pairwise R xs

abbrev pub Qsort {ℓ} : Type ℓ → Type ℓ
Qsort A = (A → A → ℕ) → List A → List A

module _ {ℓ} {A : Type ℓ} where
  -- The comparison of two elements says how their keys are ordered.
  abbrev pub Agrees : (A → A → ℕ) → (A → ℕ) → A → A → Type 0
  Agrees compar key x y =
      (slt32 (compar x y) 0 ≡ ltb (key x) (key y)) × (slt32 0 (compar x y) ≡ ltb (key y) (key x))

  -- ... whichever of the two comes first.
  abbrev pub Orders : (A → A → ℕ) → (A → ℕ) → A → A → Type 0
  Orders compar key x y = Agrees compar key x y × Agrees compar key y x

  -- A comparison that orders the elements by a key: the result is a permutation, by rising key.
  pub record IsSort (qsort : Qsort A) : Type ℓ where
    pub permutes :
        (compar : A → A → ℕ) (key : A → ℕ) (xs : List A)
        → Pairwise (Orders compar key) xs
        → Permutes xs (qsort compar xs)
    pub sorted :
        (compar : A → A → ℕ) (key : A → ℕ) (xs : List A)
        → Pairwise (Orders compar key) xs
        → Pairwise (λ x y. key x ≤ key y) (qsort compar xs)

  pub length-Permutes : {xs ys : List A} → Permutes xs ys → length ys ≡ length xs
  length-Permutes (same xs) = refl
  length-Permutes (keeps x p) = ap suc (length-Permutes p)
  length-Permutes (swaps x y xs) = refl
  length-Permutes (joins p q) = length-Permutes q ∙ length-Permutes p

  pub All-Permutes {κ} : (P : A → Type κ) {xs ys : List A} → Permutes xs ys → All P xs → All P ys
  All-Permutes P (same xs) h = h
  All-Permutes P (keeps x p) h = (h.0, All-Permutes P p h.1)
  All-Permutes P (swaps x y xs) h = (h.1.0, (h.0, h.1.1))
  All-Permutes P (joins p q) h = All-Permutes P q (All-Permutes P p h)

  -- A relation that does not look at the order holds of every pair in any order.
  pub Pairwise-Permutes {κ} :
      (R : A → A → Type κ)
      → ((x y : A) → R x y → R y x)
      → {xs ys : List A} → Permutes xs ys
      → Pairwise R xs
      → Pairwise R ys
  Pairwise-Permutes R turn (same xs) h = h
  Pairwise-Permutes R turn (keeps x p) h =
      (All-Permutes (R x) p h.0, Pairwise-Permutes R turn p h.1)
  Pairwise-Permutes R turn (swaps x y xs) h = ((turn x y h.0.0, h.1.0), (h.0.1, h.1.1))
  Pairwise-Permutes R turn (joins p q) h = Pairwise-Permutes R turn q (Pairwise-Permutes R turn p h)

  pub All-get_elem {κ} :
      (P : A → Type κ) (xs : List A) (i : ℕ) (x : A) → All P xs → get_elem? xs i ≡ some x → P x
  All-get_elem P [] i x h e = absurd (none-ne-some _ e)
  All-get_elem P (y ∷ xs) zero x h e = subst P (some-injective _ _ e) h.0
  All-get_elem P (y ∷ xs) (suc i) x h e = All-get_elem P xs i x h.1 e

  -- An element has a place in any order.
  pub Permutes-get_elem :
      {xs ys : List A}
      → Permutes xs ys
      → (i : ℕ) (x : A) → get_elem? xs i ≡ some x
      → (j : ℕ) × (get_elem? ys j ≡ some x)
  Permutes-get_elem (same xs) i x e = (i, e)
  Permutes-get_elem (keeps z p) zero x e = (0, e)
  Permutes-get_elem (keeps z p) (suc i) x e = let (j, e') = Permutes-get_elem p i x e in (suc j, e')
  Permutes-get_elem (swaps y z xs) zero x e = (1, e)
  Permutes-get_elem (swaps y z xs) (suc zero) x e = (0, e)
  Permutes-get_elem (swaps y z xs) (suc (suc i)) x e = (suc (suc i), e)
  Permutes-get_elem (joins p q) i x e =
      let (j, e') = Permutes-get_elem p i x e in Permutes-get_elem q j x e'

  pub Pairwise-get_elem {κ} :
      (R : A → A → Type κ) (xs : List A) (i j : ℕ) (x y : A)
      → Pairwise R xs
      → i < j
      → get_elem? xs i ≡ some x
      → get_elem? xs j ≡ some y
      → R x y
  Pairwise-get_elem R [] i j x y h lt e e' = absurd (none-ne-some _ e)
  Pairwise-get_elem R (z ∷ xs) zero zero x y h lt e e' = absurd (omega arith)
  Pairwise-get_elem R (z ∷ xs) zero (suc j) x y h lt e e' =
      subst (λ w. R w y) (some-injective _ _ e) (All-get_elem (R z) xs j y h.0 e')
  Pairwise-get_elem R (z ∷ xs) (suc i) zero x y h lt e e' = absurd (omega arith)
  Pairwise-get_elem R (z ∷ xs) (suc i) (suc j) x y h lt e e' =
      Pairwise-get_elem R xs i j x y h.1 (omega arith) e e'

  pub All-Pairwise {κ κ'} :
      (P : A → Type κ) (R : A → A → Type κ') (xs : List A)
      → All P xs
      → Pairwise R xs
      → Pairwise (λ x y. P x × P y × R x y) xs
  All-Pairwise P R [] ps h = tt
  All-Pairwise P R (x ∷ xs) (p, ps) (first, h) = (each xs ps first, All-Pairwise P R xs ps h)
    where
      each : (ys : List A) → All P ys → All (R x) ys → All (λ y. P x × P y × R x y) ys
      each [] ps h = tt
      each (y ∷ ys) (q, qs) (r, rs) = ((p, q, r), each ys qs rs)

  pub Pairwise-both {κ κ'} :
      (R : A → A → Type κ) (S : A → A → Type κ') (xs : List A)
      → Pairwise R xs
      → Pairwise S xs
      → Pairwise (λ x y. R x y × S x y) xs
  Pairwise-both R S [] h k = tt
  Pairwise-both R S (x ∷ xs) (first, h) (first', k) =
      (each xs first first', Pairwise-both R S xs h k)
    where
      each : (ys : List A) → All (R x) ys → All (S x) ys → All (λ y. R x y × S x y) ys
      each [] hs ks = tt
      each (y ∷ ys) (h, hs) (k, ks) = ((h, k), each ys hs ks)

  pub Pairwise-imp {κ λ'} :
      (R : A → A → Type κ) (S : A → A → Type λ')
      → ((x y : A) → R x y → S x y)
      → (xs : List A) → Pairwise R xs
      → Pairwise S xs
  Pairwise-imp R S f [] h = tt
  Pairwise-imp R S f (x ∷ xs) h = (All-imp (R x) (S x) (f x) xs h.0, Pairwise-imp R S f xs h.1)

-- Elements of which any two are related, in either order, and so ordered by the key: sorted, they still are.
pub qsort-Pairwise {ℓ κ} :
    {A : Type ℓ} (qsort : Qsort A)
    → IsSort qsort
    → (compar : A → A → ℕ) (key : A → ℕ) (R : A → A → Type κ) → ((x y : A) → R x y → R y x)
    → ((x y : A) → R x y → Agrees compar key x y)
    → (xs : List A) → Pairwise R xs
    → Permutes xs (qsort compar xs) × Pairwise (λ x y. R x y × (key x ≤ key y)) (qsort compar xs)
qsort-Pairwise qsort sorts compar key R turn agrees xs h =
    let orders =
      Pairwise-imp R (Orders compar key) (λ x y r. (agrees x y r, agrees y x (turn x y r))) xs h in
    let same = sorts.permutes compar key xs orders in
    (
      same,
      Pairwise-both R (λ x y. key x ≤ key y) (qsort compar xs) (Pairwise-Permutes R turn same h)
          (sorts.sorted compar key xs orders),
    )

All-all {ℓ κ} : {A : Type ℓ} (P : A → Type κ) → ((y : A) → P y) → (ys : List A) → All P ys
All-all P f [] = tt
All-all P f (y ∷ ys) = (f y, All-all P f ys)

pub Pairwise-all {ℓ κ} :
    {A : Type ℓ} (R : A → A → Type κ) → ((x y : A) → R x y) → (xs : List A) → Pairwise R xs
Pairwise-all R f [] = tt
Pairwise-all R f (x ∷ xs) = (All-all (R x) (f x) xs, Pairwise-all R f xs)

pub count-Permutes : (q : ℕ) {xs ys : List ℕ} → Permutes xs ys → count q ys ≡ count q xs
count-Permutes q (same xs) = refl
count-Permutes q (keeps x {xs} {ys} p) =
    omega (arith, count-cons q x xs, count-cons q x ys, count-Permutes q p)
count-Permutes q (swaps x y xs) =
    omega (
      arith,
      count-cons q x (y ∷ xs),
      count-cons q y xs,
      count-cons q y (x ∷ xs),
      count-cons q x xs,
    )
count-Permutes q (joins p r) = count-Permutes q r ∙ count-Permutes q p
