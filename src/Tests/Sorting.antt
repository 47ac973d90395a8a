-- ===== src/Tests/Sorting.antt =====
-- An insertion sort as the qsort of the tests.
use memleax.Prelude.{
  All-imp, inr, inl, slt32, All, Bool-cases, if◌then◌else◌, ◌≤◌, ℕ, List, [], ◌∷◌, arith,
}
use memleax.Sort.{Permutes, same, keeps, swaps, joins, Pairwise, All-Permutes, Orders, IsSort}

module _ {A : Type 0} (compar : A → A → ℕ) where
  abbrev pub insert : A → List A → List A
  insert x [] = x ∷ []
  insert x (y ∷ ys) =
      let later = insert x ys in if slt32 0 (compar x y) then y ∷ later else x ∷ y ∷ ys

  abbrev pub insertion_sort : List A → List A
  insertion_sort [] = []
  insertion_sort (x ∷ xs) = insert x (insertion_sort xs)

  insert-Permutes : (x : A) (xs : List A) → Permutes (x ∷ xs) (insert x xs)
  insert-Permutes x [] = same (x ∷ [])
  insert-Permutes x (y ∷ ys) = elim (Bool-cases (slt32 0 (compar x y))) [
    | inl after ↦ rw after (joins (swaps x y ys) (keeps y (insert-Permutes x ys)))
    | inr here ↦ rw here (same (x ∷ y ∷ ys))
  ]

  sort-Permutes : (xs : List A) → Permutes xs (insertion_sort xs)
  sort-Permutes [] = same []
  sort-Permutes (x ∷ xs) =
      joins (keeps x (sort-Permutes xs)) (insert-Permutes x (insertion_sort xs))

  module _ (key : A → ℕ) where
    abbrev Before : A → A → Type 0
    Before x y = key x ≤ key y

    insert-Pairwise :
        (x : A) (xs : List A)
        → All (Orders compar key x) xs
        → Pairwise Before xs
        → Pairwise Before (insert x xs)
    insert-Pairwise x [] orders h = (tt, tt)
    insert-Pairwise x (y ∷ ys) ((agrees, back), orders) (first, h) =
        elim (Bool-cases (slt32 0 (compar x y))) [
          | inl after ↦
              let less : key y ≤ key x = ground (arith, agrees.1, after) in
              rw after (
                All-Permutes (Before y) (insert-Permutes x ys) (less, first),
                insert-Pairwise x ys orders h,
              )
          | inr here ↦
              let le : key x ≤ key y = ground (arith, agrees.1, here) in
              rw here
                ((le, All-imp (Before y) (Before x) (λ z k. omega arith) ys first), (first, h))
        ]

    sort-Pairwise :
        (xs : List A) → Pairwise (Orders compar key) xs → Pairwise Before (insertion_sort xs)
    sort-Pairwise [] h = tt
    sort-Pairwise (x ∷ xs) (first, h) =
        insert-Pairwise x (insertion_sort xs)
          (All-Permutes (Orders compar key x) (sort-Permutes xs) first) (sort-Pairwise xs h)

pub sorts : {A : Type 0} → IsSort {A = A} insertion_sort
sorts = record {
  permutes = λ compar key xs order. sort-Permutes compar xs;
  sorted = λ compar key xs order. sort-Pairwise compar key xs order;
}
