-- ===== src/Array/Growth.antt =====
-- An array of array.h holds what was pushed.
use memleax.Prelude.{
  ◌∙◌, get_elem-lt, sym, subst, length-append, ◌%◌, ◌*◌, Bool-cases, inr, inl, Option-cases, ap,
  ◌==◌, if◌then◌else◌, ◌+◌, ◌^◌, ◌≤◌, get_elem?, ◌<◌, ℕ, zero, suc, true, Option, none, some, List,
  [], ◌∷◌, ◌++◌, ◌≡◌, refl, arith, length,
}
use memleax.Array.{
  array_last, array_grown, pushed, Array, array_of, array_push, array_store, array_items,
  array_sort, items_from,
}

module _ {ℓ} {A : Type ℓ} where
  -- The array holds a sequence, in memory that is large enough.
  pub record Holds (a : Array A) (xs : List A) : Type ℓ where
    pub num : a.item_num ≡ length xs
    pub same : (i : ℕ) (x : A) → get_elem? xs i ≡ some x → a.items i ≡ some x
    pub room : (r : ℕ) → a.memory ≡ some r → (r ≡ a.item_max) × (a.item_num ≤ r)
    pub unused : a.memory ≡ none → a.item_num ≡ 0
    pub positive : 0 < a.item_max

  pub array_of-Holds : (init_max : ℕ) → 0 < init_max → Holds (array_of init_max) []
  array_of-Holds init_max h = record {
    num = refl;
    same = λ i x e. ground arith;
    room = λ r e. ground arith;
    unused = λ e. refl;
    positive = h;
  }

  get_elem-snoc :
      (xs : List A) (v : A) (i : ℕ)
      → get_elem? (xs ++ v ∷ []) i ≡ (if i == length xs then some v else get_elem? xs i)
  get_elem-snoc [] v zero = refl
  get_elem-snoc [] v (suc i) = ground arith
  get_elem-snoc (x ∷ xs) v zero = ground arith
  get_elem-snoc (x ∷ xs) v (suc i) = ground (arith, get_elem-snoc xs v i)

  -- What a push gives of an array with memory for one more item.
  abbrev Pushes : Option ℕ × Array A → List A → A → Type ℓ
  Pushes pushes xs v =
      (a' : Array A) × (r : ℕ) × (pushes ≡ (some (length xs), a'))
      × (a'.memory ≡ some r)
      × (array_last a' ≡ some (length xs))
      × (length xs < r)
      × Holds (array_store a' (length xs) v) (xs ++ v ∷ [])

  pushed_lem :
      (b : Array A) (xs : List A) (v : A) (r : ℕ)
      → Holds b xs
      → b.memory ≡ some r
      → length xs < r
      → Pushes (pushed b) xs v
  pushed_lem b xs v r h e room = (
    record b { item_num = b.item_num + 1 },
    r,
    rw (e, h.num) refl,
    e,
    ground (arith, h.num),
    room,
    record {
      num = omega (arith, h.num, length-append xs (v ∷ []));
      same = λ i x at. ground (arith, at, h.same i x, get_elem-snoc xs v i);
      room = λ r' e'. ((h.room r' e').0, ground (arith, e, e', room, h.num));
      unused = λ e'. ground (arith, e, e');
      positive = h.positive;
    },
  )

  -- The allocation succeeds, if one is needed, and there are fewer than 2 ^ 30 items. A push gives the
  -- slot behind the items, which lies in the array's memory, it is the last one, and once the value is written there the
  -- array holds the old items and then the value.
  pub array_push-Holds :
      (a : Array A) (xs : List A) (v : A)
      → Holds a xs
      → length xs < 2 ^ 30
      → (a' : Array A) × (r : ℕ) × (array_push true a ≡ (some (length xs), a'))
        × (a'.memory ≡ some r)
        × (array_last a' ≡ some (length xs))
        × (length xs < r)
        × Holds (array_store a' (length xs) v) (xs ++ v ∷ [])
  unfolding array_push
  array_push-Holds a xs v h small = elim (Option-cases a.memory) [
    | inl e ↦
        let none_yet : a.item_num ≡ 0 = h.unused e in
        grow (record a { memory = some a.item_max; items = λ i. none }) a.item_max
          (rw (array_grown, e) refl)
          (record {
            num = h.num;
            same = λ i x at. absurd (omega (arith, get_elem-lt xs i x at, h.num, none_yet));
            room = λ r e'. (ground (arith, e'), omega (arith, none_yet));
            unused = λ e'. none_yet;
            positive = h.positive;
          })
          refl (omega (arith, h.num, none_yet, h.positive))
    | inr (r, e) ↦
        let (max, fits) = h.room r e in
        elim (Bool-cases (a.item_num == a.item_max)) [
          | inl full ↦
              let double = a.item_max * 2 % 2 ^ 32 in
              grow (record a { item_max = double; memory = some double }) double
                (rw (array_grown, e, full) refl)
                (record {
                  num = h.num;
                  same = h.same;
                  room = λ r' e'. (ground (arith, e'), ground (arith, e', full, h.num, small));
                  unused = λ e'. h.unused (absurd (ground (arith, e')));
                  positive = ground (arith, h.positive, full, h.num, small);
                })
                refl (ground (arith, full, h.num, small, h.positive))
          | inr free ↦
              grow a r (simp (array_grown, e, free)) h e (ground (arith, free, fits, max, h.num))
        ]
  ]
    where
      grow :
          (b : Array A) (r : ℕ)
          → array_grown true a ≡ b
          → Holds b xs
          → b.memory ≡ some r
          → length xs < r
          → Pushes (pushed (array_grown true a)) xs v
      grow b r e h' m room =
          subst (λ g. Pushes (pushed g) xs v) (sym e) (pushed_lem b xs v r h' m room)

  pub items_from_lem :
      (xs : List A) (i : ℕ) (items : ℕ → Option A)
      → ((j k : ℕ) (x : A) → get_elem? xs j ≡ some x → k ≡ i + j → items k ≡ some x)
      → items_from (length xs) i items ≡ xs
  items_from_lem [] i items h = refl
  items_from_lem (x ∷ xs) i items h =
      let here : items i ≡ some x = h 0 i x refl (omega arith) in
      rw here (
        ap (λ ys. x ∷ ys)
          (items_from_lem xs (suc i) items (λ j k y e q. h (suc j) k y e (omega (arith, q)))))

  pub Holds-items : (a : Array A) (xs : List A) → Holds a xs → array_items a ≡ xs
  Holds-items a xs h =
      rw h.num (items_from_lem xs 0 a.items (λ j k x e q. ground (arith, h.same j x e, q)))

  -- A sort by a function that keeps the length leaves its result in the array.
  pub array_sort-items :
      (qsort : (A → A → ℕ) → List A → List A) (compar : A → A → ℕ) (a : Array A) (xs : List A)
      → Holds a xs
      → length (qsort compar xs) ≡ length xs
      → array_items (array_sort qsort compar a) ≡ qsort compar xs
  array_sort-items qsort compar a xs h same =
      let sorted = qsort compar xs in
      ap (λ l. items_from a.item_num 0 (get_elem? (qsort compar l))) (Holds-items a xs h)
      ∙ ap (λ n. items_from n 0 (get_elem? sorted)) (h.num ∙ sym same)
      ∙ items_from_lem sorted 0 (get_elem? sorted) (λ j k x e q. ground (arith, e, q))
