-- ===== src/Array.antt =====
-- array.h: arrays that grow. The answers of malloc and realloc are given; `item_size` times `item_max`
-- is taken not to overflow.
pub mod Growth
use memleax.Prelude.{
  ◌-◌, if◌then◌else◌, ◌^◌, ◌%◌, ◌*◌, get_elem?, update, ◌==◌, ℕ, zero, suc, Bool, true, false,
  Option, none, some, List, [], ◌∷◌, ◌+◌,
}

-- `memory`, the source's `data`: how many items the memory has room for, or NULL; `items`: what was written to it.
pub record Array {ℓ} (A : Type ℓ) : Type ℓ where
  pub item_max : ℕ
  pub item_num : ℕ
  pub memory : Option ℕ
  pub items : ℕ → Option A

-- What malloc or realloc returns.
abbrev allocated : Bool → ℕ → Option ℕ
allocated ok n = elim ok [ true ↦ some n | false ↦ none ]

module _ {ℓ} {A : Type ℓ} where
  -- `ARRAY`
  abbrev pub array_of : ℕ → Array A
  array_of init_max = record { item_max = init_max; item_num = 0; memory = none; items = λ i. none }

  -- The memory that the push finds or makes.
  abbrev pub array_grown : Bool → Array A → Array A
  array_grown ok a = elim a.memory [
    | none ↦ record a { memory = allocated ok a.item_max; items = λ i. none }
    | some room ↦ elim (a.item_num == a.item_max) [
      | true ↦ record a {
        item_max = a.item_max * 2 % 2 ^ 32;
        memory = allocated ok (a.item_max * 2 % 2 ^ 32);
      }
      | false ↦ a
    ]
  ]

  -- The index of the new item, or NULL.
  abbrev pub pushed : Array A → Option ℕ × Array A
  pushed a = elim a.memory [
    | none ↦ (none, a)
    | some room ↦ (some a.item_num, record a { item_num = a.item_num + 1 })
  ]

  unfoldable pub array_push : Bool → Array A → Option ℕ × Array A
  array_push ok a = pushed (array_grown ok a)

  -- A write to an item.
  abbrev pub array_store : Array A → ℕ → A → Array A
  array_store a i v = record a { items = update a.items i (some v) }

  -- The index of the last item, or NULL.
  abbrev pub array_last : Array A → Option ℕ
  array_last a = if a.item_num == 0 then none else some (a.item_num - 1)

  abbrev pub items_from : ℕ → ℕ → (ℕ → Option A) → List A
  items_from zero i items = []
  items_from (suc k) i items = elim (items i) [
    | none ↦ items_from k (suc i) items
    | some x ↦ x ∷ items_from k (suc i) items
  ]

  -- `array_for_each`: the items that were written, in order.
  abbrev pub array_items : Array A → List A
  array_items a = items_from a.item_num 0 a.items

  -- `qsort` is given.
  abbrev pub array_sort : ((A → A → ℕ) → List A → List A) → (A → A → ℕ) → Array A → Array A
  array_sort qsort compar a = record a { items = get_elem? (qsort compar (array_items a)) }
