-- ===== src/Search.antt =====
-- The binary search that addr_maps.c, symtab.c and debug_line.c each write out over their arrays.
pub mod Bisect
pub mod Image
use memleax.Prelude.{
  ℕ, zero, suc, ◌+◌, ◌-◌, ◌/◌, ◌^◌, Bool, true, false, Option, none, some, List, if◌then◌else◌, ltb,
  leb, length, get_elem?,
}

-- The loop `while (min <= max)`, `top` being `max + 1`; `below` tells that the address lies below an
-- element, `above` that it lies above. `none`: the sum `min + max` overflows an int, an element
-- outside the array is read, or the fuel is used up; `some none`: nothing is found.
module _ {ℓ} {A : Type ℓ} (below above : A → Bool) (table : List A) where
  abbrev pub compared : Option A → Option (Option A) → Option (Option A) → Option (Option A)
  compared none lower upper = none
  compared (some x) lower upper =
      if below x then lower else if above x then upper else some (some x)

  unfoldable pub bisect : ℕ → ℕ → ℕ → Option (Option A)
  bisect zero min top = none
  bisect (suc fuel) min top =
      let sum = min + (top - 1) in
      let mid = sum / 2 in
      let lower = bisect fuel min mid in
      let upper = bisect fuel (mid + 1) top in
      if ltb min top
      then (if ltb sum (2 ^ 31) then compared (get_elem? table mid) lower upper else none)
      else some none

  -- The search of the whole array.
  unfoldable pub binary_search : Option (Option A)
  unfolding bisect
  binary_search = bisect (suc (length table)) 0 (length table)
