-- ===== src/AddrMaps.antt =====
-- addr_maps.c: the maps of the files in the target's memory, and the name of the one at an address.
pub mod Located
pub mod Table
pub mod Names
pub mod Build
use memleax.Prelude.{ℕ, Bool, Option, none, some, List, [], ◌∷◌, ltb}
use memleax.Search.{binary_search}

-- `struct addr_map_s`; the name without the NUL that ends it.
pub record AddrMap : Type 0 where
  pub start : ℕ
  pub end : ℕ
  pub name : List ℕ

-- "??"
abbrev pub unknown_map : List ℕ
unknown_map = 63 ∷ 63 ∷ []

abbrev pub map_name : Option (Option AddrMap) → Option (List ℕ)
map_name none = none
map_name (some none) = some unknown_map
map_name (some (some am)) = some am.name

-- `none` stands for a fault of the search.
unfoldable pub addr_maps_search : List AddrMap → ℕ → Option (List ℕ)
unfolding binary_search
addr_maps_search maps address = map_name (
    binary_search (λ (am : AddrMap). ltb address am.start) (λ (am : AddrMap). ltb am.end address)
      maps)
