-- ===== src/AddrMaps/Located.antt =====
-- The name that is found for an address is that of a map at it.
use memleax.Prelude.{
  ◌^◌, ◌⊎◌, arith, get_elem?, ltb, ◌≤◌, Bool, Option, length, ◌<◌, List, some, ℕ, ◌≡◌,
}
use memleax.Search.Bisect.{strict-IsOrdered, IsOrdered, Answer, hit, miss, binary_search-Answer}
use memleax.AddrMaps.{AddrMap, addr_maps_search, unknown_map, map_name}

-- The maps as /proc lists them: by address, and apart.
abbrev pub MapsApart : List AddrMap → Type 0
MapsApart maps =
    (i j : ℕ) (x y : AddrMap)
    → i < j
    → get_elem? maps i ≡ some x
    → get_elem? maps j ≡ some y
    → (x.start ≤ x.end) × (x.end ≤ y.start) × (y.start ≤ y.end)

-- The name of a map with the address between its bounds, both of them included, or "??" when no
-- map has it.
pub data Located (maps : List AddrMap) (address : ℕ) : Option (List ℕ) → Type 0 where
  in_map :
      (i : ℕ) (am : AddrMap)
      → get_elem? maps i ≡ some am
      → am.start ≤ address
      → address ≤ am.end
      → Located maps address (some am.name)
  nowhere :
      ((i : ℕ) (am : AddrMap)
        → get_elem? maps i ≡ some am
        → (address < am.start) ⊎ (am.end < address))
      → Located maps address (some unknown_map)

module _ (maps : List AddrMap) (address : ℕ) (apart : MapsApart maps) where
  below : AddrMap → Bool
  below am = ltb address am.start

  above : AddrMap → Bool
  above am = ltb am.end address

  maps-IsOrdered : IsOrdered below above maps
  unfolding below above
  maps-IsOrdered =
      strict-IsOrdered _ _ maps (λ i j x y h at at' b. ground (arith, apart i j x y h at at'))
        (λ i j x y h at at' b. ground (arith, apart i j x y h at at'))

  named-Located :
      (r : Option (Option AddrMap)) → Answer below above maps r → Located maps address (map_name r)
  unfolding below above
  named-Located r (hit i x at b a) = in_map i x at (ground arith) (ground arith)
  named-Located r (miss out) = nowhere (λ i am at. ground (arith, out i am at))

  -- When the maps are apart and in order, and no more than 2 ^ 30, the search for an address ends,
  -- neither overflows nor reads outside the array, and gives the name of a map with the address
  -- between its bounds, or "??" if there is none.
  pub addr_maps_search-Located :
      length maps ≤ 2 ^ 30 → Located maps address (addr_maps_search maps address)
  unfolding addr_maps_search below above
  addr_maps_search-Located small =
      named-Located _ (binary_search-Answer below above maps maps-IsOrdered small)
