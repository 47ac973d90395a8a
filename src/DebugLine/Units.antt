-- ===== src/DebugLine/Units.antt =====
-- The whole lookup of a source line: the unit that has the address, and the line in it.
use memleax.Prelude.{
  ◌^◌, ◌⊎◌, get_elem?, ltb, ◌≤◌, Bool, Option, arith, length, ◌<◌, List, ℕ, ◌≡◌, some, none,
}
use memleax.Search.Bisect.{strict-IsOrdered, IsOrdered, Answer, hit, miss, binary_search-Answer}
use memleax.DebugLine.{DwarfDie, debug_line_search, in_die}
use memleax.DebugLine.Lines.{LinesInOrder, LineAt, debug_line_search_dwdie-LineAt}

-- The units are in order and apart, and the lines of each are in order.
pub record UnitsInOrder (dies : List DwarfDie) : Type 0 where
  pub apart :
      (i j : ℕ) (x y : DwarfDie)
      → i < j
      → get_elem? dies i ≡ some x
      → get_elem? dies j ≡ some y
      → (x.start ≤ x.end) × (x.end ≤ y.start) × (y.start ≤ y.end)
  pub lines : (i : ℕ) (x : DwarfDie) → get_elem? dies i ≡ some x → LinesInOrder x
  pub few : (i : ℕ) (x : DwarfDie) → get_elem? dies i ≡ some x → length x.dw_lines ≤ 2 ^ 30

-- What the search in a unit around the address may answer, or NULL when there is no such unit.
pub data SourceAt (dies : List DwarfDie) (address : ℕ) : Option (Option (List ℕ × ℕ)) → Type 0 where
  in_unit :
      (i : ℕ) (dd : DwarfDie) (r : Option (Option (List ℕ × ℕ)))
      → get_elem? dies i ≡ some dd
      → dd.start ≤ address
      → address ≤ dd.end
      → LineAt dd address r
      → SourceAt dies address r
  no_unit :
      ((i : ℕ) (dd : DwarfDie)
        → get_elem? dies i ≡ some dd
        → (address < dd.start) ⊎ (dd.end < address))
      → SourceAt dies address (some none)

module _ (dies : List DwarfDie) (address : ℕ) (in_order : UnitsInOrder dies) where
  below : DwarfDie → Bool
  below dd = ltb address dd.start

  above : DwarfDie → Bool
  above dd = ltb dd.end address

  units-IsOrdered : IsOrdered below above dies
  unfolding below above
  units-IsOrdered =
      strict-IsOrdered _ _ dies
        (λ i j x y h at at' b. ground (arith, in_order.apart i j x y h at at'))
        (λ i j x y h at at' b. ground (arith, in_order.apart i j x y h at at'))

  in_die-SourceAt :
      (r : Option (Option DwarfDie))
      → Answer below above dies r
      → SourceAt dies address (in_die address r)
  unfolding below above
  in_die-SourceAt r (hit i dd at b a) =
      in_unit i dd _ at (ground arith) (ground arith)
        (debug_line_search_dwdie-LineAt dd address (in_order.lines i dd at) (in_order.few i dd at))
  in_die-SourceAt r (miss out) = no_unit (λ i dd at. ground (arith, out i dd at))

  -- When the units and their lines are in order, and no more than 2 ^ 30 each, the search for the
  -- source of an address ends, neither overflows nor reads outside an array, and gives what the
  -- search gives in a unit with the address between its bounds, or NULL if there is no such unit.
  pub debug_line_search-SourceAt :
      length dies ≤ 2 ^ 30 → SourceAt dies address (debug_line_search dies address)
  unfolding debug_line_search below above
  debug_line_search-SourceAt small =
      in_die-SourceAt _ (binary_search-Answer below above dies units-IsOrdered small)
