-- ===== src/DebugLine/Lines.antt =====
-- The line that is found for an address is one of a unit and a pair of lines around it.
use memleax.Prelude.{
  add64, ltb, Bool, ap, zero, suc, ◌⊎◌, ◌^◌, ◌%◌, ◌<◌, arith, suc, ◌+◌, get_elem?, length, List,
  Option, ◌≤◌, ℕ, ◌≡◌, some, none, [], ◌∷◌,
}
use mathlib.Core.Option
use memleax.Search.Bisect.{strict-IsOrdered, IsOrdered, Answer, hit, miss, binary_search-Answer}
use memleax.DebugLine.{DwarfLine, DwarfDie, line_pairs, line_of, debug_line_search_dwdie}

abbrev Pair : Type 0
Pair = DwarfLine × DwarfLine

-- The lines of a unit by address, in the target's memory.
abbrev pub LinesInOrder : DwarfDie → Type 0
LinesInOrder dd =
    (i j : ℕ) (x y : DwarfLine)
    → i ≤ j
    → get_elem? dd.dw_lines i ≡ some x
    → get_elem? dd.dw_lines j ≡ some y
    → (x.lineaddr ≤ y.lineaddr) × (y.lineaddr + dd.offset < 2 ^ 64)

-- The answers of the search in a unit: the file and the line of the first of two neighbours with
-- the address between them, or NULL if there are none.
pub data LineAt (dd : DwarfDie) (address : ℕ) : Option (Option (List ℕ × ℕ)) → Type 0 where
  at_line :
      (i : ℕ) (x y : DwarfLine)
      → get_elem? dd.dw_lines i ≡ some x
      → get_elem? dd.dw_lines (suc i) ≡ some y
      → x.lineaddr + dd.offset ≤ address
      → address ≤ y.lineaddr + dd.offset
      → LineAt dd address (some (some (x.linesrc, x.lineno % 2 ^ 32)))
  no_line :
      ((i : ℕ) (x y : DwarfLine)
        → get_elem? dd.dw_lines i ≡ some x
        → get_elem? dd.dw_lines (suc i) ≡ some y
        → (address < x.lineaddr + dd.offset) ⊎ (y.lineaddr + dd.offset < address))
      → LineAt dd address (some none)

pair_at :
    (xs : List DwarfLine) (i : ℕ) (p : Pair)
    → get_elem? (line_pairs xs) i ≡ some p
    → (get_elem? xs i ≡ some p.0) × (get_elem? xs (suc i) ≡ some p.1)
pair_at [] i p e = ground arith
pair_at (a ∷ []) i p e = ground arith
pair_at (a ∷ b ∷ rest) zero p e =
    (ap (Option.map (λ (q : Pair). q.0)) e, ap (Option.map (λ (q : Pair). q.1)) e)
pair_at (a ∷ b ∷ rest) (suc i) p e = pair_at (b ∷ rest) i p e

abbrev both : Option DwarfLine → Option DwarfLine → Option Pair
both none b = none
both (some x) none = none
both (some x) (some y) = some (x, y)

at_pair :
    (xs : List DwarfLine) (i : ℕ) (x y : DwarfLine)
    → get_elem? xs i ≡ some x
    → get_elem? xs (suc i) ≡ some y
    → get_elem? (line_pairs xs) i ≡ some (x, y)
at_pair [] i x y e f = ground arith
at_pair (a ∷ []) i x y e f = ground arith
at_pair (a ∷ b ∷ rest) zero x y e f = λ k. both (e k) (f k)
at_pair (a ∷ b ∷ rest) (suc i) x y e f = at_pair (b ∷ rest) i x y e f

pub length-line_pairs : (xs : List DwarfLine) → length (line_pairs xs) ≤ length xs
length-line_pairs [] = omega arith
length-line_pairs (a ∷ []) = omega arith
length-line_pairs (a ∷ b ∷ rest) = omega (arith, length-line_pairs (b ∷ rest))

module _ (dd : DwarfDie) (address : ℕ) (in_order : LinesInOrder dd) where
  below : Pair → Bool
  below p = ltb address (add64 p.0.lineaddr dd.offset)

  above : Pair → Bool
  above p = ltb (add64 p.1.lineaddr dd.offset) address

  pairs-IsOrdered : IsOrdered below above (line_pairs dd.dw_lines)
  unfolding below above
  pairs-IsOrdered =
      strict-IsOrdered _ _ (line_pairs dd.dw_lines)
        (λ i j p q h at at' b.
          let (at₀, _) = pair_at dd.dw_lines i p at in
          let (at₁, _) = pair_at dd.dw_lines j q at' in
          ground (
            arith,
            in_order i j p.0 q.0 (omega arith) at₀ at₁,
            in_order i i p.0 p.0 (omega arith) at₀ at₀,
          ))
        (λ i j p q h at at' b.
          let (_, at₀) = pair_at dd.dw_lines i p at in
          let (_, at₁) = pair_at dd.dw_lines j q at' in
          ground (
            arith,
            in_order (suc i) (suc j) p.1 q.1 (omega arith) at₀ at₁,
            in_order (suc i) (suc i) p.1 p.1 (omega arith) at₀ at₀,
          ))

  line_of-LineAt :
      (r : Option (Option Pair))
      → Answer below above (line_pairs dd.dw_lines) r
      → LineAt dd address (line_of r)
  unfolding below above
  line_of-LineAt r (hit i (x, y) at b a) =
      let (at₀, at₁) = pair_at dd.dw_lines i (x, y) at in
      let (_, wrap) = in_order (suc i) (suc i) y y (omega arith) at₁ at₁ in
      let (_, wrap') = in_order i i x x (omega arith) at₀ at₀ in
      at_line i x y at₀ at₁ (ground arith) (ground arith)
  line_of-LineAt r (miss out) = no_line (λ i x y at₀ at₁.
      let (_, wrap) = in_order (suc i) (suc i) y y (omega arith) at₁ at₁ in
      let (_, wrap') = in_order i i x x (omega arith) at₀ at₀ in
      ground (arith, out i (x, y) (at_pair dd.dw_lines i x y at₀ at₁)))

  -- When the lines of a unit are in order, and no more than 2 ^ 30, the search in it ends, neither
  -- overflows nor reads a line that is not there, and gives the file and the number of a line that
  -- begins at or before the address and whose neighbour begins at or behind it, or NULL if no two
  -- neighbours are so.
  pub debug_line_search_dwdie-LineAt :
      length dd.dw_lines ≤ 2 ^ 30 → LineAt dd address (debug_line_search_dwdie dd address)
  unfolding debug_line_search_dwdie below above
  debug_line_search_dwdie-LineAt small = line_of-LineAt _ (
      binary_search-Answer below above (line_pairs dd.dw_lines) pairs-IsOrdered
        (omega (arith, small, length-line_pairs dd.dw_lines)))
