-- ===== src/DebugLine.antt =====
-- debug_line.c with libdw: the lookup of the source line of an address. A line is what
-- dwarf_lineaddr, dwarf_lineno and dwarf_linesrc answer for it.
pub mod Lines
pub mod Units
pub mod Build
pub mod Libdwarf
pub mod Agreement
pub mod Built
pub mod Lookup
use memleax.Prelude.{ℕ, Option, none, some, List, [], ◌∷◌, ltb, add64, int_of}
use memleax.Search.{binary_search}

pub record DwarfLine : Type 0 where
  pub lineaddr : ℕ
  pub lineno : ℕ
  pub linesrc : List ℕ

-- `struct dwarf_die_s`; `dw_line_nr` is the length of the lines.
pub record DwarfDie : Type 0 where
  pub start : ℕ
  pub end : ℕ
  pub offset : ℕ
  pub dw_lines : List DwarfLine

-- The lines at `mid` and `mid + 1`, for each `mid` up to `dw_line_nr - 2`.
abbrev pub line_pairs : List DwarfLine → List (DwarfLine × DwarfLine)
line_pairs [] = []
line_pairs (a ∷ []) = []
line_pairs (a ∷ b ∷ rest) = (a, b) ∷ line_pairs (b ∷ rest)

abbrev pub line_of : Option (Option (DwarfLine × DwarfLine)) → Option (Option (List ℕ × ℕ))
line_of none = none
line_of (some none) = some none
line_of (some (some (line1, line2))) = some (some (line1.linesrc, int_of line1.lineno))

unfoldable pub debug_line_search_dwdie : DwarfDie → ℕ → Option (Option (List ℕ × ℕ))
unfolding binary_search
debug_line_search_dwdie dd address = line_of (
    binary_search (λ (p : DwarfLine × DwarfLine). ltb address (add64 p.0.lineaddr dd.offset))
      (λ (p : DwarfLine × DwarfLine). ltb (add64 p.1.lineaddr dd.offset) address)
      (line_pairs dd.dw_lines))

abbrev pub in_die : ℕ → Option (Option DwarfDie) → Option (Option (List ℕ × ℕ))
in_die address none = none
in_die address (some none) = some none
in_die address (some (some dd)) = debug_line_search_dwdie dd address

-- The source file and the line number, NULL, or a fault of a search.
unfoldable pub debug_line_search : List DwarfDie → ℕ → Option (Option (List ℕ × ℕ))
unfolding binary_search debug_line_search_dwdie
debug_line_search dies address = in_die address (
    binary_search (λ (dd : DwarfDie). ltb address dd.start) (λ (dd : DwarfDie). ltb dd.end address)
      dies)
