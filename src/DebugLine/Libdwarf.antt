-- ===== src/DebugLine/Libdwarf.antt =====
-- debug_line.c with libdwarf, which goes through the units in its own way and cuts the directory of a unit off
-- the names of its files. What the library answers is a parameter.
use memleax.Prelude.{
  get_elem?, ◌-◌, add32, zero, ◌+◌, add64, length, ◌∷◌, int_of, ltb, minus_one, suc, List, Option,
  [], ℕ, none, some,
}
use memleax.Search.{binary_search}
use memleax.DebugLine.{DwarfLine, DwarfDie, line_pairs}

-- A unit: `dwarf_siblingof` or `dwarf_srclines` fails, there is no entry for its lines, or the lines with the
-- directory of compilation, if there is one.
pub data LibdwarfUnit : Type 0 where
  no_sibling : LibdwarfUnit
  lines_error : LibdwarfUnit
  no_entry : LibdwarfUnit
  srclines : List DwarfLine → Option (List ℕ) → LibdwarfUnit

-- `struct dwarf_die_s` of this variant.
pub record LibdwarfDie : Type 0 where
  pub die : DwarfDie
  pub comp_dir_len : ℕ

-- `dir ? strlen(dir) + 1 : 0`
abbrev pub comp_dir_len_of : Option (List ℕ) → ℕ
comp_dir_len_of none = 0
comp_dir_len_of (some dir) = int_of (length dir + 1)

-- The address of `linebuf[i]`.
abbrev pub lineaddr_at : List DwarfLine → ℕ → ℕ
lineaddr_at linebuf i = elim (get_elem? linebuf i) [ none ↦ 0 | some line ↦ line.lineaddr ]

-- The unit that is pushed for the lines, of which there are some.
abbrev pub libdwarf_die_of : ℕ → List DwarfLine → DwarfDie
libdwarf_die_of offset linebuf = record {
  start = add64 (lineaddr_at linebuf 0) offset;
  end = add64 (lineaddr_at linebuf (length linebuf - 1)) offset;
  offset = offset;
  dw_lines = linebuf;
}

-- An error ends the loop with -1; the units that were pushed stay.
abbrev pub next_cu_loop : ℕ → ℕ → List LibdwarfUnit → ℕ × List LibdwarfDie
next_cu_loop offset count [] = (count, [])
next_cu_loop offset count (no_sibling ∷ rest) = (minus_one, [])
next_cu_loop offset count (lines_error ∷ rest) = (minus_one, [])
next_cu_loop offset count (no_entry ∷ rest) = next_cu_loop offset count rest
next_cu_loop offset count (srclines [] dir ∷ rest) = next_cu_loop offset count rest
next_cu_loop offset count (srclines (first ∷ lines) dir ∷ rest) =
    let (total, dies) = next_cu_loop offset (add32 count 1) rest in
    let here : LibdwarfDie = record {
      die = libdwarf_die_of offset (first ∷ lines);
      comp_dir_len = comp_dir_len_of dir;
    } in
    (total, here ∷ dies)

-- `none` where `dwarf_init` fails.
abbrev pub libdwarf_build_dwarf : Option (List LibdwarfUnit) → ℕ → ℕ × List LibdwarfDie
libdwarf_build_dwarf none offset = (minus_one, [])
libdwarf_build_dwarf (some units) offset = next_cu_loop offset 0 units

-- `filename + dd->comp_dir_len`: `none` behind the end of the name.
abbrev pub cut : ℕ → List ℕ → Option (List ℕ)
cut zero filename = some filename
cut (suc n) [] = none
cut (suc n) (c ∷ filename) = cut n filename

abbrev pub cut_line : ℕ → Option (Option (DwarfLine × DwarfLine)) → Option (Option (List ℕ × ℕ))
cut_line comp_dir_len none = none
cut_line comp_dir_len (some none) = some none
cut_line comp_dir_len (some (some (line1, line2))) = elim (cut comp_dir_len line1.linesrc) [
  | none ↦ none
  | some name ↦ some (some (name, int_of line1.lineno))
]

unfoldable pub libdwarf_search_dwdie : LibdwarfDie → ℕ → Option (Option (List ℕ × ℕ))
unfolding binary_search
libdwarf_search_dwdie dd address = cut_line dd.comp_dir_len (
    binary_search (λ (p : DwarfLine × DwarfLine). ltb address (add64 p.0.lineaddr dd.die.offset))
      (λ (p : DwarfLine × DwarfLine). ltb (add64 p.1.lineaddr dd.die.offset) address)
      (line_pairs dd.die.dw_lines))
