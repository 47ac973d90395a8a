-- ===== src/DebugLine/Agreement.antt =====
-- The two variants of debug_line.c agree up to the first error that libdwarf reports, and up to the directory of compilation.
use memleax.Prelude.{
  true, false, ◌||◌, if◌then◌else◌, minus_one, ◌∙◌, add64, ltb, Bool, arith, add32, ◌-◌, ap, ◌^◌,
  ◌<◌, ◌∷◌, ◌≡◌, Option, length, map, suc, ◌++◌, List, [], ℕ, refl, none, some,
}
use memleax.Search.{binary_search}
use memleax.Search.Image.{image, binary_search-map}
use memleax.DebugLine.{DwarfLine, DwarfDie, line_pairs, line_of, debug_line_search_dwdie}
use memleax.DebugLine.Build.{LibdwUnit, nextcu_loop, debug_line_build_dwarf}
use memleax.DebugLine.Built.{spanning, die_of_lem}
use memleax.DebugLine.Libdwarf.{
  LibdwarfUnit, no_sibling, lines_error, no_entry, srclines, LibdwarfDie, comp_dir_len_of,
  next_cu_loop, libdwarf_build_dwarf, cut, cut_line, libdwarf_search_dwdie,
}

-- What libdw gives of the same unit: no lines where libdwarf has no entry for them.
abbrev pub libdw_unit : LibdwarfUnit → LibdwUnit
libdw_unit (srclines lines dir) = some lines
libdw_unit _ = some []

-- Whether libdwarf reports an error for a unit.
abbrev pub has_error : LibdwarfUnit → Bool
has_error no_sibling = true
has_error lines_error = true
has_error no_entry = false
has_error (srclines lines dir) = false

abbrev pub fails : List LibdwarfUnit → Bool
fails [] = false
fails (u ∷ rest) = has_error u || fails rest

-- The units before the first error.
abbrev pub before_error : List LibdwarfUnit → List LibdwarfUnit
before_error [] = []
before_error (u ∷ rest) = let later = before_error rest in if has_error u then [] else u ∷ later

-- The count and the units, without what only libdwarf's variant keeps.
abbrev pub plain : ℕ × List LibdwarfDie → ℕ × List DwarfDie
plain (count, dies) = (count, map (λ (d : LibdwarfDie). d.die) dies)

-- A result, but with -1 for the count after an error.
abbrev pub failing : Bool → ℕ × List DwarfDie → ℕ × List DwarfDie
failing error (count, dies) = (if error then minus_one else count, dies)

next_cu_loop_lem :
    (offset count : ℕ) (units : List LibdwarfUnit)
    → plain (next_cu_loop offset count units)
      ≡ failing (fails units) (nextcu_loop offset count (map libdw_unit (before_error units)))
next_cu_loop_lem offset count [] = refl
next_cu_loop_lem offset count (no_sibling ∷ rest) = refl
next_cu_loop_lem offset count (lines_error ∷ rest) = refl
next_cu_loop_lem offset count (no_entry ∷ rest) = next_cu_loop_lem offset count rest
next_cu_loop_lem offset count (srclines [] dir ∷ rest) = next_cu_loop_lem offset count rest
next_cu_loop_lem offset count (srclines (first ∷ lines) dir ∷ rest) =
    rw (die_of_lem offset first lines) (
      ap (λ (p : ℕ × List DwarfDie). (p.0, spanning offset (first ∷ lines) ∷ p.1))
        (next_cu_loop_lem offset (add32 count 1) rest))

-- Both libraries give the same lines of each unit. Then the variant for libdwarf pushes, of the units before the first
-- one with an error, what the variant for libdw pushes of them: units with the same bounds, offsets
-- and lines, in the same order. It returns the same count where no unit has an error, and -1 where
-- one has, though those units stay pushed.
pub libdwarf_build_dwarf-debug_line_build_dwarf :
    (offset : ℕ) (units : List LibdwarfUnit)
    → plain (libdwarf_build_dwarf (some units) offset)
      ≡ failing
          (fails units)
          (debug_line_build_dwarf (some (map libdw_unit (before_error units))) offset)
libdwarf_build_dwarf-debug_line_build_dwarf offset units = next_cu_loop_lem offset 0 units

-- A line whose file stands in a directory.
abbrev pub within : List ℕ → DwarfLine → DwarfLine
within dir line = record line { linesrc = dir ++ b'/' ∷ line.linesrc }

abbrev within_both : List ℕ → DwarfLine × DwarfLine → DwarfLine × DwarfLine
within_both dir (line1, line2) = (within dir line1, within dir line2)

line_pairs-within :
    (dir : List ℕ) (lines : List DwarfLine)
    → line_pairs (map (within dir) lines) ≡ map (within_both dir) (line_pairs lines)
line_pairs-within dir [] = refl
line_pairs-within dir (a ∷ []) = refl
line_pairs-within dir (a ∷ b ∷ rest) =
    ap (λ l. (within dir a, within dir b) ∷ l) (line_pairs-within dir (b ∷ rest))

cut-within : (dir name : List ℕ) → cut (suc (length dir)) (dir ++ b'/' ∷ name) ≡ some name
cut-within [] name = refl
cut-within (c ∷ dir) name = cut-within dir name

cut_line-image :
    (dir : List ℕ) (r : Option (Option (DwarfLine × DwarfLine)))
    → cut_line (suc (length dir)) (image (within_both dir) r) ≡ line_of r
cut_line-image dir none = refl
cut_line-image dir (some none) = refl
cut_line-image dir (some (some (line1, line2))) = rw (cut_line, cut-within dir line1.linesrc) refl

-- The files of all lines of a unit stand in its directory of compilation, whose length fits an int. Then
-- the search in the unit with libdwarf answers what the one with libdw answers where the names are relative
-- to this directory.
pub libdwarf_search_dwdie-within :
    (dir : List ℕ) (dd : DwarfDie) (address : ℕ)
    → length dir < 2 ^ 31 - 1
    → libdwarf_search_dwdie
        (record {
          die = record dd { dw_lines = map (within dir) dd.dw_lines };
          comp_dir_len = comp_dir_len_of (some dir);
        })
        address
      ≡ debug_line_search_dwdie dd address
unfolding libdwarf_search_dwdie debug_line_search_dwdie
libdwarf_search_dwdie-within dir dd address fits =
    let len : comp_dir_len_of (some dir) ≡ suc (length dir) = omega arith in
    let below : DwarfLine × DwarfLine → Bool = λ p. ltb address (add64 p.0.lineaddr dd.offset) in
    let above : DwarfLine × DwarfLine → Bool = λ p. ltb (add64 p.1.lineaddr dd.offset) address in
    let pairs = line_pairs dd.dw_lines in
    ap (λ n. cut_line n (binary_search below above (line_pairs (map (within dir) dd.dw_lines)))) len
    ∙ ap (λ l. cut_line (suc (length dir)) (binary_search below above l))
        (line_pairs-within dir dd.dw_lines)
    ∙ ap (cut_line (suc (length dir))) (binary_search-map (within_both dir) below above pairs)
    ∙ cut_line-image dir (binary_search below above pairs)
