-- ===== src/DebugLine/Build.antt =====
-- debug_line.c, the building of the units, with libdw. What the library gives of a file is a parameter.
use memleax.Prelude.{
  add32, none, [], some, add64, ltb, minus_one, ◌==◌, ◌∷◌, List, Option, if◌then◌else◌, ℕ,
}
use memleax.Sort.{Qsort}
use memleax.ProcInfo.{Proc, Map}
use memleax.DebugFile.{Files}
use memleax.DebugFile.Loading.{load_maps}
use memleax.DebugLine.{DwarfLine, DwarfDie}

-- A unit: `none` where `dwarf_offdie` gives NULL, or the lines of `dwarf_getsrclines`.
abbrev pub LibdwUnit : Type 0
LibdwUnit = Option (List DwarfLine)

abbrev pub last_line : DwarfLine → List DwarfLine → DwarfLine
last_line line [] = line
last_line line (next ∷ rest) = last_line next rest

-- The unit that is pushed for the lines, of which there is a first.
abbrev pub die_of : ℕ → DwarfLine → List DwarfLine → DwarfDie
die_of offset first rest = record {
  start = add64 first.lineaddr offset;
  end = add64 (last_line first rest).lineaddr offset;
  offset = offset;
  dw_lines = first ∷ rest;
}

-- The loop, from a count on: the count at its end and the units that it pushes.
abbrev pub nextcu_loop : ℕ → ℕ → List LibdwUnit → ℕ × List DwarfDie
nextcu_loop offset count [] = (count, [])
nextcu_loop offset count (none ∷ rest) = nextcu_loop offset count rest
nextcu_loop offset count (some [] ∷ rest) = nextcu_loop offset count rest
nextcu_loop offset count (some (first ∷ lines) ∷ rest) =
    let (total, dies) = nextcu_loop offset (add32 count 1) rest in
    (total, die_of offset first lines ∷ dies)

-- `none` where `dwarf_begin` gives NULL.
abbrev pub debug_line_build_dwarf : Option (List LibdwUnit) → ℕ → ℕ × List DwarfDie
debug_line_build_dwarf none offset = (minus_one, [])
debug_line_build_dwarf (some units) offset = nextcu_loop offset 0 units

abbrev pub et_exec : ℕ
et_exec = 2

-- A file that `open` and `elf_begin` accept: the type in its header, and what the library of the debug
-- information answers for it.
pub record DebugElf (D : Type 0) : Type 0 where
  pub e_type : ℕ
  pub dwarf : D

-- An executable stands at its own addresses.
abbrev pub file_offset : {D : Type 0} → DebugElf D → ℕ → ℕ
file_offset elf start = if elf.e_type == et_exec then 0 else start

-- With either library, whose `debug_line_build_dwarf` is `build_dwarf`.
module _ {D A : Type 0} (build_dwarf : D → ℕ → ℕ × List A)
    (elfs : List ℕ → Option (DebugElf D)) where
  abbrev pub debug_line_build_file : List ℕ → ℕ → ℕ → ℕ × List A
  debug_line_build_file path start end = elim (elfs path) [
    | none ↦ (minus_one, [])
    | some elf ↦ build_dwarf elf.dwarf (file_offset elf start)
  ]

  abbrev pub load_dies : Map → List ℕ → ℕ × List A
  load_dies m path = debug_line_build_file path m.start m.end

abbrev pub dwarf_die_cmp : DwarfDie → DwarfDie → ℕ
dwarf_die_cmp dda ddb = if ltb dda.start ddb.start then minus_one else 1

-- `none`: memleax exits or faults, or the fuel does not suffice; the allocations succeed.
unfoldable pub debug_line_build :
    Qsort DwarfDie
    → (List ℕ → Option (DebugElf (Option (List LibdwUnit))))
    → Files
    → Option (List ℕ)
    → ℕ
    → Proc
    → Option (List DwarfDie)
unfolding load_maps
debug_line_build qsort elfs files opt fuel proc =
    elim (load_maps files opt (load_dies debug_line_build_dwarf elfs) fuel proc) [
      | none ↦ none
      | some dies ↦ some (qsort dwarf_die_cmp dies)
    ]
