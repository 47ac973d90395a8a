-- ===== src/DebugLine/Built.antt =====
-- What debug_line_build_file finds in a file: the units that have lines.
use memleax.Prelude.{
  subst, sym, ◌-◌, add32, ap, inr, minus_one, ◌+◌, ◌∙◌, arith, inl, ◌%◌, ◌^◌, ◌∷◌, All,
  Option-cases, [], get_elem?, length, ◌<◌, ◌≡◌, List, Option, ◌≤◌, ℕ, refl, none, some,
}
use memleax.ProcInfo.{Map}
use memleax.DebugFile.First.{Counts, failed, counted}
use memleax.DebugLine.{DwarfLine, DwarfDie}
use memleax.DebugLine.Lines.{LinesInOrder}
use memleax.DebugLine.Build.{
  LibdwUnit, last_line, die_of, nextcu_loop, debug_line_build_dwarf, DebugElf, file_offset,
  debug_line_build_file, load_dies,
}

abbrev pub LibdwElf : Type 0
LibdwElf = DebugElf (Option (List LibdwUnit))

-- The address of a line of a unit, by its index.
abbrev pub address_at : List DwarfLine → ℕ → ℕ
address_at lines i = elim (get_elem? lines i) [ none ↦ 0 | some line ↦ line.lineaddr ]

-- A unit from its first line to its last, both moved by an offset modulo the size of the memory.
abbrev pub spanning : ℕ → List DwarfLine → DwarfDie
spanning offset lines = record {
  start = (address_at lines 0 + offset) % 2 ^ 64;
  end = (address_at lines (length lines - 1) + offset) % 2 ^ 64;
  offset = offset;
  dw_lines = lines;
}

last_line_lem :
    (first : DwarfLine) (lines : List DwarfLine)
    → get_elem? (first ∷ lines) (length lines) ≡ some (last_line first lines)
last_line_lem first [] = refl
last_line_lem first (next ∷ rest) = last_line_lem next rest

last_index :
    (first : DwarfLine) (lines : List DwarfLine)
    → get_elem? (first ∷ lines) (length (first ∷ lines) - 1) ≡ some (last_line first lines)
last_index first lines =
    let e : length (first ∷ lines) - 1 ≡ length lines = omega arith in
    ap (get_elem? (first ∷ lines)) e ∙ last_line_lem first lines

pub die_of_lem :
    (offset : ℕ) (first : DwarfLine) (lines : List DwarfLine)
    → die_of offset first lines ≡ spanning offset (first ∷ lines)
die_of_lem offset first lines =
    let last : address_at (first ∷ lines) (length (first ∷ lines) - 1)
        ≡ (last_line first lines).lineaddr =
      ap (λ (o : Option DwarfLine). elim o as (λ o'. ℕ) [ none ↦ 0 | some line ↦ line.lineaddr ])
        (last_index first lines) in
    sym (
      ap
        (λ (a : ℕ). record {
          start = (first.lineaddr + offset) % 2 ^ 64;
          end = (a + offset) % 2 ^ 64;
          offset = offset;
          dw_lines = first ∷ lines;
        })
        last)

-- The units with lines, moved by an offset.
abbrev pub units_at : ℕ → List LibdwUnit → List DwarfDie
units_at offset [] = []
units_at offset (none ∷ rest) = units_at offset rest
units_at offset (some [] ∷ rest) = units_at offset rest
units_at offset (some (first ∷ lines) ∷ rest) =
    spanning offset (first ∷ lines) ∷ units_at offset rest

abbrev pub elf_units : Map → LibdwElf → List DwarfDie
elf_units m elf = elim elf.dwarf [
  | none ↦ []
  | some units ↦ units_at (file_offset elf m.start) units
]

abbrev pub units_in : (List ℕ → Option LibdwElf) → Map → List ℕ → List DwarfDie
units_in elfs m path = elim (elfs path) [ none ↦ [] | some elf ↦ elf_units m elf ]

nextcu_loop_lem :
    (offset count : ℕ) (units : List LibdwUnit)
    → count < 2 ^ 32
    → nextcu_loop offset count units
      ≡ ((count + length (units_at offset units)) % 2 ^ 32, units_at offset units)
nextcu_loop_lem offset count [] small = ap (λ n. (n, [])) (omega arith)
nextcu_loop_lem offset count (none ∷ rest) small = nextcu_loop_lem offset count rest small
nextcu_loop_lem offset count (some [] ∷ rest) small = nextcu_loop_lem offset count rest small
nextcu_loop_lem offset count (some (first ∷ lines) ∷ rest) small =
    rw (nextcu_loop_lem offset (add32 count 1) rest (omega arith), die_of_lem offset first lines)
      (ap (λ n. (n, spanning offset (first ∷ lines) ∷ units_at offset rest)) (omega arith))

build_dwarf-Counts :
    (offset : ℕ) (units : List LibdwUnit)
    → Counts (units_at offset units) (debug_line_build_dwarf (some units) offset)
build_dwarf-Counts offset units =
    let dies = units_at offset units in
    let e : debug_line_build_dwarf (some units) offset ≡ (length dies % 2 ^ 32, dies) =
      nextcu_loop_lem offset 0 units (omega arith) ∙ ap (λ n. (n, dies)) (omega arith) in
    rw e counted

-- What debug_line_build_file returns and pushes for a file.
pub load_dies-Counts :
    (elfs : List ℕ → Option LibdwElf) (m : Map) (path : List ℕ)
    → Counts (units_in elfs m path) (load_dies debug_line_build_dwarf elfs m path)
load_dies-Counts elfs m path = elim (Option-cases (elfs path)) [
  | inl e ↦ rw (load_dies, debug_line_build_file, units_in, e) (failed minus_one refl refl)
  | inr (elf, e) ↦ elim (Option-cases elf.dwarf) [
    | inl e' ↦
        rw (load_dies, debug_line_build_file, units_in, elf_units, e, e')
          (failed minus_one refl refl)
    | inr (units, e') ↦
        rw (load_dies, debug_line_build_file, units_in, elf_units, e, e')
          (build_dwarf-Counts (file_offset elf m.start) units)
  ]
]

-- Where its lines are in order, a unit does not end before its start.
abbrev pub Bounded : DwarfDie → Type 0
Bounded dd = LinesInOrder dd → dd.start ≤ dd.end

die_of-Bounded :
    (offset : ℕ) (first : DwarfLine) (lines : List DwarfLine) → Bounded (die_of offset first lines)
die_of-Bounded offset first lines in_order =
    let (order, wrap) =
      in_order 0 (length lines) first (last_line first lines) (omega arith) refl
        (last_line_lem first lines) in
    ground (arith, order, wrap)

units_at-Bounded : (offset : ℕ) (units : List LibdwUnit) → All Bounded (units_at offset units)
units_at-Bounded offset [] = tt
units_at-Bounded offset (none ∷ rest) = units_at-Bounded offset rest
units_at-Bounded offset (some [] ∷ rest) = units_at-Bounded offset rest
units_at-Bounded offset (some (first ∷ lines) ∷ rest) = (
  subst Bounded (die_of_lem offset first lines) (die_of-Bounded offset first lines),
  units_at-Bounded offset rest,
)

pub units_in-Bounded :
    (elfs : List ℕ → Option LibdwElf) (m : Map) (path : List ℕ) → All Bounded (units_in elfs m path)
units_in-Bounded elfs m path = elim (Option-cases (elfs path)) [
  | inl e ↦ rw (units_in, e) tt
  | inr (elf, e) ↦ elim (Option-cases elf.dwarf) [
    | inl e' ↦ rw (units_in, elf_units, e, e') tt
    | inr (units, e') ↦
        rw (units_in, elf_units, e, e') (units_at-Bounded (file_offset elf m.start) units)
  ]
]
