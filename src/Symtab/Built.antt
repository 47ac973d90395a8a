-- ===== src/Symtab/Built.antt =====
-- What symtab_build_file finds in a file: the functions of its symbol tables.
use mathlib.Core.List.{map-append}
use memleax.Prelude.{
  Bool, ltb, not, ◌&&◌, ◌-◌, minus_one, length-map, sym, length-append, ◌∙◌, Option-cases, inr, inl,
  Bool-cases, add32, arith, ap, ◌||◌, map, none, ◌+◌, some, ◌%◌, ◌++◌, ◌==◌, ◌^◌, [], if◌then◌else◌,
  length, ◌<◌, ◌∷◌, List, Option, ◌≡◌, ℕ, refl,
}
use memleax.ProcInfo.{Map}
use memleax.DebugFile.First.{Counts, failed, counted}
use memleax.Symtab.{Symbol}
use memleax.Symtab.Build.{
  ProgramHeader, ElfSymbol, is_skipped, ElfSection, Elf, Elfs, sht_symtab, sht_dynsym, et_dyn,
  symbol_of, getsym_loop, data_loop, symtab_build_section, nextscn_loop, symtab_elf_base,
  symtab_build_file, load_symbols,
}

-- A symbol that names a function of the file: defined in it, with an address and a size.
abbrev pub is_function : ElfSymbol → Bool
is_function esym =
    esym.st_type == 2
    && ltb 0 esym.st_value
    && ltb 0 esym.st_size
    && ltb 0 esym.st_shndx
    && not (esym.st_bind == 3)

-- Where a symbol stands when the first loaded segment of its file is moved from `base` to `start`, modulo
-- the size of the memory.
abbrev pub moved : ℕ → ℕ → ElfSymbol → Symbol
moved start base esym = record {
  address = (esym.st_value + start + (2 ^ 64 - base % 2 ^ 64)) % 2 ^ 64;
  size = esym.st_size;
  weak = esym.st_bind == 2;
  name = esym.st_name;
}

-- The addresses of the segments that are loaded, and the first of them, or 0.
abbrev pub loaded : List ProgramHeader → List ℕ
loaded [] = []
loaded (header ∷ rest) =
    let later = loaded rest in if header.p_type == 1 then header.p_vaddr ∷ later else later

abbrev pub first_or_zero : List ℕ → ℕ
first_or_zero [] = 0
first_or_zero (a ∷ rest) = a

abbrev pub base_of : Elf → ℕ
base_of elf = first_or_zero (loaded elf.program_headers)

is_skipped_lem : (esym : ElfSymbol) → is_skipped esym ≡ not (is_function esym)
is_skipped_lem esym = ground arith

place_lem : (start base : ℕ) (esym : ElfSymbol) → symbol_of start base esym ≡ moved start base esym
place_lem start base esym =
    ap
      (λ (a : ℕ). record {
        address = a;
        size = esym.st_size;
        weak = esym.st_bind == 2;
        name = esym.st_name;
      })
      (omega arith)

symbol_of_lem : (start base : ℕ) → symbol_of start base ≡ moved start base
symbol_of_lem start base = λ i esym. place_lem start base esym i

elf_base_lem :
    (headers : List ProgramHeader) → symtab_elf_base headers ≡ first_or_zero (loaded headers)
elf_base_lem [] = refl
elf_base_lem (header ∷ rest) = elim (Bool-cases (header.p_type == 1)) [
  | inl e ↦ rw (symtab_elf_base, loaded, e) refl
  | inr e ↦ rw (symtab_elf_base, loaded, e) (elf_base_lem rest)
]

-- The symbols that name functions.
abbrev pub functions : List ElfSymbol → List ElfSymbol
functions [] = []
functions (esym ∷ rest) =
    let later = functions rest in if is_function esym then esym ∷ later else later

abbrev pub functions_of : Option (List ElfSymbol) → List ElfSymbol
functions_of none = []
functions_of (some esyms) = functions esyms

-- Those of the two kinds of symbol tables.
abbrev pub section_functions : ElfSection → List ElfSymbol
section_functions section = elim section.sh_type [
  | none ↦ []
  | some sh_type ↦ if sh_type == 2 || sh_type == 11 then functions_of section.data_symbols else []
]

abbrev pub all_functions : List ElfSection → List ElfSymbol
all_functions [] = []
all_functions (section ∷ rest) = section_functions section ++ all_functions rest

-- Where a map has the symbols of a file: those of a library are moved to the map.
abbrev pub elf_symbols : Map → Elf → List Symbol
elf_symbols m elf =
    if elf.e_type == 3
    then map (moved m.start (base_of elf)) (all_functions elf.sections)
    else map (moved 0 0) (all_functions elf.sections)

abbrev pub symbols_in : Elfs → Map → List ℕ → List Symbol
symbols_in elfs m path = elim (elfs path) [ none ↦ [] | some elf ↦ elf_symbols m elf ]

module _ (offset base_addr : ℕ) where
  getsym_loop_lem :
      (count : ℕ) (esyms : List ElfSymbol)
      → count < 2 ^ 32
      → getsym_loop offset base_addr count esyms ≡ (
        (count + length (functions esyms)) % 2 ^ 32,
        map (symbol_of offset base_addr) (functions esyms),
      )
  getsym_loop_lem count [] small = ap (λ n. (n, [])) (omega arith)
  getsym_loop_lem count (esym ∷ rest) small = elim (Bool-cases (is_function esym)) [
    | inr e ↦ rw (getsym_loop, is_skipped_lem esym, e) (getsym_loop_lem count rest small)
    | inl e ↦
        rw (getsym_loop, is_skipped_lem esym, e, getsym_loop_lem (add32 count 1) rest (omega arith))
          (ap
            (λ n. (
              n,
              symbol_of offset base_addr esym ∷ map (symbol_of offset base_addr) (functions rest),
            ))
            (omega arith))
  ]

  data_lem :
      (data_symbols : Option (List ElfSymbol))
      → data_loop offset base_addr data_symbols ≡ (
        length (functions_of data_symbols) % 2 ^ 32,
        map (symbol_of offset base_addr) (functions_of data_symbols),
      )
  data_lem none = refl
  data_lem (some esyms) =
      getsym_loop_lem 0 esyms (omega arith)
      ∙ ap (λ n. (n, map (symbol_of offset base_addr) (functions esyms))) (omega arith)

  section_lem :
      (section : ElfSection)
      → symtab_build_section offset base_addr section ≡ (
        length (section_functions section) % 2 ^ 32,
        map (symbol_of offset base_addr) (section_functions section),
      )
  unfolding symtab_build_section
  section_lem section = elim (Option-cases section.sh_type) [
    | inl e ↦ rw e refl
    | inr (t, e) ↦ rw e (elim (Bool-cases (t == sht_symtab)) [
      | inl e' ↦ rw e' (data_lem section.data_symbols)
      | inr e' ↦ rw e' (elim (Bool-cases (t == sht_dynsym)) [
        | inl e'' ↦ rw e'' (data_lem section.data_symbols)
        | inr e'' ↦ rw e'' refl
      ])
    ])
  ]

  nextscn_loop_lem :
      (count : ℕ) (sections : List ElfSection)
      → count < 2 ^ 32
      → nextscn_loop offset base_addr count sections ≡ (
        (count + length (all_functions sections)) % 2 ^ 32,
        map (symbol_of offset base_addr) (all_functions sections),
      )
  unfolding nextscn_loop
  nextscn_loop_lem count [] small = ap (λ n. (n, [])) (omega arith)
  nextscn_loop_lem count (section ∷ rest) small =
      let here = length (section_functions section) in
      let whole : (add32 count (here % 2 ^ 32) + length (all_functions rest)) % 2 ^ 32
          ≡ (count + length (all_functions (section ∷ rest))) % 2 ^ 32 =
        omega (arith, length-append (section_functions section) (all_functions rest)) in
      rw
        (
          nextscn_loop,
          section_lem section,
          nextscn_loop_lem (add32 count (here % 2 ^ 32)) rest (omega arith),
        )
        (λ i. (
          whole i,
          sym
              (map-append (symbol_of offset base_addr) (section_functions section)
                (all_functions rest))
              i,
        ))

  file_lem :
      (sections : List ElfSection)
      → nextscn_loop offset base_addr 0 sections ≡ (
        length (map (symbol_of offset base_addr) (all_functions sections)) % 2 ^ 32,
        map (symbol_of offset base_addr) (all_functions sections),
      )
  file_lem sections =
      let same : (0 + length (all_functions sections)) % 2 ^ 32
          ≡ length (map (symbol_of offset base_addr) (all_functions sections)) % 2 ^ 32 =
        omega (arith, length-map (symbol_of offset base_addr) (all_functions sections)) in
      nextscn_loop_lem 0 sections (omega arith)
      ∙ (λ i. (same i, map (symbol_of offset base_addr) (all_functions sections)))

-- A file that libelf accepts: its symbols, and their number as the count.
build_file_lem :
    (elfs : Elfs) (m : Map) (path : List ℕ) (elf : Elf)
    → elfs path ≡ some elf
    → load_symbols elfs m path ≡ (length (elf_symbols m elf) % 2 ^ 32, elf_symbols m elf)
unfolding symtab_build_file
build_file_lem elfs m path elf e = elim (Bool-cases (elf.e_type == et_dyn)) [
  | inl d ↦
      rw (load_symbols, symtab_build_file, e, d)
        (rw (elf_base_lem elf.program_headers, ← symbol_of_lem m.start (base_of elf))
          (file_lem m.start (base_of elf) elf.sections))
  | inr d ↦
      rw (load_symbols, symtab_build_file, e, d)
        (rw (← symbol_of_lem 0 0) (file_lem 0 0 elf.sections))
]

-- What symtab_build_file returns and pushes for a file.
pub load_symbols-Counts :
    (elfs : Elfs) (m : Map) (path : List ℕ)
    → Counts (symbols_in elfs m path) (load_symbols elfs m path)
unfolding symtab_build_file
load_symbols-Counts elfs m path = elim (Option-cases (elfs path)) [
  | inl e ↦ rw (load_symbols, symbols_in, symtab_build_file, e) (failed minus_one refl refl)
  | inr (elf, e) ↦
      let all : symbols_in elfs m path ≡ elf_symbols m elf = rw (symbols_in, e) refl in
      rw (build_file_lem elfs m path elf e, all) counted
]
