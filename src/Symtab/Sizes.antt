-- ===== src/Symtab/Sizes.antt =====
-- No symbol that symtab_build finds is empty.
use mathlib.Core.List.{map-append}
use memleax.Prelude.{
  ◌||◌, ◌==◌, Option-cases, sym, subst, All-append, none, some, arith, inr, inl, Bool-cases, [],
  map, All, ◌∷◌, List, Option, ◌<◌, ℕ,
}
use memleax.ProcInfo.{Map}
use memleax.Symtab.{Symbol}
use memleax.Symtab.Build.{ElfSymbol, ElfSection, Elfs}
use memleax.Symtab.Built.{
  is_function, moved, base_of, functions, functions_of, section_functions, all_functions,
  elf_symbols, symbols_in,
}

-- No symbol is empty.
abbrev pub HasSize : Symbol → Type 0
HasSize sym = 0 < sym.size

functions-HasSize :
    (offset base_addr : ℕ) (esyms : List ElfSymbol)
    → All HasSize (map (moved offset base_addr) (functions esyms))
functions-HasSize offset base_addr [] = tt
functions-HasSize offset base_addr (esym ∷ rest) = elim (Bool-cases (is_function esym)) [
  | inr e ↦ rw (functions, e) (functions-HasSize offset base_addr rest)
  | inl e ↦ rw (functions, e) (ground (arith, e), functions-HasSize offset base_addr rest)
]

all_functions-HasSize :
    (offset base_addr : ℕ) (sections : List ElfSection)
    → All HasSize (map (moved offset base_addr) (all_functions sections))
all_functions-HasSize offset base_addr [] = tt
all_functions-HasSize offset base_addr (section ∷ rest) =
    let place = moved offset base_addr in
    subst (All HasSize) (sym (map-append place (section_functions section) (all_functions rest))) (
      All-append HasSize (map place (section_functions section)) (map place (all_functions rest))
        (section-HasSize section) (all_functions-HasSize offset base_addr rest))
  where
    data-HasSize :
        (data_symbols : Option (List ElfSymbol))
        → All HasSize (map (moved offset base_addr) (functions_of data_symbols))
    data-HasSize none = tt
    data-HasSize (some esyms) = functions-HasSize offset base_addr esyms

    section-HasSize :
        (s : ElfSection) → All HasSize (map (moved offset base_addr) (section_functions s))
    section-HasSize s = elim (Option-cases s.sh_type) [
      | inl e ↦ rw (section_functions, e) tt
      | inr (t, e) ↦ elim (Bool-cases (t == 2 || t == 11)) [
        | inl e' ↦ rw (section_functions, e, e') (data-HasSize s.data_symbols)
        | inr e' ↦ rw (section_functions, e, e') tt
      ]
    ]

pub symbols_in-HasSize :
    (elfs : Elfs) (m : Map) (path : List ℕ) → All HasSize (symbols_in elfs m path)
symbols_in-HasSize elfs m path = elim (Option-cases (elfs path)) [
  | inl e ↦ rw (symbols_in, e) tt
  | inr (elf, e) ↦ elim (Bool-cases (elf.e_type == 3)) [
    | inl d ↦
        rw (symbols_in, e, elf_symbols, d)
          (all_functions-HasSize m.start (base_of elf) elf.sections)
    | inr d ↦ rw (symbols_in, e, elf_symbols, d) (all_functions-HasSize 0 0 elf.sections)
  ]
]
