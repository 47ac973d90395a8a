-- ===== src/Symtab/Build.antt =====
-- symtab.c, the building of the table. What libelf gives of a file is a parameter.
use memleax.Prelude.{
  true, false, ◌&&◌, none, not, ◌++◌, add32, minus_one, some, ◌||◌, [], ltb, sub64, ◌==◌, ◌∷◌, Bool,
  List, Option, add64, if◌then◌else◌, ℕ,
}
use memleax.Sort.{Qsort}
use memleax.ProcInfo.{Proc, Map}
use memleax.DebugFile.{Files}
use memleax.DebugFile.Loading.{load_maps}
use memleax.Symtab.{Symbol}

-- What the symbol table of an ELF file says of a symbol: `GElf_Sym`, its name taken out of the string
-- table, and the parts of `st_info`.
pub record ElfSymbol : Type 0 where
  pub st_value : ℕ
  pub st_size : ℕ
  pub st_shndx : ℕ
  pub st_bind : ℕ
  pub st_type : ℕ
  pub st_name : List ℕ

abbrev pub shn_undef : ℕ
shn_undef = 0

abbrev pub stb_weak : ℕ
stb_weak = 2

abbrev pub stb_num : ℕ
stb_num = 3

abbrev pub stt_func : ℕ
stt_func = 2

abbrev pub is_skipped : ElfSymbol → Bool
is_skipped esym =
    esym.st_value == 0
    || esym.st_size == 0
    || esym.st_shndx == shn_undef
    || esym.st_bind == stb_num
    || not (esym.st_type == stt_func)

-- `sh_type`, or `none` where `gelf_getshdr` fails; and the symbols of the data, `none` where there are none.
pub record ElfSection : Type 0 where
  pub sh_type : Option ℕ
  pub data_symbols : Option (List ElfSymbol)

-- `GElf_Phdr`
pub record ProgramHeader : Type 0 where
  pub p_type : ℕ
  pub p_vaddr : ℕ

-- A file that `open` and `elf_begin` accept.
pub record Elf : Type 0 where
  pub e_type : ℕ
  pub program_headers : List ProgramHeader
  pub sections : List ElfSection

abbrev pub Elfs : Type 0
Elfs = List ℕ → Option Elf

abbrev pub sht_symtab : ℕ
sht_symtab = 2

abbrev pub sht_dynsym : ℕ
sht_dynsym = 11

abbrev pub pt_load : ℕ
pt_load = 1

abbrev pub et_dyn : ℕ
et_dyn = 3

module _ (offset base_addr : ℕ) where
  abbrev pub symbol_of : ElfSymbol → Symbol
  symbol_of esym = record {
    address = add64 (sub64 esym.st_value base_addr) offset;
    size = esym.st_size;
    weak = esym.st_bind == stb_weak;
    name = esym.st_name;
  }

  -- The loop, from a count on: the count at its end and the symbols that it pushes.
  abbrev pub getsym_loop : ℕ → List ElfSymbol → ℕ × List Symbol
  getsym_loop count [] = (count, [])
  getsym_loop count (esym ∷ rest) = elim (is_skipped esym) [
    | true ↦ getsym_loop count rest
    | false ↦ let (total, more) = getsym_loop (add32 count 1) rest in (total, symbol_of esym ∷ more)
  ]

  abbrev pub data_loop : Option (List ElfSymbol) → ℕ × List Symbol
  data_loop none = (0, [])
  data_loop (some esyms) = getsym_loop 0 esyms

  unfoldable pub symtab_build_section : ElfSection → ℕ × List Symbol
  symtab_build_section section = elim section.sh_type [
    | none ↦ (0, [])
    | some sh_type ↦
        if not (sh_type == sht_symtab) && not (sh_type == sht_dynsym)
        then (0, [])
        else data_loop section.data_symbols
  ]

  unfoldable pub nextscn_loop : ℕ → List ElfSection → ℕ × List Symbol
  unfolding symtab_build_section
  nextscn_loop count [] = (count, [])
  nextscn_loop count (section ∷ rest) =
      let (n, symbols) = symtab_build_section section in
      let (total, more) = nextscn_loop (add32 count n) rest in (total, symbols ++ more)

-- The address of the first segment that is loaded.
abbrev pub symtab_elf_base : List ProgramHeader → ℕ
symtab_elf_base [] = 0
symtab_elf_base (header ∷ rest) =
    let later = symtab_elf_base rest in if header.p_type == pt_load then header.p_vaddr else later

unfoldable pub symtab_build_file : Elfs → List ℕ → ℕ → ℕ → ℕ × List Symbol
unfolding nextscn_loop
symtab_build_file elfs path start end = elim (elfs path) [
  | none ↦ (minus_one, [])
  | some elf ↦
      if elf.e_type == et_dyn
      then nextscn_loop start (symtab_elf_base elf.program_headers) 0 elf.sections
      else nextscn_loop 0 0 0 elf.sections
]

abbrev pub symbol_cmp : Symbol → Symbol → ℕ
symbol_cmp sa sb = if ltb sa.address sb.address then minus_one else 1

-- What one map has in a file.
abbrev pub load_symbols : Elfs → Map → List ℕ → ℕ × List Symbol
load_symbols elfs m path = symtab_build_file elfs path m.start m.end

-- `none`: memleax exits or faults, or the fuel does not suffice; the allocations succeed.
unfoldable pub symtab_build :
    Qsort Symbol → Elfs → Files → Option (List ℕ) → ℕ → Proc → Option (List Symbol)
unfolding load_maps symtab_build_file
symtab_build qsort elfs files opt fuel proc =
    elim (load_maps files opt (load_symbols elfs) fuel proc) [
      | none ↦ none
      | some symbols ↦ some (qsort symbol_cmp symbols)
    ]
