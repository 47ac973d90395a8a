-- ===== src/Tests/Symbols.antt =====
-- The table of symbols of a program whose functions are in its separate debug file.
use memleax.Prelude.{
  false, inr, refl, arith, ◌≡◌, [], codes, same_string, List, if◌then◌else◌, none, some, ◌∷◌, ℕ,
}
use memleax.ProcInfo.{Proc, Line}
use memleax.ProcInfo.Walks.{code_maps}
use memleax.DebugFile.{elf_build_id, elf_section_data, section_loop, debug_valid, debug_try_init}
use memleax.DebugFile.Loaded.{all_loaded, load_maps-all_loaded}
use memleax.DebugFile.Loading.{load_maps}
use memleax.Symtab.{Symbol, symtab_by_address}
use memleax.Symtab.Build.{ElfSymbol, Elf, Elfs, load_symbols, symtab_build}
use memleax.Symtab.Lookup.{Loadable, symtab_by_address-symtab_build}
use memleax.Tests.Debug.{files, trying, inits, files-Sound}
use memleax.Tests.Sorting.{insertion_sort, sorts}

abbrev function : ℕ → ℕ → List ℕ → ElfSymbol
function value size name = record {
  st_value = value;
  st_size = size;
  st_shndx = 1;
  st_bind = 1;
  st_type = 2;
  st_name = name;
}

abbrev debug_elf : Elf
debug_elf = record {
  e_type = 3;
  program_headers = record { p_type = 1; p_vaddr = 0x1000 } ∷ [];
  sections =
      record { sh_type = some 1; data_symbols = none }
      ∷ record {
        sh_type = some 2;
        data_symbols = some (
            function 0 0 []
            ∷ function 0x1040 32 (codes "last")
            ∷ function 0x1010 16 (codes "first")
            ∷ []);
      }
      ∷ [];
}

abbrev elfs : Elfs
elfs path =
    if same_string path (codes "/bin/app")
    then some (record { e_type = 3; program_headers = []; sections = [] })
    else if same_string path (codes "/usr/lib/debug/.build-id/ab/01ff.debug")
    then some debug_elf
    else none

abbrev pub lines : List Line
lines =
    record { items = 8; start = 0x400; end = 0x500; perms = codes "r-xp"; path = codes "/bin/app" }
    ∷ record { items = 5; start = 0x500; end = 0x600; perms = codes "rw-p"; path = [] }
    ∷ []

abbrev pub proc : Proc
proc = record { maps = some lines; exe = some (codes "/bin/app"); task = none }

loads : Loadable elfs files none proc lines (codes "/bin/app")
unfolding debug_try_init elf_build_id elf_section_data section_loop debug_valid
loads = record {
  sound = files-Sound;
  readable = refl;
  exe = refl;
  opens = ((trying, inits, refl, refl), tt);
  countable = ((omega arith, (omega arith, tt)), tt);
  inside = (omega arith, (omega arith, tt));
  disjoint = ((inr (omega arith), tt), (tt, tt));
}

load_maps-all_loaded_example :
    load_maps files none (load_symbols elfs) 3 proc
    ≡ some (all_loaded files none (load_symbols elfs) (code_maps (codes "/bin/app") lines))
load_maps-all_loaded_example =
    load_maps-all_loaded files files-Sound none (load_symbols elfs) proc lines (codes "/bin/app")
      refl refl loads.opens

symtab_by_address-symtab_build_example :
    (table : List Symbol) × (symtab_build insertion_sort elfs files none 3 proc ≡ some table)
    × (symtab_by_address table 0x444 ≡ some (some (codes "last", 4)))
unfolding debug_try_init elf_build_id elf_section_data section_loop debug_valid
symtab_by_address-symtab_build_example =
    symtab_by_address-symtab_build insertion_sort sorts elfs files none proc lines
      (codes "/bin/app") loads 0 0x444
      (record { address = 0x440; size = 32; weak = false; name = codes "last" }) (omega arith) refl
      (omega arith) (omega arith)
