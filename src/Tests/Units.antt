-- ===== src/Tests/Units.antt =====
-- The units of a program, built with libdw and with libdwarf.
use memleax.Prelude.{
  same_string, [], if◌then◌else◌, Option, arith, ◌∷◌, List, codes, map, ◌≡◌, ℕ, refl, none, some,
}
use memleax.DebugFile.{elf_build_id, elf_section_data, section_loop, debug_valid, debug_try_init}
use memleax.DebugLine.{DwarfDie, debug_line_search, debug_line_search_dwdie}
use memleax.DebugLine.Lines.{LineAt}
use memleax.DebugLine.Build.{debug_line_build_dwarf, debug_line_build}
use memleax.DebugLine.Built.{LibdwElf}
use memleax.DebugLine.Lookup.{Loadable, debug_line_search-debug_line_build}
use memleax.DebugLine.Libdwarf.{
  LibdwarfUnit, no_entry, lines_error, srclines, comp_dir_len_of, libdwarf_build_dwarf,
  libdwarf_search_dwdie,
}
use memleax.DebugLine.Agreement.{
  libdw_unit, plain, failing, fails, before_error, within,
  libdwarf_build_dwarf-debug_line_build_dwarf, libdwarf_search_dwdie-within,
}
use memleax.Tests.Debug.{files, trying, inits, files-Sound}
use memleax.Tests.Symbols.{lines, proc}
use memleax.Tests.Sorting.{insertion_sort, sorts}
use memleax.Tests.Tables.{unit, unit-LinesInOrder}

-- The program has lines for one unit, and its debug file none.
abbrev elfs : List ℕ → Option LibdwElf
elfs path =
    if same_string path (codes "/bin/app")
    then some (record { e_type = 2; dwarf = some (none ∷ some unit.dw_lines ∷ some [] ∷ []) })
    else none

loads : Loadable elfs files none proc lines (codes "/bin/app")
unfolding debug_try_init elf_build_id elf_section_data section_loop debug_valid
loads = record {
  sound = files-Sound;
  readable = refl;
  exe = refl;
  opens = ((trying, inits, refl, refl), tt);
  countable = ((omega arith, (omega arith, tt)), tt);
  ordered = ((unit-LinesInOrder, omega arith), tt);
  disjoint = (tt, tt);
}

debug_line_search-debug_line_build_example :
    (table : List DwarfDie) × (debug_line_build insertion_sort elfs files none 3 proc ≡ some table)
    × LineAt unit 0x40A (debug_line_search table 0x40A)
unfolding debug_try_init elf_build_id elf_section_data section_loop debug_valid
debug_line_search-debug_line_build_example =
    debug_line_search-debug_line_build insertion_sort sorts elfs files none proc lines
      (codes "/bin/app") loads 0 0x40A unit (omega arith) refl (omega arith) (omega arith)

abbrev cus : List LibdwarfUnit
cus = no_entry ∷ srclines unit.dw_lines (some (codes "/src")) ∷ srclines [] none ∷ lines_error ∷ []

libdwarf_build_dwarf-debug_line_build_dwarf_example :
    plain (libdwarf_build_dwarf (some cus) 0x100)
    ≡ failing (fails cus) (debug_line_build_dwarf (some (map libdw_unit (before_error cus))) 0x100)
libdwarf_build_dwarf-debug_line_build_dwarf_example =
    libdwarf_build_dwarf-debug_line_build_dwarf 0x100 cus

libdwarf_search_dwdie-within_example :
    libdwarf_search_dwdie
      (record {
        die = record unit { dw_lines = map (within (codes "/src")) unit.dw_lines };
        comp_dir_len = comp_dir_len_of (some (codes "/src"));
      })
      0x40A
    ≡ debug_line_search_dwdie unit 0x40A
libdwarf_search_dwdie-within_example =
    libdwarf_search_dwdie-within (codes "/src") unit 0x40A (omega arith)
