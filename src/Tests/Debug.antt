-- ===== src/Tests/Debug.antt =====
-- A program with a build id and its debug file, and the CRC of a text.
use memleax.Prelude.{
  same_string, true, arith, codes, if◌then◌else◌, ℕ, ◌≡◌, refl, none, some, List, [], ◌∷◌,
}
use memleax.Crc.{Reads, file_crc32, gnu_debuglink_crc32, crc_loop, table_at}
use memleax.Crc.Bitwise.{crc32, contents, file_crc32-crc32}
use memleax.DebugFile.{
  Files, File, Trying, elf_build_id, elf_debug_link, elf_section_data, section_loop, debug_try_init,
  debug_valid,
}
use memleax.DebugFile.Tries.{null, debug_try_get}
use memleax.DebugFile.Candidates.{Sound, all_tries}
use memleax.DebugFile.Walk.{tries, all_tries_lem}
use memleax.DebugFile.Sections.{
  build_id_note, debug_link, elf_build_id-build_id_note, elf_debug_link-debug_link,
}

-- The check value of CRC-32.
nine_digits : gnu_debuglink_crc32 0 (codes "123456789") ≡ 0xCBF43926
unfolding gnu_debuglink_crc32 crc_loop table_at
nine_digits = refl

abbrev reads : Reads
reads = some (codes "1234") ∷ some (codes "56789") ∷ some [] ∷ []

file_crc32-crc32_example : file_crc32 reads ≡ crc32 (contents reads)
file_crc32-crc32_example = file_crc32-crc32 reads (omega arith)

abbrev id : List ℕ
id = 0xAB ∷ 0x01 ∷ 0xFF ∷ []

abbrev program : File
program = record {
  sections = some (
      (record { name = codes ".text"; contents = 0x90 ∷ [] })
      ∷ (record { name = codes ".note.gnu.build-id"; contents = build_id_note id })
      ∷ []);
  reads = [];
}

abbrev linked_program : File
linked_program = record {
  sections = some (
      (record { name = codes ".text"; contents = 0x90 ∷ [] })
      ∷ (record {
        name = codes ".gnu_debuglink";
        contents = debug_link (codes "app.debug") 0x12345678;
      })
      ∷ []);
  reads = [];
}

elf_build_id-build_id_note_example : elf_build_id (some program) ≡ some id
elf_build_id-build_id_note_example =
    elf_build_id-build_id_note (record { name = codes ".text"; contents = 0x90 ∷ [] } ∷ []) []
      program id (omega arith) ((refl, tt), refl)

elf_debug_link-debug_link_example :
    elf_debug_link (some linked_program) [] ≡ some (0x12345678, codes "app.debug")
elf_debug_link-debug_link_example =
    elf_debug_link-debug_link (record { name = codes ".text"; contents = 0x90 ∷ [] } ∷ []) []
      linked_program (codes "app.debug") [] 0x12345678 (omega arith) (omega arith) (omega arith)
      ((refl, tt), refl)

-- The program and, under its build id, its debug file, which is the program again.
abbrev pub files : Files
files path =
    if same_string path (codes "/bin/app")
    then some program
    else if same_string path (codes "/usr/lib/debug/.build-id/ab/01ff.debug")
    then some program
    else none

abbrev pub trying : Trying
trying = record {
  path = codes "/bin/app";
  dir = codes "/bin";
  next_case = 0;
  exe_self = true;
  build_id = id;
  debug_fname = codes "app.debug";
  debug_crc32 = 0;
}

pub inits : debug_try_init files (codes "/bin/app") true [] ≡ some trying
unfolding debug_try_init elf_build_id elf_debug_link elf_section_data section_loop
inits = refl

pub files-Sound : Sound files
unfolding elf_build_id elf_section_data section_loop
files-Sound path file e = ground (arith, e)

three_calls :
    all_tries files none 7 trying
    ≡ some (codes "/bin/app" ∷ codes "/usr/lib/debug/.build-id/ab/01ff.debug" ∷ [], null)
unfolding all_tries debug_try_get debug_valid elf_build_id elf_section_data section_loop
three_calls = refl

all_tries_lem_example :
    all_tries files (some (codes "/tmp/d")) 7 trying
    ≡ some (tries files (some (codes "/tmp/d")) trying)
all_tries_lem_example = all_tries_lem files files-Sound (some (codes "/tmp/d")) trying refl
