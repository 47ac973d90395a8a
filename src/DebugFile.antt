-- ===== src/DebugFile.antt =====
-- debug_file.c: where the separate debug information of a file is looked for, and the check that it
-- belongs to the file. What `open`, `read` and libelf give of the files is a parameter.
pub mod Tries
pub mod Sections
pub mod Candidates
pub mod Walk
pub mod Loading
pub mod Loaded
pub mod First
use memleax.Prelude.{
  not, ℕ, zero, suc, ◌+◌, ◌*◌, ◌/◌, ◌%◌, Bool, true, false, Option, none, some, List, [], ◌∷◌, ◌++◌,
  if◌then◌else◌, ◌==◌, ltb, length, codes, same_string,
}
use memleax.Crc.{Reads, file_crc32}

-- A section by its name, with its data.
pub record Section : Type 0 where
  pub name : List ℕ
  pub contents : List ℕ

-- A file that can be opened: its sections, up to the first that `gelf_getshdr` cannot read, or `none`
-- if it is no ELF file; and what `read` returns of it.
pub record File : Type 0 where
  pub sections : Option (List Section)
  pub reads : Reads

-- The files by their paths; `none` for one that cannot be opened.
abbrev pub Files : Type 0
Files = List ℕ → Option File

-- The loop of `elf_section_data`; `none` for -1.
unfoldable pub section_loop : List ℕ → ℕ → List Section → Option (List ℕ)
section_loop name out_size [] = none
section_loop name out_size (s ∷ rest) =
    let later = section_loop name out_size rest in
    if same_string s.name name
    then (if ltb out_size (length s.contents) then none else some s.contents)
    else later

abbrev sections_of : Option File → Option (List Section)
sections_of none = none
sections_of (some file) = file.sections

unfoldable pub elf_section_data : Option File → List ℕ → ℕ → Option (List ℕ)
unfolding section_loop
elf_section_data file name out_size = elim (sections_of file) [
  | none ↦ none
  | some sections ↦ section_loop name out_size sections
]

-- `len` bytes at `offset`; `none` past the end of what was read.
abbrev pub bytes_at : ℕ → ℕ → List ℕ → Option (List ℕ)
bytes_at zero zero buffer = some []
bytes_at zero (suc len) [] = none
bytes_at zero (suc len) (b ∷ buffer) = elim (bytes_at zero len buffer) [
  | none ↦ none
  | some more ↦ some (b ∷ more)
]
bytes_at (suc offset) len [] = none
bytes_at (suc offset) len (b ∷ buffer) = bytes_at offset len buffer

-- `*(uint32_t *)(buffer + offset)`
abbrev pub u32_of : Option (List ℕ) → Option ℕ
u32_of (some (a ∷ b ∷ c ∷ d ∷ [])) = some (a + 256 * (b + 256 * (c + 256 * d)))
u32_of _ = none

abbrev pub u32_at : ℕ → List ℕ → Option ℕ
u32_at offset buffer = u32_of (bytes_at offset 4 buffer)

abbrev pub build_id_max : ℕ
build_id_max = 100

-- `memcpy(build_id, buffer + 16, buildid_len)` into an array of 100 bytes.
abbrev pub copy_id : List ℕ → Option ℕ → Option (List ℕ)
copy_id buffer none = none
copy_id buffer (some len) = if ltb build_id_max len then none else bytes_at 16 len buffer

-- The build id, empty if there is none. `none` for a fault: a read past the section or a write past
-- the array.
unfoldable pub elf_build_id : Option File → Option (List ℕ)
unfolding elf_section_data
elf_build_id file = elim (elf_section_data file (codes ".note.gnu.build-id") 1000) [
  | none ↦ some []
  | some buffer ↦ copy_id buffer (u32_at 4 buffer)
]

-- `strcpy`; `none` if no NUL ends the string.
abbrev pub strcpy : List ℕ → Option (List ℕ)
strcpy [] = none
strcpy (c ∷ buffer) =
    let rest : Option (List ℕ) = elim (strcpy buffer) [
      | none ↦ none
      | some name ↦ some (c ∷ name)
    ] in
    if c == 0 then some [] else rest

abbrev pub linked : List ℕ → Option (List ℕ) → Option (ℕ × List ℕ)
linked buffer none = none
linked buffer (some name) = elim (u32_at ((length name + 4) / 4 * 4) buffer) [
  | none ↦ none
  | some crc ↦ some (crc, name)
]

-- The CRC and the file name, which stays as it was where the section is missing and the CRC is 0.
unfoldable pub elf_debug_link : Option File → List ℕ → Option (ℕ × List ℕ)
unfolding elf_section_data
elf_debug_link file fname = elim (elf_section_data file (codes ".gnu_debuglink") 1000) [
  | none ↦ some (0, fname)
  | some buffer ↦ linked buffer (strcpy buffer)
]

-- `g_path`, `g_dir`, `g_index`, `g_exe_self`, `g_build_id`, `g_debug_fname` and `g_debug_crc32`.
pub record Trying : Type 0 where
  pub path : List ℕ
  pub dir : List ℕ
  pub next_case : ℕ
  pub exe_self : Bool
  pub build_id : List ℕ
  pub debug_fname : List ℕ
  pub debug_crc32 : ℕ

-- `strrchr(path, '/')`: what is before the last slash and what is behind it.
abbrev pub split_path : List ℕ → Option (List ℕ × List ℕ)
split_path [] = none
split_path (c ∷ rest) = elim (split_path rest) [
  | some (dir, name) ↦ some (c ∷ dir, name)
  | none ↦ if c == b'/' then some ([], rest) else none
]

-- Where there is no CRC, the name is that of the file with ".debug" behind.
abbrev pub inited :
    List ℕ → Bool → List ℕ → List ℕ → Option (List ℕ) → Option (ℕ × List ℕ) → Option Trying
inited path exe_self dir name none link = none
inited path exe_self dir name (some id) none = none
inited path exe_self dir name (some id) (some (crc, fname)) = some (record {
  path = path;
  dir = dir;
  next_case = 0;
  exe_self = exe_self;
  build_id = id;
  debug_fname = if crc == 0 then name ++ codes ".debug" else fname;
  debug_crc32 = crc;
})

-- `fname` is the name left by the file before.
unfoldable pub debug_try_init : Files → List ℕ → Bool → List ℕ → Option Trying
unfolding elf_build_id elf_debug_link
debug_try_init files path exe_self fname = elim (split_path path) [
  | none ↦ none
  | some (dir, name) ↦
      inited path exe_self dir name (elf_build_id (files path)) (elf_debug_link (files path) fname)
]

abbrev same_id : List ℕ → Option (List ℕ) → Option Bool
same_id id none = none
same_id id (some bid) = some (same_string bid id)

-- `none` for a fault.
unfoldable pub debug_valid : Files → Trying → List ℕ → Option Bool
unfolding elf_build_id file_crc32
debug_valid files t debug_path = elim (files debug_path) [
  | none ↦ some false
  | some file ↦
      if not (length t.build_id == 0)
      then same_id t.build_id (elf_build_id (some file))
      else if not (t.debug_crc32 == 0)
      then some (file_crc32 file.reads == t.debug_crc32)
      else some true
]
