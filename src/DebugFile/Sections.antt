-- ===== src/DebugFile/Sections.antt =====
-- Reading back what a linker writes: the build id note and the debug link.
use memleax.Prelude.{
  sym, length-append, ltb, ◌∙◌, ap, same_string_iff, false, same_string, ◌^◌, ◌≢◌, All, ◌<◌, ◌≤◌,
  ◌-◌, ◌*◌, arith, codes, zero, ◌+◌, ◌/◌, length, suc, ◌%◌, ◌++◌, ℕ, ◌≡◌, refl, Option, none, some,
  List, [], ◌∷◌,
}
use mathlib.Core.List.{append_assoc}
use memleax.DebugFile.{
  File, Section, section_loop, elf_section_data, bytes_at, u32_at, u32_of, linked, copy_id,
  elf_build_id, strcpy, elf_debug_link,
}

-- A number below 2 ^ 32 in four bytes, the lowest first.
abbrev pub u32_bytes : ℕ → List ℕ
u32_bytes n = n % 256 ∷ n / 256 % 256 ∷ n / 256 / 256 % 256 ∷ n / 256 / 256 / 256 % 256 ∷ []

-- The note: the sizes of the owner's name and of the id, the kind, "GNU" with its NUL, and the id.
abbrev pub build_id_note : List ℕ → List ℕ
build_id_note id =
    u32_bytes 4 ++ u32_bytes (length id) ++ u32_bytes 3 ++ (codes "GNU" ++ 0 ∷ []) ++ id

-- The link: the name with its NUL, zeros up to a multiple of four, and the CRC.
abbrev pub zeros : ℕ → List ℕ
zeros zero = []
zeros (suc n) = 0 ∷ zeros n

abbrev pub debug_link : List ℕ → ℕ → List ℕ
debug_link name crc =
    name ++ 0 ∷ zeros ((length name + 4) / 4 * 4 - (length name + 1)) ++ u32_bytes crc

bytes_at-append :
    (front back : List ℕ) (len : ℕ)
    → bytes_at (length front) len (front ++ back) ≡ bytes_at 0 len back
bytes_at-append [] back len = refl
bytes_at-append (b ∷ front) back len = bytes_at-append front back len

bytes_at-all : (bytes : List ℕ) → bytes_at 0 (length bytes) bytes ≡ some bytes
bytes_at-all [] = refl
bytes_at-all (b ∷ bytes) = rw (bytes_at-all bytes)

u32_at-u32_bytes :
    (front more : List ℕ) (n : ℕ)
    → n < 2 ^ 32
    → u32_at (length front) (front ++ (u32_bytes n ++ more)) ≡ some n
u32_at-u32_bytes front more n small =
    ap u32_of (bytes_at-append front (u32_bytes n ++ more) 4) ∙ ap some (omega arith)

strcpy-append : (name more : List ℕ) → All (λ c. c ≢ 0) name → strcpy (name ++ 0 ∷ more) ≡ some name
strcpy-append [] more h = refl
strcpy-append (c ∷ name) more (h, hs) = ground (arith, h, strcpy-append name more hs)

length-zeros : (n : ℕ) → length (zeros n) ≡ n
length-zeros zero = refl
length-zeros (suc n) = omega (arith, length-zeros n)

-- The name with its NUL, up to the CRC.
abbrev padded : List ℕ → List ℕ
padded name = name ++ 0 ∷ zeros ((length name + 4) / 4 * 4 - (length name + 1))

length-padded : (name : List ℕ) → length (padded name) ≡ (length name + 4) / 4 * 4
length-padded name =
    let pad = (length name + 4) / 4 * 4 - (length name + 1) in
    omega (arith, length-append name (0 ∷ zeros pad), length-zeros pad)

-- A section is found behind sections of other names, if it fits the buffer.
section_loop-found :
    (others rest : List Section) (name contents : List ℕ) (size : ℕ)
    → All (λ (s : Section). same_string s.name name ≡ false) others
    → length contents ≤ size
    → section_loop name size (others ++ (record { name = name; contents = contents }) ∷ rest)
      ≡ some contents
unfolding section_loop
section_loop-found [] rest name contents size h fits =
    let same = (same_string_iff name name).1 refl in ground (arith, same)
section_loop-found (o ∷ others) rest name contents size (h, hs) fits =
    rw h (section_loop-found others rest name contents size hs fits)

module _ (others rest : List Section) (file : File) where
  abbrev Holds : List ℕ → List ℕ → Type 0
  Holds name contents =
      All (λ (s : Section). same_string s.name name ≡ false) others
      × (file.sections ≡ some (others ++ (record { name = name; contents = contents }) ∷ rest))

  elf_section_data-found :
      (name contents : List ℕ)
      → length contents ≤ 1000
      → Holds name contents
      → elf_section_data (some file) name 1000 ≡ some contents
  unfolding elf_section_data
  elf_section_data-found name contents fits (absent, e) =
      ap
        (λ (o : Option (List Section)). elim o [
          | none ↦ none
          | some sections ↦ section_loop name 1000 sections
        ])
        e
      ∙ section_loop-found others rest name contents 1000 absent fits

  -- A build id of at most 100 bytes is read back from the note that a linker writes, behind sections
  -- of other names.
  pub elf_build_id-build_id_note :
      (id : List ℕ)
      → length id ≤ 100
      → Holds (codes ".note.gnu.build-id") (build_id_note id)
      → elf_build_id (some file) ≡ some id
  unfolding elf_build_id
  elf_build_id-build_id_note id fits holds =
      let found = elf_section_data-found _ _ (omega arith) holds in
      rw (found, elf_build_id)
        (let size : u32_at 4 (build_id_note id) ≡ some (length id) = ap some (omega arith) in
          let short : ltb 100 (length id) ≡ false = ground arith in
          ap (copy_id (build_id_note id)) size ∙ rw short (bytes_at-all id))

  -- A debug link, its name without a NUL and of at most 900 bytes, gives its CRC and name back.
  pub elf_debug_link-debug_link :
      (name fname : List ℕ) (crc : ℕ)
      → All (λ c. c ≢ 0) name
      → length name ≤ 900
      → crc < 2 ^ 32
      → Holds (codes ".gnu_debuglink") (debug_link name crc)
      → elf_debug_link (some file) fname ≡ some (crc, name)
  unfolding elf_debug_link
  elf_debug_link-debug_link name fname crc chars fits small holds =
      let found =
        elf_section_data-found _ _
          (omega (arith, length-append (padded name) (u32_bytes crc), length-padded name)) holds in
      rw (found, elf_debug_link)
        (let read : strcpy (debug_link name crc) ≡ some name =
            ap strcpy (append_assoc name _ (u32_bytes crc)) ∙ strcpy-append name _ chars in
          let word : u32_at ((length name + 4) / 4 * 4) (debug_link name crc) ≡ some crc =
            ap (λ n. u32_at n (debug_link name crc)) (sym (length-padded name))
            ∙ u32_at-u32_bytes (padded name) [] crc small in
          ap (linked (debug_link name crc)) read ∙ rw (word, linked) refl)
