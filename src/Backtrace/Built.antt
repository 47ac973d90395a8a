-- ===== src/Backtrace/Built.antt =====
-- The sections that ptr_maps_build makes answer as the target's memory does.
use mathlib.Core.Option.{none-ne-some, some-injective}
use memleax.Prelude.{
  inr, ◌≤◌, ap, ◌-◌, inl, ◌≢◌, Option-cases, ◌^◌, ◌∙◌, All, add64, sub64, ◌<◌, subst, ◌++◌, arith,
  [], ◌∷◌, ◌*◌, ◌+◌, ◌%◌, ◌≡◌, get_elem?, length, List, ℕ, none, some, refl, zero, suc,
}
use memleax.ProcInfo.{Line, Proc, Map, proc_maps}
use memleax.ProcInfo.Walks.{code_maps, walk-proc_maps}
use memleax.ProcInfo.Repeats.{for_each, repeat-for_each}
use memleax.Machine.{Target, word_at, ptrace_get_data}
use memleax.Backtrace.{MapSection, access_mem, peeked}
use memleax.Backtrace.Memory.{Mirrors, Fits, access_mem-peeked}
use memleax.Backtrace.Build.{Reading, words_of, ptr_maps_build_file, section_added, ptr_maps_build}

-- Bytes that a memory has from an address on.
abbrev pub Holds : (ℕ → ℕ) → ℕ → List ℕ → Type 0
Holds memory a bytes = (i b : ℕ) → get_elem? bytes i ≡ some b → memory (a + i) ≡ b

module _ (memory : ℕ → ℕ) where
  append-Holds :
      (a : ℕ) (first bytes : List ℕ)
      → Holds memory a (first ++ bytes)
      → Holds memory (a + length first) bytes
  append-Holds a [] bytes holds i b e =
      let here : a + i ≡ a + 0 + i = omega arith in subst (λ p. memory p ≡ b) here (holds i b e)
  append-Holds a (x ∷ first) bytes holds i b e =
      let here : suc a + length first + i ≡ a + suc (length first) + i = omega arith in
      subst (λ p. memory p ≡ b) here
        (append-Holds (suc a) first bytes
          (λ j c at.
            let next : a + suc j ≡ suc a + j = omega arith in
            subst (λ p. memory p ≡ c) next (holds (suc j) c at))
          i b e)

  words_of-word_at :
      (bytes : List ℕ) (a : ℕ)
      → Holds memory a bytes
      → (i w : ℕ) → get_elem? (words_of bytes) i ≡ some w
      → word_at memory (a + 8 * i) ≡ w
  unfolding word_at
  words_of-word_at (b₀ ∷ b₁ ∷ b₂ ∷ b₃ ∷ b₄ ∷ b₅ ∷ b₆ ∷ b₇ ∷ bytes) a holds zero w e =
      let here : a ≡ a + 8 * 0 = omega arith in
      subst (λ p. word_at memory p ≡ w) here
        (rw
          (
            holds 0 b₀ refl,
            holds 1 b₁ refl,
            holds 2 b₂ refl,
            holds 3 b₃ refl,
            holds 4 b₄ refl,
            holds 5 b₅ refl,
            holds 6 b₆ refl,
            holds 7 b₇ refl,
          )
          (some-injective _ _ e))
  words_of-word_at (b₀ ∷ b₁ ∷ b₂ ∷ b₃ ∷ b₄ ∷ b₅ ∷ b₆ ∷ b₇ ∷ bytes) a holds (suc i) w e =
      let later =
        words_of-word_at bytes (a + 8)
          (append-Holds a (b₀ ∷ b₁ ∷ b₂ ∷ b₃ ∷ b₄ ∷ b₅ ∷ b₆ ∷ b₇ ∷ []) bytes holds) i w e in
      let here : a + 8 + 8 * i ≡ a + 8 * suc i = omega arith in
      subst (λ p. word_at memory p ≡ w) here later
  words_of-word_at [] a holds i w e = absurd (none-ne-some w e)
  words_of-word_at (b₀ ∷ []) a holds i w e = absurd (none-ne-some w e)
  words_of-word_at (b₀ ∷ b₁ ∷ []) a holds i w e = absurd (none-ne-some w e)
  words_of-word_at (b₀ ∷ b₁ ∷ b₂ ∷ []) a holds i w e = absurd (none-ne-some w e)
  words_of-word_at (b₀ ∷ b₁ ∷ b₂ ∷ b₃ ∷ []) a holds i w e = absurd (none-ne-some w e)
  words_of-word_at (b₀ ∷ b₁ ∷ b₂ ∷ b₃ ∷ b₄ ∷ []) a holds i w e = absurd (none-ne-some w e)
  words_of-word_at (b₀ ∷ b₁ ∷ b₂ ∷ b₃ ∷ b₄ ∷ b₅ ∷ []) a holds i w e = absurd (none-ne-some w e)
  words_of-word_at (b₀ ∷ b₁ ∷ b₂ ∷ b₃ ∷ b₄ ∷ b₅ ∷ b₆ ∷ []) a holds i w e = absurd (none-ne-some w e)

length-words_of :
    (bytes : List ℕ) → length bytes % 8 ≡ 0 → 8 * length (words_of bytes) ≡ length bytes
length-words_of (b₀ ∷ b₁ ∷ b₂ ∷ b₃ ∷ b₄ ∷ b₅ ∷ b₆ ∷ b₇ ∷ bytes) h =
    omega (arith, h, length-words_of bytes (omega (arith, h)))
length-words_of [] h = omega arith
length-words_of (b₀ ∷ []) h = absurd (omega (arith, h))
length-words_of (b₀ ∷ b₁ ∷ []) h = absurd (omega (arith, h))
length-words_of (b₀ ∷ b₁ ∷ b₂ ∷ []) h = absurd (omega (arith, h))
length-words_of (b₀ ∷ b₁ ∷ b₂ ∷ b₃ ∷ []) h = absurd (omega (arith, h))
length-words_of (b₀ ∷ b₁ ∷ b₂ ∷ b₃ ∷ b₄ ∷ []) h = absurd (omega (arith, h))
length-words_of (b₀ ∷ b₁ ∷ b₂ ∷ b₃ ∷ b₄ ∷ b₅ ∷ []) h = absurd (omega (arith, h))
length-words_of (b₀ ∷ b₁ ∷ b₂ ∷ b₃ ∷ b₄ ∷ b₅ ∷ b₆ ∷ []) h = absurd (omega (arith, h))

module _ (target : Target) (s : target.State) (thread : ℕ) (addr : ℕ) (reading : Reading) where
  -- What is read of a mapped file is what the target has at the map: whole words, none of them all ones; and
  -- the address is not behind the last of them, and a whole number of words into them if it is in them.
  pub record Copied (m : Map) (bytes : List ℕ) : Type 0 where
    pub whole : length bytes % 8 ≡ 0
    pub inside : m.start + length bytes < 2 ^ 64
    pub same : Holds (target.byte s thread) m.start bytes
    pub no_error : (i w : ℕ) → get_elem? (words_of bytes) i ≡ some w → w ≢ 2 ^ 64 - 1
    pub not_end : addr ≢ m.start + length bytes
    pub aligned : m.start ≤ addr → addr < m.start + length bytes → (addr - m.start) % 8 ≡ 0

  -- Of every map whose file can be read.
  abbrev pub Copies : Map → Type 0
  Copies m = (bytes : List ℕ) → reading m.path (sub64 m.end m.start) ≡ some bytes → Copied m bytes

  abbrev section : Map → List ℕ → MapSection
  section m bytes = record {
    start = m.start;
    end = add64 m.start (length bytes);
    words = words_of bytes;
  }

  section-Mirrors :
      (m : Map) (bytes : List ℕ) → Copied m bytes → Mirrors target s thread (section m bytes)
  section-Mirrors m bytes c = record {
    full = omega (arith, c.inside, length-words_of bytes c.whole);
    same = λ i w e.
        (words_of-word_at (target.byte s thread) bytes m.start c.same i w e, c.no_error i w e);
  }

  section-Fits : (m : Map) (bytes : List ℕ) → Copied m bytes → Fits addr (section m bytes)
  section-Fits m bytes c =
      let end : add64 m.start (length bytes) ≡ m.start + length bytes = omega (arith, c.inside) in
      rw end (c.not_end, c.aligned)

  for_each-Mirrors :
      (proc : Proc) (ms : List Map)
      → All Copies ms
      → (sections : List MapSection) × (for_each (proc_maps proc) (section_added reading) [] ms
          ≡ some sections)
        × All (λ ms. Mirrors target s thread ms) sections
        × All (Fits addr) sections
  for_each-Mirrors proc [] copies = ([], refl, tt, tt)
  for_each-Mirrors proc (m ∷ ms) (here, copies) =
      let (sections, e, mirrors, fits) = for_each-Mirrors proc ms copies in
      elim (Option-cases (reading m.path (sub64 m.end m.start))) [
        | inl n ↦ (
          sections,
          ap (section_added reading m) e ∙ rw (section_added, ptr_maps_build_file, n) refl,
          mirrors,
          fits,
        )
        | inr (bytes, n) ↦ (
          section m bytes ∷ sections,
          ap (section_added reading m) e ∙ rw (section_added, ptr_maps_build_file, n) refl,
          (section-Mirrors m bytes (here bytes n), mirrors),
          (section-Fits m bytes (here bytes n), fits),
        )
      ]

  -- The maps can be read, the allocations succeed, and what can be read of their files is what the
  -- target has there, as whole words, none of them all ones, with the address not behind the last
  -- and a whole number of words into them. Then as many calls as there are lines and one more
  -- build the sections, and a read of the unwinder at the address gives what a read of the
  -- target's memory gives.
  pub access_mem-ptr_maps_build :
      (proc : Proc) (lines : List Line) (exe_name : List ℕ)
      → proc.maps ≡ some lines
      → proc.exe ≡ some exe_name
      → All Copies (code_maps exe_name lines)
      → (sections : List MapSection) × (ptr_maps_build reading (suc (length lines)) proc
          ≡ some sections)
        × (access_mem target s thread sections addr
            ≡ peeked target (ptrace_get_data target s thread addr))
  unfolding ptr_maps_build
  access_mem-ptr_maps_build proc lines exe_name readable exe copies =
      let ms = code_maps exe_name lines in
      let (sections, e, mirrors, fits) = for_each-Mirrors proc ms copies in
      (
        sections,
        repeat-for_each (proc_maps proc) (section_added reading) [] (suc (length lines)) none ms
              none (walk-proc_maps proc lines exe_name readable exe)
            ∙ e,
        access_mem-peeked target s thread sections addr mirrors fits,
      )
