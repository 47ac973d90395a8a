-- ===== src/Machine/Image.antt =====
-- The text of the target with traps in it: writing back an original word takes its trap away, and
-- setting a breakpoint puts one in.
use memleax.Prelude.{
  ℕ, ◌+◌, ◌-◌, ◌<◌, ◌≡◌, refl, Bool, true, false, not, ◌&&◌, ◌||◌, arith, if◌then◌else◌, ◌==◌, ap,
  ◌∙◌, inl, inr, Bool-cases,
}
use memleax.Machine.{
  Target, word_at, byte_of, within, trap_word, ptrace_get_data, ptrace_set_data, set_breakpoint,
}
use memleax.Machine.Traps.{byte_of-word_at, byte_of-trap_word}

module _ (target : Target) (pid : ℕ) (orig : ℕ → ℕ) (Text : ℕ → Type 0) where
  open target use {State, byte}

  -- The text bytes that the process `pid` sees: the trap at the addresses of `traps`, and what was
  -- there originally elsewhere.
  abbrev pub Image : State → (ℕ → Bool) → Type 0
  Image s traps = (b : ℕ) → Text b → byte s pid b ≡ (if traps b then 0xCC else orig b)

  pub Image-congr : (s : State) (t u : ℕ → Bool) → ((b : ℕ) → t b ≡ u b) → Image s t → Image s u
  Image-congr s t u same h b tb = rw (← same b) (h b tb)

-- No trap stands in the word at an address behind its first byte.
abbrev pub TailFree : (ℕ → Bool) → ℕ → Type 0
TailFree traps a = (b : ℕ) → a < b → b < a + 8 → traps b ≡ false

module _ (target : Target) (pid : ℕ) (orig : ℕ → ℕ) (Text : ℕ → Type 0)
    (small : (a : ℕ) → orig a < 256) (task : ℕ) (same : target.shares task pid ≡ true)
    (s : target.State) (live : target.in_stop s task ≡ true) (traps : ℕ → Bool) (a : ℕ)
    (image : Image target pid orig Text s traps) (free : TailFree traps a) where
  open target use {State, byte, byte-poke, poke}

  -- The bytes after a write of a word with given bytes.
  written :
      (w : ℕ) (expected : ℕ → ℕ)
      → ((i : ℕ) → i < 8 → byte_of w i ≡ expected (a + i))
      → (b : ℕ) → byte (poke s task a w) pid b ≡ (if within a b then expected b else byte s pid b)
  written w expected h b = elim (Bool-cases (within a b)) [
    | inr out ↦ byte-poke s task pid a w b ∙ rw (same, live, out)
    | inl in' ↦
        let back : a + (b - a) ≡ b = ground arith in
        byte-poke s task pid a w b
        ∙ rw (same, live, in') (h (b - a) (ground arith) ∙ ap expected back)
  ]

  pub restore-Image :
      Image target pid orig Text
        (ptrace_set_data target s task a (word_at orig a))
        (λ b. traps b && not (b == a))
  restore-Image b tb =
      rw (written _ orig (byte_of-word_at orig small a) b) (ground (arith, image b tb, free b))

  pub arm-Image :
      Image target pid orig Text
        (set_breakpoint target s task a (word_at orig a))
        (λ b. traps b || b == a)
  arm-Image b tb =
      rw (written _ (λ c. if c == a then 0xCC else orig c) digits b)
        (ground (arith, image b tb, free b))
    where
      digits :
          (i : ℕ)
          → i < 8
          → byte_of (trap_word (word_at orig a)) i ≡ (if a + i == a then 0xCC else orig (a + i))
      digits i h = ground (arith, byte_of-trap_word orig small a i h)

  module _ (free_first : traps a ≡ false) (text : (i : ℕ) → i < 8 → Text (a + i)) where
    no_trap : (i : ℕ) → i < 8 → traps (a + i) ≡ false
    no_trap i h = elim (Bool-cases (i == 0)) [
      | inl z ↦ let e : a ≡ a + i = ground arith in rw (← e) free_first
      | inr n ↦ free (a + i) (ground arith) (omega arith)
    ]

    original : (i : ℕ) → i < 8 → byte s task (a + i) ≡ orig (a + i)
    original i h =
        target.byte_shared s task pid (a + i) same ∙ image (a + i) (text i h) ∙ rw (no_trap i h)

    -- A word of the text with no trap in it reads as the original.
    pub read_word : ptrace_get_data target s task a ≡ word_at orig a
    unfolding word_at
    read_word =
        rw
          (
            original 0 (omega arith),
            original 1 (omega arith),
            original 2 (omega arith),
            original 3 (omega arith),
            original 4 (omega arith),
            original 5 (omega arith),
            original 6 (omega arith),
            original 7 (omega arith),
          )
          refl
