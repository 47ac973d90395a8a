-- ===== src/Machine/Traps.antt =====
-- Words as bytes, and what writing a word or a trap does to the bytes of the target.
use memleax.Prelude.{ℕ, zero, suc, ◌+◌, ◌*◌, ◌^◌, ◌<◌, ◌≡◌, arith, if◌then◌else◌, ◌==◌}
use memleax.Machine.{trap_word, word_at, byte_of}

-- The eight digits of a word.
module _ (b₀ b₁ b₂ b₃ b₄ b₅ b₆ b₇ : ℕ)
    (small : (b₀ < 256)
      × (b₁ < 256)
      × (b₂ < 256)
      × (b₃ < 256)
      × (b₄ < 256)
      × (b₅ < 256)
      × (b₆ < 256)
      × (b₇ < 256)) where
  word : ℕ
  word =
      b₀ + 256 * (b₁ + 256 * (b₂ + 256 * (b₃ + 256 * (b₄ + 256 * (b₅ + 256 * (b₆ + 256 * (b₇)))))))

  digits :
      (byte_of word 0 ≡ b₀)
      × (byte_of word 1 ≡ b₁)
      × (byte_of word 2 ≡ b₂)
      × (byte_of word 3 ≡ b₃)
      × (byte_of word 4 ≡ b₄)
      × (byte_of word 5 ≡ b₅)
      × (byte_of word 6 ≡ b₆)
      × (byte_of word 7 ≡ b₇)
  unfolding word byte_of
  digits = (
    omega arith,
    omega arith,
    omega arith,
    omega arith,
    omega arith,
    omega arith,
    omega arith,
    omega arith,
  )

  trapped :
      trap_word word
      ≡ 0xCC
        + 256 * (b₁ + 256 * (b₂ + 256 * (b₃ + 256 * (b₄ + 256 * (b₅ + 256 * (b₆ + 256 * (b₇)))))))
  unfolding word trap_word
  trapped = omega arith

module _ (m : ℕ → ℕ) (small : (a : ℕ) → m a < 256) (a : ℕ) where
  all_digits :
      (byte_of (word_at m a) 0 ≡ m (a + 0))
      × (byte_of (word_at m a) 1 ≡ m (a + 1))
      × (byte_of (word_at m a) 2 ≡ m (a + 2))
      × (byte_of (word_at m a) 3 ≡ m (a + 3))
      × (byte_of (word_at m a) 4 ≡ m (a + 4))
      × (byte_of (word_at m a) 5 ≡ m (a + 5))
      × (byte_of (word_at m a) 6 ≡ m (a + 6))
      × (byte_of (word_at m a) 7 ≡ m (a + 7))
  unfolding word_at word
  all_digits =
      digits (m (a + 0)) (m (a + 1)) (m (a + 2)) (m (a + 3)) (m (a + 4)) (m (a + 5)) (m (a + 6))
        (m (a + 7))
        (
          small (a + 0),
          small (a + 1),
          small (a + 2),
          small (a + 3),
          small (a + 4),
          small (a + 5),
          small (a + 6),
          small (a + 7),
        )

  pub byte_of-word_at : (i : ℕ) → i < 8 → byte_of (word_at m a) i ≡ m (a + i)
  byte_of-word_at zero h = all_digits.0
  byte_of-word_at (suc zero) h = all_digits.1
  byte_of-word_at (suc (suc zero)) h = all_digits.2
  byte_of-word_at (suc (suc (suc zero))) h = all_digits.3
  byte_of-word_at (suc (suc (suc (suc zero)))) h = all_digits.4
  byte_of-word_at (suc (suc (suc (suc (suc zero))))) h = all_digits.5
  byte_of-word_at (suc (suc (suc (suc (suc (suc zero)))))) h = all_digits.6
  byte_of-word_at (suc (suc (suc (suc (suc (suc (suc zero))))))) h = all_digits.7
  byte_of-word_at (suc (suc (suc (suc (suc (suc (suc (suc i)))))))) h = absurd (omega arith)

  pub word_at-lt : word_at m a < 2 ^ 64
  unfolding word_at
  word_at-lt = omega (
    arith,
    small (a + 0),
    small (a + 1),
    small (a + 2),
    small (a + 3),
    small (a + 4),
    small (a + 5),
    small (a + 6),
    small (a + 7),
  )

  trap_digits :
      (byte_of (trap_word (word_at m a)) 0 ≡ 0xCC)
      × (byte_of (trap_word (word_at m a)) 1 ≡ m (a + 1))
      × (byte_of (trap_word (word_at m a)) 2 ≡ m (a + 2))
      × (byte_of (trap_word (word_at m a)) 3 ≡ m (a + 3))
      × (byte_of (trap_word (word_at m a)) 4 ≡ m (a + 4))
      × (byte_of (trap_word (word_at m a)) 5 ≡ m (a + 5))
      × (byte_of (trap_word (word_at m a)) 6 ≡ m (a + 6))
      × (byte_of (trap_word (word_at m a)) 7 ≡ m (a + 7))
  unfolding word_at word
  trap_digits =
      let old : (m (a + 0) < 256)
          × (m (a + 1) < 256)
          × (m (a + 2) < 256)
          × (m (a + 3) < 256)
          × (m (a + 4) < 256)
          × (m (a + 5) < 256)
          × (m (a + 6) < 256)
          × (m (a + 7) < 256) =
        (
          small (a + 0),
          small (a + 1),
          small (a + 2),
          small (a + 3),
          small (a + 4),
          small (a + 5),
          small (a + 6),
          small (a + 7),
        ) in
      rw
        (trapped (m (a + 0)) (m (a + 1)) (m (a + 2)) (m (a + 3)) (m (a + 4)) (m (a + 5)) (m (a + 6))
          (m (a + 7)) old)
        (digits 0xCC (m (a + 1)) (m (a + 2)) (m (a + 3)) (m (a + 4)) (m (a + 5)) (m (a + 6))
          (m (a + 7))
          (
            omega arith,
            small (a + 1),
            small (a + 2),
            small (a + 3),
            small (a + 4),
            small (a + 5),
            small (a + 6),
            small (a + 7),
          ))

  -- The trap is the first byte; the others stay.
  pub byte_of-trap_word :
      (i : ℕ) → i < 8 → byte_of (trap_word (word_at m a)) i ≡ (if i == 0 then 0xCC else m (a + i))
  byte_of-trap_word zero h = trap_digits.0
  byte_of-trap_word (suc zero) h = trap_digits.1
  byte_of-trap_word (suc (suc zero)) h = trap_digits.2
  byte_of-trap_word (suc (suc (suc zero))) h = trap_digits.3
  byte_of-trap_word (suc (suc (suc (suc zero)))) h = trap_digits.4
  byte_of-trap_word (suc (suc (suc (suc (suc zero))))) h = trap_digits.5
  byte_of-trap_word (suc (suc (suc (suc (suc (suc zero)))))) h = trap_digits.6
  byte_of-trap_word (suc (suc (suc (suc (suc (suc (suc zero))))))) h = trap_digits.7
  byte_of-trap_word (suc (suc (suc (suc (suc (suc (suc (suc i)))))))) h = absurd (omega arith)
