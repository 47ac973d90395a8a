-- ===== src/Options/Values.antt =====
-- One option of memleax.c: whether its value is accepted, and what it sets.
use memleax.Prelude.{
  ◌||◌, inr, inl, sym, Bool-cases, subst, if◌then◌else◌, ◌<◌, ℕ, true, false, Option, none, some,
  List, [], ◌∷◌, ◌≡◌, ◌≢◌, refl, arith, ◌==◌, slt32, long_of,
}
use memleax.Options.{Settings, Parsed, returns, goes_on, set_option, backtrace_max}

abbrev pub later_or {ℓ} : {A : Type ℓ} → Option A → Option A → Option A
later_or first none = first
later_or first (some later) = some later

-- The argument of the last option with a character.
abbrev pub last_of : ℕ → List (ℕ × List ℕ) → Option (List ℕ)
last_of ch [] = none
last_of ch ((c, optarg) ∷ rest) = later_or (if c == ch then some optarg else none) (last_of ch rest)

-- What an option is read as, or its default.
abbrev pub read {ℓ} : {A : Type ℓ} → (List ℕ → A) → A → Option (List ℕ) → A
read f default none = default
read f default (some optarg) = f optarg

-- No limit is zero, and the backtrace is not longer than its greatest length.
pub record IsUsable (s : Settings) : Type 0 where
  pub expire : s.memory_expire ≢ 0
  pub backtrace : (s.backtrace_limit ≢ 0) × (slt32 backtrace_max s.backtrace_limit ≡ false)
  pub memblock : s.memblock_limit ≢ 0
  pub callstack : s.callstack_limit ≢ 0

module _ (atoi : List ℕ → ℕ) where
  -- The settings that the options give from others.
  pub record Set (opts : List (ℕ × List ℕ)) (s t : Settings) : Type 0 where
    pub expire : t.memory_expire ≡ read (λ a. long_of (atoi a)) s.memory_expire (last_of b'e' opts)
    pub file : t.debug_info_file ≡ read (λ a. some a) s.debug_info_file (last_of b'd' opts)
    pub backtrace : t.backtrace_limit ≡ read atoi s.backtrace_limit (last_of b'l' opts)
    pub memblock : t.memblock_limit ≡ read atoi s.memblock_limit (last_of b'm' opts)
    pub callstack : t.callstack_limit ≡ read atoi s.callstack_limit (last_of b'c' opts)

  -- What the parsing of options may give.
  abbrev pub Good : List (ℕ × List ℕ) → Settings → Parsed → Type 0
  Good opts s (returns code) = code < 2
  Good opts s (goes_on t) = Set opts s t × IsUsable t

  module _ (optarg : List ℕ) (s : Settings) (u : IsUsable s) where
    Answers : ℕ → Type 0
    Answers ch = Good ((ch, optarg) ∷ []) s (set_option atoi ch optarg s)

    expire_Good : Answers b'e'
    unfolding set_option Answers
    expire_Good = elim (Bool-cases (atoi optarg == 0)) [
      | inl z ↦ rw z (omega arith)
      | inr n ↦ rw n (
        record { expire = refl; file = refl; backtrace = refl; memblock = refl; callstack = refl },
        record {
          expire = ground (arith, n);
          backtrace = u.backtrace;
          memblock = u.memblock;
          callstack = u.callstack;
        },
      )
    ]

    file_Good : Answers b'd'
    unfolding set_option Answers
    file_Good = (
      record { expire = refl; file = refl; backtrace = refl; memblock = refl; callstack = refl },
      record {
        expire = u.expire;
        backtrace = u.backtrace;
        memblock = u.memblock;
        callstack = u.callstack;
      },
    )

    backtrace_Good : Answers b'l'
    unfolding set_option Answers
    backtrace_Good = elim (Bool-cases (atoi optarg == 0)) [
      | inl z ↦ rw z (omega arith)
      | inr n ↦ elim (Bool-cases (slt32 backtrace_max (atoi optarg))) [
        | inl big ↦ rw (n, big) (omega arith)
        | inr fits ↦
            rw (n, fits)
              (
                record {
                  expire = refl;
                  file = refl;
                  backtrace = refl;
                  memblock = refl;
                  callstack = refl;
                },
                record {
                  expire = u.expire;
                  backtrace = (ground (arith, n), fits);
                  memblock = u.memblock;
                  callstack = u.callstack;
                },
              )
      ]
    ]

    memblock_Good : Answers b'm'
    unfolding set_option Answers
    memblock_Good = elim (Bool-cases (atoi optarg == 0)) [
      | inl z ↦ rw z (omega arith)
      | inr n ↦ rw n (
        record { expire = refl; file = refl; backtrace = refl; memblock = refl; callstack = refl },
        record {
          expire = u.expire;
          backtrace = u.backtrace;
          memblock = ground (arith, n);
          callstack = u.callstack;
        },
      )
    ]

    callstack_Good : Answers b'c'
    unfolding set_option Answers
    callstack_Good = elim (Bool-cases (atoi optarg == 0)) [
      | inl z ↦ rw z (omega arith)
      | inr n ↦ rw n (
        record { expire = refl; file = refl; backtrace = refl; memblock = refl; callstack = refl },
        record {
          expire = u.expire;
          backtrace = u.backtrace;
          memblock = u.memblock;
          callstack = ground (arith, n);
        },
      )
    ]

    -- An option gives a code, or its value and usable settings.
    pub set_option-Good : (ch : ℕ) → Good ((ch, optarg) ∷ []) s (set_option atoi ch optarg s)
    unfolding set_option Answers
    set_option-Good ch = elim (Bool-cases (ch == b'e')) [
      | inl e ↦ known b'e' e expire_Good
      | inr e ↦ elim (Bool-cases (ch == b'd')) [
        | inl d ↦ known b'd' d file_Good
        | inr d ↦ elim (Bool-cases (ch == b'l')) [
          | inl l ↦ known b'l' l backtrace_Good
          | inr l ↦ elim (Bool-cases (ch == b'm')) [
            | inl m ↦ known b'm' m memblock_Good
            | inr m ↦ elim (Bool-cases (ch == b'c')) [
              | inl c ↦ known b'c' c callstack_Good
              | inr c ↦ elim (Bool-cases (ch == b'h' || ch == b'v')) [
                | inl h ↦ rw (e, d, l, m, c, h) (omega arith)
                | inr h ↦ rw (e, d, l, m, c, h) (omega arith)
              ]
            ]
          ]
        ]
      ]
    ]
      where
        known : (c : ℕ) → (ch == c) ≡ true → Answers c → Answers ch
        known c e good = subst Answers (sym (equal c e)) good
          where
            equal : (c : ℕ) → (ch == c) ≡ true → ch ≡ c
            equal c e = ground (arith, e)
