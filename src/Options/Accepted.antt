-- ===== src/Options/Accepted.antt =====
-- The options of memleax.c: which are accepted, and with which values.
use memleax.Prelude.{
  ◌∙◌, inr, inl, Bool-cases, ◌<◌, ℕ, Option, none, some, List, [], ◌∷◌, ◌≡◌, ◌≢◌, refl, arith, ◌==◌,
  long_of,
}
use memleax.Options.{
  Settings, defaults, Parsed, returns, goes_on, set_option, getopt_loop, set_pid, parse_options,
}
use memleax.Options.Values.{last_of, later_or, read, Set, IsUsable, Good, set_option-Good}

module _ (atoi : List ℕ → ℕ) where
  merged {ℓ} :
      {A : Type ℓ} (f : List ℕ → A) (l first : Option (List ℕ)) (a b c : A)
      → b ≡ read f a first
      → c ≡ read f b l
      → c ≡ read f a (later_or first l)
  merged f none first a b c h k = k ∙ h
  merged f (some later) first a b c h k = k

  -- One option and then others.
  Set_cons :
      (o : ℕ × List ℕ) (rest : List (ℕ × List ℕ)) (s t u : Settings)
      → Set atoi (o ∷ []) s t
      → Set atoi rest t u
      → Set atoi (o ∷ rest) s u
  Set_cons (ch, optarg) rest s t u x y = record {
    expire = merged (λ a. long_of (atoi a)) (last_of b'e' rest) _ _ _ _ x.expire y.expire;
    file = merged (λ a. some a) (last_of b'd' rest) _ _ _ _ x.file y.file;
    backtrace = merged atoi (last_of b'l' rest) _ _ _ _ x.backtrace y.backtrace;
    memblock = merged atoi (last_of b'm' rest) _ _ _ _ x.memblock y.memblock;
    callstack = merged atoi (last_of b'c' rest) _ _ _ _ x.callstack y.callstack;
  }

  getopt_loop-Good :
      (opts : List (ℕ × List ℕ)) (s : Settings)
      → IsUsable s
      → Good atoi opts s (getopt_loop atoi opts s)
  unfolding getopt_loop
  getopt_loop-Good [] s u = (
    record { expire = refl; file = refl; backtrace = refl; memblock = refl; callstack = refl },
    u,
  )
  getopt_loop-Good ((ch, optarg) ∷ rest) s u =
      go (set_option atoi ch optarg s) (set_option-Good atoi optarg s u ch)
        (λ t v. getopt_loop-Good rest t v)
    where
      later :
          (t : Settings) (r : Parsed)
          → Set atoi ((ch, optarg) ∷ []) s t
          → Good atoi rest t r
          → Good atoi ((ch, optarg) ∷ rest) s r
      later t (returns code) x good = good
      later t (goes_on t') x good = (Set_cons (ch, optarg) rest s t t' x good.0, good.1)

      go :
          (r : Parsed)
          → Good atoi ((ch, optarg) ∷ []) s r
          → ((t : Settings) → IsUsable t → Good atoi rest t (getopt_loop atoi rest t))
          → Good atoi
              ((ch, optarg) ∷ rest)
              s
              (elim r [ returns code ↦ returns code | goes_on s' ↦ getopt_loop atoi rest s' ])
      go (returns code) good others = good
      go (goes_on t) good others = later t (getopt_loop atoi rest t) good.0 (others t good.1)

  -- What `main` knows of the options and the arguments when it goes on: each limit is the number of the last
  -- option for it, or its default.
  pub record Accepts (opts : List (ℕ × List ℕ)) (args : List (List ℕ)) (t : Settings) : Type 0 where
    pub given : Set atoi opts defaults t
    pub usable : IsUsable t
    pub pid : (arg : List ℕ) × (args ≡ arg ∷ []) × (t.target_pid ≡ atoi arg) × (t.target_pid ≢ 0)

  -- `main` returns 0, 1 or 2 while it parses, or goes on.
  abbrev pub Parses : List (ℕ × List ℕ) → List (List ℕ) → Parsed → Type 0
  Parses opts args (returns code) = code < 3
  Parses opts args (goes_on t) = Accepts opts args t

  -- Either memleax returns 0, 1 or 2 from the options, or it goes on with one argument, the pid, which is not
  -- zero, with no limit zero, with a backtrace limit of at most 50, and each of them is the number
  -- of the last option for it or else its default.
  pub parse_options-Parses :
      (opts : List (ℕ × List ℕ)) (args : List (List ℕ))
      → Parses opts args (parse_options atoi opts args)
  unfolding parse_options
  parse_options-Parses opts args =
      go (getopt_loop atoi opts defaults)
        (getopt_loop-Good opts defaults (record {
          expire = omega arith;
          backtrace = (omega arith, refl);
          memblock = omega arith;
          callstack = omega arith;
        }))
        args
    where
      go :
          (r : Parsed)
          → Good atoi opts defaults r
          → (args : List (List ℕ))
          → Parses opts args
              (elim r [ returns code ↦ returns code | goes_on s ↦ set_pid atoi args s ])
      go (returns code) good args = omega (arith, good)
      go (goes_on t) good [] = omega arith
      go (goes_on t) (set, usable) (arg ∷ []) = elim (Bool-cases (atoi arg == 0)) [
        | inl z ↦ rw z (omega arith)
        | inr n ↦ rw n (record {
          given = record {
            expire = set.expire;
            file = set.file;
            backtrace = set.backtrace;
            memblock = set.memblock;
            callstack = set.callstack;
          };
          usable = record {
            expire = usable.expire;
            backtrace = usable.backtrace;
            memblock = usable.memblock;
            callstack = usable.callstack;
          };
          pid = (arg, refl, refl, ground (arith, n));
        })
      ]
      go (goes_on t) good (arg ∷ arg' ∷ rest) = omega arith
