-- ===== src/DebugFile/Walk.antt =====
-- All the calls of debug_try_get for a file.
use memleax.Prelude.{
  false, inl, inr, Bool-cases, ap, ◌∙◌, true, ◌==◌, zero, suc, arith, ◌<◌, ◌≤◌, if◌then◌else◌,
  length, ◌≢◌, ℕ, ◌≡◌, refl, Bool, Option, none, some, List, [], ◌∷◌,
}
use memleax.DebugFile.{Files, Trying, debug_valid}
use memleax.DebugFile.Tries.{Answer, given, null, exits, debug_try_get, case_1}
use memleax.DebugFile.Candidates.{
  is_valid, kept, separate, remaining, Sound, Pops, next, done, onward, all_tries,
  debug_try_get-Pops, no_fault,
}

-- What the calls for a file give in all: the file that the user names for the program, if it is valid,
-- or else the end of memleax; then the file itself, and the valid ones of the other candidates.
abbrev pub tries : Files → Option (List ℕ) → Trying → List (List ℕ) × Answer
tries files opt t =
    let own = t.path ∷ kept (is_valid files t) (separate t) in
    elim opt [
      | none ↦ (own, null)
      | some path ↦
          if t.exe_self
          then (if is_valid files t path then (path ∷ own, null) else ([], exits))
          else (own, null)
    ]

length-kept :
    (valid : List ℕ → Bool) (paths : List (List ℕ)) → length (kept valid paths) ≤ length paths
length-kept valid [] = omega arith
length-kept valid (path ∷ rest) = ground (arith, length-kept valid rest)

module _ (files : Files) (sound : Sound files) (opt : Option (List ℕ)) where
  abbrev after_call : ℕ → Option (Answer × Trying) → Option (List (List ℕ) × Answer)
  after_call fuel r = elim r [
    | none ↦ none
    | some (given path, t') ↦ onward (all_tries files opt fuel t') path
    | some (null, t') ↦ some ([], null)
    | some (exits, t') ↦ some ([], exits)
  ]

  after_call-Pops :
      (fuel : ℕ)
      → ((t' : Trying)
          → t'.next_case ≢ 0
          → length (remaining files t') < fuel
          → all_tries files opt fuel t' ≡ some (remaining files t', null))
      → {l : List (List ℕ)} {r : Option (Answer × Trying)} → Pops files l r
      → length l ≤ fuel
      → after_call fuel r ≡ some (l, null)
  after_call-Pops fuel ih (done t') h = refl
  after_call-Pops fuel ih (next path rest t' e nonzero) h = rw (ih t' nonzero (rw e h), e) refl

  all_tries-remaining :
      (fuel : ℕ) (t : Trying)
      → t.next_case ≢ 0
      → length (remaining files t) < fuel
      → all_tries files opt fuel t ≡ some (remaining files t, null)
  unfolding all_tries
  all_tries-remaining zero t nonzero h = absurd (omega arith)
  all_tries-remaining (suc fuel) t nonzero h =
      after_call-Pops fuel (all_tries-remaining fuel) (debug_try_get-Pops files sound opt t nonzero)
        (omega arith)

  call_lem :
      (fuel : ℕ) (t : Trying)
      → all_tries files opt (suc fuel) t ≡ after_call fuel (debug_try_get files opt t)
  unfolding all_tries
  call_lem fuel t = refl

  few_remain : (t : Trying) → length (kept (is_valid files t) (separate t)) ≤ 4
  few_remain t =
      let short : length (separate t) ≤ 4 = ground arith in
      omega (arith, short, length-kept (is_valid files t) (separate t))

  -- From the file itself on.
  own_lem :
      (t : Trying)
      → t.next_case ≡ 1
      → all_tries files opt 6 t ≡ some (t.path ∷ kept (is_valid files t) (separate t), null)
  unfolding remaining
  own_lem t one =
      let one' : (t.next_case == 1) ≡ true = ground (arith, one) in
      let rest : remaining files t ≡ t.path ∷ kept (is_valid files t) (separate t) = rw one' in
      all_tries-remaining 6 t (omega arith) (rw rest (omega (arith, few_remain t)))
      ∙ ap (λ l. some (l, null)) rest

  case_1-own :
      (t : Trying)
      → after_call 6 (case_1 files t) ≡ some (t.path ∷ kept (is_valid files t) (separate t), null)
  unfolding remaining debug_valid
  case_1-own t =
      let t' : Trying = record t { next_case = 2 } in
      let few : length (remaining files t') < 6 = omega (arith, few_remain t) in
      ap (λ r. onward r t.path) (all_tries-remaining 6 t' (omega arith) few)

-- No file has a build id that does not fit. The calls after debug_try_init never fault, and seven
-- of them come to NULL or to the end of memleax. Those before give, each once and in this order: for
-- the program itself, the file that the user names, if it is valid, or else memleax ends with no
-- path given; then the file itself; and the valid ones of the four other places.
pub all_tries_lem :
    (files : Files)
    → Sound files
    → (opt : Option (List ℕ)) (t : Trying) → t.next_case ≡ 0
    → all_tries files opt 7 t ≡ some (tries files opt t)
unfolding debug_try_get debug_valid
all_tries_lem files sound none t zero' =
    let first : (t.next_case == 0) ≡ true = ground (arith, zero') in
    call_lem files sound none 6 t
    ∙ rw first (case_1-own files sound none (record t { next_case = 1 }))
all_tries_lem files sound (some path) t zero' =
    let first : (t.next_case == 0) ≡ true = ground (arith, zero') in
    call_lem files sound (some path) 6 t
    ∙ rw first (elim (Bool-cases t.exe_self) [
      | inr other ↦
          rw other
            (case_1-own files sound (some path) (record t { next_case = 1; exe_self = false }))
      | inl own ↦
          let t₁ : Trying = record t { next_case = 1 } in
          rw (own, no_fault files sound t₁ path)
            (elim (Bool-cases (is_valid files t₁ path)) [
              | inr e ↦ rw e refl
              | inl e ↦ rw e (
                  ap (λ r. onward r path)
                    (own_lem files sound (some path) (record t { next_case = 1; exe_self = true })
                      refl))
            ])
    ])
