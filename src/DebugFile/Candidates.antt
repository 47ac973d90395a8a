-- ===== src/DebugFile/Candidates.antt =====
-- The calls of debug_try_get give the valid candidates in order, and then NULL.
use memleax.Prelude.{
  inr, zero, inl, suc, Bool-cases, Option-cases, arith, length, ◌==◌, false, if◌then◌else◌, ◌≢◌, ℕ,
  ◌≡◌, refl, Bool, Option, none, some, List, [], ◌∷◌,
}
use memleax.DebugFile.{Files, File, Trying, elf_build_id, debug_valid}
use memleax.DebugFile.Tries.{
  Answer, given, null, exits, build_id_path, beside_path, hidden_path, system_path, checked, case_5,
  case_4, case_3, case_2, debug_try_get,
}

abbrev pub is_valid : Files → Trying → List ℕ → Bool
is_valid files t path = elim (debug_valid files t path) [ none ↦ false | some valid ↦ valid ]

abbrev pub kept : (List ℕ → Bool) → List (List ℕ) → List (List ℕ)
kept valid [] = []
kept valid (path ∷ rest) = let later = kept valid rest in if valid path then path ∷ later else later

-- The candidates behind the file itself.
abbrev pub separate : Trying → List (List ℕ)
separate t =
    let others = beside_path t ∷ hidden_path t ∷ system_path t ∷ [] in
    if length t.build_id == 0 then others else build_id_path t.build_id ∷ others

-- What the calls are still to give, by the index.
unfoldable pub remaining : Files → Trying → List (List ℕ)
remaining files t =
    if t.next_case == 1
    then t.path ∷ kept (is_valid files t) (separate t)
    else if t.next_case == 2
    then kept (is_valid files t) (separate t)
    else if t.next_case == 3
    then kept (is_valid files t) (beside_path t ∷ hidden_path t ∷ system_path t ∷ [])
    else if t.next_case == 4
    then kept (is_valid files t) (hidden_path t ∷ system_path t ∷ [])
    else if t.next_case == 5
    then kept (is_valid files t) (system_path t ∷ [])
    else []

-- No file has a build id that does not fit.
abbrev pub Sound : Files → Type 0
Sound files =
    (path : List ℕ) (file : File) → files path ≡ some file → elf_build_id (some file) ≢ none

-- One call: the first of what remains, with the others remaining, or NULL when nothing does.
pub data Pops (files : Files) : List (List ℕ) → Option (Answer × Trying) → Type 0 where
  next :
      (path : List ℕ) (rest : List (List ℕ)) (t' : Trying)
      → remaining files t' ≡ rest
      → t'.next_case ≢ 0
      → Pops files (path ∷ rest) (some (given path, t'))
  done : (t' : Trying) → Pops files [] (some (null, t'))

-- Call after call, until one gives no path; `none` for a fault or too little fuel.
abbrev pub onward : Option (List (List ℕ) × Answer) → List ℕ → Option (List (List ℕ) × Answer)
onward none path = none
onward (some (paths, last)) path = some (path ∷ paths, last)

unfoldable pub all_tries : Files → Option (List ℕ) → ℕ → Trying → Option (List (List ℕ) × Answer)
unfolding debug_try_get
all_tries files opt zero t = none
all_tries files opt (suc fuel) t = elim (debug_try_get files opt t) [
  | none ↦ none
  | some (given path, t') ↦ onward (all_tries files opt fuel t') path
  | some (null, t') ↦ some ([], null)
  | some (exits, t') ↦ some ([], exits)
]

module _ (files : Files) (sound : Sound files) where
  never_faults : (t : Trying) (path : List ℕ) → debug_valid files t path ≢ none
  unfolding debug_valid
  never_faults t path h = elim (Option-cases (files path)) [
    | inl e ↦ ground (arith, e, h)
    | inr (file, e) ↦ ground (arith, e, h, sound path file e)
  ]

  pub no_fault :
      (t : Trying) (path : List ℕ) → debug_valid files t path ≡ some (is_valid files t path)
  no_fault t path = elim (Option-cases (debug_valid files t path)) [
    | inl e ↦ absurd (never_faults t path e)
    | inr (valid, e) ↦ ground (arith, e)
  ]

  attempt-Pops :
      (t : Trying) (path : List ℕ) (others : List (List ℕ)) (otherwise : Option (Answer × Trying))
      → remaining files t ≡ kept (is_valid files t) others
      → t.next_case ≢ 0
      → Pops files (kept (is_valid files t) others) otherwise
      → Pops files
          (kept (is_valid files t) (path ∷ others))
          (checked files (debug_valid files t path) t path otherwise)
  attempt-Pops t path others otherwise e nonzero rest =
      rw (no_fault t path) (elim (Bool-cases (is_valid files t path)) [
        | inl v ↦ rw v (next path _ t e nonzero)
        | inr v ↦ rw v rest
      ])

  case_5-Pops :
      (t : Trying) → Pops files (kept (is_valid files t) (system_path t ∷ [])) (case_5 files t)
  unfolding remaining debug_valid
  case_5-Pops t = attempt-Pops (record t { next_case = 6 }) _ [] _ refl (omega arith) (done _)

  case_4-Pops :
      (t : Trying)
      → Pops files (kept (is_valid files t) (hidden_path t ∷ system_path t ∷ [])) (case_4 files t)
  unfolding remaining debug_valid
  case_4-Pops t =
      attempt-Pops (record t { next_case = 5 }) _ (system_path t ∷ []) _ refl (omega arith)
        (case_5-Pops t)

  case_3-Pops :
      (t : Trying)
      → Pops files
          (kept (is_valid files t) (beside_path t ∷ hidden_path t ∷ system_path t ∷ []))
          (case_3 files t)
  unfolding remaining debug_valid
  case_3-Pops t =
      attempt-Pops (record t { next_case = 4 }) _ (hidden_path t ∷ system_path t ∷ []) _ refl
        (omega arith) (case_4-Pops t)

  case_2-Pops : (t : Trying) → Pops files (kept (is_valid files t) (separate t)) (case_2 files t)
  unfolding remaining debug_valid
  case_2-Pops t = elim (Bool-cases (length t.build_id == 0)) [
    | inl e ↦ rw e (case_3-Pops t)
    | inr e ↦ rw e (
        attempt-Pops (record t { next_case = 3 }) _
          (beside_path t ∷ hidden_path t ∷ system_path t ∷ []) _ refl (omega arith) (case_3-Pops t))
  ]

  -- The order of the candidates, and that no call faults.
  pub debug_try_get-Pops :
      (opt : Option (List ℕ)) (t : Trying)
      → t.next_case ≢ 0
      → Pops files (remaining files t) (debug_try_get files opt t)
  unfolding remaining debug_try_get debug_valid
  debug_try_get-Pops opt t nonzero =
      let zero' : (t.next_case == 0) ≡ false = ground (arith, nonzero) in
      rw zero' (elim (Bool-cases (t.next_case == 1)) [
        | inl e ↦ rw e (next _ _ (record t { next_case = 2 }) refl (omega arith))
        | inr e₁ ↦ rw e₁ (elim (Bool-cases (t.next_case == 2)) [
          | inl e ↦ rw e (case_2-Pops t)
          | inr e₂ ↦ rw e₂ (elim (Bool-cases (t.next_case == 3)) [
            | inl e ↦ rw e (case_3-Pops t)
            | inr e₃ ↦ rw e₃ (elim (Bool-cases (t.next_case == 4)) [
              | inl e ↦ rw e (case_4-Pops t)
              | inr e₄ ↦ rw e₄ (elim (Bool-cases (t.next_case == 5)) [
                | inl e ↦ rw e (case_5-Pops t)
                | inr e ↦ rw e (done t)
              ])
            ])
          ])
        ])
      ])
