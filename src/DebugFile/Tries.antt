-- ===== src/DebugFile/Tries.antt =====
-- debug_file.c, debug_try_get: one candidate after another, by the index that is kept between calls.
use memleax.Prelude.{
  ◌-◌, ℕ, ◌+◌, ◌/◌, ◌%◌, Bool, true, false, not, Option, none, some, List, [], ◌∷◌, ◌++◌,
  if◌then◌else◌, ◌==◌, ltb, length, codes,
}
use memleax.DebugFile.{Files, Trying, debug_valid}

-- A path, NULL, or the end of memleax because the file that the user gave is not valid.
pub data Answer : Type 0 where
  given : List ℕ → Answer
  null : Answer
  exits : Answer

abbrev hex_digit : ℕ → ℕ
hex_digit d = if ltb d 10 then b'0' + d else b'a' + (d - 10)

-- "%02x" for each byte
abbrev pub hex : List ℕ → List ℕ
hex [] = []
hex (b ∷ bytes) = hex_digit (b / 16) ∷ hex_digit (b % 16) ∷ hex bytes

-- The paths of the cases 2 to 5.
abbrev pub build_id_path : List ℕ → List ℕ
build_id_path [] = []
build_id_path (b ∷ bytes) =
    codes "/usr/lib/debug/.build-id/" ++ hex (b ∷ []) ++ codes "/" ++ hex bytes ++ codes ".debug"

abbrev pub beside_path : Trying → List ℕ
beside_path t = t.dir ++ codes "/" ++ t.debug_fname

abbrev pub hidden_path : Trying → List ℕ
hidden_path t = t.dir ++ codes "/.debug/" ++ t.debug_fname

abbrev pub system_path : Trying → List ℕ
system_path t = codes "/usr/lib/debug" ++ t.dir ++ codes "/" ++ t.debug_fname

-- `none` for a fault of `debug_valid`.
module _ (files : Files) where
  -- A candidate is returned if it is valid; if not, the next case follows.
  abbrev pub checked :
      Option Bool → Trying → List ℕ → Option (Answer × Trying) → Option (Answer × Trying)
  checked none t path otherwise = none
  checked (some true) t path otherwise = some (given path, t)
  checked (some false) t path otherwise = otherwise

  abbrev attempt : Trying → List ℕ → Option (Answer × Trying) → Option (Answer × Trying)
  attempt t path otherwise = checked (debug_valid files t path) t path otherwise

  abbrev pub case_5 : Trying → Option (Answer × Trying)
  case_5 t = let t' = record t { next_case = 6 } in attempt t' (system_path t') (some (null, t'))

  abbrev pub case_4 : Trying → Option (Answer × Trying)
  case_4 t = let t' = record t { next_case = 5 } in attempt t' (hidden_path t') (case_5 t')

  abbrev pub case_3 : Trying → Option (Answer × Trying)
  case_3 t = let t' = record t { next_case = 4 } in attempt t' (beside_path t') (case_4 t')

  abbrev pub case_2 : Trying → Option (Answer × Trying)
  case_2 t =
      let t' = record t { next_case = 3 } in
      if not (length t.build_id == 0)
      then attempt t' (build_id_path t'.build_id) (case_3 t')
      else case_3 t'

  abbrev pub case_1 : Trying → Option (Answer × Trying)
  case_1 t = some (given t.path, record t { next_case = 2 })

  abbrev pub chosen : Option Bool → Trying → List ℕ → Option (Answer × Trying)
  chosen none t path = none
  chosen (some true) t path = some (given path, t)
  chosen (some false) t path = some (exits, t)

  abbrev pub case_0 : Option (List ℕ) → Trying → Option (Answer × Trying)
  case_0 none t = case_1 (record t { next_case = 1 })
  case_0 (some path) t =
      let t' = record t { next_case = 1 } in
      if t.exe_self then chosen (debug_valid files t' path) t' path else case_1 t'

  -- `opt` is the option `-d`.
  unfoldable pub debug_try_get : Option (List ℕ) → Trying → Option (Answer × Trying)
  debug_try_get opt t =
      if t.next_case == 0
      then case_0 opt t
      else if t.next_case == 1
      then case_1 t
      else if t.next_case == 2
      then case_2 t
      else if t.next_case == 3
      then case_3 t
      else if t.next_case == 4
      then case_4 t
      else if t.next_case == 5
      then case_5 t
      else some (null, t)
