-- ===== src/ProcInfo/Walks.antt =====
-- A walk call by call gives what one pass over the whole file gives, and ends as it began.
use memleax.Prelude.{
  ◌∙◌, inl, inr, Bool-cases, ◌≤◌, arith, ◌==◌, length, not, ◌<◌, if◌then◌else◌, ℕ, zero, suc, ◌≡◌,
  refl, Option, none, some, List, [], ◌∷◌,
}
use memleax.ProcInfo.{
  Line, Proc, Next, item, over, exits, Map, is_code, map_of, fgets_loop, proc_maps, readdir_loop,
  proc_tasks,
}

-- A call gives the first item of a pass over what is to be read, and leaves the rest.
module _ {ℓ ℓ'} {A S : Type ℓ} {X : Type ℓ'} (from : X → S) (pass : X → List A) (size : X → ℕ)
    (end : S) where
  pub data Gives (x : X) : List A → Next A × S → Type (ℓ ⊔ ℓ') where
    gives : (a : A) (rest : X) → size rest < size x → Gives x (a ∷ pass rest) (item a, from rest)
    ends : Gives x [] (over, end)

  pub Gives-mono :
      (x y : X)
      → size x ≤ size y
      → {items : List A} {r : Next A × S} → Gives x items r
      → Gives y items r
  Gives-mono x y h (gives a rest smaller) = gives a rest (omega arith)
  Gives-mono x y h ends = ends

-- The items of the calls up to the first that gives none, and the state then; `none` if memleax exits
-- or the fuel does not suffice.
module _ {ℓ} {A S : Type ℓ} (call : S → Next A × S) where
  abbrev pub continued : Next A → S → Option (List A × S) → Option (List A × S)
  continued (item a) s none = none
  continued (item a) s (some (items, end)) = some (a ∷ items, end)
  continued over s later = some ([], s)
  continued exits s later = none

  unfoldable pub walk : ℕ → S → Option (List A × S)
  walk zero s = none
  walk (suc fuel) s = continued (call s).0 (call s).1 (walk fuel (call s).1)

  pub walk_congr : (fuel : ℕ) (s s' : S) → call s ≡ call s' → walk (suc fuel) s ≡ walk (suc fuel) s'
  unfolding walk
  walk_congr fuel s s' e = λ i. continued (e i).0 (e i).1 (walk fuel (e i).1)

  module _ {ℓ'} {X : Type ℓ'} (from : X → S) (pass : X → List A) (size : X → ℕ) (end : S) where
    continued_lem :
        (fuel : ℕ) (x : X)
        → ((rest : X) → size rest < size x → walk fuel (from rest) ≡ some (pass rest, end))
        → {items : List A} {r : Next A × S} → Gives from pass size end x items r
        → continued r.0 r.1 (walk fuel r.1) ≡ some (items, end)
    continued_lem fuel x ih (gives a rest h) = rw (ih rest h) refl
    continued_lem fuel x ih ends = refl

    pub walk-pass :
        ((x : X) → Gives from pass size end x (pass x) (call (from x)))
        → (fuel : ℕ) (x : X) → size x < fuel
        → walk fuel (from x) ≡ some (pass x, end)
    unfolding walk
    walk-pass each zero x h = absurd (omega arith)
    walk-pass each (suc fuel) x h =
        continued_lem fuel x (λ rest smaller. walk-pass each fuel rest (omega arith)) (each x)

-- The maps of the lines that are code, in order.
abbrev pub code_maps : List ℕ → List Line → List Map
code_maps exe_name [] = []
code_maps exe_name (line ∷ rest) =
    let later = code_maps exe_name rest in
    if is_code line then map_of exe_name line ∷ later else later

-- The tasks that have a number.
abbrev pub numbered : List ℕ → List ℕ
numbered [] = []
numbered (task_id ∷ rest) =
    let later = numbered rest in if not (task_id == 0) then task_id ∷ later else later

module _ (proc : Proc) where
  maps-Gives :
      (exe_name : List ℕ) (lines : List Line)
      → Gives
          (λ rest. some (rest, exe_name))
          (code_maps exe_name)
          length
          none
          lines
          (code_maps exe_name lines)
          (fgets_loop exe_name lines)
  unfolding fgets_loop
  maps-Gives exe_name [] = ends
  maps-Gives exe_name (line ∷ rest) = elim (Bool-cases (is_code line)) [
    | inl e ↦ rw e (gives _ rest (omega arith))
    | inr e ↦ rw e (Gives-mono _ _ _ _ rest (line ∷ rest) (omega arith) (maps-Gives exe_name rest))
  ]

  tasks-Gives :
      (entries : List ℕ)
      → Gives some numbered length none entries (numbered entries) (readdir_loop entries)
  unfolding readdir_loop
  tasks-Gives [] = ends
  tasks-Gives (task_id ∷ rest) = elim (Bool-cases (task_id == 0)) [
    | inr e ↦ rw e (gives _ rest (omega arith))
    | inl e ↦ rw e (Gives-mono _ _ _ _ rest (task_id ∷ rest) (omega arith) (tasks-Gives rest))
  ]

  -- The maps can be read. The calls of proc_maps from a state with no file open give, one by one and
  -- in order, the lines that `sscanf` reads eight items of, with execute permission and an absolute
  -- path, each with its addresses and whether it is the program's own file; then NULL, and again no
  -- file is open. As many calls as there are lines and one more are enough.
  pub walk-proc_maps :
      (lines : List Line) (exe_name : List ℕ)
      → proc.maps ≡ some lines
      → proc.exe ≡ some exe_name
      → walk (proc_maps proc) (suc (length lines)) none ≡ some (code_maps exe_name lines, none)
  unfolding proc_maps
  walk-proc_maps lines exe_name e₁ e₂ =
      walk_congr (proc_maps proc) (length lines) none (some (lines, exe_name)) (rw (e₁, e₂) refl)
      ∙ walk-pass (proc_maps proc) (λ rest. some (rest, exe_name)) (code_maps exe_name) length none
          (maps-Gives exe_name) (suc (length lines)) lines (omega arith)

  -- The task directory can be read. The calls of proc_tasks give its numbered entries in order, then
  -- 0, and again no directory is open.
  pub walk-proc_tasks :
      (entries : List ℕ)
      → proc.task ≡ some entries
      → walk (proc_tasks proc) (suc (length entries)) none ≡ some (numbered entries, none)
  unfolding proc_tasks
  walk-proc_tasks entries e =
      walk_congr (proc_tasks proc) (length entries) none (some entries) (rw e refl)
      ∙ walk-pass (proc_tasks proc) some numbered length none tasks-Gives (suc (length entries))
          entries (omega arith)
