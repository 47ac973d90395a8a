-- ===== src/Options/Attached.antt =====
-- The start of memleax.c: which tasks are attached, and in which order.
use memleax.Prelude.{
  Bool, ◌==◌, ◌&&◌, ltb, ◌%◌, ◌^◌, arith, Bool-cases, inl, inr, ap, if◌then◌else◌, ◌∙◌, ℕ, suc,
  none, some, List, [], ◌∷◌, ◌++◌, ◌≡◌, refl, length, slt32,
}
use memleax.Machine.{Target}
use memleax.Breakpoint.{Api}
use memleax.Breakpoint.Table.{Breakpoints, breakpoint_init}
use memleax.ProcInfo.{Proc, proc_tasks}
use memleax.ProcInfo.Walks.{numbered, walk-proc_tasks}
use memleax.ProcInfo.Repeats.{for_each, repeat-for_each}
use memleax.Options.{
  Request, attach, wait, trace_child, set_breakpoints, resume, asked, attach_loop, start_up,
}

-- Whether a number is positive as an int.
abbrev pub is_positive : ℕ → Bool
is_positive t = ltb 0 (t % 2 ^ 32) && ltb (t % 2 ^ 32) (2 ^ 31)

-- The tasks before the first number that is not positive.
abbrev pub positive : List ℕ → List ℕ
positive [] = []
positive (t ∷ rest) = let later = positive rest in if is_positive t then t ∷ later else []

-- The tasks that are not the target.
abbrev pub others : ℕ → List ℕ → List ℕ
others target_pid [] = []
others target_pid (t ∷ rest) =
    let later = others target_pid rest in if t == target_pid then later else t ∷ later

-- What is asked of the kernel to attach some tasks, each before the next.
abbrev pub attached : List ℕ → List Request
attached [] = []
attached (t ∷ rest) = attach t ∷ wait t ∷ trace_child t ∷ resume t ∷ attached rest

is_positive_lem : (t : ℕ) → slt32 0 t ≡ is_positive t
is_positive_lem t = ground arith

for_each-attached :
    (proc : Proc) (target_pid : ℕ) (tasks : List ℕ)
    → for_each (proc_tasks proc) (asked target_pid) [] tasks
      ≡ some (attached (others target_pid (positive tasks)))
for_each-attached proc target_pid [] = refl
for_each-attached proc target_pid (t ∷ rest) =
    ap (asked target_pid t) (for_each-attached proc target_pid rest)
    ∙ (elim (Bool-cases (is_positive t)) [
      | inl e ↦ elim (Bool-cases (t == target_pid)) [
        | inl f ↦ rw (asked, is_positive_lem t, e, f) refl
        | inr f ↦ rw (asked, is_positive_lem t, e, f) refl
      ]
      | inr e ↦ rw (asked, is_positive_lem t, e) refl
    ])

module _ (proc : Proc) (target_pid : ℕ) (entries : List ℕ)
    (readable : proc.task ≡ some entries) where
  attach_loop-attached :
      attach_loop (suc (length entries)) proc target_pid none
      ≡ some (attached (others target_pid (positive (numbered entries))))
  unfolding attach_loop
  attach_loop-attached =
      repeat-for_each (proc_tasks proc) (asked target_pid) [] (suc (length entries)) none
        (numbered entries) none (walk-proc_tasks proc entries readable)
      ∙ for_each-attached proc target_pid (numbered entries)

  -- The task directory can be read, and the breakpoints can be set. Then memleax attaches, waits
  -- for, traces and resumes one task after the other: those that are numbered in the directory, in
  -- its order and up to the first number that is not positive, but not the target. After them it
  -- attaches, waits for and traces the target, sets the breakpoints, and only then resumes it. As
  -- many calls as there are entries and one more are enough.
  pub start_up-attached :
      (target : Target) (s : target.State) (symtab_by_name : Api → ℕ) (bps : Breakpoints)
      (s' : target.State)
      → breakpoint_init target s target_pid symtab_by_name ≡ some (bps, s')
      → start_up target proc (suc (length entries)) target_pid s symtab_by_name
        ≡ some (
          attached (others target_pid (positive (numbered entries)))
              ++ attach target_pid
                ∷ wait target_pid
                ∷ trace_child target_pid
                ∷ set_breakpoints target_pid
                ∷ resume target_pid
                ∷ [],
          bps,
          s',
        )
  unfolding start_up
  start_up-attached target s symtab_by_name bps s' e = rw (start_up, attach_loop-attached, e) refl
