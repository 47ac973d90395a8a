-- ===== src/Options.antt =====
-- memleax.c before and after the loop: the options, the attachment to the target's tasks, and the end of
-- `main`. What `getopt` answers, `atoi` and the clock are given.
pub mod Values
pub mod Accepted
pub mod Attached
use memleax.Prelude.{
  ◌||◌, if◌then◌else◌, ℕ, zero, suc, Bool, true, false, not, Option, none, some, List, [], ◌∷◌,
  ◌++◌, ◌==◌, slt32, slt64, sub64, long_of,
}
use memleax.Machine.{Target}
use memleax.ProcInfo.Repeats.{repeat}
use memleax.ProcInfo.{Proc, Tasks, Next, item, over, exits, proc_tasks}
use memleax.Breakpoint.{Api}
use memleax.Breakpoint.Table.{Breakpoints, breakpoint_init}
use memleax.State.{Tracker}
use memleax.Report.{Names, Statistic, callstack_report}
use memleax.Sort.{Qsort}

abbrev pub backtrace_max : ℕ
backtrace_max = 50

-- The variables that the options set; the limits are ints and `memory_expire` is a long.
pub record Settings : Type 0 where
  pub memory_expire : ℕ
  pub debug_info_file : Option (List ℕ)
  pub backtrace_limit : ℕ
  pub memblock_limit : ℕ
  pub callstack_limit : ℕ
  pub target_pid : ℕ

abbrev pub defaults : Settings
defaults = record {
  memory_expire = 10;
  debug_info_file = none;
  backtrace_limit = backtrace_max;
  memblock_limit = 1000;
  callstack_limit = 1000;
  target_pid = 0;
}

-- `main` returns a code, or goes on.
pub data Parsed : Type 0 where
  returns : ℕ → Parsed
  goes_on : Settings → Parsed

module _ (atoi : List ℕ → ℕ) where
  -- The switch: the character that `getopt` returns, and `optarg`.
  unfoldable pub set_option : ℕ → List ℕ → Settings → Parsed
  set_option ch optarg s =
      let n = atoi optarg in
      if ch == b'e'
      then (if n == 0 then returns 1 else goes_on (record s { memory_expire = long_of n }))
      else if ch == b'd'
      then goes_on (record s { debug_info_file = some optarg })
      else if ch == b'l'
      then (if n == 0
          then returns 1
          else if slt32 backtrace_max n
          then returns 1
          else goes_on (record s { backtrace_limit = n }))
      else if ch == b'm'
      then (if n == 0 then returns 1 else goes_on (record s { memblock_limit = n }))
      else if ch == b'c'
      then (if n == 0 then returns 1 else goes_on (record s { callstack_limit = n }))
      else if ch == b'h' || ch == b'v'
      then returns 0
      else returns 1

  unfoldable pub getopt_loop : List (ℕ × List ℕ) → Settings → Parsed
  unfolding set_option
  getopt_loop [] s = goes_on s
  getopt_loop ((ch, optarg) ∷ rest) s = elim (set_option ch optarg s) [
    | returns code ↦ returns code
    | goes_on s' ↦ getopt_loop rest s'
  ]

  -- The pid, which is the only argument that is no option.
  abbrev pub set_pid : List (List ℕ) → Settings → Parsed
  set_pid [] s = returns 1
  set_pid (arg ∷ []) s =
      if atoi arg == 0 then returns 2 else goes_on (record s { target_pid = atoi arg })
  set_pid (arg ∷ arg' ∷ rest) s = returns 1

  unfoldable pub parse_options : List (ℕ × List ℕ) → List (List ℕ) → Parsed
  unfolding getopt_loop
  parse_options opts args = elim (getopt_loop opts defaults) [
    | returns code ↦ returns code
    | goes_on s ↦ set_pid args s
  ]

-- What is asked of the kernel, and where breakpoint_init stands between.
pub data Request : Type 0 where
  attach : ℕ → Request
  wait : ℕ → Request
  trace_child : ℕ → Request
  set_breakpoints : ℕ → Request
  resume : ℕ → Request

-- The body of the loop for one task and then others; a number that is not positive ends it.
abbrev pub asked : ℕ → ℕ → Option (List Request) → Option (List Request)
asked target_pid task_id none = if slt32 0 task_id then none else some []
asked target_pid task_id (some later) = some (
    if slt32 0 task_id
    then (if task_id == target_pid
        then later
        else attach task_id ∷ wait task_id ∷ trace_child task_id ∷ resume task_id ∷ later)
    else [])

-- "attach to all other existing threads"; `none` if memleax exits or the fuel does not suffice.
unfoldable pub attach_loop : ℕ → Proc → ℕ → Tasks → Option (List Request)
unfolding proc_tasks repeat
attach_loop fuel proc target_pid tasks = repeat (proc_tasks proc) (asked target_pid) [] fuel tasks

-- "attach to target and set breakpoint", after the other tasks.
unfoldable pub start_up :
    (target : Target)
    → Proc
    → ℕ
    → ℕ
    → target.State
    → (Api → ℕ)
    → Option (List Request × Breakpoints × target.State)
unfolding attach_loop breakpoint_init
start_up target proc fuel target_pid s symtab_by_name =
    elim (attach_loop fuel proc target_pid none) [
      | none ↦ none
      | some requests ↦ elim (breakpoint_init target s target_pid symtab_by_name) [
        | none ↦ none
        | some (bps, s') ↦ some (
          requests
              ++ attach target_pid
                ∷ wait target_pid
                ∷ trace_child target_pid
                ∷ set_breakpoints target_pid
                ∷ resume target_pid
                ∷ [],
          bps,
          s',
        )
      ]
    ]

-- The end of `main`: the code it returns, and the report.
unfoldable pub end_main :
    Qsort ℕ → (ℕ → Bool) → ℕ → ℕ → ℕ → Names → Tracker → Option (ℕ × List Statistic)
unfolding callstack_report
end_main qsort ok begin now memory_expire names s =
    if slt64 (sub64 now begin) memory_expire
    then some (2, [])
    else elim (callstack_report qsort ok now names s) [ none ↦ none | some r ↦ some (0, r) ]
