-- ===== src/Monitor.antt =====
-- memleax.c: the loop over the stops of the target, as a step on the variables of `main`, and what
-- follows the loop.
pub mod Text
pub mod Loop
pub mod Children
pub mod Finish
pub mod Rounds
pub mod Sound
pub mod Running
pub mod Session
use memleax.Prelude.{
  ℕ, ◌+◌, Bool, true, false, not, ◌&&◌, Option, none, some, List, [], ◌∷◌, ◌++◌, if◌then◌else◌,
  ◌==◌, ltb, length, slt32,
}
use memleax.State.{Tracker, Env}
use memleax.Memblock.{memblock_expire}
use memleax.Machine.{
  Target, Registers, ptrace_get_data, ptrace_set_data, set_breakpoint, is_breakpoint, pc_unwind,
  unwound, call_return_address, call_return_value, call_arg1, call_arg2,
}
use memleax.Breakpoint.{Api, handle}
use memleax.Breakpoint.Table.{Breakpoint, Breakpoints, breakpoint_cleanup, breakpoint_by_entry}

abbrev pub sigtrap : ℕ
sigtrap = 5

abbrev pub sigalrm : ℕ
sigalrm = 14

abbrev pub sigstop : ℕ
sigstop = 19

-- What the loop asks of the kernel besides memory and registers.
pub data Action : Type 0 where
  resume : ℕ → ℕ → Action
  detach : ℕ → Action
  alarm : ℕ → Action

-- How `waitpid` returns: with an error, EINTR or another; for a task that is not stopped; or for
-- one that stopped by a signal, with `status >> 16`.
pub data Stop : Type 0 where
  interrupted : Stop
  wait_failed : Stop
  gone : ℕ → Stop
  stopped : ℕ → ℕ → ℕ → Stop

-- The limits given by the options.
pub record Options : Type 0 where
  pub memory_expire : ℕ
  pub memblock_limit : ℕ
  pub callstack_limit : ℕ

-- `hold_threads` is a stack of at most `hold_max` tasks, its top first.
abbrev pub hold_max : ℕ
hold_max = 1000

module _ (target : Target) where
  open target use {State, get_regs}

  -- The variables of the loop and the static data; `bp` points into the table of breakpoints.
  pub record Monitor : Type 0 where
    pub memory : State
    pub tracker : Tracker
    pub bp : Option Api
    pub return_address : ℕ
    pub return_code : ℕ
    pub arg1 : ℕ
    pub arg2 : ℕ
    pub last_thread : ℕ
    pub hold_threads : List ℕ
    pub signo : ℕ
    pub actions : List Action

  -- What one round learns: how `waitpid` returned, the target as it then stands, the signal that
  -- came in since the last round (0 for none), whether the task is a thread of the target, the
  -- answers for the handler, and the clock of `memblock_expire`.
  pub record Round : Type 0 where
    pub stop : Stop
    pub memory : State
    pub signal : ℕ
    pub is_thread : Bool
    pub env : Env
    pub now : ℕ

  -- The loop goes on, ends by `break`, or memleax itself faults.
  pub data Outcome : Type 0 where
    next : Monitor → Outcome
    leave : Monitor → Outcome
    fault : Outcome

module _ (target : Target) (options : Options) (bps : Breakpoints) (target_pid : ℕ) where
  open target use {State, get_regs}

  abbrev act : Action → Monitor target → Monitor target
  act a m = record m { actions = m.actions ++ a ∷ [] }

  -- `lexpire`: check for expired blocks, set the alarm, and resume the task.
  abbrev expired_then : ℕ → Monitor target → Option (ℕ × Tracker) → Outcome target
  expired_then pid m none = fault
  expired_then pid m (some (seconds, t)) =
      if slt32 seconds 0
      then leave (record m { tracker = t })
      else next (act (resume pid 0) (act (alarm seconds) (record m { tracker = t })))

  unfoldable pub expire_and_resume : ℕ → ℕ → Monitor target → Outcome target
  expire_and_resume now pid m = expired_then pid m (
      memblock_expire now options.memory_expire options.memblock_limit options.callstack_limit
        m.tracker)

  -- "wakeup one hold-thread"
  abbrev wake_up : List ℕ → Monitor target → Monitor target
  wake_up [] m = m
  wake_up (pid ∷ rest) m = act (resume pid 0) (record m { hold_threads = rest })

  abbrev handled : ℕ → ℕ → Monitor target → Option (ℕ × Tracker) → Outcome target
  handled now pid m none = fault
  handled now pid m (some (code, t)) =
      let m' = record m { tracker = t } in
      if code == 0 then expire_and_resume now pid (wake_up m'.hold_threads m') else leave m'

  -- "at function return"; without a breakpoint a null pointer is read.
  abbrev at_return : Round target → ℕ → Registers → Monitor target → Option Api → Outcome target
  at_return r pid regs m none = fault
  at_return r pid regs m (some api) =
      handled r.now pid (record m { return_address = 0 })
        (handle api (record (r.env) { entry = (bps api).entry_address })
          (call_return_value target regs) m.arg1 m.arg2 m.tracker)

  -- "at function entry": recover the entry, set a breakpoint at the return address, save arguments.
  unfoldable pub at_entry : ℕ → Registers → Api → Monitor target → Monitor target
  at_entry pid regs api m =
      let s₁ = ptrace_set_data target m.memory pid (bps api).entry_address (bps api).entry_code in
      let address = call_return_address target s₁ pid regs in
      let code = ptrace_get_data target s₁ pid address in
      record m {
        memory = set_breakpoint target s₁ pid address code;
        bp = some api;
        return_address = address;
        return_code = code;
        arg1 = call_arg1 target s₁ pid regs;
        arg2 = call_arg2 target s₁ pid regs;
        last_thread = pid;
      }

  -- Recover the return code and set the breakpoint at the entry again.
  abbrev rearmed : ℕ → Monitor target → Option Api → Option (Monitor target)
  rearmed pid m none = none
  rearmed pid m (some api) =
      let s₁ = ptrace_set_data target m.memory pid m.return_address m.return_code in
      some (record m {
        memory = set_breakpoint target s₁ pid (bps api).entry_address (bps api).entry_code;
      })

  unfoldable pub disarm_return : ℕ → Monitor target → Option (Monitor target)
  disarm_return pid m = if m.return_address == 0 then some m else rearmed pid m m.bp

  -- At an entry, or at neither a return nor an entry.
  abbrev elsewhere : Round target → ℕ → Registers → Monitor target → Option Api → Outcome target
  elsewhere r pid regs m (some api) = expire_and_resume r.now pid (at_entry pid regs api m)
  elsewhere r pid regs m none =
      let m' = record m { bp = none } in
      if is_breakpoint target m.memory pid regs.rip
      then leave m'
      else expire_and_resume r.now pid m'

  abbrev dispatched : Round target → ℕ → Registers → Option (Monitor target) → Outcome target
  dispatched r pid regs none = fault
  dispatched r pid regs (some m) =
      if regs.rip == m.return_address
      then at_return r pid regs m m.bp
      else elsewhere r pid regs m (breakpoint_by_entry bps regs.rip)

  -- A SIGTRAP that is no new child: unwind, and hold the task if another is in a function.
  unfoldable pub on_trap : Round target → ℕ → Monitor target → Outcome target
  unfolding expire_and_resume at_entry disarm_return
  on_trap r pid m =
      let regs = unwound target (get_regs m.memory pid) in
      let m' = record m { memory = pc_unwind target m.memory pid (get_regs m.memory pid) } in
      if not (m.return_address == 0) && not (m.last_thread == pid)
      then (if ltb (length m.hold_threads) hold_max
          then next (record m' { hold_threads = pid ∷ m.hold_threads })
          else fault)
      else dispatched r pid regs (disarm_return pid m')

  -- SIGSTOP: by the signal handler, at the first instruction of a thread, or of a child process.
  unfoldable pub on_sigstop : Round target → ℕ → Monitor target → Outcome target
  unfolding expire_and_resume breakpoint_cleanup
  on_sigstop r pid m =
      if m.signo == sigalrm
      then expire_and_resume r.now pid (record m { signo = 0 })
      else if not (m.signo == 0)
      then leave m
      else if r.is_thread
      then next (act (resume pid 0) m)
      else next
          (act (detach pid) (record m { memory = breakpoint_cleanup target m.memory pid bps }))

  unfoldable pub on_stop : Round target → ℕ → ℕ → ℕ → Monitor target → Outcome target
  unfolding on_trap on_sigstop
  on_stop r pid signum event m =
      if signum == sigstop
      then on_sigstop r pid m
      else if not (signum == sigtrap)
      then next (act (resume pid signum) m)
      else if not (event == 0)
      then next (act (resume pid 0) m)
      else on_trap r pid m

  abbrev waited : Round target → Stop → Monitor target → Outcome target
  waited r interrupted m = next m
  waited r wait_failed m = leave m
  waited r (gone pid) m = if pid == target_pid then leave m else next m
  waited r (stopped pid signum event) m = on_stop r pid signum event m

  -- One round of `while (1)`.
  unfoldable pub step : Round target → Monitor target → Outcome target
  unfolding on_stop
  step r m =
      waited r r.stop
        (record m { memory = r.memory; signo = if r.signal == 0 then m.signo else r.signal })

  -- "clean up, entry and return point"
  unfoldable pub finish : Monitor target → Monitor target
  unfolding breakpoint_cleanup
  finish m =
      let s₁ = breakpoint_cleanup target m.memory target_pid bps in
      let s₂ =
        if m.return_address == 0
        then s₁
        else ptrace_set_data target s₁ target_pid m.return_address m.return_code in
      act (detach target_pid) (record m { memory = s₂ })
