-- ===== src/Monitor/Sound.antt =====
-- memleax itself: no round of the loop faults, and the tracker stays consistent.
use memleax.Prelude.{
  if◌then◌else◌, arith, [], slt32, ◌<◌, ◌==◌, Bool-cases, length, ◌∷◌, List, Option, ◌≡◌, ◌≢◌, ℕ,
  refl, none, some, true, false, inl, inr,
}
use memleax.State.{Tracker}
use memleax.Memblock.Lookup.{IsConsistent, Returns, Returns-imp}
use memleax.Memblock.Expiry.{Expired, memblock_expire-Expired}
use memleax.Machine.{is_breakpoint, Target, Registers, unwound}
use memleax.Breakpoint.{Api}
use memleax.Breakpoint.Handlers.{Answers, handle-IsConsistent}
use memleax.Breakpoint.Table.{Breakpoints, breakpoint_by_entry}
use memleax.Monitor.{
  Monitor, Round, Outcome, next, leave, fault, Stop, interrupted, wait_failed, gone, stopped,
  Options, expired_then, expire_and_resume, wake_up, handled, at_return, at_entry, rearmed,
  disarm_return, elsewhere, dispatched, sigtrap, hold_max,
}

module _ (target : Target) (options : Options) (bps : Breakpoints) (target_pid : ℕ) where
  open target use {State, get_regs}

  -- The blocks and callstacks are consistent, and inside a function memleax knows which.
  pub record Sound (m : Monitor target) : Type 0 where
    pub consistent : IsConsistent m.tracker
    pub known : m.return_address ≢ 0 → m.bp ≢ none

  -- The loop goes on soundly, or ends with a consistent tracker; it does not fault.
  abbrev pub GoesOn : Outcome target → Type 0
  GoesOn (next m) = Sound m
  GoesOn (leave m) = IsConsistent m.tracker
  GoesOn fault = ⊥

  -- What memleax relies on where a task traps: not at address 0; inside a function, at its return
  -- address or at an entry; fewer than 1000 threads are held; and the answers that the handler gets.
  pub record ExpectedTrap (r : Round target) (m : Monitor target) (pid : ℕ) : Type 0 where
    pub nonzero : (unwound target (get_regs r.memory pid)).rip ≢ 0
    pub placed :
        m.return_address ≢ 0
        → (unwound target (get_regs r.memory pid)).rip ≢ m.return_address
        → breakpoint_by_entry bps (unwound target (get_regs r.memory pid)).rip ≢ none
    pub room : length m.hold_threads < hold_max
    pub answers :
        (api : Api)
        → m.bp ≡ some api
        → Answers (record (r.env) { entry = (bps api).entry_address }) m.tracker

  abbrev pub Expected : Round target → Monitor target → Stop → Type 0
  Expected r m interrupted = Unit {0}
  Expected r m wait_failed = Unit {0}
  Expected r m (gone pid) = Unit {0}
  Expected r m (stopped pid signum event) = signum ≡ sigtrap → event ≡ 0 → ExpectedTrap r m pid

  expired_then-GoesOn :
      (pid : ℕ) (m : Monitor target) (o : Option (ℕ × Tracker))
      → (m.return_address ≢ 0 → m.bp ≢ none)
      → Returns o (λ x. IsConsistent x.1)
      → GoesOn (expired_then target options bps target_pid pid m o)
  expired_then-GoesOn pid m none known h = h
  expired_then-GoesOn pid m (some (seconds, t)) known h = elim (Bool-cases (slt32 seconds 0)) [
    | inl e ↦ rw e h
    | inr e ↦ rw e (record { consistent = h; known = known })
  ]

  pub expire_and_resume-GoesOn :
      (now pid : ℕ) (m : Monitor target)
      → Sound m
      → GoesOn (expire_and_resume target options bps target_pid now pid m)
  unfolding expire_and_resume
  expire_and_resume-GoesOn now pid m sound = expired_then-GoesOn pid m _ sound.known (
      Returns-imp
        (Expired now options.memory_expire options.memblock_limit options.callstack_limit m.tracker)
        (λ x. IsConsistent x.1) _ (λ x e. e.consistent)
        (memblock_expire-Expired now options.memory_expire options.memblock_limit
          options.callstack_limit m.tracker sound.consistent))

  wake_up-Sound :
      (tasks : List ℕ) (m : Monitor target)
      → Sound m
      → Sound (wake_up target options bps target_pid tasks m)
  wake_up-Sound [] m sound = sound
  wake_up-Sound (pid ∷ rest) m sound = record { consistent = sound.consistent; known = sound.known }

  handled-GoesOn :
      (now pid : ℕ) (m : Monitor target) (o : Option (ℕ × Tracker))
      → m.return_address ≡ 0
      → Returns o (λ x. IsConsistent x.1)
      → GoesOn (handled target options bps target_pid now pid m o)
  handled-GoesOn now pid m none outside h = h
  handled-GoesOn now pid m (some (code, t)) outside h = elim (Bool-cases (code == 0)) [
    | inl e ↦ rw e (
        expire_and_resume-GoesOn now pid _ (
          wake_up-Sound m.hold_threads (record m { tracker = t })
            (record { consistent = h; known = λ inside. absurd (inside outside) })))
    | inr e ↦ rw e h
  ]

  at_return-GoesOn :
      (r : Round target) (pid : ℕ) (regs : Registers) (m : Monitor target) (o : Option Api)
      → o ≢ none
      → IsConsistent m.tracker
      → ((api : Api)
          → o ≡ some api
          → Answers (record (r.env) { entry = (bps api).entry_address }) m.tracker)
      → GoesOn (at_return target options bps target_pid r pid regs m o)
  at_return-GoesOn r pid regs m none there k answers = absurd (there refl)
  at_return-GoesOn r pid regs m (some api) there k answers =
      handled-GoesOn r.now pid (record m { return_address = 0 }) _ refl
        (handle-IsConsistent (record (r.env) { entry = (bps api).entry_address }) m.tracker k
          (answers api refl) api regs.rax m.arg1 m.arg2)

  elsewhere-GoesOn :
      (r : Round target) (pid : ℕ) (regs : Registers) (m : Monitor target) (o : Option Api)
      → Sound m
      → (m.return_address ≢ 0 → o ≢ none)
      → GoesOn (elsewhere target options bps target_pid r pid regs m o)
  unfolding at_entry
  elsewhere-GoesOn r pid regs m (some api) sound entered =
      expire_and_resume-GoesOn r.now pid (at_entry target options bps target_pid pid regs api m)
        (record { consistent = sound.consistent; known = λ inside e. cc })
  elsewhere-GoesOn r pid regs m none sound entered =
      elim (is_breakpoint target m.memory pid regs.rip)
        as (λ b. GoesOn (
          if b
          then leave (record m { bp = none })
          else expire_and_resume target options bps target_pid r.now pid
              (record m { bp = none }))) [
                | true ↦ sound.consistent
                | false ↦ expire_and_resume-GoesOn r.now pid _ (record {
                  consistent = sound.consistent;
                  known = λ inside. absurd (entered inside refl);
                })
              ]

  rearmed_total :
      (pid : ℕ) (m : Monitor target) (o : Option Api)
      → o ≢ none
      → (s : State) × (rearmed target options bps target_pid pid m o
          ≡ some (record m { memory = s }))
  rearmed_total pid m none there = absurd (there refl)
  rearmed_total pid m (some api) there = (_, refl)

  pub disarm_return_total :
      (pid : ℕ) (m : Monitor target)
      → (m.return_address ≢ 0 → m.bp ≢ none)
      → (s : State) × (disarm_return target options bps target_pid pid m
          ≡ some (record m { memory = s }))
  unfolding disarm_return
  disarm_return_total pid m known = elim (Bool-cases (m.return_address == 0)) [
    | inl z ↦ (m.memory, rw z refl)
    | inr n ↦ let (s, e) = rearmed_total pid m m.bp (known (ground (arith, n))) in (s, rw n e)
  ]

  pub dispatched-GoesOn :
      (r : Round target) (pid : ℕ) (regs : Registers) (m : Monitor target)
      → Sound m
      → regs.rip ≢ 0
      → (m.return_address ≢ 0
          → regs.rip ≢ m.return_address
          → breakpoint_by_entry bps regs.rip ≢ none)
      → ((api : Api)
          → m.bp ≡ some api
          → Answers (record (r.env) { entry = (bps api).entry_address }) m.tracker)
      → GoesOn (dispatched target options bps target_pid r pid regs (some m))
  dispatched-GoesOn r pid regs m sound nonzero placed answers =
      elim (Bool-cases (regs.rip == m.return_address)) [
        | inl e ↦
            let inside : m.return_address ≢ 0 = λ z. nonzero (ground (arith, e, z)) in
            rw e (at_return-GoesOn r pid regs m m.bp (sound.known inside) sound.consistent answers)
        | inr e ↦ rw e (
            elsewhere-GoesOn r pid regs m (breakpoint_by_entry bps regs.rip) sound
              (λ inside. placed inside (ground (arith, e))))
      ]
