-- ===== src/Monitor/Running.antt =====
-- The loop as a whole: no round of it faults.
use memleax.Prelude.{
  ◌&&◌, not, if◌then◌else◌, ltb, arith, [], ◌==◌, Bool-cases, length, ◌∷◌, List, ◌≡◌, ℕ, true,
  false, inl, inr,
}
use memleax.Machine.{pc_unwind, Target, unwound}
use memleax.Breakpoint.Table.{Breakpoints}
use memleax.Monitor.{
  Monitor, Round, Outcome, next, leave, fault, Stop, interrupted, wait_failed, gone, stopped,
  Options, on_trap, on_sigstop, on_stop, waited, step, sigtrap, sigalrm, sigstop, hold_max,
}
use memleax.Monitor.Sound.{
  Sound, ExpectedTrap, Expected, GoesOn, expire_and_resume-GoesOn, dispatched-GoesOn,
  disarm_return_total,
}

module _ (target : Target) (options : Options) (bps : Breakpoints) (target_pid : ℕ) where
  open target use {State, get_regs}

  on_trap-GoesOn :
      (r : Round target) (pid : ℕ) (m : Monitor target)
      → Sound target options bps target_pid m
      → ExpectedTrap target options bps target_pid (record r { memory = m.memory }) m pid
      → GoesOn target options bps target_pid (on_trap target options bps target_pid r pid m)
  unfolding on_trap
  on_trap-GoesOn r pid m sound trap =
      let regs = unwound target (get_regs m.memory pid) in
      let m' : Monitor target = record m {
        memory = pc_unwind target m.memory pid (get_regs m.memory pid);
      } in
      let room : ltb (length m.hold_threads) hold_max ≡ true = ground (arith, trap.room) in
      let (s, e) = disarm_return_total target options bps target_pid pid m' sound.known in
      elim (Bool-cases (not (m.return_address == 0) && not (m.last_thread == pid))) [
        | inl other ↦
            rw (other, room) (record { consistent = sound.consistent; known = sound.known })
        | inr own ↦
            rw (own, e)
              (dispatched-GoesOn target options bps target_pid r pid regs (record m' { memory = s })
                (record { consistent = sound.consistent; known = sound.known }) trap.nonzero
                trap.placed trap.answers)
      ]

  on_sigstop-GoesOn :
      (r : Round target) (pid : ℕ) (m : Monitor target)
      → Sound target options bps target_pid m
      → GoesOn target options bps target_pid (on_sigstop target options bps target_pid r pid m)
  unfolding on_sigstop
  on_sigstop-GoesOn r pid m sound = elim (Bool-cases (m.signo == sigalrm)) [
    | inl a ↦ rw a (
        expire_and_resume-GoesOn target options bps target_pid r.now pid _
          (record { consistent = sound.consistent; known = sound.known }))
    | inr a ↦ rw a (elim (Bool-cases (m.signo == 0)) [
      | inr z ↦ rw z (sound.consistent)
      | inl z ↦ rw z (elim (Bool-cases r.is_thread) [
        | inl th ↦ rw th (record { consistent = sound.consistent; known = sound.known })
        | inr th ↦ rw th (record { consistent = sound.consistent; known = sound.known })
      ])
    ])
  ]

  on_stop-GoesOn :
      (r : Round target) (pid signum event : ℕ) (m : Monitor target)
      → Sound target options bps target_pid m
      → (signum ≡ sigtrap
          → event ≡ 0
          → ExpectedTrap target options bps target_pid (record r { memory = m.memory }) m pid)
      → GoesOn target options bps target_pid
          (on_stop target options bps target_pid r pid signum event m)
  unfolding on_stop
  on_stop-GoesOn r pid signum event m sound trap = elim (Bool-cases (signum == sigstop)) [
    | inl a ↦ rw a (on_sigstop-GoesOn r pid m sound)
    | inr a ↦ rw a (elim (Bool-cases (signum == sigtrap)) [
      | inr b ↦ rw b (record { consistent = sound.consistent; known = sound.known })
      | inl b ↦ rw b (elim (Bool-cases (event == 0)) [
        | inr c ↦ rw c (record { consistent = sound.consistent; known = sound.known })
        | inl c ↦ rw c (on_trap-GoesOn r pid m sound (trap (ground (arith, b)) (ground (arith, c))))
      ])
    ])
  ]

  step-GoesOn :
      (r : Round target) (m : Monitor target)
      → Sound target options bps target_pid m
      → Expected target options bps target_pid r m r.stop
      → GoesOn target options bps target_pid (step target options bps target_pid r m)
  unfolding step
  step-GoesOn r m sound expected = waited-GoesOn r.stop expected
    where
      m' : Monitor target
      m' = record m { memory = r.memory; signo = if r.signal == 0 then m.signo else r.signal }

      sound' : Sound target options bps target_pid m'
      sound' = record { consistent = sound.consistent; known = sound.known }

      waited-GoesOn :
          (stop : Stop)
          → Expected target options bps target_pid r m stop
          → GoesOn target options bps target_pid (waited target options bps target_pid r stop m')
      waited-GoesOn interrupted x = sound'
      waited-GoesOn wait_failed x = sound.consistent
      waited-GoesOn (gone pid) x =
          elim (pid == target_pid)
            as (λ b. GoesOn target options bps target_pid (if b then leave m' else next m')) [
              | true ↦ sound.consistent
              | false ↦ sound'
            ]
      waited-GoesOn (stopped pid signum event) x =
          on_stop-GoesOn r pid signum event m' sound' (λ h h'.
            let y = x h h' in
            record { nonzero = y.nonzero; placed = y.placed; room = y.room; answers = y.answers })

  -- `while (1)`, for as many rounds as there are stops of the target.
  abbrev pub loop : List (Round target) → Monitor target → Outcome target
  loop [] m = next m
  loop (r ∷ rs) m = elim (step target options bps target_pid r m) [
    | next m' ↦ loop rs m'
    | leave n ↦ leave n
    | fault ↦ fault
  ]

  abbrev pub AllExpected : List (Round target) → Monitor target → Type 0
  AllExpected [] m = Unit {0}
  AllExpected (r ∷ rs) m =
      Expected target options bps target_pid r m r.stop
      × (elim (step target options bps target_pid r m) [
        | next m' ↦ AllExpected rs m'
        | leave n ↦ Unit {0}
        | fault ↦ Unit {0}
      ])

  -- The blocks and callstacks are consistent, and inside a function memleax knows which. As long as every
  -- trap is as memleax expects, no round faults, whatever the number of rounds and in any of their
  -- branches: the loop goes on so, or ends with the blocks and callstacks consistent.
  pub loop-GoesOn :
      (rs : List (Round target)) (m : Monitor target)
      → Sound target options bps target_pid m
      → AllExpected rs m
      → GoesOn target options bps target_pid (loop rs m)
  loop-GoesOn [] m sound expected = sound
  loop-GoesOn (r ∷ rs) m sound (here, later) =
      after (λ m' s x. loop-GoesOn rs m' s x) (step target options bps target_pid r m)
        (step-GoesOn r m sound here) later
    where
      after :
          ((m' : Monitor target)
            → Sound target options bps target_pid m'
            → AllExpected rs m'
            → GoesOn target options bps target_pid (loop rs m'))
          → (o : Outcome target) → GoesOn target options bps target_pid o
          → (elim o as (λ x. Type 0) [
            | next m' ↦ AllExpected rs m'
            | leave n ↦ Unit {0}
            | fault ↦ Unit {0}
          ])
          → GoesOn target options bps target_pid (elim o as (λ x. Outcome target) [
            | next m' ↦ loop rs m'
            | leave n ↦ leave n
            | fault ↦ fault
          ])
      after ih (next m') h x = ih m' h x
      after ih (leave n) h x = h
      after ih fault h x = h
