-- ===== src/Monitor/Loop.antt =====
-- Every round of the loop keeps the text of the target as it has to be.
use memleax.Prelude.{
  arith, if◌then◌else◌, subst, ◌==◌, Bool-cases, ◌∙◌, ℕ, ◌≡◌, refl, inl, inr, true, false,
}
use memleax.Machine.{Target}
use memleax.Breakpoint.Table.{breakpoint_cleanup}
use memleax.Monitor.{
  Monitor, Round, next, leave, Stop, interrupted, wait_failed, gone, stopped, on_sigstop, on_stop,
  waited, step, sigtrap, sigstop, sigalrm,
}
use memleax.Monitor.Text.{Setting, Survives, Armed, SameText, same-Layout, expire_and_resume-Armed}
use memleax.Monitor.Rounds.{Fair, on_trap-Armed}

module _ (target : Target) (setting : Setting) where
  open target use {State, byte, shares, byte-poke}
  open setting use {target_pid, orig, Text, small, bps, spaced, texts, codes, options}

  keep :
      (m m' : Monitor target)
      → Armed target setting m
      → m'.return_address ≡ m.return_address
      → m'.bp ≡ m.bp
      → m'.return_code ≡ m.return_code
      → SameText target setting m.memory m'.memory
      → Armed target setting m'
  keep m m' armed ra bp code same = record {
    layout = rw (ra, bp) (same-Layout target setting _ m.memory m'.memory _ same armed.layout);
    point = rw (ra, code) armed.point;
  }

  -- The words of another address space do not reach this one.
  poke_elsewhere :
      (s : State) (pid a w : ℕ)
      → shares pid target_pid ≡ false
      → SameText target setting s (target.poke s pid a w)
  poke_elsewhere s pid a w apart b tb = byte-poke s pid target_pid a w b ∙ rw apart refl

  cleanup_elsewhere :
      (s : State) (pid : ℕ)
      → shares pid target_pid ≡ false
      → SameText target setting s (breakpoint_cleanup target s pid bps)
  unfolding breakpoint_cleanup
  cleanup_elsewhere s pid apart b tb =
      poke_elsewhere _ pid _ _ apart b tb
      ∙ poke_elsewhere _ pid _ _ apart b tb
      ∙ poke_elsewhere _ pid _ _ apart b tb
      ∙ poke_elsewhere _ pid _ _ apart b tb

  on_sigstop-Armed :
      (r : Round target) (pid : ℕ) (m : Monitor target)
      → Armed target setting m
      → Fair target setting r m.memory pid sigstop
      → Survives (Armed target setting) (on_sigstop target options bps target_pid r pid m)
  unfolding on_sigstop
  on_sigstop-Armed r pid m armed fair = elim (Bool-cases (m.signo == sigalrm)) [
    | inl a ↦ rw a (
        expire_and_resume-Armed target setting r.now pid _
          (keep m _ armed refl refl refl (λ b tb. refl)))
    | inr a ↦ rw a (elim (Bool-cases (m.signo == 0)) [
      | inr z ↦ rw z armed
      | inl z ↦ rw z (elim (Bool-cases r.is_thread) [
        | inl th ↦ rw th (keep m _ armed refl refl refl (λ b tb. refl))
        | inr th ↦
            rw th (
              keep m _ armed refl refl refl
                (cleanup_elsewhere m.memory pid (fair.children refl th)))
      ])
    ])
  ]

  on_stop-Armed :
      (r : Round target) (pid signum event : ℕ) (m : Monitor target)
      → Armed target setting m
      → Fair target setting r m.memory pid signum
      → Survives (Armed target setting) (on_stop target options bps target_pid r pid signum event m)
  unfolding on_stop
  on_stop-Armed r pid signum event m armed fair = elim (Bool-cases (signum == sigstop)) [
    | inl a ↦ rw a (
        on_sigstop-Armed r pid m armed
          (subst (λ n. Fair target setting r m.memory pid n) (ground (arith, a)) fair))
    | inr a ↦ rw a (elim (Bool-cases (signum == sigtrap)) [
      | inr b ↦ rw b (keep m _ armed refl refl refl (λ b tb. refl))
      | inl b ↦ rw b (elim (Bool-cases (event == 0)) [
        | inr c ↦ rw c (keep m _ armed refl refl refl (λ b tb. refl))
        | inl c ↦ rw c (
            on_trap-Armed target setting r pid m armed
              (subst (λ n. Fair target setting r m.memory pid n) (ground (arith, b)) fair))
      ])
    ])
  ]

  abbrev pub FairStop : Round target → Stop → Type 0
  FairStop r interrupted = Unit {0}
  FairStop r wait_failed = Unit {0}
  FairStop r (gone pid) = Unit {0}
  FairStop r (stopped pid signum event) = Fair target setting r r.memory pid signum

  -- What the loop may expect of a round: between two stops the target does not write to its text,
  -- and the stop is one of those that `Fair` describes.
  pub record FairRound (r : Round target) (m : Monitor target) : Type 0 where
    pub kept : SameText target setting m.memory r.memory
    pub fair : FairStop r r.stop

  -- Every fair round, in which the task that stops is in a ptrace-stop, keeps the layout of the
  -- traps: outside every function the four entries are trapped and nothing else of the text
  -- differs from the original; inside one, its return address is trapped in place of its entry,
  -- and the code kept for it is the original. So it is whether the loop goes on or ends, in each
  -- of its branches.
  pub step-Armed :
      (r : Round target) (m : Monitor target)
      → Armed target setting m
      → FairRound r m
      → Survives (Armed target setting) (step target options bps target_pid r m)
  unfolding step
  step-Armed r m armed fair = waited-Armed r.stop fair.fair
    where
      m' : Monitor target
      m' = record m { memory = r.memory; signo = if r.signal == 0 then m.signo else r.signal }

      armed' : Armed target setting m'
      armed' = keep m m' armed refl refl refl fair.kept

      waited-Armed :
          (stop : Stop)
          → FairStop r stop
          → Survives (Armed target setting) (waited target options bps target_pid r stop m')
      waited-Armed interrupted f = armed'
      waited-Armed wait_failed f = armed'
      waited-Armed (gone pid) f =
          elim (pid == target_pid)
            as (λ b. Survives (Armed target setting) (if b then leave m' else next m')) [
              | true ↦ armed'
              | false ↦ armed'
            ]
      waited-Armed (stopped pid signum event) f = on_stop-Armed r pid signum event m' armed' f
