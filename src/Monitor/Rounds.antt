-- ===== src/Monitor/Rounds.antt =====
-- The text of the target in a round that begins with a trap.
use memleax.Prelude.{
  ◌∷◌, length, ltb, ◌&&◌, not, if◌then◌else◌, Bool, none, some, true, false, subst, ◌∙◌, Option,
  ◌-◌, refl, inl, inr, arith, ◌==◌, false, some, ◌+◌, Bool-cases, true, ◌<◌, ℕ, ◌≡◌, ◌≢◌,
}
use memleax.Machine.{Target, Registers, word_at, unwound, pc_unwind, within, ptrace_set_data}
use memleax.Breakpoint.{Api}
use memleax.Breakpoint.Table.{breakpoint_by_entry}
use memleax.Breakpoint.Traps.{back-Trapped}
use memleax.Monitor.{
  Monitor, Round, next, fault, disarm_return, rearmed, dispatched, on_trap, sigtrap, sigstop,
  hold_max, elsewhere, at_return,
}
use memleax.Monitor.Text.{
  Setting, Survives, Armed, Ready, Point, Layout, inside, Whole, Returns, lifted, same-Layout,
  at_return-Armed, elsewhere-Armed,
}

module _ (target : Target) (setting : Setting) where
  open target use {State, byte, shares, get_regs, set_regs, poke, byte-poke, byte-set_regs}
  open setting use {target_pid, orig, Text, small, bps, spaced, texts, codes, options}

  -- Nothing but text differs, as a task sees the memory.
  abbrev SameData : ℕ → State → State → Type 0
  SameData pid s s' = (b : ℕ) → ¬ Text b → byte s' pid b ≡ byte s pid b

  poke-SameData :
      (s : State) (task pid a w : ℕ) → Whole target setting a → SameData pid s (poke s task a w)
  poke-SameData s task pid a w whole b out = elim (Bool-cases (within a b)) [
    | inl in' ↦
        let back : a + (b - a) ≡ b = ground arith in
        absurd (out (subst Text back (whole (b - a) (ground arith))))
    | inr far ↦ byte-poke s task pid a w b ∙ rw far (ground (arith))
  ]

  -- A word of the stack is the same in memory that differs in text only.
  stack_word :
      (pid a : ℕ) (s s' : State)
      → ((i : ℕ) → i < 8 → ¬ Text (a + i))
      → SameData pid s s'
      → word_at (byte s' pid) a ≡ word_at (byte s pid) a
  unfolding word_at
  stack_word pid a s s' out same =
      rw
        (
          same (a + 0) (out 0 (omega arith)),
          same (a + 1) (out 1 (omega arith)),
          same (a + 2) (out 2 (omega arith)),
          same (a + 3) (out 3 (omega arith)),
          same (a + 4) (out 4 (omega arith)),
          same (a + 5) (out 5 (omega arith)),
          same (a + 6) (out 6 (omega arith)),
          same (a + 7) (out 7 (omega arith)),
        )
        refl

  -- What memleax may expect of the stop of a task, `s` being its memory and registers: the task is
  -- in a ptrace-stop; one that
  -- traps is a thread of the target, and a new process has a copy of its memory; and a trap at an
  -- entry comes from a call, with a return address in the text that overlaps no entry, on a stack
  -- that is not text.
  pub record Fair (r : Round target) (s : State) (pid signum : ℕ) : Type 0 where
    pub live : target.in_stop s pid ≡ true
    pub threads : signum ≡ sigtrap → shares pid target_pid ≡ true
    pub children : signum ≡ sigstop → r.is_thread ≡ false → shares pid target_pid ≡ false
    pub calls :
        signum ≡ sigtrap
        → (x : Api) → (unwound target (get_regs s pid)).rip ≡ (bps x).entry_address
        → ((i : ℕ) → i < 8 → ¬ Text ((get_regs s pid).rsp + i))
          × Returns target setting (word_at (byte s pid) (get_regs s pid).rsp)

  -- The monitor after `disarm_return`, where memleax did not fault.
  abbrev Disarmed : ℕ → State → Option (Monitor target) → Type 0
  Disarmed pid s none = Unit {0}
  Disarmed pid s (some m') =
      Ready target setting m'
      × SameData pid s m'.memory
      × (target.in_stop m'.memory pid ≡ target.in_stop s pid)

  rearmed-Disarmed :
      (pid : ℕ) (m : Monitor target) (o : Option Api)
      → shares pid target_pid ≡ true
      → target.in_stop m.memory pid ≡ true
      → m.return_address ≢ 0
      → Point target setting m
      → Layout target setting o m.memory m.return_address
      → Disarmed pid m.memory (rearmed target options bps target_pid pid m o)
  rearmed-Disarmed pid m none same live h point layout = tt
  rearmed-Disarmed pid m (some x) same live h point layout =
      let (far, whole, code) = point h in
      let s₁ = ptrace_set_data target m.memory pid m.return_address m.return_code in
      (
        record {
          trapped = rw code (
              back-Trapped target target_pid orig Text small bps spaced codes pid same m.memory live
                x m.return_address far layout);
          point = point;
        },
        λ b out.
            poke-SameData s₁ pid pid _ _ (texts x) b out
            ∙ poke-SameData m.memory pid pid _ _ whole b out,
        target.in_stop-poke s₁ pid pid _ _
            ∙ target.in_stop-poke m.memory pid pid m.return_address m.return_code,
      )

  disarm_return-Disarmed :
      (pid : ℕ) (m : Monitor target)
      → shares pid target_pid ≡ true
      → target.in_stop m.memory pid ≡ true
      → Armed target setting m
      → Disarmed pid m.memory (disarm_return target options bps target_pid pid m)
  unfolding disarm_return
  disarm_return-Disarmed pid m same live armed = elim (Bool-cases (m.return_address == 0)) [
    | inl z ↦ rw z (record { trapped = layout_at true z; point = armed.point }, λ b out. refl, refl)
    | inr n ↦
        rw n (rearmed-Disarmed pid m m.bp same live (ground arith) armed.point (layout_at false n))
  ]
    where
      layout_at :
          (b : Bool)
          → (m.return_address == 0) ≡ b
          → Layout target setting (if b then none else m.bp) m.memory m.return_address
      layout_at b e =
          subst (λ c. Layout target setting (if c then none else m.bp) m.memory m.return_address) e
            armed.layout

  by_entry-hit :
      (address : ℕ) (x : Api)
      → breakpoint_by_entry bps address ≡ some x
      → address ≡ (bps x).entry_address
  unfolding breakpoint_by_entry
  by_entry-hit address x e = ground arith

  dispatched-Armed :
      (r : Round target) (pid : ℕ) (regs : Registers) (s : State) (o : Option (Monitor target))
      → shares pid target_pid ≡ true
      → target.in_stop s pid ≡ true
      → ((x : Api)
          → regs.rip ≡ (bps x).entry_address
          → ((i : ℕ) → i < 8 → ¬ Text (regs.rsp + i))
            × Returns target setting (word_at (byte s pid) regs.rsp))
      → Disarmed pid s o
      → Survives (Armed target setting) (dispatched target options bps target_pid r pid regs o)
  dispatched-Armed r pid regs s none same live calls d = tt
  dispatched-Armed r pid regs s (some m) same live calls (ready, data_same, stop_same) =
      elim (regs.rip == m.return_address)
        as (λ b. Survives (Armed target setting) (
          if b
          then at_return target options bps target_pid r pid regs m m.bp
          else elsewhere target options bps target_pid r pid regs m
              (breakpoint_by_entry bps regs.rip))) [
                | true ↦ at_return-Armed target setting r pid regs m m.bp ready
                | false ↦
                    elsewhere-Armed target setting pid same r regs m _ (stop_same ∙ live) ready
                      returns
              ]
    where
      returns :
          (x : Api)
          → breakpoint_by_entry bps regs.rip ≡ some x
          → Returns target setting
              (word_at (byte (lifted target setting m.memory pid x) pid) regs.rsp)
      returns x e =
          let (stack, fit) = calls x (by_entry-hit regs.rip x e) in
          let same_word : word_at (byte (lifted target setting m.memory pid x) pid) regs.rsp
              ≡ word_at (byte s pid) regs.rsp =
            stack_word pid regs.rsp s _ stack
              (λ b out. poke-SameData m.memory pid pid _ _ (texts x) b out ∙ data_same b out) in
          rw same_word fit

  -- After the stop of a task: its memory and registers are those of `m`.
  pub on_trap-Armed :
      (r : Round target) (pid : ℕ) (m : Monitor target)
      → Armed target setting m
      → Fair r m.memory pid sigtrap
      → Survives (Armed target setting) (on_trap target options bps target_pid r pid m)
  unfolding on_trap
  on_trap-Armed r pid m armed fair =
      let regs = unwound target (get_regs m.memory pid) in
      let m' : Monitor target = record m {
        memory = pc_unwind target m.memory pid (get_regs m.memory pid);
      } in
      let armed' : Armed target setting m' = record {
        layout =
            same-Layout target setting (inside target setting m) m.memory m'.memory m.return_address
              (λ b tb. byte-set_regs m.memory pid target_pid b regs) armed.layout;
        point = armed.point;
      } in
      let live' : target.in_stop m'.memory pid ≡ true =
        target.in_stop-set_regs m.memory pid pid regs ∙ fair.live in
      elim (not (m.return_address == 0) && not (m.last_thread == pid))
        as (λ b. Survives (Armed target setting) (
          if b
          then (if ltb (length m.hold_threads) hold_max
              then next (record m' { hold_threads = pid ∷ m.hold_threads })
              else fault)
          else dispatched target options bps target_pid r pid regs
              (disarm_return target options bps target_pid pid m'))) [
                | true ↦
                    elim (ltb (length m.hold_threads) hold_max)
                      as (λ b. Survives (Armed target setting) (
                        if b
                        then next (record m' { hold_threads = pid ∷ m.hold_threads })
                        else fault)) [
                          | true ↦ record { layout = armed'.layout; point = armed'.point }
                          | false ↦ tt
                        ]
                | false ↦
                    dispatched-Armed r pid regs m'.memory _ (fair.threads refl) live'
                      (λ x e.
                        let (stack, fit) = fair.calls refl x e in
                        (
                          stack,
                          rw
                              (stack_word pid regs.rsp m.memory m'.memory stack
                                (λ b out. byte-set_regs m.memory pid pid b regs))
                              fit,
                        ))
                      (disarm_return-Disarmed pid m' (fair.threads refl) live' armed')
              ]
