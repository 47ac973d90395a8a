-- ===== src/Monitor/Text.antt =====
-- The text of the target while it is monitored: which traps stand in it between two rounds of the
-- loop, and that none is left at the end.
use memleax.Prelude.{
  ℕ, ◌+◌, ◌<◌, ◌≡◌, ◌≢◌, refl, true, false, not, ◌&&◌, ◌||◌, Option, none, some, List, [], ◌∷◌,
  ◌++◌, arith, if◌then◌else◌, ◌==◌, ◌∙◌, slt32,
}
use memleax.State.{Tracker}
use memleax.Memblock.{memblock_expire}
use memleax.Machine.{ptrace_set_data, Target, Registers, word_at, is_breakpoint}
use memleax.Machine.Image.{Image}
use memleax.Breakpoint.{Api, handle}
use memleax.Breakpoint.Table.{Breakpoints}
use memleax.Breakpoint.Traps.{Spaced, Far, enter-Inside, is_entry}
use memleax.Monitor.{
  Monitor, alarm, resume, Round, Options, Outcome, next, leave, fault, expired_then,
  expire_and_resume, handled, at_return, at_entry, elsewhere, wake_up,
}

-- What holds of the state in which the loop goes on or ends.
abbrev pub Survives : {target : Target} → (Monitor target → Type 0) → Outcome target → Type 0
Survives P (next m) = P m
Survives P (leave m) = P m
Survives P fault = Unit {0}

-- The process memleax attaches to: its pid, the bytes that its text had before, which addresses are
-- text, and the breakpoints: apart from each other, in the text, with the code that was there.
pub record Setting : Type 1 where
  pub target_pid : ℕ
  pub orig : ℕ → ℕ
  pub Text : ℕ → Type 0
  pub small : (a : ℕ) → orig a < 256
  pub bps : Breakpoints
  pub spaced : Spaced bps
  pub texts : (x : Api) (i : ℕ) → i < 8 → Text ((bps x).entry_address + i)
  pub codes : (x : Api) → (bps x).entry_code ≡ word_at orig (bps x).entry_address
  pub options : Options

module _ (target : Target) (setting : Setting) where
  open target use {State, byte, shares, get_regs}
  open setting use {target_pid, orig, Text, small, bps, spaced, codes, options}

  abbrev pub Whole : ℕ → Type 0
  Whole a = (i : ℕ) → i < 8 → Text (a + i)

  -- The function that a thread is in, if any.
  abbrev pub inside : Monitor target → Option Api
  inside m = if m.return_address == 0 then none else m.bp

  abbrev pub Layout : Option Api → State → ℕ → Type 0
  Layout none s a = Image target target_pid orig Text s (is_entry bps)
  Layout (some x) s a =
      Image target target_pid orig Text s
        (λ b. is_entry bps b && not (b == (bps x).entry_address) || b == a)

  -- The return address is one where a trap can be set, and the code kept for it is what was there.
  abbrev pub Point : Monitor target → Type 0
  Point m =
      m.return_address ≢ 0
      → Far bps m.return_address
        × Whole m.return_address
        × (m.return_code ≡ word_at orig m.return_address)

  -- Outside every function the four entries are trapped and nothing else. Inside one its return
  -- address is trapped in place of its entry.
  pub record Armed (m : Monitor target) : Type 0 where
    pub layout : Layout (inside m) m.memory m.return_address
    pub point : Point m

  -- After the trap of the return is taken away and that of the entry is back.
  pub record Ready (m : Monitor target) : Type 0 where
    pub trapped : Image target target_pid orig Text m.memory (is_entry bps)
    pub point : Point m

  abbrev pub SameText : State → State → Type 0
  SameText s s' = (b : ℕ) → Text b → byte s' target_pid b ≡ byte s target_pid b

  pub same-Layout :
      (o : Option Api) (s s' : State) (a : ℕ) → SameText s s' → Layout o s a → Layout o s' a
  same-Layout none s s' a same image = λ b tb. same b tb ∙ image b tb
  same-Layout (some x) s s' a same image = λ b tb. same b tb ∙ image b tb

  module _ (now pid : ℕ) (m : Monitor target) (armed : Armed m) where
    expired_then-Armed :
        (r : Option (ℕ × Tracker))
        → Survives Armed (expired_then target options bps target_pid pid m r)
    expired_then-Armed none = tt
    expired_then-Armed (some (seconds, t)) =
        elim (slt32 seconds 0)
          as (λ b. Survives Armed (
            if b
            then leave (record m { tracker = t })
            else next (record m {
              tracker = t;
              actions = (m.actions ++ alarm seconds ∷ []) ++ resume pid 0 ∷ [];
            }))) [
              | true ↦ record { layout = armed.layout; point = armed.point }
              | false ↦ record { layout = armed.layout; point = armed.point }
            ]

    pub expire_and_resume-Armed :
        Survives Armed (expire_and_resume target options bps target_pid now pid m)
    unfolding expire_and_resume
    expire_and_resume-Armed = expired_then-Armed (
        memblock_expire now options.memory_expire options.memblock_limit options.callstack_limit
          m.tracker)

  no_function-Armed : (m : Monitor target) → Ready m → inside m ≡ none → Armed m
  no_function-Armed m ready e = record { layout = rw e ready.trapped; point = ready.point }

  wake_up-Armed :
      (tasks : List ℕ) (m : Monitor target)
      → Armed m
      → Armed (wake_up target options bps target_pid tasks m)
  wake_up-Armed [] m armed = armed
  wake_up-Armed (pid ∷ rest) m armed = record { layout = armed.layout; point = armed.point }

  handled-Armed :
      (now pid : ℕ) (m : Monitor target) (r : Option (ℕ × Tracker))
      → Armed m
      → Survives Armed (handled target options bps target_pid now pid m r)
  handled-Armed now pid m none armed = tt
  handled-Armed now pid m (some (code, t)) armed =
      let m' : Monitor target = record m { tracker = t } in
      let armed' : Armed m' = record { layout = armed.layout; point = armed.point } in
      elim (code == 0)
        as (λ b. Survives Armed (
          if b
          then expire_and_resume target options bps target_pid now pid
              (wake_up target options bps target_pid m'.hold_threads m')
          else leave m')) [
            | true ↦ expire_and_resume-Armed now pid _ (wake_up-Armed m'.hold_threads m' armed')
            | false ↦ armed'
          ]

  pub at_return-Armed :
      (r : Round target) (pid : ℕ) (regs : Registers) (m : Monitor target) (o : Option Api)
      → Ready m
      → Survives Armed (at_return target options bps target_pid r pid regs m o)
  at_return-Armed r pid regs m none ready = tt
  at_return-Armed r pid regs m (some x) ready =
      handled-Armed r.now pid (record m { return_address = 0 })
        (handle x (record (r.env) { entry = (bps x).entry_address }) regs.rax m.arg1 m.arg2
          m.tracker)
        (record { layout = ready.trapped; point = λ h. absurd (h refl) })

  abbrev pub lifted : State → ℕ → Api → State
  lifted s pid x = ptrace_set_data target s pid (bps x).entry_address (bps x).entry_code

  -- An address where a trap can be set when a function is entered.
  abbrev pub Returns : ℕ → Type 0
  Returns a = Far bps a × Whole a × (a ≢ 0)

  module _ (pid : ℕ) (same : shares pid target_pid ≡ true) where
    at_entry-Armed :
        (regs : Registers) (x : Api) (m : Monitor target)
        → target.in_stop m.memory pid ≡ true
        → Ready m
        → Returns (word_at (byte (lifted m.memory pid x) pid) regs.rsp)
        → Armed (at_entry target options bps target_pid pid regs x m)
    unfolding at_entry
    at_entry-Armed regs x m live ready (far, whole, nonzero) =
        let (code, image) =
          enter-Inside target target_pid orig Text small bps spaced codes pid same m.memory live x _
            far whole ready.trapped in
        let is_inside : inside (at_entry target options bps target_pid pid regs x m) ≡ some x =
          ground (arith, nonzero) in
        record { layout = rw (is_inside, code) image; point = λ h. (far, whole, code) }

    pub elsewhere-Armed :
        (r : Round target) (regs : Registers) (m : Monitor target) (o : Option Api)
        → target.in_stop m.memory pid ≡ true
        → Ready m
        → ((x : Api) → o ≡ some x → Returns (word_at (byte (lifted m.memory pid x) pid) regs.rsp))
        → Survives Armed (elsewhere target options bps target_pid r pid regs m o)
    elsewhere-Armed r regs m (some x) live ready returns =
        expire_and_resume-Armed r.now pid _ (at_entry-Armed regs x m live ready (returns x refl))
    elsewhere-Armed r regs m none live ready returns =
        let m' : Monitor target = record m { bp = none } in
        let armed : Armed m' =
          no_function-Armed m' (record { trapped = ready.trapped; point = ready.point })
            (ground arith) in
        elim (is_breakpoint target m.memory pid regs.rip)
          as (λ b. Survives Armed (
            if b then leave m' else expire_and_resume target options bps target_pid r.now pid m')) [
              | true ↦ armed
              | false ↦ expire_and_resume-Armed r.now pid m' armed
            ]
