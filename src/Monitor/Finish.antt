-- ===== src/Monitor/Finish.antt =====
-- The end of the loop: however it ran, no trap is left in the text.
use memleax.Prelude.{
  true, ◌∙◌, ◌||◌, ◌<◌, not, Bool, ◌&&◌, Option, arith, if◌then◌else◌, subst, ◌+◌, ◌==◌, Bool-cases,
  ℕ, ◌≡◌, refl, inl, inr, none, some, false,
}
use memleax.Machine.{Target, word_at, ptrace_set_data}
use memleax.Machine.Image.{Image, Image-congr, restore-Image}
use memleax.Breakpoint.{Api}
use memleax.Breakpoint.Table.{breakpoint_cleanup}
use memleax.Breakpoint.Traps.{
  Far, breakpoint_cleanup-Image, is_entry, Far-free, no_trap, beyond, beyond-Far,
}
use memleax.Monitor.{Monitor, Round, next, leave, step, finish}
use memleax.Monitor.Text.{Setting, Survives, Armed, Layout, inside, same-Layout}
use memleax.Monitor.Loop.{FairRound, step-Armed}

module _ (target : Target) (setting : Setting) where
  open target use {State, byte, in_stop, in_stop-poke, byte-poke}
  open setting use {target_pid, orig, Text, small, bps, spaced, texts, codes, options}

  -- A cleanup leaves the target stopped or running.
  cleanup-in_stop :
      (s : State)
      → in_stop (breakpoint_cleanup target s target_pid bps) target_pid ≡ in_stop s target_pid
  unfolding breakpoint_cleanup
  cleanup-in_stop s =
      in_stop-poke _ target_pid target_pid _ _
      ∙ in_stop-poke _ target_pid target_pid _ _
      ∙ in_stop-poke _ target_pid target_pid _ _
      ∙ in_stop-poke s target_pid target_pid _ _

  -- The trap that the cleanup of the entries leaves.
  abbrev stays : Option Api → ℕ → ℕ → Bool
  stays none a b = false
  stays (some x) a b = b == a

  cleaned :
      (s : State) (o : Option Api) (a : ℕ)
      → in_stop s target_pid ≡ true
      → Far bps a
      → Layout target setting o s a
      → Image target target_pid orig Text (breakpoint_cleanup target s target_pid bps) (stays o a)
  cleaned s none a live far layout =
      Image-congr target target_pid orig Text _ (λ b. is_entry bps b && not (is_entry bps b))
        no_trap (λ b. ground arith)
        (breakpoint_cleanup-Image target target_pid orig Text small bps spaced codes target_pid
          (target.shares_refl target_pid) s live (is_entry bps) a far (λ b t. ground arith) layout)
  cleaned s (some x) a live far layout =
      Image-congr target target_pid orig Text _ _ _
        (λ b. ground (arith, Far-free bps spaced a far b))
        (breakpoint_cleanup-Image target target_pid orig Text small bps spaced codes target_pid
          (target.shares_refl target_pid) s live
          (λ b. is_entry bps b && not (b == (bps x).entry_address) || b == a) a far
          (λ b t. ground arith) layout)

  recovered :
      (s : State) (o : Option Api) (a : ℕ)
      → in_stop s target_pid ≡ true
      → Far bps a
      → Layout target setting o s a
      → Image target target_pid orig Text
          (ptrace_set_data target
            (breakpoint_cleanup target s target_pid bps)
            target_pid
            a
            (word_at orig a))
          no_trap
  recovered s o a live far layout = Image-congr target target_pid orig Text _ _ _ (none_left o) (
      restore-Image target target_pid orig Text small target_pid (target.shares_refl target_pid) _
        (cleanup-in_stop s ∙ live) (stays o a) a (cleaned s o a live far layout) (free_tail o))
    where
      none_left : (o : Option Api) (b : ℕ) → stays o a b && not (b == a) ≡ no_trap b
      none_left none b = refl
      none_left (some x) b = ground arith

      free_tail : (o : Option Api) → (b : ℕ) → a < b → b < a + 8 → stays o a b ≡ false
      free_tail none b lo hi = refl
      free_tail (some x) b lo hi = ground arith

  -- At the end, where the target is stopped, no trap is left: every byte of the text is the original, whether the loop ended
  -- inside a function or outside.
  pub finish-Image :
      (m : Monitor target)
      → in_stop m.memory target_pid ≡ true
      → Armed target setting m
      → Image target target_pid orig Text (finish target options bps target_pid m).memory no_trap
  unfolding finish
  finish-Image m live armed = elim (Bool-cases (m.return_address == 0)) [
    | inl z ↦ rw z (
        cleaned m.memory none (beyond bps spaced) live (beyond-Far bps spaced) (
          subst (λ c. Layout target setting (if c then none else m.bp) m.memory m.return_address) z
            armed.layout))
    | inr n ↦
        let (far, whole, code) = armed.point (ground (arith, n)) in
        rw (n, code) (recovered m.memory _ m.return_address live far armed.layout)
  ]

  -- Where the target is not stopped every write of the clean-up fails.
  poke_fails :
      (s : State) (a w : ℕ)
      → in_stop s target_pid ≡ false
      → (q b : ℕ) → byte (target.poke s target_pid a w) q b ≡ byte s q b
  poke_fails s a w running q b = byte-poke s target_pid q a w b ∙ ground (arith, running)

  cleanup_fails :
      (s : State)
      → in_stop s target_pid ≡ false
      → (q b : ℕ) → byte (breakpoint_cleanup target s target_pid bps) q b ≡ byte s q b
  unfolding breakpoint_cleanup
  cleanup_fails s running q b =
      let run₁ = in_stop-poke s target_pid target_pid _ _ ∙ running in
      let run₂ = in_stop-poke _ target_pid target_pid _ _ ∙ run₁ in
      let run₃ = in_stop-poke _ target_pid target_pid _ _ ∙ run₂ in
      poke_fails _ _ _ run₃ q b
      ∙ poke_fails _ _ _ run₂ q b
      ∙ poke_fails _ _ _ run₁ q b
      ∙ poke_fails s _ _ running q b

  pub finish_fails :
      (m : Monitor target)
      → in_stop m.memory target_pid ≡ false
      → (q b : ℕ) → byte (finish target options bps target_pid m).memory q b ≡ byte m.memory q b
  unfolding finish
  finish_fails m running q b = elim (Bool-cases (m.return_address == 0)) [
    | inl z ↦ rw z (cleanup_fails m.memory running q b)
    | inr n ↦ rw n (
        poke_fails _ _ _ (cleanup-in_stop m.memory ∙ running) q b
        ∙ cleanup_fails m.memory running q b)
  ]

  -- The loop from a monitor to the one it ends with.
  pub data Runs : Monitor target → Monitor target → Type 1 where
    again :
        {m m' n : Monitor target} (r : Round target)
        → FairRound target setting r m
        → step target options bps target_pid r m ≡ next m'
        → Runs m' n
        → Runs m n
    ends :
        {m n : Monitor target} (r : Round target)
        → FairRound target setting r m
        → step target options bps target_pid r m ≡ leave n
        → Runs m n

  run-Armed : {m n : Monitor target} → Runs m n → Armed target setting m → Armed target setting n
  run-Armed (again r fair e rest) armed =
      run-Armed rest
        (subst (Survives (Armed target setting)) e (step-Armed target setting r _ armed fair))
  run-Armed (ends r fair e) armed =
      subst (Survives (Armed target setting)) e (step-Armed target setting r _ armed fair)

  -- The traps are laid out as after the set-up, or as inside a function, and every round is fair.
  -- However the loop then runs and ends, if it ends with the target stopped the text of the target is after the clean-up what it was
  -- before memleax set its breakpoints.
  pub run-Image :
      (m n : Monitor target)
      → Armed target setting m
      → Runs m n
      → in_stop n.memory target_pid ≡ true
      → Image target target_pid orig Text (finish target options bps target_pid n).memory no_trap
  run-Image m n armed runs live = finish-Image n live (run-Armed runs armed)

  -- As `run-Image`, but the loop ends with the target not stopped, as when another thread came last:
  -- then the clean-up takes no trap away.
  pub run-Layout :
      (m n : Monitor target)
      → Armed target setting m
      → Runs m n
      → in_stop n.memory target_pid ≡ false
      → Layout target setting
          (inside target setting n)
          (finish target options bps target_pid n).memory
          n.return_address
  run-Layout m n armed runs running =
      same-Layout target setting (inside target setting n) n.memory _ n.return_address
        (λ b tb. finish_fails n running target_pid b) (run-Armed runs armed).layout
