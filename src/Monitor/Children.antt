-- ===== src/Monitor/Children.antt =====
-- memleax.c, the child processes: what their detaching does to the text of the target.
use memleax.Prelude.{arith, not, ◌&&◌, ℕ, ◌≡◌, refl, true, false}
use memleax.Machine.{Target}
use memleax.Machine.Image.{Image, Image-congr}
use memleax.Breakpoint.Traps.{is_entry, no_trap, beyond, beyond-Far, breakpoint_cleanup-Image}
use memleax.Monitor.{Monitor, Round, next, on_sigstop, sigstop, stopped, step, on_stop}
use memleax.Monitor.Text.{Setting}

module _ (target : Target) (setting : Setting) where
  open target use {State, shares}
  open setting use {target_pid, orig, Text, small, bps, spaced, codes, options}

  -- A new process that still shares the memory of the target, as after vfork, comes to its first
  -- stop outside every traced function, with no signal to memleax pending. Then the loop goes on,
  -- and after this round no breakpoint is left in the text of the target.
  pub vfork-Untraced :
      (r : Round target) (m : Monitor target) (pid event : ℕ)
      → r.stop ≡ stopped pid sigstop event
      → r.signal ≡ 0
      → m.signo ≡ 0
      → r.is_thread ≡ false
      → shares pid target_pid ≡ true
      → target.in_stop r.memory pid ≡ true
      → Image target target_pid orig Text r.memory (is_entry bps)
      → (m' : Monitor target) × (step target options bps target_pid r m ≡ next m')
        × Image target target_pid orig Text m'.memory no_trap
  unfolding step on_stop on_sigstop
  vfork-Untraced r m pid event e signal signo thread same live image =
      rw (e, signal, signo, thread)
        ((
          _,
          refl,
          Image-congr target target_pid orig Text _ (λ b. is_entry bps b && not (is_entry bps b))
              no_trap (λ b. ground arith)
              (breakpoint_cleanup-Image target target_pid orig Text small bps spaced codes pid same
                r.memory live (is_entry bps) (beyond bps spaced) (beyond-Far bps spaced)
                (λ b t. ground arith) image),
        ))
