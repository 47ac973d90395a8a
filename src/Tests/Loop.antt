-- ===== src/Tests/Loop.antt =====
-- Rounds of the loop over a call of malloc, and the theorems on them.
use memleax.Prelude.{
  ◌∷◌, [], inl, arith, ◌&&◌, if◌then◌else◌, ◌==◌, ◌≡◌, ◌≢◌, refl, none, true, false,
}
use memleax.State.{initial}
use memleax.Machine.{Apart, word_at, byte_of, trap_word}
use memleax.Machine.Image.{Image}
use memleax.Breakpoint.{Api, malloc, free, realloc, calloc}
use memleax.Breakpoint.Table.{
  breakpoint_by_entry, breakpoint_cleanup, do_breakpoint_init, breakpoint_init,
}
use memleax.Breakpoint.Traps.{is_entry, no_trap}
use memleax.Breakpoint.Setup.{Installed, breakpoint_init-Installed}
use memleax.Monitor.{
  Monitor, Round, Outcome, next, leave, fault, stopped, sigtrap, sigstop, step, finish,
  expire_and_resume, at_entry, disarm_return, on_trap, on_sigstop, on_stop,
}
use memleax.Monitor.Text.{Armed, Survives}
use memleax.Monitor.Loop.{FairRound, step-Armed}
use memleax.Monitor.Children.{vfork-Untraced}
use memleax.Memblock.Start.{initial-IsConsistent}
use memleax.Monitor.Sound.{Sound, GoesOn}
use memleax.Monitor.Running.{loop, AllExpected, loop-GoesOn}
use memleax.Tests.{first, program}
use memleax.Tests.Target.{
  Machine, machine, with_registers, IsText, bytes, addresses, points, setting, addresses-Apart,
  addresses-IsText,
}

abbrev pub start : Monitor machine
start = record {
  memory = record {
    memory = λ m b. if m == 0 && is_entry points b then 0xCC else bytes b;
    registers = λ p. record { rip = 0; rsp = 0; rax = 0; rdi = 0; rsi = 0 };
    stops = λ p. true;
  };
  tracker = initial;
  bp = none;
  return_address = 0;
  return_code = 0;
  arg1 = 0;
  arg2 = 0;
  last_thread = 0;
  hold_threads = [];
  signo = 0;
  actions = [];
}

start-Armed : Armed machine setting start
start-Armed = record { layout = λ b tb. ground arith; point = λ h. absurd (h refl) }

abbrev pub after : Outcome machine → Monitor machine
after (next m) = m
after (leave m) = m
after fault = start

-- Thread 11 stops at the trap of malloc.
abbrev call : Round machine
call = record {
  stop = stopped 11 sigtrap 0;
  memory =
      with_registers start.memory 11
        (record { rip = 0x1001; rsp = 0x8000; rax = 0; rdi = 24; rsi = 0 });
  signal = 0;
  is_thread = true;
  env = first;
  now = 100;
}

abbrev in_malloc : Monitor machine
in_malloc = after (step machine setting.options points 10 call start)

-- It stops at the trap of the return address.
abbrev return : Round machine
return = record call {
  memory =
      with_registers in_malloc.memory 11
        (record { rip = 0x1081; rsp = 0x8008; rax = 0x5000; rdi = 24; rsi = 0 });
}

abbrev traced : Monitor machine
traced = after (step machine setting.options points 10 return in_malloc)

-- The user interrupts memleax, which stops the target.
abbrev interrupt : Round machine
interrupt = record return { stop = stopped 10 sigstop 0; memory = traced.memory; signal = 2 }

far_away : (x : Api) → Apart (addresses x) 0x1080
far_away malloc = inl (omega arith)
far_away free = inl (omega arith)
far_away realloc = inl (omega arith)
far_away calloc = inl (omega arith)

call-FairRound : FairRound machine setting call start
unfolding word_at
call-FairRound = record {
  kept = λ b tb. refl;
  fair = record {
    live = refl;
    threads = λ e. refl;
    children = λ e th. absurd (omega arith);
    calls = λ e x at.
        (λ i h t. omega arith, (far_away, (λ i h. (omega arith, omega arith)), λ z. omega arith));
  };
}

unfoldable pub loop_code : Unit {0}
unfolding program breakpoint_cleanup breakpoint_by_entry do_breakpoint_init breakpoint_init
    expire_and_resume at_entry disarm_return on_trap on_sigstop on_stop step finish word_at
    trap_word byte_of
loop_code = tt

-- The call of malloc is traced, and its block kept.
traced_block : (traced.tracker.active ≡ 1 ∷ []) × (in_malloc.return_address ≡ 0x1080)
unfolding loop_code
traced_block = (refl, refl)

step-Armed_example :
    Survives (Armed machine setting) (step machine setting.options points 10 call start)
step-Armed_example = step-Armed machine setting call start start-Armed call-FairRound

abbrev pub clean : Machine
clean = record (start.memory) { memory = λ m b. bytes b }

breakpoint_init-Installed_example :
    Installed machine 10 bytes IsText
      (λ a. setting.small a)
      addresses
      (breakpoint_init machine clean 10 addresses)
breakpoint_init-Installed_example =
    breakpoint_init-Installed machine 10 bytes IsText setting.small clean addresses nonzero
      addresses-Apart addresses-IsText (λ b tb. ground arith) refl
  where
    nonzero : (x : Api) → addresses x ≢ 0
    nonzero malloc h = omega arith
    nonzero free h = omega arith
    nonzero realloc h = omega arith
    nonzero calloc h = omega arith

-- Task 11 as a new process that runs in the memory of the target.
abbrev vfork : Round machine
vfork = record {
  stop = stopped 11 sigstop 0;
  memory = start.memory;
  signal = 0;
  is_thread = false;
  env = first;
  now = 100;
}

vfork-Untraced_example :
    (m' : Monitor machine) × (step machine setting.options points 10 vfork start ≡ next m')
    × Image machine 10 bytes IsText m'.memory no_trap
vfork-Untraced_example =
    vfork-Untraced machine setting vfork start 11 0 refl refl refl refl refl refl start-Armed.layout

start-Sound : Sound machine setting.options points 10 start
start-Sound = record { consistent = initial-IsConsistent; known = λ inside. absurd (inside refl) }

rounds-Expected :
    AllExpected machine setting.options points 10 (call ∷ return ∷ interrupt ∷ []) start
unfolding loop_code
rounds-Expected = (
  λ e e'. record {
    nonzero = λ z. omega arith;
    placed = λ inside. absurd (inside refl);
    room = omega arith;
    answers = λ api h. cc;
  },
  (
    λ e e'. record {
      nonzero = λ z. omega arith;
      placed = λ inside away. absurd (away refl);
      room = omega arith;
      answers = λ api h. record {
        fresh = λ a h'. refl;
        short = λ c h'. absurd (omega arith);
        memory = refl;
      };
    },
    (λ e. absurd (omega arith), tt),
  ),
)

loop-GoesOn_example :
    GoesOn machine setting.options points 10
      (loop machine setting.options points 10 (call ∷ return ∷ interrupt ∷ []) start)
loop-GoesOn_example =
    loop-GoesOn machine setting.options points 10 (call ∷ return ∷ interrupt ∷ []) start start-Sound
      rounds-Expected
