-- ===== src/Tests/Session.antt =====
-- The set-up, a call of malloc, and the clean-up.
use memleax.Prelude.{inl, ◌⊎◌, arith, none, [], ◌∷◌, ◌++◌, refl, some, true, false, ◌≢◌, ◌≡◌}
use memleax.Machine.{Apart, word_at, set_breakpoint}
use memleax.Machine.Image.{Image}
use memleax.Breakpoint.{Api, malloc, free, realloc, calloc}
use memleax.Breakpoint.Table.{Breakpoints, table, breakpoint_init}
use memleax.Breakpoint.Traps.{no_trap}
use memleax.Monitor.{Monitor, Round, stopped, sigtrap, sigstop, step, finish}
use memleax.Monitor.Text.{Setting, Layout, inside}
use memleax.Monitor.Loop.{FairRound}
use memleax.Monitor.Finish.{Runs, again, ends}
use memleax.Monitor.Session.{begun, Untouched, setting_of, finish-breakpoint_init}
use memleax.ProcInfo.{Proc}
use memleax.ProcInfo.Walks.{numbered}
use memleax.Options.{attach, wait, trace_child, set_breakpoints, resume, start_up}
use memleax.Options.Attached.{attached, others, positive, start_up-attached}
use memleax.Tests.{first}
use memleax.Tests.Target.{
  Machine, machine, with_registers, IsText, bytes, addresses, points, setting, addresses-Apart,
  addresses-IsText,
}
use memleax.Tests.Loop.{clean, after, loop_code}

nonzero : (x : Api) → addresses x ≢ 0
nonzero malloc h = omega arith
nonzero free h = omega arith
nonzero realloc h = omega arith
nonzero calloc h = omega arith

bytes-Image : Image machine 10 bytes IsText clean no_trap
bytes-Image b tb = ground arith

abbrev untouched : Untouched machine 10 clean addresses
untouched = record {
  orig = bytes;
  Text = IsText;
  small = λ a. setting.small a;
  nonzero = nonzero;
  apart = addresses-Apart;
  texts = addresses-IsText;
  image = bytes-Image;
  live = refl;
}

abbrev trapped : Machine → Api → Machine
trapped s x = set_breakpoint machine s 10 (addresses x) (word_at bytes (addresses x))

abbrev set_up : Machine
set_up = trapped (trapped (trapped (trapped clean malloc) free) realloc) calloc

abbrev kept : Breakpoints
kept = table machine (points malloc) (points free) (points realloc) (points calloc)

inits : breakpoint_init machine clean 10 addresses ≡ some (kept, set_up)
unfolding loop_code
inits = refl

abbrev session : Setting
session = setting_of machine 10 clean addresses setting.options untouched kept set_up inits

-- Thread 11 calls malloc, which returns; then the user interrupts memleax.
abbrev call : Round machine
call = record {
  stop = stopped 11 sigtrap 0;
  memory =
      with_registers set_up 11 (record { rip = 0x1001; rsp = 0x8000; rax = 0; rdi = 24; rsi = 0 });
  signal = 0;
  is_thread = true;
  env = first;
  now = 100;
}

abbrev in_malloc : Monitor machine
in_malloc = after (step machine setting.options kept 10 call (begun machine set_up))

abbrev return : Round machine
return = record call {
  memory =
      with_registers in_malloc.memory 11
        (record { rip = 0x1081; rsp = 0x8008; rax = 0x5000; rdi = 24; rsi = 0 });
}

abbrev traced : Monitor machine
traced = after (step machine setting.options kept 10 return in_malloc)

abbrev interrupt : Round machine
interrupt = record return { stop = stopped 10 sigstop 0; memory = traced.memory; signal = 2 }

abbrev last : Monitor machine
last = after (step machine setting.options kept 10 interrupt traced)

far_away : (x : Api) → Apart (kept x).entry_address 0x1080
far_away malloc = inl (omega arith)
far_away free = inl (omega arith)
far_away realloc = inl (omega arith)
far_away calloc = inl (omega arith)

call-FairRound : FairRound machine session call (begun machine set_up)
unfolding word_at loop_code
call-FairRound = record {
  kept = λ b tb. refl;
  fair = record {
    live = refl;
    threads = λ e. refl;
    children = λ e th. absurd (omega arith);
    calls = λ e x at.
        (λ i h t. omega arith, (far_away, (λ i h. (omega arith, omega arith)), λ z. omega arith));
  };
}

return-FairRound : FairRound machine session return in_malloc
unfolding loop_code
return-FairRound = record {
  kept = λ b tb. refl;
  fair = record {
    live = refl;
    threads = λ e. refl;
    children = λ e th. absurd (omega arith);
    calls = λ e x at. absurd (no_entry x at);
  };
}
  where
    no_entry : (x : Api) → 0x1080 ≢ (kept x).entry_address
    no_entry malloc h = omega arith
    no_entry free h = omega arith
    no_entry realloc h = omega arith
    no_entry calloc h = omega arith

interrupt-FairRound : FairRound machine session interrupt traced
unfolding loop_code
interrupt-FairRound = record {
  kept = λ b tb. refl;
  fair = record {
    live = refl;
    threads = λ e. absurd (omega arith);
    children = λ e th. absurd (ground arith);
    calls = λ e. absurd (omega arith);
  };
}

whole_run : Runs machine session (begun machine set_up) last
unfolding loop_code
whole_run =
    again call call-FairRound refl
      (again return return-FairRound refl (ends interrupt interrupt-FairRound refl))

finish-breakpoint_init_example :
    ((last.memory.stops 10 ≡ true)
      × Image machine 10 bytes IsText (finish machine setting.options kept 10 last).memory no_trap)
    ⊎ ((last.memory.stops 10 ≡ false)
        × Layout machine session
            (inside machine session last)
            (finish machine setting.options kept 10 last).memory
            last.return_address)
finish-breakpoint_init_example =
    finish-breakpoint_init machine 10 clean addresses setting.options untouched kept set_up inits
      last whole_run

-- The target 10 has the thread 11.
abbrev proc : Proc
proc = record { maps = none; exe = none; task = some (0 ∷ 0 ∷ 10 ∷ 11 ∷ []) }

start_up-attached_example :
    start_up machine proc 5 10 clean addresses
    ≡ some (
      attached (others 10 (positive (numbered (0 ∷ 0 ∷ 10 ∷ 11 ∷ []))))
          ++ attach 10 ∷ wait 10 ∷ trace_child 10 ∷ set_breakpoints 10 ∷ resume 10 ∷ [],
      kept,
      set_up,
    )
start_up-attached_example =
    start_up-attached proc 10 (0 ∷ 0 ∷ 10 ∷ 11 ∷ []) refl machine clean addresses kept set_up inits
