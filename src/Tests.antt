-- ===== src/Tests.antt =====
-- Runs of the handlers on two allocations, and the theorems at concrete inputs.
mod Blocks
mod Target
mod Loop
mod Session
mod Debug
mod Symbols
mod Units
mod Report
mod Sorting
mod Proc
mod Backtrace
mod Tables
use memleax.Prelude.{
  ℕ, ◌+◌, ◌≡◌, refl, ◌<◌, Bool, true, false, Option, none, some, List, [], ◌∷◌, ◌++◌, arith, erase,
  count,
}
use mathlib.Core.Option
use memleax.Hash.{hash_slot, hash_search, hash_add, hash_delete, chain_search, memcmp}
use memleax.State.{Memblock, Tracker, Env, initial, fresh_callstack}
use memleax.Callstack.{callstack_current, ptr_backtrace, add_callstack, current_ips}
use memleax.Memblock.{
  memblock_new, memblock_delete, memblock_search, memblock_update_size, memblock_expire,
  memblock_count, link_block,
}
use memleax.Memblock.Lookup.{IsConsistent, Returns}
use memleax.Memblock.Start.{initial-IsConsistent}
use memleax.Breakpoint.{Api, malloc, free, realloc, calloc, handle}
use memleax.Breakpoint.Handlers.{Answers, handle-IsConsistent}

abbrev pub first : Env
first = record {
  now = 100;
  now_delete = 100;
  entry = 0x400;
  limit = 50;
  first_ip = 0x10;
  next_ips = 0x20 ∷ 0x30 ∷ [];
  malloc_block = some 1;
  malloc_callstack = true;
}

abbrev pub second : Env
second = record first { now = 105; malloc_block = some 2 }

pub program : Unit {0}
unfolding handle memblock_new memblock_delete memblock_search memblock_update_size memblock_expire
    memblock_count callstack_current ptr_backtrace hash_search hash_add hash_delete chain_search
    memcmp hash_slot initial erase
program = tt

abbrev pub key : List ℕ
key = 0x400 ∷ 0x10 ∷ 0x20 ∷ 0x30 ∷ []

abbrev pub one_block : Tracker
one_block = link_block first 1 0 0x5000 24 (add_callstack key initial)

abbrev pub two_blocks : Tracker
two_blocks = link_block second 2 0 0x6000 40 one_block

-- Both allocations come from one callstack.
malloc_twice : handle malloc second 0x6000 40 0 one_block ≡ some (0, two_blocks)
unfolding program
malloc_twice = refl

free_second :
    Option.map (λ (r : ℕ × Tracker). r.1.active) (handle free second 0 0x6000 0 two_blocks)
    ≡ some (1 ∷ [])
unfolding program
free_second = refl

pub first-Answers : Answers first initial
unfolding initial
first-Answers = record { fresh = λ a h. refl; short = λ c h. absurd (omega arith); memory = refl }

pub one_block-IsConsistent : IsConsistent one_block
unfolding program
one_block-IsConsistent =
    handle-IsConsistent first initial initial-IsConsistent first-Answers malloc 0x5000 24 0

pub second-Answers : Answers second one_block
unfolding program
second-Answers = record { fresh = λ a h. ground arith; short = λ c h. ground arith; memory = refl }

pub two_blocks-IsConsistent : IsConsistent two_blocks
unfolding program
two_blocks-IsConsistent =
    handle-IsConsistent second one_block one_block-IsConsistent second-Answers malloc 0x6000 40 0
