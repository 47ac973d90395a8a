-- ===== src/Tests/Blocks.antt =====
-- The theorems on memory blocks at the two allocations.
use memleax.Prelude.{
  ◌%◌, ℕ, ◌^◌, ◌≡◌, ◌≤◌, refl, ◌<◌, ◌↔◌, ◌⊎◌, false, some, List, [], ◌∷◌, ◌++◌, arith,
}
use memleax.Callstack.{callstack_current, add_callstack}
use memleax.State.{Env, Tracker, initial, Callstack, Memblock, fresh_callstack}
use memleax.Callstack.Index.{Current, callstack_current_lem}
use memleax.Callstack.Alias.{callstack_current_longer}
use memleax.Memblock.{memblock_search, memblock_expire, memblock_count, resize_block}
use memleax.Memblock.Search.{Finds, memblock_search-Finds}
use memleax.Memblock.Lookup.{IsConsistent, Returns}
use memleax.Memblock.Expiry.{Expired, memblock_expire-Expired}
use memleax.Memblock.Order.{IsOrdered, creates}
use memleax.Memblock.Unfreed.{oldest, memblock_count-oldest}
use memleax.Memblock.Lifetimes.{frees, longest, times, free_max-longest, free_min-since_zero}
use memleax.Memblock.Bytes.{HasBytes, resize-HasBytes}
use memleax.Memblock.Weights.{weigh-nil, bytes_by}
use memleax.Breakpoint.{malloc, handle}
use memleax.Breakpoint.Handlers.{handle-IsConsistent}
use memleax.Tests.{
  first, program, second, one_block, two_blocks, key, second-Answers, one_block-IsConsistent,
  two_blocks-IsConsistent,
}

handle-IsConsistent_example :
    Returns (handle malloc second 0x6000 40 0 one_block) (λ r. IsConsistent r.1)
handle-IsConsistent_example =
    handle-IsConsistent second one_block one_block-IsConsistent second-Answers malloc 0x6000 40 0

two_blocks-IsOrdered : (now : ℕ) → 105 ≤ now → now < 2 ^ 63 → IsOrdered now two_blocks
unfolding program creates
two_blocks-IsOrdered now h k = record {
  ascending = omega arith;
  past = omega arith;
  representable = k;
}

memblock_expire-Expired_example :
    Returns (memblock_expire 112 10 1000 1000 two_blocks) (Expired 112 10 1000 1000 two_blocks)
memblock_expire-Expired_example =
    memblock_expire-Expired 112 10 1000 1000 two_blocks two_blocks-IsConsistent

memblock_count-oldest_example : Returns (memblock_count 120 two_blocks) λ t.
    (c : ℕ)
    → (t.callstack c).unfree_max
      ≡ oldest 120 c two_blocks.block (two_blocks.expire ++ two_blocks.active)
unfolding program creates
memblock_count-oldest_example =
    memblock_count-oldest 120 two_blocks two_blocks-IsConsistent
      (two_blocks-IsOrdered 120 (omega arith) (omega arith)) (omega arith) (λ c. ground arith)

memblock_search-Finds_example :
    Returns (memblock_search 0x5000 two_blocks) (Finds 0x5000 two_blocks)
memblock_search-Finds_example =
    memblock_search-Finds 0x5000 two_blocks two_blocks-IsConsistent.valid

callstack_current_lem_example : Current second one_block (some 0) one_block
unfolding program
callstack_current_lem_example =
    callstack_current_lem second one_block one_block-IsConsistent.indexed (some 0) one_block refl

abbrev block : Memblock
block = record { pointer = 0x5000; size = 24; create = 100; expired = false; callstack = 0 }

abbrev lifetimes : List (Memblock × ℕ)
lifetimes = (block, 7) ∷ (block, 3) ∷ (block, 5) ∷ []

abbrev stack : Callstack
stack = fresh_callstack key

free_max-longest_example : (frees lifetimes stack).free_max ≡ 7
unfolding longest times
free_max-longest_example = free_max-longest lifetimes stack (omega arith) (omega arith)

free_min-since_zero_example :
    (frees ((block, 3) ∷ (block, 0) ∷ (block, 9) ∷ (block, 7) ∷ []) stack).free_min ≡ 7
unfolding times
free_min-since_zero_example =
    free_min-since_zero ((block, 3) ∷ (block, 0) ∷ (block, 9) ∷ (block, 7) ∷ []) stack refl
      (omega arith)

-- The first block has not expired, so it may be resized.
resize-HasBytes_example :
    HasBytes (resize_block 1 64 block two_blocks)
    ↔ ((block.expired ≡ false) ⊎ (64 % 2 ^ 32 ≡ 24 % 2 ^ 32))
unfolding program
resize-HasBytes_example =
    resize-HasBytes 1 block two_blocks two_blocks-IsConsistent.valid refl 64
      (λ c. ground (arith, weigh-nil (bytes_by c) two_blocks.block))

-- A recursion that returns to one address twice, and a call from its outermost frame.
abbrev short_call : Env
short_call = record first { next_ips = [] }

abbrev recursion : Tracker
recursion = add_callstack (0x400 ∷ 0x10 ∷ 0x20 ∷ 0x20 ∷ []) initial

callstack_current_longer_example : callstack_current short_call recursion ≡ some (some 0, recursion)
unfolding program
callstack_current_longer_example =
    callstack_current_longer short_call recursion 0 [] (0x20 ∷ 0x20 ∷ []) refl refl
