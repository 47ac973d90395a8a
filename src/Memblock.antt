-- ===== src/Memblock.antt =====
-- memblock.c: memory blocks from allocation to free, and their expiry.
pub mod Valid
pub mod Weights
pub mod Lookup
pub mod Consistent
pub mod Search
pub mod Expiry
pub mod Order
pub mod Start
pub mod Lifetimes
pub mod Bytes
pub mod Unfreed
pub mod Chronology
pub mod Balance
use memleax.Prelude.{
  ℕ, suc, ◌+◌, ◌^◌, Bool, true, false, not, ◌&&◌, ◌||◌, Option, none, some, List, [], ◌∷◌, ◌++◌,
  if◌then◌else◌, ◌==◌, update, erase, add32, sub32, sub64, add64, int_of, long_of, slt32, slt64,
  minus_one,
}
use memleax.Hash.{hash_search, hash_add, hash_delete}
use memleax.State.{
  Callstack, Memblock, Tracker, Env, Event, alloc_null, backtrace, expired_free, too_many_frees,
  expires_first, expires_again, callstacks_full, memblocks_full,
}
use memleax.Callstack.{callstack_current}

-- `list_add_tail` on the active list, `hash_add`, and the counters of the callstack
abbrev pub link_block : Env → ℕ → ℕ → ℕ → ℕ → Tracker → Tracker
link_block e a c pointer size s = record s {
  callstack = update s.callstack c (record (s.callstack c) {
    alloc_count = add32 (s.callstack c).alloc_count 1;
    alloc_size = add32 (s.callstack c).alloc_size (int_of size);
  });
  block = update s.block a (
      some (record {
        pointer = pointer;
        size = size;
        create = e.now;
        expired = false;
        callstack = c;
      }));
  memblock_hash = hash_add s.memblock_hash a (pointer ∷ []);
  active = s.active ++ a ∷ [];
}

-- `callstack_print(callstack_current())`: a NULL callstack is dereferenced.
abbrev pub warn_null : Option ℕ × Tracker → Option (ℕ × Tracker)
warn_null (none, s) = none
warn_null (some c, s) =
    some (0, record s { output = s.output ++ alloc_null ∷ backtrace (s.callstack c).ips ∷ [] })

abbrev pub new_at : Env → ℕ → ℕ → ℕ → Option ℕ × Tracker → Option (ℕ × Tracker)
new_at e a pointer size (none, s) = some (minus_one, s)
new_at e a pointer size (some c, s) = some (0, link_block e a c pointer size s)

-- `none`: the process faults.
unfoldable pub memblock_new : Env → ℕ → ℕ → Tracker → Option (ℕ × Tracker)
memblock_new e pointer size s =
    if pointer == 0
    then elim (callstack_current e s) [ none ↦ none | some r ↦ warn_null r ]
    else elim e.malloc_block [
      | none ↦ some (minus_one, s)
      | some a ↦ elim (callstack_current e s) [ none ↦ none | some r ↦ new_at e a pointer size r ]
    ]

abbrev pub do_not_show_after : ℕ
do_not_show_after = 3

-- The counters of a callstack when one of its expired blocks is freed.
abbrev pub count_free_expired : Memblock → Callstack → Callstack
count_free_expired mb cs =
    if mb.expired
    then record cs {
      free_expired_count = add32 cs.free_expired_count 1;
      free_expired_size = add32 cs.free_expired_size (int_of mb.size);
    }
    else cs

-- The messages of `memblock_delete`, from the counters after that.
abbrev pub free_expired_events : Memblock → Callstack → ℕ → List Event
free_expired_events mb cs free_time =
    if mb.expired
    then (if slt32 do_not_show_after cs.free_expired_count
        then []
        else expired_free cs.id free_time ∷ [])
      ++ (if cs.free_expired_count == do_not_show_after then too_many_frees cs.id ∷ [] else [])
    else []

-- The counters of every free.
abbrev pub count_free : Memblock → ℕ → Callstack → Callstack
count_free mb free_time cs = record cs {
  free_count = add32 cs.free_count 1;
  free_size = add32 cs.free_size (int_of mb.size);
  free_total = add32 cs.free_total (int_of free_time);
  free_max = if slt64 (long_of cs.free_max) free_time then int_of free_time else cs.free_max;
  free_min =
      if cs.free_min == 0 || slt64 free_time (long_of cs.free_min)
      then int_of free_time
      else cs.free_min;
}

-- `list_del` unlinks the block from the list that it stands in.
abbrev pub unlink_block : ℕ → ℕ → ℕ → Memblock → Tracker → Tracker
unlink_block now a free_time mb s =
    let cs = count_free_expired mb (s.callstack mb.callstack) in
    record s {
      callstack = update s.callstack mb.callstack (count_free mb free_time cs);
      block = update s.block a none;
      memblock_hash = hash_delete s.memblock_hash a;
      active = erase a s.active;
      expire = erase a s.expire;
      output = s.output ++ free_expired_events mb cs free_time;
    }

unfoldable pub memblock_delete : ℕ → Option ℕ → Tracker → Option Tracker
memblock_delete now none s = some s
memblock_delete now (some a) s = elim (s.block a) [
  | none ↦ none
  | some mb ↦ some (unlink_block now a (sub64 now mb.create) mb s)
]

abbrev pub resize_block : ℕ → ℕ → Memblock → Tracker → Tracker
resize_block a size mb s = record s {
  callstack = update s.callstack mb.callstack (record (s.callstack mb.callstack) {
    alloc_size = add32 (sub32 (s.callstack mb.callstack).alloc_size (int_of mb.size)) (int_of size);
  });
  block = update s.block a (some (record mb { size = size }));
}

unfoldable pub memblock_update_size : Option ℕ → ℕ → Tracker → Option Tracker
memblock_update_size none size s = some s
memblock_update_size (some a) size s = elim (s.block a) [
  | none ↦ none
  | some mb ↦ some (resize_block a size mb s)
]

-- The words behind the hash node of a block begin with its pointer, which is all that is compared.
unfoldable pub pointer_at : Tracker → ℕ → List ℕ
pointer_at s a = elim (s.block a) [ none ↦ [] | some mb ↦ mb.pointer ∷ [] ]

unfoldable pub memblock_search : ℕ → Tracker → Option (Option ℕ)
unfolding pointer_at
memblock_search pointer s = hash_search (pointer_at s) s.memblock_hash (pointer ∷ [])

-- The counters of a callstack when one of its blocks expires, and its number, given once.
abbrev pub count_expired : Memblock → ℕ → Callstack → Callstack
count_expired mb next_id cs = record cs {
  expired_count = add32 cs.expired_count 1;
  expired_size = add32 cs.expired_size (int_of mb.size);
  id = if cs.id == 0 then next_id else cs.id;
}

-- The messages of `memblock_expire_one`; `cs` is the callstack before its counters change.
abbrev pub expired_events : Memblock → ℕ → Callstack → List Event
expired_events mb next_id cs =
    if cs.id == 0
    then expires_first next_id mb.size ∷ backtrace cs.ips ∷ []
    else if slt32 cs.free_expired_count do_not_show_after
    then expires_again cs.id mb.size (add32 cs.expired_count 1) ∷ []
    else []

unfoldable pub memblock_expire_one : ℕ → Memblock → Tracker → Tracker
memblock_expire_one a mb s =
    let cs = s.callstack mb.callstack in
    record s {
      callstack = update s.callstack mb.callstack (count_expired mb s.next_id cs);
      block = update s.block a (some (record mb { expired = true }));
      active = erase a s.active;
      expire = erase a s.expire ++ a ∷ [];
      next_id = if cs.id == 0 then add32 s.next_id 1 else s.next_id;
      output = s.output ++ expired_events mb s.next_id cs;
    }

-- What the limits say of the callstack of the block that just expired.
pub data Verdict : Type 0 where
  go_on : Verdict
  stop : Event → Verdict

abbrev pub check_limits : ℕ → ℕ → Callstack → Verdict
check_limits memblock_limit callstack_limit cs =
    if not (slt32 cs.id (add32 callstack_limit 1))
    then stop (callstacks_full callstack_limit)
    else if not (slt32 cs.expired_count memblock_limit)
    then stop (memblocks_full memblock_limit cs.id)
    else go_on

-- The loop of `memblock_expire` over the active list as it was at the start, and the result: -1, 0
-- or the seconds until the next block may expire.
module _ (now expire memblock_limit callstack_limit : ℕ) where
  unfoldable pub expire_loop : List ℕ → Tracker → Option (ℕ × Tracker)
  expire_loop [] s = some (0, s)
  expire_loop (a ∷ rest) s = elim (s.block a) [
    | none ↦ none
    | some mb ↦
        let age = sub64 now mb.create in
        let s' = memblock_expire_one a mb s in
        elim (slt64 age expire) [
          | true ↦ some (int_of (add64 (sub64 expire age) 1), s)
          | false ↦ elim (check_limits memblock_limit callstack_limit (s'.callstack mb.callstack)) [
            | stop event ↦ some (minus_one, record s' { output = s'.output ++ event ∷ [] })
            | go_on ↦ expire_loop rest s'
          ]
        ]
  ]

  unfoldable pub memblock_expire : Tracker → Option (ℕ × Tracker)
  unfolding expire_loop memblock_expire_one
  memblock_expire s = expire_loop s.active s

-- The body of the loops of `memblock_count`
abbrev pub count_one : ℕ → Memblock → Tracker → Tracker
count_one now mb s =
    let cs = s.callstack mb.callstack in
    record s {
      callstack = update s.callstack mb.callstack (record cs {
        unfree_max = if cs.unfree_max == 0 then int_of (sub64 now mb.create) else cs.unfree_max;
      });
    }

-- One of the two loops of `memblock_count`
unfoldable pub count_loop : ℕ → List ℕ → Tracker → Option Tracker
count_loop now [] s = some s
count_loop now (a ∷ rest) s = elim (s.block a) [
  | none ↦ none
  | some mb ↦ count_loop now rest (count_one now mb s)
]

unfoldable pub memblock_count : ℕ → Tracker → Option Tracker
unfolding count_loop
memblock_count now s = elim (count_loop now s.expire s) [
  | none ↦ none
  | some s' ↦ count_loop now s'.active s'
]
