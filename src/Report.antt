-- ===== src/Report.antt =====
-- `callstack_print`, `callstack_cmp` and `callstack_report` of callstack.c: what is printed at the end of
-- monitoring, as data. `qsort` and the answers of malloc are given.
pub mod Ordering
pub mod Frames
pub mod Printed
pub mod Ordered
pub mod Listed
use memleax.Prelude.{
  ◌/◌, slt32, if◌then◌else◌, not, ℕ, zero, suc, Bool, true, false, Option, none, some, List, [],
  ◌∷◌, ◌++◌, ◌==◌, sub32, sub64, same_string,
}
use memleax.Sort.{Qsort}
use memleax.Hash.{Table, hash_size}
use memleax.State.{Callstack, Tracker}
use memleax.Memblock.{memblock_count}
use memleax.AddrMaps.{AddrMap, addr_maps_search}
use memleax.Symtab.{Symbol, symtab_by_address}
use memleax.DebugLine.{DwarfDie, debug_line_search}
use memleax.Array.{Array, array_of, array_push, array_store, array_items, array_sort}

-- The tables that the start of the program builds.
pub record Names : Type 0 where
  pub maps : List AddrMap
  pub symbols : List Symbol
  pub dies : List DwarfDie

-- A line of a backtrace: the map, the function with the offset, and the source file with the line.
pub record Frame : Type 0 where
  pub address : ℕ
  pub map_file : List ℕ
  pub proc : Option (List ℕ × ℕ)
  pub line : Option (List ℕ × ℕ)

-- "main"
abbrev main_name : List ℕ
main_name = b'm' ∷ b'a' ∷ b'i' ∷ b'n' ∷ []

-- The three searches for an address; `none` for a fault of one.
unfoldable pub frame_of : Names → ℕ → Option Frame
unfolding addr_maps_search symtab_by_address debug_line_search
frame_of names address = elim (addr_maps_search names.maps address) [
  | none ↦ none
  | some map_file ↦ elim (symtab_by_address names.symbols address) [
    | none ↦ none
    | some proc ↦ elim (debug_line_search names.dies (sub64 address 1)) [
      | none ↦ none
      | some line ↦
          some (record { address = address; map_file = map_file; proc = proc; line = line })
    ]
  ]
]

abbrev pub is_main : Frame → Bool
is_main f = elim f.proc [ none ↦ false | some (name, offset) ↦ same_string name main_name ]

-- What is printed once a frame is: the rest, unless it was the last.
abbrev pub printed : Frame → Option (List Frame) → Option (List Frame)
printed f rest = elim (is_main f) [
  | true ↦ some (f ∷ [])
  | false ↦ elim rest [ none ↦ none | some fs ↦ some (f ∷ fs) ]
]

unfoldable pub callstack_print : Names → List ℕ → Option (List Frame)
unfolding frame_of
callstack_print names [] = some []
callstack_print names (address ∷ rest) = elim (address == 0) [
  | true ↦ some []
  | false ↦ elim (frame_of names address) [
    | none ↦ none
    | some f ↦ printed f (callstack_print names rest)
  ]
]

abbrev pub may_leak : Callstack → ℕ
may_leak cs = sub32 cs.expired_count cs.free_expired_count

abbrev pub callstack_cmp : Tracker → ℕ → ℕ → ℕ
callstack_cmp s a b = sub32 (may_leak (s.callstack a)) (may_leak (s.callstack b))

-- The chains of so many slots from a first one.
unfoldable pub nodes_from : ℕ → ℕ → Table → List ℕ
nodes_from zero i hash = []
nodes_from (suc k) i hash = hash i ++ nodes_from k (suc i) hash

unfoldable pub hash_for_each : Table → List ℕ
hash_for_each hash = nodes_from hash_size 0 hash

-- Whether a callstack has blocks that expired and were not freed since.
abbrev pub leaks : Callstack → Bool
leaks cs = not (cs.expired_count == cs.free_expired_count)

-- The first loop: `ok` says whether the allocation at so many items succeeds. `none`: a write to NULL.
unfoldable pub push_loop : (ℕ → Bool) → Tracker → List ℕ → Array ℕ → Option (Array ℕ)
unfolding array_push
push_loop ok s [] a = some a
push_loop ok s (c ∷ rest) a = elim (leaks (s.callstack c)) [
  | false ↦ push_loop ok s rest a
  | true ↦
      let (slot, a') = array_push (ok a.item_num) a in
      elim slot [ none ↦ none | some i ↦ push_loop ok s rest (array_store a' i c) ]
]

-- C's division of two ints, the divisor not zero.
abbrev average : ℕ → ℕ → ℕ
average total n =
    if slt32 total 0
    then (if slt32 n 0 then sub32 0 total / sub32 0 n else sub32 0 (sub32 0 total / n))
    else if slt32 n 0
    then sub32 0 (total / sub32 0 n)
    else total / n

-- What is printed of one callstack, whose place in memory is `node`.
pub record Statistic : Type 0 where
  pub node : ℕ
  pub id : ℕ
  pub leak_count : ℕ
  pub leak_size : ℕ
  pub expired : ℕ × ℕ
  pub free_expired : ℕ × ℕ
  pub alloc : ℕ × ℕ
  pub free : ℕ × ℕ
  pub live_time : ℕ × ℕ × ℕ
  pub unfree_max : ℕ
  pub frames : List Frame

abbrev pub statistic : ℕ → Callstack → List Frame → Statistic
statistic c cs frames = record {
  node = c;
  id = cs.id;
  leak_count = may_leak cs;
  leak_size = sub32 cs.expired_size cs.free_expired_size;
  expired = (cs.expired_count, cs.expired_size);
  free_expired = (cs.free_expired_count, cs.free_expired_size);
  alloc = (cs.alloc_count, cs.alloc_size);
  free = (cs.free_count, cs.free_size);
  live_time = (
    cs.free_min,
    cs.free_max,
    if cs.free_count == 0 then 0 else average cs.free_total cs.free_count,
  );
  unfree_max = cs.unfree_max;
  frames = frames;
}

-- The second loop.
unfoldable pub show_loop : Names → Tracker → List ℕ → Option (List Statistic)
unfolding callstack_print
show_loop names s [] = some []
show_loop names s (c ∷ rest) = elim (callstack_print names (s.callstack c).ips) [
  | none ↦ none
  | some frames ↦ elim (show_loop names s rest) [
    | none ↦ none
    | some later ↦ some (statistic c (s.callstack c) frames ∷ later)
  ]
]

-- "No expired memory blocks." is the report without statistics.
abbrev pub report_array : Qsort ℕ → Names → Tracker → Array ℕ → Option (List Statistic)
report_array qsort names s a = elim (a.item_num == 0) [
  | true ↦ some []
  | false ↦ show_loop names s (array_items (array_sort qsort (callstack_cmp s) a))
]

unfoldable pub callstack_report :
    Qsort ℕ → (ℕ → Bool) → ℕ → Names → Tracker → Option (List Statistic)
unfolding memblock_count push_loop show_loop hash_for_each
callstack_report qsort ok now names s = elim (memblock_count now s) [
  | none ↦ none
  | some s' ↦ elim (push_loop ok s' (hash_for_each s'.callstack_hash) (array_of 1000)) [
    | none ↦ none
    | some a ↦ report_array qsort names s' a
  ]
]
