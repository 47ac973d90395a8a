-- ===== src/State.antt =====
-- The data of memleax: `struct memblock_s`, `struct callstack_s`, the static tables and lists of
-- memblock.c and callstack.c, and what a handler learns from outside.
use memleax.Prelude.{none, [], ℕ, Option, List, Bool}
use memleax.Hash.{Table}

-- `struct callstack_s`; the counters are `int`s as bit patterns, and `ip_num` is the length of `ips`.
pub record Callstack : Type 0 where
  pub id : ℕ
  pub alloc_count : ℕ
  pub free_count : ℕ
  pub expired_count : ℕ
  pub free_expired_count : ℕ
  pub alloc_size : ℕ
  pub free_size : ℕ
  pub expired_size : ℕ
  pub free_expired_size : ℕ
  pub free_min : ℕ
  pub free_max : ℕ
  pub free_total : ℕ
  pub unfree_max : ℕ
  pub ips : List ℕ

-- `struct memblock_s`; the nodes are the block's own address.
pub record Memblock : Type 0 where
  pub pointer : ℕ
  pub size : ℕ
  pub create : ℕ
  pub expired : Bool
  pub callstack : ℕ

-- What the handlers print.
pub data Event : Type 0 where
  alloc_null : Event
  backtrace : List ℕ → Event
  expired_free : ℕ → ℕ → Event
  too_many_frees : ℕ → Event
  expires_first : ℕ → ℕ → Event
  expires_again : ℕ → ℕ → ℕ → Event
  callstacks_full : ℕ → Event
  memblocks_full : ℕ → ℕ → Event

-- Callstacks are never freed: the k-th that is created is number k. The address of a live block
-- is one that `block` knows. `active` and `expire` are the lists in order.
pub record Tracker : Type 0 where
  pub callstack : ℕ → Callstack
  pub callstack_num : ℕ
  pub callstack_hash : Table
  pub block : ℕ → Option Memblock
  pub memblock_hash : Table
  pub active : List ℕ
  pub expire : List ℕ
  pub next_id : ℕ
  pub output : List Event

-- The answers that one handler gets: the clock as `memblock_new` and `memblock_delete` read it,
-- `g_current_entry`, `opt_backtrace_limit`, the
-- instruction pointers that the unwinder reaches, and what `malloc` returns for a block (an
-- address or NULL) and for a callstack (whether it succeeds).
pub record Env : Type 0 where
  pub now : ℕ
  pub now_delete : ℕ
  pub entry : ℕ
  pub limit : ℕ
  pub first_ip : ℕ
  pub next_ips : List ℕ
  pub malloc_block : Option ℕ
  pub malloc_callstack : Bool

-- A callstack as `bzero` and `memcpy` leave it.
abbrev pub fresh_callstack : List ℕ → Callstack
fresh_callstack ips = record {
  id = 0;
  alloc_count = 0;
  free_count = 0;
  expired_count = 0;
  free_expired_count = 0;
  alloc_size = 0;
  free_size = 0;
  expired_size = 0;
  free_expired_size = 0;
  free_min = 0;
  free_max = 0;
  free_total = 0;
  unfree_max = 0;
  ips = ips;
}

-- The static data of memblock.c and callstack.c at the start of the program. No callstack exists.
unfoldable pub initial : Tracker
initial = record {
  callstack = λ c. fresh_callstack [];
  callstack_num = 0;
  callstack_hash = λ n. [];
  block = λ a. none;
  memblock_hash = λ n. [];
  active = [];
  expire = [];
  next_id = 1;
  output = [];
}
