-- ===== src/Callstack.antt =====
-- callstack.c and the loop of `ptr_backtrace`: which callstack an allocation belongs to.
pub mod Index
pub mod Alias
use memleax.Prelude.{
  ℕ, suc, ◌+◌, Bool, true, false, Option, none, some, List, [], ◌∷◌, ◌++◌, if◌then◌else◌, update,
  slt32, sub32, int_of,
}
use memleax.Hash.{hash_search, hash_add}
use memleax.State.{fresh_callstack, Callstack, Tracker, Env, Event}

-- The rounds of the do-while loop of `ptr_backtrace` after the first: `i` frames are stored, and
-- `ips` are the frames that `unw_step` still reaches.
unwind_loop : ℕ → ℕ → List ℕ → List ℕ
unwind_loop i size [] = []
unwind_loop i size (ip ∷ ips) = if slt32 i size then ip ∷ unwind_loop (i + 1) size ips else []

unfoldable pub ptr_backtrace : Env → ℕ → List ℕ
unfolding unwind_loop
ptr_backtrace e size = e.first_ip ∷ unwind_loop 1 size e.next_ips

-- The words that the key of a callstack is compared with.
abbrev pub ips_at : Tracker → ℕ → List ℕ
ips_at s c = (s.callstack c).ips

-- The key: the entry of the API, and the backtrace.
abbrev pub current_ips : Env → List ℕ
current_ips e = e.entry ∷ ptr_backtrace e (sub32 e.limit 1)

-- "not found, create new one"
abbrev pub add_callstack : List ℕ → Tracker → Tracker
add_callstack ips s = record s {
  callstack = update s.callstack s.callstack_num (fresh_callstack ips);
  callstack_num = s.callstack_num + 1;
  callstack_hash = hash_add s.callstack_hash s.callstack_num ips;
}

-- The callstack found or created. `none`: a comparison ran past a stored callstack.
-- `some (none, s)` is NULL.
abbrev pub found_or_new : Env → List ℕ → Tracker → Option ℕ → Option ℕ × Tracker
found_or_new e ips s (some c) = (some c, s)
found_or_new e ips s none =
    if e.malloc_callstack then (some s.callstack_num, add_callstack ips s) else (none, s)

unfoldable pub callstack_current : Env → Tracker → Option (Option ℕ × Tracker)
callstack_current e s =
    let ips = current_ips e in
    elim (hash_search (ips_at s) s.callstack_hash ips) [
      | none ↦ none
      | some p ↦ some (found_or_new e ips s p)
    ]
