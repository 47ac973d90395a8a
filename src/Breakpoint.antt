-- ===== src/Breakpoint.antt =====
-- breakpoint.c: the handlers that run when a hooked API returns. A handler takes what the API
-- returned and its two arguments.
pub mod Handlers
pub mod Table
pub mod Traps
pub mod Setup
use memleax.Prelude.{ℕ, ◌*◌, ◌%◌, ◌^◌, Option, none, some, if◌then◌else◌, ◌==◌}
use memleax.State.{Tracker, Env}
use memleax.Memblock.{memblock_new, memblock_delete, memblock_update_size, memblock_search}

pub data Api : Type 0 where
  malloc : Api
  free : Api
  realloc : Api
  calloc : Api

unfoldable pub bph_malloc : Env → ℕ → ℕ → Tracker → Option (ℕ × Tracker)
bph_malloc e pointer size s = memblock_new e pointer size s

-- `memblock_delete(memblock_search(pointer))`
unfoldable pub search_delete : Env → ℕ → Tracker → Option Tracker
search_delete e pointer s = elim (memblock_search pointer s) [
  | none ↦ none
  | some p ↦ memblock_delete e.now_delete p s
]

-- A handler that returns 0
abbrev pub success : Option Tracker → Option (ℕ × Tracker)
success none = none
success (some s) = some (0, s)

unfoldable pub bph_free : Env → ℕ → Tracker → Option (ℕ × Tracker)
unfolding search_delete
bph_free e pointer s = success (search_delete e pointer s)

unfoldable pub bph_realloc : Env → ℕ → ℕ → ℕ → Tracker → Option (ℕ × Tracker)
unfolding search_delete
bph_realloc e new_pointer old_pointer size s =
    if new_pointer == old_pointer
    then elim (memblock_search old_pointer s) [
      | none ↦ none
      | some p ↦ success (memblock_update_size p size s)
    ]
    else elim (search_delete e old_pointer s) [
      | none ↦ none
      | some s' ↦ memblock_new e new_pointer size s'
    ]

unfoldable pub bph_calloc : Env → ℕ → ℕ → ℕ → Tracker → Option (ℕ × Tracker)
bph_calloc e pointer nmemb size s = memblock_new e pointer (nmemb * size % 2 ^ 64) s

-- The `handler` of the breakpoint of an API: `bp->handler(return value, arg1, arg2)`
unfoldable pub handle : Api → Env → ℕ → ℕ → ℕ → Tracker → Option (ℕ × Tracker)
unfolding bph_malloc bph_free bph_realloc bph_calloc
handle malloc e value arg1 arg2 s = bph_malloc e value arg1 s
handle free e value arg1 arg2 s = bph_free e arg1 s
handle realloc e value arg1 arg2 s = bph_realloc e value arg1 arg2 s
handle calloc e value arg1 arg2 s = bph_calloc e value arg1 arg2 s
