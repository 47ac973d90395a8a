-- ===== src/Backtrace.antt =====
-- ptr_backtrace.c around the unwinding loop, which stands in Callstack: the table of thread spaces,
-- the copies of the mapped files, and the cache of unwind information. libunwind is outside.
pub mod Recency
pub mod Memory
pub mod Build
pub mod Built
pub mod Cache
use memleax.Prelude.{
  zero, ◌^◌, ℕ, suc, ◌+◌, ◌-◌, ◌/◌, Bool, true, false, ◌&&◌, ◌||◌, Option, none, some, List, [],
  ◌∷◌, ◌++◌, if◌then◌else◌, ◌==◌, ltb, leb, length, get_elem?, update, slt32, minus_one,
}
use memleax.Hash.{Table, hash_search, hash_add}
use memleax.Machine.{Target, ptrace_get_data}

-- `struct thread_space_s`; the two objects of libunwind are one number.
pub record ThreadSpace : Type 0 where
  pub uspace : ℕ
  pub thread_id : ℕ

abbrev pub space_max : ℕ
space_max = 10

abbrev blank : ThreadSpace
blank = record { uspace = 0; thread_id = 0 }

abbrev pub blanks : ℕ → List ThreadSpace
blanks zero = []
blanks (suc n) = blank ∷ blanks n

-- "init at first time"
abbrev pub space_head_inited : List ThreadSpace → List ThreadSpace
space_head_inited [] = blanks space_max
space_head_inited (sp ∷ rest) = sp ∷ rest

-- The search of the current thread, which stops at a space not used yet and else at the last one: the
-- space and the others. `none`: there is no space.
unfoldable pub space_search : ℕ → List ThreadSpace → Option (ThreadSpace × List ThreadSpace)
space_search thread [] = none
space_search thread (sp ∷ []) = some (sp, [])
space_search thread (sp ∷ sp' ∷ rest) =
    let later : Option (ThreadSpace × List ThreadSpace) = elim (space_search thread (sp' ∷ rest)) [
      | none ↦ none
      | some (found, others) ↦ some (found, sp ∷ others)
    ] in
    if sp.thread_id == 0 || sp.thread_id == thread then some (sp, sp' ∷ rest) else later

-- "if not found, create one": `created` is what libunwind makes.
abbrev pub space_for : ℕ → ℕ → ThreadSpace → ThreadSpace
space_for thread created sp =
    if sp.thread_id == thread then sp else record { uspace = created; thread_id = thread }

-- What is destroyed to make room.
abbrev pub space_expired : ℕ → ThreadSpace → List ℕ
space_expired thread sp =
    if sp.thread_id == thread then [] else if sp.thread_id == 0 then [] else sp.uspace ∷ []

-- "update LRU": the space in use first. The list after it, and what was destroyed.
unfoldable pub use_space : ℕ → ℕ → List ThreadSpace → Option (List ThreadSpace × List ℕ)
unfolding space_search
use_space thread created spaces = elim (space_search thread (space_head_inited spaces)) [
  | none ↦ none
  | some (sp, others) ↦ some (space_for thread created sp ∷ others, space_expired thread sp)
]

-- `struct map_section_s`, its data as words of eight bytes.
pub record MapSection : Type 0 where
  pub start : ℕ
  pub end : ℕ
  pub words : List ℕ

-- A word; -UNW_EUNSPEC; or a read past the data of a section.
pub data Access : Type 0 where
  word : ℕ → Access
  unspecified : Access
  overrun : Access

abbrev word_in : Option ℕ → Access
word_in none = overrun
word_in (some w) = word w

-- The loop over the sections, and the target's memory where none has the address.
module _ (target : Target) where
  open target use {State}

  abbrev pub peeked : ℕ → Access
  peeked w = if w == 2 ^ 64 - 1 then unspecified else word w

  unfoldable pub access_mem : State → ℕ → List MapSection → ℕ → Access
  access_mem s thread [] addr = peeked (ptrace_get_data target s thread addr)
  access_mem s thread (ms ∷ rest) addr =
      let later = access_mem s thread rest addr in
      if leb ms.start addr && leb addr ms.end
      then word_in (get_elem? ms.words ((addr - ms.start) / 8))
      else later

-- `unw_proc_info_t`: the unwind information, and the rest of it.
pub record ProcInfo : Type 0 where
  pub unwind_info : List ℕ
  pub others : List ℕ

-- What a query returns: a code, and the information where the code is not negative.
pub record Reply : Type 0 where
  pub ret : ℕ
  pub info : ProcInfo

-- `struct ip_info_s`
pub record IpInfo : Type 0 where
  pub ip : ℕ
  pub reply : Reply

-- `ip_info_hash`, and the structs by their addresses.
pub record IpCache : Type 0 where
  pub ip_info_hash : Table
  pub ip_info : ℕ → Option IpInfo

abbrev pub info_max : ℕ
info_max = 100

-- `_ptr_unw_proc_info_copy` on x86: into the static buffer of 100 bytes, or into a new one. `none`:
-- past the buffer.
abbrev pub proc_info_copy : Bool → ProcInfo → Option ProcInfo
proc_info_copy new_unw_info_buf s =
    if new_unw_info_buf
    then some s
    else if ltb info_max (length s.unwind_info)
    then none
    else some s

abbrev pub ip_at : IpCache → ℕ → List ℕ
ip_at c p = elim (c.ip_info p) [ none ↦ [] | some ii ↦ ii.ip ∷ [] ]

-- A code, and the information if the code is not negative.
abbrev pub Answer : Type 0
Answer = ℕ × Option ProcInfo

abbrev answer_with : ℕ → Option ProcInfo → Option Answer
answer_with ret none = none
answer_with ret (some info) = some (ret, some info)

abbrev cached : Option IpInfo → Option Answer
cached none = none
cached (some ii) =
    if slt32 ii.reply.ret 0
    then some (ii.reply.ret, none)
    else answer_with ii.reply.ret (proc_info_copy false ii.reply.info)

abbrev pub reply_answer : Reply → Answer
reply_answer r = (r.ret, if slt32 r.ret 0 then none else some r.info)

abbrev cache_hit : ℕ → IpCache → Option (Answer × IpCache)
cache_hit p c = elim (cached (c.ip_info p)) [ none ↦ none | some answer ↦ some (answer, c) ]

abbrev cache_miss : ℕ → Reply → ℕ → IpCache → Answer × IpCache
cache_miss ip reply p c = (
  reply_answer reply,
  record {
    ip_info_hash = hash_add c.ip_info_hash p (ip ∷ []);
    ip_info = update c.ip_info p (some (record { ip = ip; reply = reply }));
  },
)

-- `query` is `_UPT_find_proc_info`, and `malloc` the address of the new struct; the malloc of the copied
-- information succeeds. `none` for a fault.
unfoldable pub find_proc_info : (ℕ → Reply) → Option ℕ → ℕ → IpCache → Option (Answer × IpCache)
find_proc_info query malloc ip c = elim (hash_search (ip_at c) c.ip_info_hash (ip ∷ [])) [
  | none ↦ none
  | some (some p) ↦ cache_hit p c
  | some none ↦ elim malloc [ none ↦ none | some p ↦ some (cache_miss ip (query ip) p c) ]
]
