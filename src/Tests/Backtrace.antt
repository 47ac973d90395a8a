-- ===== src/Tests/Backtrace.antt =====
-- Calls for three threads, a section of one word, and a cache of one query, with the theorems there.
use memleax.Prelude.{
  same_string, codes, get_elem-lt, if◌then◌else◌, subst, ◌^◌, erase, count-nil, ◌%◌, ◌-◌, ℕ, none,
  some, List, [], ◌∷◌, ◌≡◌, ◌≢◌, refl, arith,
}
use memleax.Machine.{ptrace_get_data}
use memleax.Backtrace.{
  ThreadSpace, MapSection, access_mem, peeked, Reply, IpCache, find_proc_info, reply_answer,
}
use memleax.Backtrace.Recency.{calls, history, Recent, calls-Recent}
use mathlib.Core.Option.{some-injective, none-ne-some}
use memleax.Sort.{All-get_elem}
use memleax.ProcInfo.{Line, Proc, Map}
use memleax.Backtrace.Build.{Reading, words_of, ptr_maps_build}
use memleax.Backtrace.Built.{Holds, Copied, access_mem-ptr_maps_build}
use memleax.Backtrace.Cache.{Remembers, find_proc_info_lem}
use memleax.Tests.Target.{machine}
use memleax.Tests.Loop.{start}

-- libunwind makes space 100 + t for thread t.
abbrev owner : ℕ → ℕ
owner uspace = uspace - 100

-- Thread 1, then 2, then 1 again, then 3.
abbrev used : List (ℕ × ℕ)
used = (3, 103) ∷ (1, 101) ∷ (2, 102) ∷ (1, 101) ∷ []

order : history used ≡ 3 ∷ 1 ∷ 2 ∷ []
unfolding erase
order = refl

calls-Recent_example :
    (spaces : List ThreadSpace) × (calls used ≡ some spaces) × Recent owner (history used) spaces
calls-Recent_example =
    calls-Recent owner used (ground arith, (ground arith, (ground arith, (ground arith, tt))))
      (refl, (refl, (refl, (refl, tt))))

-- Eight bytes of the text, mapped from a file.
abbrev nops : List ℕ
nops = 0x90 ∷ 0x90 ∷ 0x90 ∷ 0x90 ∷ 0x90 ∷ 0x90 ∷ 0x90 ∷ 0x90 ∷ []

abbrev reading : Reading
reading path size = if same_string path (codes "/bin/app") then some nops else none

abbrev lines : List Line
lines =
    record {
      items = 8;
      start = 0x1080;
      end = 0x1088;
      perms = codes "r-xp";
      path = codes "/bin/app";
    }
    ∷ record { items = 8; start = 0x2000; end = 0x3000; perms = codes "r-xp"; path = codes "/gone" }
    ∷ []

abbrev proc : Proc
proc = record { maps = some lines; exe = some (codes "/bin/app"); task = none }

nops-Holds : Holds (machine.byte start.memory 11) 0x1080 nops
nops-Holds i b e =
    let same : 0x90 ≡ b =
      All-get_elem (λ c. 0x90 ≡ c) nops i b
        (refl, (refl, (refl, (refl, (refl, (refl, (refl, (refl, tt)))))))) e in
    let inside = get_elem-lt nops i b e in ground (arith, same, inside)

copied :
    (m : Map) (bytes : List ℕ)
    → m.start ≡ 0x1080
    → nops ≡ bytes
    → Copied machine start.memory 11 0x1080 reading m bytes
copied m bytes at e =
    subst (λ l. Copied machine start.memory 11 0x1080 reading m l) e
      (record {
        whole = refl;
        inside = omega (arith, at);
        same = rw at nops-Holds;
        no_error = λ i w h.
            All-get_elem (λ v. v ≢ 2 ^ 64 - 1) (words_of nops) i w ((λ z. omega (arith, z)), tt) h;
        not_end = λ h. omega (arith, at, h);
        aligned = λ low high. omega (arith, at);
      })

access_mem-ptr_maps_build_example :
    (sections : List MapSection) × (ptr_maps_build reading 3 proc ≡ some sections)
    × (access_mem machine start.memory 11 sections 0x1080
        ≡ peeked machine (ptrace_get_data machine start.memory 11 0x1080))
access_mem-ptr_maps_build_example =
    access_mem-ptr_maps_build machine start.memory 11 0x1080 reading proc lines (codes "/bin/app")
      refl refl
      (
        (λ bytes e. copied _ bytes refl (some-injective _ _ e)),
        ((λ bytes e. absurd (none-ne-some bytes e)), tt),
      )

abbrev query : ℕ → Reply
query ip = record { ret = ip % 2; info = record { unwind_info = ip ∷ []; others = [] } }

abbrev empty : IpCache
empty = record { ip_info_hash = λ n. []; ip_info = λ p. none }

empty-Remembers : Remembers query empty
empty-Remembers = record { known = λ n p h. absurd (omega (arith, count-nil p)) }

find_proc_info_lem_example :
    (c : IpCache) × (find_proc_info query (some 1) 0x1001 empty
      ≡ some (reply_answer (query 0x1001), c))
    × Remembers query c
find_proc_info_lem_example =
    find_proc_info_lem query (λ ip. omega arith) empty 0x1001 1 empty-Remembers
