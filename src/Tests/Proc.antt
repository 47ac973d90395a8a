-- ===== src/Tests/Proc.antt =====
-- A maps file of four lines and a task directory, and the theorems on the walks over them.
use memleax.Prelude.{arith, codes, All, false, true, ◌+◌, ℕ, none, some, List, [], ◌∷◌, ◌≡◌, refl}
use memleax.ProcInfo.{Line, Proc, Map, proc_maps}
use memleax.AddrMaps.{AddrMap}
use memleax.AddrMaps.Table.{addr_maps_build}
use memleax.AddrMaps.Names.{Fits, short_path-Fits}
use memleax.AddrMaps.Build.{Tabled, addr_maps_build-Tabled}
use memleax.ProcInfo.Freebsd.{VmEntry, freebsd_proc_maps, walk-freebsd_proc_maps}
use memleax.ProcInfo.Walks.{code_maps, walk, walk-proc_maps}

abbrev line : ℕ → List ℕ → List ℕ → Line
line start perms path = record {
  items = 8;
  start = start;
  end = start + 0x1000;
  perms = perms;
  path = path;
}

abbrev code : List ℕ
code = b'r' ∷ b'-' ∷ b'x' ∷ b'p' ∷ []

abbrev data_only : List ℕ
data_only = b'r' ∷ b'w' ∷ b'-' ∷ b'p' ∷ []

abbrev lines : List Line
lines =
    line 0x1000 code (b'/' ∷ b'a' ∷ [])
    ∷ line 0x2000 data_only (b'/' ∷ b'a' ∷ [])
    ∷ line 0x3000 code (b'[' ∷ b'v' ∷ [])
    ∷ line 0x4000 code (b'/' ∷ b'b' ∷ [])
    ∷ []

abbrev proc : Proc
proc = record { maps = some lines; exe = some (b'/' ∷ b'a' ∷ []); task = some (0 ∷ 0 ∷ 7 ∷ 8 ∷ []) }

-- The program's own file and one library.
abbrev maps : List Map
maps =
    record { start = 0x1000; end = 0x2000; path = b'/' ∷ b'a' ∷ []; exe_self = true }
    ∷ record { start = 0x4000; end = 0x5000; path = b'/' ∷ b'b' ∷ []; exe_self = false }
    ∷ []

walk-proc_maps_example : walk (proc_maps proc) 5 none ≡ some (maps, none)
walk-proc_maps_example = walk-proc_maps proc lines (b'/' ∷ b'a' ∷ []) refl refl

-- The two files of code have names that fit.
maps-Fits : All Fits (code_maps (b'/' ∷ b'a' ∷ []) lines)
maps-Fits = (
  short_path-Fits _ (λ h. h.0 refl) (omega arith),
  (short_path-Fits _ (λ h. h.0 refl) (omega arith), tt),
)

addr_maps_build-Tabled_example :
    (ams : List AddrMap) × (addr_maps_build 5 proc ≡ some ams)
    × Tabled (code_maps (b'/' ∷ b'a' ∷ []) lines) ams
addr_maps_build-Tabled_example =
    addr_maps_build-Tabled proc lines (b'/' ∷ b'a' ∷ []) refl refl maps-Fits

-- The entries of a process on FreeBSD.
abbrev entries : List VmEntry
entries =
    record { kve_start = 0x1000; kve_end = 0x2000; kve_exec = true; kve_path = codes "/bin/app" }
    ∷ record { kve_start = 0x2000; kve_end = 0x3000; kve_exec = false; kve_path = codes "/bin/app" }
    ∷ []

abbrev app : Map
app = record { start = 0x1000; end = 0x2000; path = codes "/bin/app"; exe_self = true }

walk-freebsd_proc_maps_example :
    walk (freebsd_proc_maps (some (codes "app", entries))) 3 none ≡ some (app ∷ [], none)
walk-freebsd_proc_maps_example =
    walk-freebsd_proc_maps (some (codes "app", entries)) (codes "app") entries refl
