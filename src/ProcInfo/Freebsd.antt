-- ===== src/ProcInfo/Freebsd.antt =====
-- proc_info.c on FreeBSD: the walk over the maps of the process. What libutil and libprocstat give is a
-- parameter.
use memleax.Prelude.{
  inr, arith, [], inl, ◌∙◌, Bool-cases, if◌then◌else◌, suc, length, same_string, ◌&&◌, ◌∷◌, ◌≡◌,
  Bool, List, Option, ℕ, refl, none, some,
}
use memleax.DebugFile.{split_path}
use memleax.ProcInfo.{Next, item, over, exits, Map, is_at}
use memleax.ProcInfo.Walks.{Gives, gives, ends, Gives-mono, walk, walk_congr, walk-pass}

-- `struct kinfo_vmentry`: whether the protection has KVME_PROT_EXEC, and the path.
pub record VmEntry : Type 0 where
  pub kve_start : ℕ
  pub kve_end : ℕ
  pub kve_exec : Bool
  pub kve_path : List ℕ

-- `kinfo_getproc` and `procstat_getvmmap`: the name of the command and the entries; `none` for NULL.
abbrev pub KinfoProc : Type 0
KinfoProc = Option (List ℕ × List VmEntry)

-- `strrchr(path, '/') + 1`, for a path that begins with a slash.
abbrev pub base_name : List ℕ → List ℕ
base_name path = elim (split_path path) [ none ↦ path | some (dir, name) ↦ name ]

abbrev pub is_code_entry : VmEntry → Bool
is_code_entry kve = kve.kve_exec && is_at kve.kve_path 0 b'/'

abbrev pub map_of_entry : List ℕ → VmEntry → Map
map_of_entry exe_name kve = record {
  start = kve.kve_start;
  end = kve.kve_end;
  path = kve.kve_path;
  exe_self = same_string exe_name (base_name kve.kve_path);
}

-- `freep` with `i` and `cnt`, and `exe_name`: the entries that are still to come.
abbrev pub VmMaps : Type 0
VmMaps = Option (List VmEntry × List ℕ)

unfoldable pub vm_loop : List ℕ → List VmEntry → Next Map × VmMaps
vm_loop exe_name [] = (over, none)
vm_loop exe_name (kve ∷ rest) =
    let later = vm_loop exe_name rest in
    if is_code_entry kve then (item (map_of_entry exe_name kve), some (rest, exe_name)) else later

unfoldable pub freebsd_proc_maps : KinfoProc → VmMaps → Next Map × VmMaps
unfolding vm_loop
freebsd_proc_maps ki (some (entries, exe_name)) = vm_loop exe_name entries
freebsd_proc_maps ki none = elim ki [
  | none ↦ (exits, none)
  | some (exe_name, entries) ↦ vm_loop exe_name entries
]

-- The maps of the entries that are code, in order.
abbrev pub entry_maps : List ℕ → List VmEntry → List Map
entry_maps exe_name [] = []
entry_maps exe_name (kve ∷ rest) =
    let later = entry_maps exe_name rest in
    if is_code_entry kve then map_of_entry exe_name kve ∷ later else later

module _ (ki : KinfoProc) where
  entries-Gives :
      (exe_name : List ℕ) (entries : List VmEntry)
      → Gives
          (λ rest. some (rest, exe_name))
          (entry_maps exe_name)
          length
          none
          entries
          (entry_maps exe_name entries)
          (vm_loop exe_name entries)
  unfolding vm_loop
  entries-Gives exe_name [] = ends
  entries-Gives exe_name (kve ∷ rest) = elim (Bool-cases (is_code_entry kve)) [
    | inl e ↦ rw e (gives _ rest (omega arith))
    | inr e ↦
        rw e (Gives-mono _ _ _ _ rest (kve ∷ rest) (omega arith) (entries-Gives exe_name rest))
  ]

  -- The process can be read. On FreeBSD the calls of proc_maps give the entries that may be executed and have
  -- an absolute path, one by one and in order; then NULL, and the next call begins again. As many
  -- calls as there are entries and one more are enough.
  pub walk-freebsd_proc_maps :
      (exe_name : List ℕ) (entries : List VmEntry)
      → ki ≡ some (exe_name, entries)
      → walk (freebsd_proc_maps ki) (suc (length entries)) none
        ≡ some (entry_maps exe_name entries, none)
  unfolding freebsd_proc_maps
  walk-freebsd_proc_maps exe_name entries e =
      walk_congr (freebsd_proc_maps ki) (length entries) none (some (entries, exe_name)) (rw e refl)
      ∙ walk-pass (freebsd_proc_maps ki) (λ rest. some (rest, exe_name)) (entry_maps exe_name)
          length none (entries-Gives exe_name) (suc (length entries)) entries (omega arith)
