-- ===== src/AddrMaps/Table.antt =====
-- addr_maps.c, the code that builds the table: the name of a map cut out of its path.
use memleax.Prelude.{
  if◌then◌else◌, ◌==◌, ℕ, zero, suc, Bool, true, false, ◌&&◌, Option, none, some, List, [], ◌∷◌,
  length, ltb,
}
use memleax.ProcInfo.{Proc, Map, proc_maps}
use memleax.ProcInfo.Repeats.{repeat}
use memleax.DebugFile.{split_path}
use memleax.AddrMaps.{AddrMap}

-- ".so"
abbrev pub dot_so : List ℕ
dot_so = b'.' ∷ b's' ∷ b'o' ∷ []

abbrev pub begins : List ℕ → List ℕ → Bool
begins [] text = true
begins (c ∷ prefix) [] = false
begins (c ∷ prefix) (d ∷ text) = c == d && begins prefix text

-- `strstr`: the text up to the end of the first ".so".
abbrev pub up_to_so : List ℕ → Option (List ℕ)
up_to_so [] = none
up_to_so (c ∷ rest) = elim (begins dot_so (c ∷ rest)) [
  | true ↦ some dot_so
  | false ↦ elim (up_to_so rest) [ none ↦ none | some name ↦ some (c ∷ name) ]
]

abbrev pub take : ℕ → List ℕ → List ℕ
take zero text = []
take (suc n) [] = []
take (suc n) (c ∷ text) = c ∷ take n text

-- The name for what stands behind the last slash; `none`: it is copied past the 100 bytes.
abbrev pub stored_name : List ℕ → Option (List ℕ) → Option (List ℕ)
stored_name base none = some (take 99 base)
stored_name base (some name) = if ltb 99 (length name) then none else some name

-- `none`: a path without a slash, or a name that does not fit.
unfoldable pub addr_maps_build_file : List ℕ → ℕ → ℕ → Option AddrMap
addr_maps_build_file path start end = elim (split_path path) [
  | none ↦ none
  | some (dir, base) ↦ elim (stored_name base (up_to_so base)) [
    | none ↦ none
    | some name ↦ some (record { start = start; end = end; name = name })
  ]
]

-- The body of the loop, for one map and then others; the allocations succeed.
abbrev pub built : Map → Option (List AddrMap) → Option (List AddrMap)
built m later = elim (addr_maps_build_file m.path m.start m.end) [
  | none ↦ none
  | some am ↦ elim later [ none ↦ none | some ams ↦ some (am ∷ ams) ]
]

-- `none`: memleax exits or faults, or the fuel does not suffice.
unfoldable pub addr_maps_build : ℕ → Proc → Option (List AddrMap)
unfolding proc_maps repeat
addr_maps_build fuel proc = repeat (proc_maps proc) built [] fuel none
