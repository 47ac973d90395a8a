-- ===== src/AddrMaps/Build.antt =====
-- addr_maps.c, what the table has that is built.
use memleax.Prelude.{ap, ◌∙◌, ℕ, suc, none, some, List, [], ◌∷◌, ◌≡◌, refl, length, All}
use memleax.ProcInfo.{Line, Proc, Map, proc_maps}
use memleax.ProcInfo.Walks.{code_maps, walk-proc_maps}
use memleax.ProcInfo.Repeats.{for_each, repeat-for_each}
use memleax.AddrMaps.{AddrMap}
use memleax.AddrMaps.Table.{built, addr_maps_build}
use memleax.AddrMaps.Names.{Fits, Entry, addr_maps_build_file-Entry}

-- The table of some maps: an entry for each, in their order.
abbrev pub Tabled : List Map → List AddrMap → Type 0
Tabled [] [] = Unit
Tabled [] (am ∷ ams) = ⊥
Tabled (m ∷ ms) [] = ⊥
Tabled (m ∷ ms) (am ∷ ams) = Entry m am × Tabled ms ams

for_each-Tabled :
    (proc : Proc) (ms : List Map)
    → All Fits ms
    → (ams : List AddrMap) × (for_each (proc_maps proc) built [] ms ≡ some ams) × Tabled ms ams
for_each-Tabled proc [] fits = ([], refl, tt)
for_each-Tabled proc (m ∷ ms) (here, fits) =
    let (am, e, entry) = addr_maps_build_file-Entry m here in
    let (ams, e', tabled) = for_each-Tabled proc ms fits in
    (am ∷ ams, ap (built m) e' ∙ rw (built, e) refl, (entry, tabled))

-- The maps can be read, the allocations succeed, and the path of every map of code has a slash
-- and, if a ".so" stands behind the last slash, one with at most 96 bytes before. Then as many
-- calls as there are lines and one more build the table, which has one entry for each map of code,
-- in order: with its start and its end, and for its name what stands behind the last slash, up to
-- the end of the first ".so", or where there is none the first 99 bytes.
pub addr_maps_build-Tabled :
    (proc : Proc) (lines : List Line) (exe_name : List ℕ)
    → proc.maps ≡ some lines
    → proc.exe ≡ some exe_name
    → All Fits (code_maps exe_name lines)
    → (ams : List AddrMap) × (addr_maps_build (suc (length lines)) proc ≡ some ams)
      × Tabled (code_maps exe_name lines) ams
unfolding addr_maps_build
addr_maps_build-Tabled proc lines exe_name readable exe fits =
    let (ams, e, tabled) = for_each-Tabled proc (code_maps exe_name lines) fits in
    (
      ams,
      repeat-for_each (proc_maps proc) built [] (suc (length lines)) none (code_maps exe_name lines)
            none (walk-proc_maps proc lines exe_name readable exe)
          ∙ e,
      tabled,
    )
