-- ===== src/DebugFile/Loading.antt =====
-- The loops of symtab_build and debug_line_build, which are alike: for every map, the candidates of
-- debug_file.c one by one, until one of them has something to load. What a file has is a parameter.
use memleax.Prelude.{none, slt32, ◌++◌, [], if◌then◌else◌, some, Option, List, ℕ}
use memleax.ProcInfo.{Proc, Map, Next, item, over, exits, proc_maps}
use memleax.ProcInfo.Repeats.{repeat}
use memleax.DebugFile.{Files, Trying, debug_try_init}
use memleax.DebugFile.Tries.{Answer, given, null, exits, debug_try_get}

-- What is put into the table before the rest; `none` if memleax exits or faults.
abbrev pub put : {A : Type 0} → List A → Option (List A) → Option (List A)
put items none = none
put items (some later) = some (items ++ later)

module _ (files : Files) (opt : Option (List ℕ)) where
  -- A call of `debug_try_get`, whose fault counts as an end.
  abbrev pub answered : Trying → Option (Answer × Trying) → Next (List ℕ) × Trying
  answered t none = (Next.exits, t)
  answered t (some (given path, t')) = (item path, t')
  answered t (some (null, t')) = (over, t')
  answered t (some (exits, t')) = (Next.exits, t')

  unfoldable pub try_next : Trying → Next (List ℕ) × Trying
  unfolding debug_try_get
  try_next t = answered t (debug_try_get files opt t)

  -- `load` gives what `symtab_build_file` or `debug_line_build_file` returns, and what it pushes.
  module _ {A : Type 0} (load : Map → List ℕ → ℕ × List A) where
    abbrev pub load_file : Map → List ℕ → Option (List A) → Option (List A)
    load_file m debugp later =
        let (count, items) = load m debugp in if slt32 0 count then some items else put items later

    unfoldable pub load_tries : Map → Trying → Option (List A)
    unfolding repeat try_next
    load_tries m t = repeat try_next (load_file m) [] 7 t

    -- The name of a debug file is kept from one file to the next.
    abbrev pub load_map :
        Map → Option (List ℕ → Option (List A)) → Option (List ℕ → Option (List A))
    load_map m none = none
    load_map m (some later) = some (λ fname. elim (debug_try_init files m.path m.exe_self fname) [
      | none ↦ none
      | some t ↦ elim (load_tries m t) [
        | none ↦ none
        | some items ↦ put items (later t.debug_fname)
      ]
    ])

    -- `none`: memleax exits or faults, or the fuel does not suffice.
    unfoldable pub load_maps : ℕ → Proc → Option (List A)
    unfolding proc_maps repeat load_tries debug_try_init
    load_maps fuel proc = elim (repeat (proc_maps proc) load_map (λ fname. some []) fuel none) [
      | none ↦ none
      | some all ↦ all []
    ]
