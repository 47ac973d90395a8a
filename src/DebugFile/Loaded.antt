-- ===== src/DebugFile/Loaded.antt =====
-- What the loops over the maps and the candidates load: of each map, what its candidates have up to the
-- first that counts.
use mathlib.Core.Option.{some-injective, none-ne-some}
use memleax.Prelude.{
  length, All, Bool-cases, refl, codes, inr, ◌∙◌, ap, inl, Option-cases, ◌++◌, slt32, zero, [],
  if◌then◌else◌, none, suc, Bool, some, ◌∷◌, Option, List, ℕ, ◌≡◌,
}
use memleax.ProcInfo.{Line, Proc, Map, exits, proc_maps}
use memleax.ProcInfo.Walks.{code_maps, walk-proc_maps}
use memleax.ProcInfo.Repeats.{repeat, repeated, for_each, repeat-for_each}
use memleax.DebugFile.{
  Files, Trying, split_path, strcpy, linked, inited, elf_build_id, elf_section_data, elf_debug_link,
  debug_try_init,
}
use memleax.DebugFile.Tries.{Answer, given, null, exits, debug_try_get}
use memleax.DebugFile.Candidates.{Sound, all_tries, onward}
use memleax.DebugFile.Walk.{tries, all_tries_lem}
use memleax.DebugFile.Loading.{try_next, answered, load_file, load_tries, load_map, load_maps}

-- What the candidates of a map give, up to the first that counts.
abbrev pub up_to_first : {A : Type 0} → (List ℕ → ℕ × List A) → List (List ℕ) → List A
up_to_first load [] = []
up_to_first load (path ∷ paths) =
    let later = up_to_first load paths in
    if slt32 0 (load path).0 then (load path).1 else (load path).1 ++ later

module _ (files : Files) (opt : Option (List ℕ)) where
  -- The loop over the calls does what the body does for each path that they give.
  module _ {B : Type 0} (each : List ℕ → Option B → Option B) (done : B) where
    abbrev looped : List (List ℕ) → Option B
    looped paths = for_each (try_next files opt) each done paths

    given_call :
        (fuel : ℕ) (t' : Trying) (path : List ℕ) (paths : List (List ℕ))
        → ((rest : List (List ℕ))
            → all_tries files opt fuel t' ≡ some (rest, null)
            → repeat (try_next files opt) each done fuel t' ≡ looped rest)
        → (w : Option (List (List ℕ) × Answer)) → all_tries files opt fuel t' ≡ w
        → onward w path ≡ some (paths, null)
        → each path (repeat (try_next files opt) each done fuel t') ≡ looped paths
    given_call fuel t' path paths ih none h e = absurd (none-ne-some _ e)
    given_call fuel t' path paths ih (some (rest, last)) h e =
        let pair = some-injective _ _ e in
        let ended : last ≡ null = ap (λ (p : List (List ℕ) × Answer). p.1) pair in
        ap (each path) (ih rest (h ∙ ap (λ l. some (rest, l)) ended))
        ∙ ap (λ (p : List (List ℕ) × Answer). looped p.0) pair

    one_call :
        (fuel : ℕ) (t : Trying) (paths : List (List ℕ)) (r : Option (Answer × Trying))
        → ((t' : Trying) (rest : List (List ℕ))
            → all_tries files opt fuel t' ≡ some (rest, null)
            → repeat (try_next files opt) each done fuel t' ≡ looped rest)
        → elim r [
          | none ↦ none
          | some (given path, t') ↦ onward (all_tries files opt fuel t') path
          | some (null, t') ↦ some ([], null)
          | some (exits, t') ↦ some ([], exits)
        ]
          ≡ some (paths, null)
        → repeated
            (try_next files opt)
            each
            done
            (answered files opt t r).0
            (repeat (try_next files opt) each done fuel (answered files opt t r).1)
          ≡ looped paths
    one_call fuel t paths none ih e = absurd (none-ne-some _ e)
    one_call fuel t paths (some (given path, t')) ih e =
        given_call fuel t' path paths (ih t') (all_tries files opt fuel t')
          (λ i. all_tries files opt fuel t') e
    one_call fuel t paths (some (null, t')) ih e =
        ap (λ (p : List (List ℕ) × Answer). looped p.0) (some-injective _ _ e)
    one_call fuel t paths (some (exits, t')) ih e = cc

  pub repeat-all_tries :
      {B : Type 0} (each : List ℕ → Option B → Option B) (done : B) (fuel : ℕ) (t : Trying)
      (paths : List (List ℕ))
      → all_tries files opt fuel t ≡ some (paths, null)
      → repeat (try_next files opt) each done fuel t ≡ for_each (try_next files opt) each done paths
  unfolding all_tries repeat try_next
  repeat-all_tries each done zero t paths e = absurd (none-ne-some _ e)
  repeat-all_tries each done (suc fuel) t paths e =
      one_call each done fuel t paths (debug_try_get files opt t)
        (λ t' rest h. repeat-all_tries each done fuel t' rest h) e

linked_name :
    (path : List ℕ) (exe_self : Bool) (dir name fname : List ℕ) (id section : Option (List ℕ))
    → inited path exe_self dir name id
        (elim section [ none ↦ some (0, fname) | some buffer ↦ linked buffer (strcpy buffer) ])
      ≡ inited path exe_self dir name id
          (elim section [ none ↦ some (0, []) | some buffer ↦ linked buffer (strcpy buffer) ])
linked_name path exe_self dir name fname none section = refl
linked_name path exe_self dir name fname (some id) none = refl
linked_name path exe_self dir name fname (some id) (some buffer) = refl

-- The name that the file before left does not matter.
debug_try_init-fname :
    (files : Files) (path : List ℕ) (exe_self : Bool) (fname : List ℕ)
    → debug_try_init files path exe_self fname ≡ debug_try_init files path exe_self []
unfolding debug_try_init elf_debug_link
debug_try_init-fname files path exe_self fname = elim (Option-cases (split_path path)) [
  | inl e ↦ rw (e, debug_try_init) refl
  | inr ((dir, name), e) ↦
      rw (e, debug_try_init)
        (linked_name path exe_self dir name fname (elf_build_id (files path))
          (elf_section_data (files path) (codes ".gnu_debuglink") 1000))
]

-- The paths that the calls give for a map.
abbrev pub candidates : Files → Option (List ℕ) → Map → List (List ℕ)
candidates files opt m = elim (debug_try_init files m.path m.exe_self []) [
  | none ↦ []
  | some t ↦ (tries files opt t).0
]

-- The start for a map does not fault, and memleax does not end because of the file that the user names.
abbrev pub Opens : Files → Option (List ℕ) → Map → Type 0
Opens files opt m =
    (t : Trying) × (debug_try_init files m.path m.exe_self [] ≡ some t)
    × (t.next_case ≡ 0)
    × ((tries files opt t).1 ≡ null)

-- What the candidates of each map give, up to the first of them that counts.
abbrev pub all_loaded :
    {A : Type 0} → Files → Option (List ℕ) → (Map → List ℕ → ℕ × List A) → List Map → List A
all_loaded files opt load [] = []
all_loaded files opt load (m ∷ ms) =
    up_to_first (load m) (candidates files opt m) ++ all_loaded files opt load ms

module _ (files : Files) (sound : Sound files) (opt : Option (List ℕ)) {A : Type 0}
    (load : Map → List ℕ → ℕ × List A) where
  for_each-up_to_first :
      (m : Map) (paths : List (List ℕ))
      → for_each (try_next files opt) (load_file files opt load m) [] paths
        ≡ some (up_to_first (load m) paths)
  for_each-up_to_first m [] = refl
  for_each-up_to_first m (path ∷ paths) =
      ap (load_file files opt load m path) (for_each-up_to_first m paths)
      ∙ elim (Bool-cases (slt32 0 (load m path).0)) [ inl e ↦ rw e refl | inr e ↦ rw e refl ]

  load_tries-up_to_first :
      (m : Map) (t : Trying)
      → t.next_case ≡ 0
      → (tries files opt t).1 ≡ null
      → load_tries files opt load m t ≡ some (up_to_first (load m) (tries files opt t).0)
  unfolding load_tries
  load_tries-up_to_first m t first ends =
      repeat-all_tries files opt (load_file files opt load m) [] 7 t (tries files opt t).0
        (all_tries_lem files sound opt t first ∙ ap (λ l. some ((tries files opt t).0, l)) ends)
      ∙ for_each-up_to_first m (tries files opt t).0

  for_each-all_loaded :
      (proc : Proc) (ms : List Map)
      → All (Opens files opt) ms
      → (all : List ℕ → Option (List A)) × (for_each
            (proc_maps proc)
            (load_map files opt load)
            (λ fname. some [])
            ms
          ≡ some all)
        × ((fname : List ℕ) → all fname ≡ some (all_loaded files opt load ms))
  for_each-all_loaded proc [] opens = (_, refl, λ fname. refl)
  for_each-all_loaded proc (m ∷ ms) ((t, inits, first, ends), opens) =
      let (later, e, given_any) = for_each-all_loaded proc ms opens in
      let paths : (tries files opt t).0 ≡ candidates files opt m = rw (candidates, inits) refl in
      (
        _,
        ap (load_map files opt load m) e,
        λ fname.
            rw
              (
                debug_try_init-fname files m.path m.exe_self fname,
                inits,
                load_tries-up_to_first m t first ends,
                given_any t.debug_fname,
              )
              (ap (λ l. some (up_to_first (load m) l ++ all_loaded files opt load ms)) paths),
      )

  -- No file has a build id that does not fit, the maps can be read, and the start for each of them
  -- neither faults nor ends memleax for an invalid file given with -d. Then as many calls as there
  -- are lines and one more load, of each map of code in order, what its candidates give, up to the
  -- first that counts.
  pub load_maps-all_loaded :
      (proc : Proc) (lines : List Line) (exe_name : List ℕ)
      → proc.maps ≡ some lines
      → proc.exe ≡ some exe_name
      → All (Opens files opt) (code_maps exe_name lines)
      → load_maps files opt load (suc (length lines)) proc
        ≡ some (all_loaded files opt load (code_maps exe_name lines))
  unfolding load_maps
  load_maps-all_loaded proc lines exe_name readable exe opens =
      let ms = code_maps exe_name lines in
      let (all, e, given_any) = for_each-all_loaded proc ms opens in
      let done : List ℕ → Option (List A) = λ fname. some [] in
      ap (λ r. elim r as (λ r'. Option (List A)) [ none ↦ none | some k ↦ k [] ])
        (repeat-for_each (proc_maps proc) (load_map files opt load) done (suc (length lines)) none
            ms none (walk-proc_maps proc lines exe_name readable exe)
          ∙ e)
      ∙ given_any []
