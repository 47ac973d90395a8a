-- ===== src/DebugFile/First.antt =====
-- What is loaded of each map where the count of what a file gives is the number of it: what the first of its
-- candidates has that has anything.
use memleax.Prelude.{
  arith, true, ap, ◌%◌, false, if◌then◌else◌, ◌∙◌, slt32, ◌^◌, All-append, [], ◌++◌, ◌<◌, All,
  length, ◌∷◌, ◌≡◌, List, Option, ℕ, refl,
}
use memleax.ProcInfo.{Map}
use memleax.DebugFile.{Files}
use memleax.DebugFile.Loaded.{up_to_first, candidates, all_loaded}

abbrev pub or_later : {A : Type 0} → List A → List A → List A
or_later [] later = later
or_later (a ∷ items) later = a ∷ items

abbrev pub first_of : {A : Type 0} → (List ℕ → List A) → List (List ℕ) → List A
first_of has [] = []
first_of has (path ∷ paths) = or_later (has path) (first_of has paths)

-- For all maps.
abbrev pub found :
    {A : Type 0} → Files → Option (List ℕ) → (Map → List ℕ → List A) → List Map → List A
found files opt has [] = []
found files opt has (m ∷ ms) = first_of (has m) (candidates files opt m) ++ found files opt has ms

-- The files of the candidates have so few items that their count, an int, does not overflow.
abbrev pub Countable :
    {A : Type 0} → Files → Option (List ℕ) → (Map → List ℕ → List A) → Map → Type 0
Countable files opt has m = All (λ path. length (has m path) < 2 ^ 31) (candidates files opt m)

-- What a file gives: nothing, with a count that is not positive, or all that it has, with its number.
pub data Counts {A : Type 0} (items : List A) : ℕ × List A → Type 0 where
  failed : (count : ℕ) → items ≡ [] → slt32 0 count ≡ false → Counts items (count, [])
  counted : Counts items (length items % 2 ^ 32, items)

module _ {A : Type 0} where
  one_file :
      (items later : List A) {r : ℕ × List A}
      → length items < 2 ^ 31
      → Counts items r
      → (if slt32 0 r.0 then r.1 else r.1 ++ later) ≡ or_later items later
  one_file items later few (failed count e unsuccessful) = rw (unsuccessful, e) refl
  one_file [] later few counted = refl
  one_file (a ∷ items) later few counted =
      let positive : slt32 0 (length (a ∷ items) % 2 ^ 32) ≡ true = ground arith in rw positive refl

  up_to_first-first_of :
      (load : List ℕ → ℕ × List A) (has : List ℕ → List A)
      → ((path : List ℕ) → Counts (has path) (load path))
      → (paths : List (List ℕ)) → All (λ path. length (has path) < 2 ^ 31) paths
      → up_to_first load paths ≡ first_of has paths
  up_to_first-first_of load has counts [] few = refl
  up_to_first-first_of load has counts (path ∷ paths) (here, few) =
      one_file (has path) (up_to_first load paths) here (counts path)
      ∙ ap (or_later (has path)) (up_to_first-first_of load has counts paths few)

  pub all_loaded-found :
      (files : Files) (opt : Option (List ℕ)) (load : Map → List ℕ → ℕ × List A)
      (has : Map → List ℕ → List A)
      → ((m : Map) (path : List ℕ) → Counts (has m path) (load m path))
      → (ms : List Map) → All (Countable files opt has) ms
      → all_loaded files opt load ms ≡ found files opt has ms
  all_loaded-found files opt load has counts [] few = refl
  all_loaded-found files opt load has counts (m ∷ ms) (here, few) =
      rw
        (
          up_to_first-first_of (load m) (has m) (counts m) (candidates files opt m) here,
          all_loaded-found files opt load has counts ms few,
        )
        refl

  -- What holds of all that the files have holds of all that is found.
  pub found-All :
      (P : A → Type 0) (files : Files) (opt : Option (List ℕ)) (has : Map → List ℕ → List A)
      → ((m : Map) (path : List ℕ) → All P (has m path))
      → (ms : List Map) → All P (found files opt has ms)
  found-All P files opt has all [] = tt
  found-All P files opt has all (m ∷ ms) =
      All-append P (first_of (has m) (candidates files opt m)) (found files opt has ms)
        (firsts (candidates files opt m)) (found-All P files opt has all ms)
    where
      or_later-All :
          (items later : List A) → All P items → All P later → All P (or_later items later)
      or_later-All [] later h k = k
      or_later-All (a ∷ items) later h k = h

      firsts : (paths : List (List ℕ)) → All P (first_of (has m) paths)
      firsts [] = tt
      firsts (path ∷ paths) =
          or_later-All (has m path) (first_of (has m) paths) (all m path) (firsts paths)
