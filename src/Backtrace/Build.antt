-- ===== src/Backtrace/Build.antt =====
-- ptr_backtrace.c: the copies of the mapped files. What `open` and `read` give is a parameter.
use memleax.Prelude.{length, ◌*◌, add64, ◌+◌, [], sub64, ◌∷◌, List, Option, ℕ, none, some}
use memleax.ProcInfo.{Proc, Map, proc_maps}
use memleax.ProcInfo.Repeats.{repeat}
use memleax.Backtrace.{MapSection}

-- The bytes that are read from the start of a file, up to a size; `none` where `open` or `read` fails.
abbrev pub Reading : Type 0
Reading = List ℕ → ℕ → Option (List ℕ)

-- The bytes as an array of words of eight bytes; what is left at the end is no word.
abbrev pub words_of : List ℕ → List ℕ
words_of (a ∷ b ∷ c ∷ d ∷ e ∷ f ∷ g ∷ h ∷ bytes) =
    (a + 256 * (b + 256 * (c + 256 * (d + 256 * (e + 256 * (f + 256 * (g + 256 * h)))))))
    ∷ words_of bytes
words_of _ = []

module _ (reading : Reading) where
  -- The section that is added to the list, if one is; the allocation succeeds.
  abbrev pub ptr_maps_build_file : List ℕ → ℕ → ℕ → Option MapSection
  ptr_maps_build_file path start end = elim (reading path (sub64 end start)) [
    | none ↦ none
    | some bytes ↦
        some (record { start = start; end = add64 start (length bytes); words = words_of bytes })
  ]

  -- The body of the loop, for one map and then others.
  abbrev pub section_added : Map → Option (List MapSection) → Option (List MapSection)
  section_added m none = none
  section_added m (some sections) = elim (ptr_maps_build_file m.path m.start m.end) [
    | none ↦ some sections
    | some ms ↦ some (ms ∷ sections)
  ]

  -- `none`: memleax exits, or the fuel does not suffice.
  unfoldable pub ptr_maps_build : ℕ → Proc → Option (List MapSection)
  unfolding proc_maps repeat
  ptr_maps_build fuel proc = repeat (proc_maps proc) section_added [] fuel none
