-- ===== src/Tests/Report.antt =====
-- The report of one block that expired, and the parsing of options.
use memleax.Prelude.{◌^◌, ◌≤◌, ◌<◌, ℕ, true, false, some, List, [], ◌∷◌, ◌≡◌, refl, arith}
use memleax.State.{Tracker, Memblock}
use memleax.Memblock.{memblock_expire_one}
use memleax.Memblock.Lookup.{IsConsistent}
use memleax.Memblock.Consistent.{expire_one-IsConsistent}
use memleax.Array.{array_last, Array, array_of, array_push, array_store}
use memleax.Array.Growth.{Holds, array_of-Holds, array_push-Holds}
use memleax.Report.{Names, Statistic, callstack_report}
use memleax.Report.Frames.{Few}
use memleax.Report.Ordered.{Lists, callstack_report-Lists}
use memleax.Report.Ordering.{Counts}
use memleax.Tests.Sorting.{insertion_sort, sorts}
use memleax.Options.{parse_options}
use memleax.Options.Accepted.{Parses, parse_options-Parses}
use memleax.Tests.{program, one_block, one_block-IsConsistent}

-- Tables without entries.
abbrev no_names : Names
no_names = record { maps = []; symbols = []; dies = [] }

no_names-Few : Few no_names
no_names-Few = record { maps = omega arith; symbols = omega arith; dies = omega arith; lines = tt }

-- The block of the first allocation expires.
abbrev block : Memblock
block = record { pointer = 0x5000; size = 24; create = 100; expired = false; callstack = 0 }

abbrev aged : Tracker
aged = memblock_expire_one 1 block one_block

aged-IsConsistent : IsConsistent aged
unfolding program
aged-IsConsistent = expire_one-IsConsistent one_block one_block-IsConsistent 1 block refl refl

aged-Counts : Counts aged
unfolding memblock_expire_one program
aged-Counts c = ground arith

aged_few : aged.callstack_num ≤ 2 ^ 30
unfolding memblock_expire_one memleax.State.initial
aged_few = omega arith

callstack_report-Lists_example :
    (r : List Statistic) × (callstack_report insertion_sort (λ n. true) 200 no_names aged ≡ some r)
    × Lists aged r
callstack_report-Lists_example =
    callstack_report-Lists insertion_sort sorts no_names no_names-Few 200 aged aged-IsConsistent
      aged_few aged-Counts

array_push-Holds_example :
    (a' : Array ℕ) × (r : ℕ) × (array_push true (array_of 2) ≡ (some 0, a'))
    × (a'.memory ≡ some r)
    × (array_last a' ≡ some 0)
    × (0 < r)
    × Holds (array_store a' 0 7) (7 ∷ [])
array_push-Holds_example =
    array_push-Holds (array_of 2) [] 7 (array_of-Holds 2 (omega arith)) (omega arith)

-- The options `-e 30 -l 5`, where the number is the first word of the text.
abbrev atoi : List ℕ → ℕ
atoi [] = 0
atoi (n ∷ rest) = n

abbrev opts : List (ℕ × List ℕ)
opts = (b'e', 30 ∷ []) ∷ (b'l', 5 ∷ []) ∷ []

parse_options-Parses_example :
    Parses atoi opts ((77 ∷ []) ∷ []) (parse_options atoi opts ((77 ∷ []) ∷ []))
parse_options-Parses_example = parse_options-Parses atoi opts ((77 ∷ []) ∷ [])
