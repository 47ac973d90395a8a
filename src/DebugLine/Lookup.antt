-- ===== src/DebugLine/Lookup.antt =====
-- The table of units that debug_line_build leaves, and the search in it.
use memleax.Prelude.{
  subst, inr, inl, ltb, Bool-cases, ◌∙◌, [], ap, ◌<◌, suc, ◌∷◌, ◌≡◌, All, Option, get_elem?, ◌^◌,
  ◌⊎◌, List, arith, length, ◌≢◌, ◌≤◌, ℕ, none, some, sym,
}
use mathlib.Core.Option.{some-injective}
use memleax.Sort.{
  Permutes, Pairwise, Agrees, Qsort, IsSort, All-Permutes, length-Permutes, All-Pairwise,
  All-get_elem, Pairwise-get_elem, Permutes-get_elem, qsort-Pairwise,
}
use memleax.ProcInfo.{Line, Proc}
use memleax.ProcInfo.Walks.{code_maps}
use memleax.DebugFile.{Files}
use memleax.DebugFile.Candidates.{Sound}
use memleax.DebugFile.Loaded.{Opens, load_maps-all_loaded}
use memleax.DebugFile.First.{found, Countable, all_loaded-found, found-All}
use memleax.DebugLine.{DwarfDie, debug_line_search}
use memleax.DebugLine.Lines.{LinesInOrder, LineAt}
use memleax.DebugLine.Units.{UnitsInOrder, SourceAt, in_unit, no_unit, debug_line_search-SourceAt}
use memleax.DebugLine.Build.{debug_line_build_dwarf, load_dies, dwarf_die_cmp, debug_line_build}
use memleax.DebugLine.Built.{LibdwElf, units_in, load_dies-Counts, Bounded, units_in-Bounded}

-- Two units that begin at different addresses, and of which one ends before the other begins, or there.
abbrev pub Disjoint : DwarfDie → DwarfDie → Type 0
Disjoint x y = (x.start ≢ y.start) × ((x.end ≤ y.start) ⊎ (y.end ≤ x.start))

-- A unit whose lines are in order, and not too many.
abbrev pub Ordered : DwarfDie → Type 0
Ordered dd = LinesInOrder dd × (length dd.dw_lines ≤ 2 ^ 30)

abbrev Apart : DwarfDie → DwarfDie → Type 0
Apart x y = (x.start ≤ x.end) × (y.start ≤ y.end) × Disjoint x y

turn : (x y : DwarfDie) → Apart x y → Apart y x
turn x y h = ground (arith, h)

cmp-Agrees : (x y : DwarfDie) → Apart x y → Agrees dwarf_die_cmp (λ (d : DwarfDie). d.start) x y
cmp-Agrees x y h = (ground (arith, h), ground (arith, h))

All-bounds :
    (dies : List DwarfDie)
    → All Bounded dies
    → All Ordered dies
    → All (λ (d : DwarfDie). d.start ≤ d.end) dies
All-bounds [] h k = tt
All-bounds (d ∷ dies) (h, hs) (k, ks) = (h k.0, All-bounds dies hs ks)

Pairwise-UnitsInOrder :
    (table : List DwarfDie)
    → All Ordered table
    → Pairwise (λ x y. Apart x y × (x.start ≤ y.start)) table
    → UnitsInOrder table
Pairwise-UnitsInOrder table ordered h = record {
  apart = λ i j x y lt at at'.
      let (apart, le) = Pairwise-get_elem _ table i j x y h lt at at' in ground (arith, apart, le);
  lines = λ i x at. (All-get_elem Ordered table i x ordered at).0;
  few = λ i x at. (All-get_elem Ordered table i x ordered at).1;
}

-- In a table in order, what is answered for an address inside a unit is an answer of this unit.
SourceAt-at :
    (table : List DwarfDie) (address j : ℕ) (dd : DwarfDie)
    → UnitsInOrder table
    → get_elem? table j ≡ some dd
    → dd.start < address
    → address < dd.end
    → {r : Option (Option (List ℕ × ℕ))} → SourceAt table address r
    → LineAt dd address r
SourceAt-at table address j dd in_order at above below (no_unit out) =
    absurd (ground (arith, out j dd at))
SourceAt-at table address j dd in_order at above below {r} (in_unit i x _ at' above' below' line) =
    elim (Bool-cases (ltb i j)) [
      | inl lt ↦ absurd (ground (arith, lt, in_order.apart i j x dd (ground (arith, lt)) at' at))
      | inr ge ↦ elim (Bool-cases (ltb j i)) [
        | inl lt ↦ absurd (ground (arith, lt, in_order.apart j i dd x (ground (arith, lt)) at at'))
        | inr le ↦
            let place : i ≡ j = ground (arith, ge, le) in
            let one : x ≡ dd = some-injective _ _ (sym at' ∙ ap (get_elem? table) place ∙ at) in
            subst (λ d. LineAt d address r) one line
      ]
    ]

-- What is given of the target and its files: the maps can be read and the start for each of them neither
-- faults nor ends memleax, no count of units overflows, and the units that are found are in order and apart.
pub record Loadable (elfs : List ℕ → Option LibdwElf) (files : Files) (opt : Option (List ℕ))
    (proc : Proc) (lines : List Line) (exe_name : List ℕ) : Type 0 where
  pub sound : Sound files
  pub readable : proc.maps ≡ some lines
  pub exe : proc.exe ≡ some exe_name
  pub opens : All (Opens files opt) (code_maps exe_name lines)
  pub countable : All (Countable files opt (units_in elfs)) (code_maps exe_name lines)
  pub ordered : All Ordered (found files opt (units_in elfs) (code_maps exe_name lines))
  pub disjoint : Pairwise Disjoint (found files opt (units_in elfs) (code_maps exe_name lines))

module _ (qsort : Qsort DwarfDie) (sorts : IsSort qsort) (elfs : List ℕ → Option LibdwElf)
    (files : Files) (opt : Option (List ℕ)) (proc : Proc) (lines : List Line) (exe_name : List ℕ)
    (given : Loadable elfs files opt proc lines exe_name) where
  -- As many calls as there are lines and one more build the table. It has the units that are found for the
  -- maps of code, each as often, in order and apart.
  debug_line_build-UnitsInOrder :
      (table : List DwarfDie) × (debug_line_build qsort elfs files opt (suc (length lines)) proc
        ≡ some table)
      × Permutes (found files opt (units_in elfs) (code_maps exe_name lines)) table
      × UnitsInOrder table
  unfolding debug_line_build
  debug_line_build-UnitsInOrder =
      let ms = code_maps exe_name lines in
      let all = found files opt (units_in elfs) ms in
      let table = qsort dwarf_die_cmp all in
      let bounded =
        All-bounds all (found-All Bounded files opt (units_in elfs) (units_in-Bounded elfs) ms)
          given.ordered in
      let (permuted, sorted) =
        qsort-Pairwise qsort sorts dwarf_die_cmp (λ (d : DwarfDie). d.start) Apart turn cmp-Agrees
          all
          (All-Pairwise (λ (d : DwarfDie). d.start ≤ d.end) Disjoint all bounded given.disjoint) in
      let load = load_dies debug_line_build_dwarf elfs in
      let loaded =
        load_maps-all_loaded files given.sound opt load proc lines exe_name given.readable given.exe
          given.opens in
      (
        table,
        ap
            (λ r. elim r as (λ r'. Option (List DwarfDie)) [
              | none ↦ none
              | some dies ↦ some (qsort dwarf_die_cmp dies)
            ])
            (loaded
              ∙ ap some (
                  all_loaded-found files opt load (units_in elfs) (load_dies-Counts elfs) ms
                    given.countable)),
        permuted,
        Pairwise-UnitsInOrder table (All-Permutes Ordered permuted given.ordered) sorted,
      )

  -- The maps can be read, no file has a build id that does not fit, the start for each map neither
  -- faults nor ends memleax for an invalid file given with -d, no count of units overflows, qsort
  -- sorts, and the units found, at most 2 ^ 30, begin at different addresses, lie apart and have
  -- their lines, at most 2 ^ 30, in order. Then as many calls as there are lines of the maps and
  -- one more build a table, in which the search for any address strictly inside a unit ends
  -- without a fault, and answers what two neighbouring lines of this unit say that have the
  -- address between them, or NULL if no two have.
  pub debug_line_search-debug_line_build :
      (k address : ℕ) (dd : DwarfDie)
      → length (found files opt (units_in elfs) (code_maps exe_name lines)) ≤ 2 ^ 30
      → get_elem? (found files opt (units_in elfs) (code_maps exe_name lines)) k ≡ some dd
      → dd.start < address
      → address < dd.end
      → (table : List DwarfDie) × (debug_line_build qsort elfs files opt (suc (length lines)) proc
          ≡ some table)
        × LineAt dd address (debug_line_search table address)
  debug_line_search-debug_line_build k address dd few at above below =
      let (table, e, permuted, in_order) = debug_line_build-UnitsInOrder in
      let (j, at') = Permutes-get_elem permuted k dd at in
      (
        table,
        e,
        SourceAt-at table address j dd in_order at' above below (
            debug_line_search-SourceAt table address in_order
              (omega (arith, few, length-Permutes permuted))),
      )
