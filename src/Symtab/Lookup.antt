-- ===== src/Symtab/Lookup.antt =====
-- The table that symtab_build leaves, and the search in it.
use mathlib.Core.Option.{some-injective}
use memleax.Prelude.{
  ltb, ◌%◌, ◌∙◌, ap, ◌-◌, get_elem?, suc, ◌⊎◌, ◌+◌, ◌≤◌, sym, none, some, arith, inr, inl,
  Bool-cases, ◌^◌, length, ◌≡◌, All, List, Option, ◌<◌, ℕ,
}
use memleax.Sort.{
  Permutes, Pairwise, Agrees, Qsort, IsSort, All-Permutes, length-Permutes, All-Pairwise,
  All-get_elem, Pairwise-get_elem, qsort-Pairwise, Permutes-get_elem,
}
use memleax.ProcInfo.{Line, Proc}
use memleax.ProcInfo.Walks.{code_maps}
use memleax.DebugFile.{Files}
use memleax.DebugFile.Candidates.{Sound}
use memleax.DebugFile.Loaded.{Opens, load_maps-all_loaded}
use memleax.Symtab.{Symbol, symtab_by_address}
use memleax.Symtab.Symbols.{SymbolsApart, Named, in_symbol, in_none, symtab_by_address-Named}
use memleax.Symtab.Build.{Elfs, symbol_cmp, load_symbols, symtab_build}
use memleax.Symtab.Built.{symbols_in, load_symbols-Counts}
use memleax.Symtab.Sizes.{HasSize, symbols_in-HasSize}
use memleax.DebugFile.First.{found, Countable, all_loaded-found, found-All}

-- Two symbols of which one ends where the other begins, or before.
abbrev pub Disjoint : Symbol → Symbol → Type 0
Disjoint x y = (x.address + x.size ≤ y.address) ⊎ (y.address + y.size ≤ x.address)

-- A symbol that does not reach past the end of the memory.
abbrev pub InMemory : Symbol → Type 0
InMemory sym = sym.address + sym.size < 2 ^ 64

abbrev Apart : Symbol → Symbol → Type 0
Apart x y = HasSize x × HasSize y × Disjoint x y

turn : (x y : Symbol) → Apart x y → Apart y x
turn x y h = ground (arith, h)

cmp-Agrees : (x y : Symbol) → Apart x y → Agrees symbol_cmp (λ (s : Symbol). s.address) x y
cmp-Agrees x y h = (ground (arith, h), ground (arith, h))

Pairwise-SymbolsApart :
    (table : List Symbol)
    → All InMemory table
    → Pairwise (λ x y. Apart x y × (x.address ≤ y.address)) table
    → SymbolsApart table
Pairwise-SymbolsApart table inside h i j x y le at at' = (
  All-get_elem InMemory table j y inside at',
  λ lt.
      let ((sx, sy, d), order) = Pairwise-get_elem _ table i j x y h lt at at' in
      ground (arith, sx, sy, d, order),
)

-- In a table of symbols that are apart, what is named for an address of a symbol is this symbol.
Named-at :
    (table : List Symbol) (address j : ℕ) (x : Symbol)
    → SymbolsApart table
    → get_elem? table j ≡ some x
    → x.address ≤ address
    → address < x.address + x.size
    → {r : Option (Option (List ℕ × ℕ))} → Named table address r
    → r ≡ some (some (x.name, (address - x.address) % 2 ^ 32))
Named-at table address j x apart at above below (in_none out) = absurd (ground (arith, out j x at))
Named-at table address j x apart at above below (in_symbol i s at' above' below') =
    elim (Bool-cases (ltb i j)) [
      | inl lt ↦ absurd (ground (arith, lt, apart i j s x (ground (arith, lt)) at' at))
      | inr ge ↦ elim (Bool-cases (ltb j i)) [
        | inl lt ↦ absurd (ground (arith, lt, apart j i x s (ground (arith, lt)) at at'))
        | inr le ↦
            let place : i ≡ j = ground (arith, ge, le) in
            let one : s ≡ x = some-injective _ _ (sym at' ∙ ap (get_elem? table) place ∙ at) in
            ap (λ (z : Symbol). some (some (z.name, (address - z.address) % 2 ^ 32))) one
      ]
    ]

-- What is given of the target and its files: the maps can be read and the start for each of them neither
-- faults nor ends memleax, no count of symbols overflows, and the symbols that are found are apart.
pub record Loadable (elfs : Elfs) (files : Files) (opt : Option (List ℕ)) (proc : Proc)
    (lines : List Line) (exe_name : List ℕ) : Type 0 where
  pub sound : Sound files
  pub readable : proc.maps ≡ some lines
  pub exe : proc.exe ≡ some exe_name
  pub opens : All (Opens files opt) (code_maps exe_name lines)
  pub countable : All (Countable files opt (symbols_in elfs)) (code_maps exe_name lines)
  pub inside : All InMemory (found files opt (symbols_in elfs) (code_maps exe_name lines))
  pub disjoint : Pairwise Disjoint (found files opt (symbols_in elfs) (code_maps exe_name lines))

module _ (qsort : Qsort Symbol) (sorts : IsSort qsort) (elfs : Elfs) (files : Files)
    (opt : Option (List ℕ)) (proc : Proc) (lines : List Line) (exe_name : List ℕ)
    (given : Loadable elfs files opt proc lines exe_name) where
  -- As many calls as there are lines and one more build the table. It has the symbols that are found for the
  -- maps of code, each as often, in order and apart.
  pub symtab_build-SymbolsApart :
      (table : List Symbol) × (symtab_build qsort elfs files opt (suc (length lines)) proc
        ≡ some table)
      × Permutes (found files opt (symbols_in elfs) (code_maps exe_name lines)) table
      × SymbolsApart table
  unfolding symtab_build
  symtab_build-SymbolsApart =
      let ms = code_maps exe_name lines in
      let all = found files opt (symbols_in elfs) ms in
      let table = qsort symbol_cmp all in
      let (permuted, ordered) =
        qsort-Pairwise qsort sorts symbol_cmp (λ (s : Symbol). s.address) Apart turn cmp-Agrees all
          (All-Pairwise HasSize Disjoint all
            (found-All HasSize files opt (symbols_in elfs) (symbols_in-HasSize elfs) ms)
            given.disjoint) in
      let loaded =
        load_maps-all_loaded files given.sound opt (load_symbols elfs) proc lines exe_name
          given.readable given.exe given.opens in
      (
        table,
        ap
            (λ r. elim r as (λ r'. Option (List Symbol)) [
              | none ↦ none
              | some symbols ↦ some (qsort symbol_cmp symbols)
            ])
            (loaded
              ∙ ap some (
                  all_loaded-found files opt (load_symbols elfs) (symbols_in elfs)
                    (load_symbols-Counts elfs) ms given.countable)),
        permuted,
        Pairwise-SymbolsApart table (All-Permutes InMemory permuted given.inside) ordered,
      )

  -- The maps can be read, no file has a build id that does not fit, the start for each map neither
  -- faults nor ends memleax for an invalid file given with -d, no count of symbols overflows,
  -- qsort sorts, and the symbols found, at most 2 ^ 30, do not overlap and end inside the memory.
  -- A symbol found is a function of a symbol table with a value and a size, at its value, for a
  -- library moved from the first loaded segment to the map. Then as many calls as there are lines
  -- and one more build a table, in which the search for any address of a symbol found ends without
  -- a fault and gives its name and the offset in it, as an int.
  pub symtab_by_address-symtab_build :
      (k address : ℕ) (sym : Symbol)
      → length (found files opt (symbols_in elfs) (code_maps exe_name lines)) ≤ 2 ^ 30
      → get_elem? (found files opt (symbols_in elfs) (code_maps exe_name lines)) k ≡ some sym
      → sym.address ≤ address
      → address < sym.address + sym.size
      → (table : List Symbol) × (symtab_build qsort elfs files opt (suc (length lines)) proc
          ≡ some table)
        × (symtab_by_address table address
            ≡ some (some (sym.name, (address - sym.address) % 2 ^ 32)))
  symtab_by_address-symtab_build k address sym few at above below =
      let (table, e, permuted, apart) = symtab_build-SymbolsApart in
      let (j, at') = Permutes-get_elem permuted k sym at in
      let inside = (apart j j sym sym (omega arith) at' at').0 in
      (
        table,
        e,
        Named-at table address j sym apart at' above below (
            symtab_by_address-Named table address apart (omega arith)
              (omega (arith, few, length-Permutes permuted))),
      )
