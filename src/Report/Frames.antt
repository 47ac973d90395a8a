-- ===== src/Report/Frames.antt =====
-- The names of an address in a backtrace: no search in the tables faults, in whatever order they are.
use mathlib.Core.Option.{none-ne-some}
use memleax.Prelude.{
  refl, ◌≡◌, sym, ◌∙◌, All, arith, sub64, inr, ◌^◌, inl, ◌≤◌, Option, Option-cases, length, ℕ, none,
  some, ◌≢◌,
}
use memleax.Sort.{All-get_elem}
use memleax.Search.Bisect.{Within, binary_search-Within}
use memleax.AddrMaps.{AddrMap, map_name, addr_maps_search}
use memleax.Symtab.{Symbol, symtab_by_address, symbol_at}
use memleax.DebugLine.{
  DwarfLine, DwarfDie, line_pairs, line_of, in_die, debug_line_search_dwdie, debug_line_search,
}
use memleax.DebugLine.Lines.{length-line_pairs}
use memleax.Report.{Names, Frame, frame_of}

-- No table has more than 2 ^ 30 entries, nor a unit more lines.
pub record Few (names : Names) : Type 0 where
  pub maps : length names.maps ≤ 2 ^ 30
  pub symbols : length names.symbols ≤ 2 ^ 30
  pub dies : length names.dies ≤ 2 ^ 30
  pub lines : All (λ (dd : DwarfDie). length dd.dw_lines ≤ 2 ^ 30) names.dies

-- What the searches make of what they find is no fault.
abbrev Found : {A : Type 0} → Option A → Type 0
Found o = o ≢ none

map_name-Found : (o : Option (Option AddrMap)) → Within (λ am. Unit {0}) o → Found (map_name o)
map_name-Found none h = absurd h
map_name-Found (some none) h = λ e. cc
map_name-Found (some (some am)) h = λ e. cc

symbol_at-Found :
    (address : ℕ) (o : Option (Option Symbol))
    → Within (λ sym. Unit {0}) o
    → Found (symbol_at address o)
symbol_at-Found address none h = absurd h
symbol_at-Found address (some none) h = λ e. cc
symbol_at-Found address (some (some sym)) h = λ e. cc

line_of-Found :
    (o : Option (Option (DwarfLine × DwarfLine))) → Within (λ p. Unit {0}) o → Found (line_of o)
line_of-Found none h = absurd h
line_of-Found (some none) h = λ e. cc
line_of-Found (some (some p)) h = λ e. cc

dwdie-Found :
    (dd : DwarfDie) (address : ℕ)
    → length dd.dw_lines ≤ 2 ^ 30
    → Found (debug_line_search_dwdie dd address)
unfolding debug_line_search_dwdie
dwdie-Found dd address few = line_of-Found _ (
    binary_search-Within _ _ (line_pairs dd.dw_lines)
      (omega (arith, few, length-line_pairs dd.dw_lines)) (λ p. Unit {0}) (λ i p at. tt))

in_die-Found :
    (address : ℕ) (o : Option (Option DwarfDie))
    → Within (λ (dd : DwarfDie). length dd.dw_lines ≤ 2 ^ 30) o
    → Found (in_die address o)
in_die-Found address none h = absurd h
in_die-Found address (some none) h = λ e. cc
in_die-Found address (some (some dd)) h = dwdie-Found dd address h

module _ (names : Names) (few : Few names) (address : ℕ) where
  addr_maps_search-Found : Found (addr_maps_search names.maps address)
  unfolding addr_maps_search
  addr_maps_search-Found =
      map_name-Found _
        (binary_search-Within _ _ names.maps few.maps (λ am. Unit {0}) (λ i am at. tt))

  symtab_by_address-Found : Found (symtab_by_address names.symbols address)
  unfolding symtab_by_address
  symtab_by_address-Found =
      symbol_at-Found address _
        (binary_search-Within _ _ names.symbols few.symbols (λ sym. Unit {0}) (λ i sym at. tt))

  debug_line_search-Found : (pc : ℕ) → Found (debug_line_search names.dies pc)
  unfolding debug_line_search
  debug_line_search-Found pc = in_die-Found pc _ (
      binary_search-Within _ _ names.dies few.dies (λ (dd : DwarfDie). length dd.dw_lines ≤ 2 ^ 30)
        (λ i dd at. All-get_elem _ names.dies i dd few.lines at))

  -- No address makes a search fault.
  pub frame_of_total : frame_of names address ≢ none
  unfolding frame_of
  frame_of_total = elim (Option-cases (addr_maps_search names.maps address)) [
    | inl e ↦ absurd (addr_maps_search-Found e)
    | inr (map_file, e₁) ↦ elim (Option-cases (symtab_by_address names.symbols address)) [
      | inl e ↦ absurd (symtab_by_address-Found e)
      | inr (proc, e₂) ↦ elim (Option-cases (debug_line_search names.dies (sub64 address 1))) [
        | inl e ↦ absurd (debug_line_search-Found (sub64 address 1) e)
        | inr (line, e₃) ↦
            let frame : Frame = record {
              address = address;
              map_file = map_file;
              proc = proc;
              line = line;
            } in
            let whole : frame_of names address ≡ some frame = rw (frame_of, e₁, e₂, e₃) refl in
            λ h. none-ne-some frame (sym h ∙ whole)
      ]
    ]
  ]
