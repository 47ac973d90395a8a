-- ===== src/Tests/Tables.antt =====
-- Lookups in small tables of maps, symbols and lines.
use memleax.Prelude.{
  codes, none, ◌^◌, length, subst, ◌≤◌, get_elem?, List, arith, ◌<◌, ℕ, ◌≡◌, refl, true, false,
  some, [], ◌∷◌, zero, suc,
}
use memleax.Search.{bisect, binary_search}
use memleax.AddrMaps.{AddrMap, addr_maps_search}
use memleax.AddrMaps.Located.{MapsApart, Located, addr_maps_search-Located}
use memleax.Symtab.{Symbol, symtab_by_address, symtab_by_name}
use memleax.Symtab.Symbols.{SymbolsApart, Named, symtab_by_address-Named}
use memleax.Symtab.Names.{first_address, is_strong, is_weak, symtab_by_name_lem}
use memleax.DebugLine.{DwarfDie, debug_line_search}
use memleax.DebugLine.Lines.{LinesInOrder}
use memleax.Report.{Names, Frame, callstack_print}
use memleax.Report.Printed.{InOrder, Shown, callstack_print-Shown}
use memleax.DebugLine.Units.{UnitsInOrder, SourceAt, debug_line_search-SourceAt}

abbrev maps : List AddrMap
maps =
    record { start = 0x400; end = 0x500; name = 1 ∷ [] }
    ∷ record { start = 0x700; end = 0x900; name = 2 ∷ [] }
    ∷ []

maps-MapsApart : MapsApart maps
maps-MapsApart zero zero x y h e f = absurd (omega arith)
maps-MapsApart zero (suc zero) x y h e f = ground (arith, e, f)
maps-MapsApart (suc i) (suc zero) x y h e f = absurd (omega arith)
maps-MapsApart i (suc (suc j)) x y h e f = ground (arith, f)
maps-MapsApart (suc i) zero x y h e f = absurd (omega arith)

second_map : addr_maps_search maps 0x800 ≡ some (2 ∷ [])
unfolding addr_maps_search binary_search bisect
second_map = refl

-- The end of a map is not in it, and is found in it all the same.
end_of_map : addr_maps_search maps 0x500 ≡ some (1 ∷ [])
unfolding addr_maps_search binary_search bisect
end_of_map = refl

addr_maps_search-Located_example : Located maps 0x800 (addr_maps_search maps 0x800)
addr_maps_search-Located_example = addr_maps_search-Located maps 0x800 maps-MapsApart (omega arith)

abbrev symbols : List Symbol
symbols =
    record { address = 0x410; size = 16; weak = true; name = 109 ∷ [] }
    ∷ record { address = 0x430; size = 32; weak = false; name = 109 ∷ [] }
    ∷ []

symbols-SymbolsApart : SymbolsApart symbols
symbols-SymbolsApart zero zero x y h e f = (ground (arith, e, f), λ k. absurd (omega arith))
symbols-SymbolsApart zero (suc zero) x y h e f = (ground (arith, e, f), λ k. ground (arith, e, f))
symbols-SymbolsApart (suc zero) (suc zero) x y h e f =
    (ground (arith, e, f), λ k. absurd (omega arith))
symbols-SymbolsApart (suc (suc i)) (suc zero) x y h e f = absurd (omega arith)
symbols-SymbolsApart i (suc (suc j)) x y h e f = absurd (ground (arith, f))
symbols-SymbolsApart (suc i) zero x y h e f = absurd (omega arith)

symtab_by_address-Named_example : Named symbols 0x43A (symtab_by_address symbols 0x43A)
symtab_by_address-Named_example =
    symtab_by_address-Named symbols 0x43A symbols-SymbolsApart (omega arith) (omega arith)

symtab_by_name_lem_example :
    symtab_by_name symbols (109 ∷ [])
    ≡ first_address (is_strong (109 ∷ [])) symbols (first_address (is_weak (109 ∷ [])) symbols 0)
symtab_by_name_lem_example = symtab_by_name_lem symbols (109 ∷ [])

abbrev pub unit : DwarfDie
unit = record {
  start = 0x400;
  end = 0x420;
  offset = 0;
  dw_lines =
      record { lineaddr = 0x400; lineno = 7; linesrc = 97 ∷ [] }
      ∷ record { lineaddr = 0x408; lineno = 8; linesrc = 97 ∷ [] }
      ∷ record { lineaddr = 0x420; lineno = 9; linesrc = 97 ∷ [] }
      ∷ [];
}

pub unit-LinesInOrder : LinesInOrder unit
unit-LinesInOrder zero zero x y h e f = ground (arith, e, f)
unit-LinesInOrder zero (suc zero) x y h e f = ground (arith, e, f)
unit-LinesInOrder zero (suc (suc zero)) x y h e f = ground (arith, e, f)
unit-LinesInOrder (suc zero) (suc zero) x y h e f = ground (arith, e, f)
unit-LinesInOrder (suc zero) (suc (suc zero)) x y h e f = ground (arith, e, f)
unit-LinesInOrder (suc (suc zero)) (suc (suc zero)) x y h e f = ground (arith, e, f)
unit-LinesInOrder i (suc (suc (suc j))) x y h e f = absurd (ground (arith, f))
unit-LinesInOrder (suc i) zero x y h e f = absurd (omega arith)
unit-LinesInOrder (suc (suc i)) (suc zero) x y h e f = absurd (omega arith)
unit-LinesInOrder (suc (suc (suc i))) (suc (suc zero)) x y h e f = absurd (omega arith)

units-UnitsInOrder : UnitsInOrder (unit ∷ [])
units-UnitsInOrder = record { apart = apart; lines = lines; few = few }
  where
    apart :
        (i j : ℕ) (x y : DwarfDie)
        → i < j
        → get_elem? (unit ∷ []) i ≡ some x
        → get_elem? (unit ∷ []) j ≡ some y
        → (x.start ≤ x.end) × (x.end ≤ y.start) × (y.start ≤ y.end)
    apart i zero x y h e f = absurd (omega arith)
    apart i (suc j) x y h e f = absurd (ground (arith, f))

    lines : (i : ℕ) (x : DwarfDie) → get_elem? (unit ∷ []) i ≡ some x → LinesInOrder x
    lines zero x e =
        let same : unit ≡ x = ground (arith, e) in subst LinesInOrder same unit-LinesInOrder
    lines (suc i) x e = absurd (ground (arith, e))

    few : (i : ℕ) (x : DwarfDie) → get_elem? (unit ∷ []) i ≡ some x → length x.dw_lines ≤ 2 ^ 30
    few zero x e =
        let same : unit ≡ x = ground (arith, e) in
        subst (λ (d : DwarfDie). length d.dw_lines ≤ 2 ^ 30) same (omega arith)
    few (suc i) x e = absurd (ground (arith, e))

debug_line_search-SourceAt_example :
    SourceAt (unit ∷ []) 0x40A (debug_line_search (unit ∷ []) 0x40A)
debug_line_search-SourceAt_example =
    debug_line_search-SourceAt (unit ∷ []) 0x40A units-UnitsInOrder (omega arith)

-- The tables of a program whose main is behind another function.
abbrev named : List Symbol
named =
    record { address = 0x410; size = 16; weak = false; name = codes "f" }
    ∷ record { address = 0x430; size = 32; weak = false; name = codes "main" }
    ∷ []

named-SymbolsApart : SymbolsApart named
named-SymbolsApart zero zero x y h e f = (ground (arith, e, f), λ k. absurd (omega arith))
named-SymbolsApart zero (suc zero) x y h e f = (ground (arith, e, f), λ k. ground (arith, e, f))
named-SymbolsApart (suc zero) (suc zero) x y h e f =
    (ground (arith, e, f), λ k. absurd (omega arith))
named-SymbolsApart (suc (suc i)) (suc zero) x y h e f = absurd (omega arith)
named-SymbolsApart i (suc (suc j)) x y h e f = absurd (ground (arith, f))
named-SymbolsApart (suc i) zero x y h e f = absurd (omega arith)

abbrev names : Names
names = record { maps = maps; symbols = named; dies = unit ∷ [] }

names-InOrder : InOrder names
names-InOrder = record {
  maps = maps-MapsApart;
  few_maps = omega arith;
  symbols = named-SymbolsApart;
  few_symbols = omega arith;
  dies = units-UnitsInOrder;
  few_dies = omega arith;
}

callstack_print-Shown_example :
    (fs : List Frame) × (callstack_print names (0x418 ∷ 0x43A ∷ 0x800 ∷ []) ≡ some fs)
    × Shown names (0x418 ∷ 0x43A ∷ 0x800 ∷ []) fs
callstack_print-Shown_example =
    callstack_print-Shown names names-InOrder (0x418 ∷ 0x43A ∷ 0x800 ∷ []) (omega arith)

-- The second line is the last: it is in main.
printed_main :
    callstack_print names (0x418 ∷ 0x43A ∷ 0x800 ∷ [])
    ≡ some (
        record {
          address = 0x418;
          map_file = 1 ∷ [];
          proc = some (codes "f", 8);
          line = some (97 ∷ [], 8);
        }
        ∷ record { address = 0x43A; map_file = 1 ∷ []; proc = some (codes "main", 10); line = none }
        ∷ [])
unfolding callstack_print
printed_main = refl
