-- ===== src/Report/Printed.antt =====
-- `callstack_print` of callstack.c with the tables that the start of memleax builds: what a printed backtrace
-- says of the addresses of the backtrace.
use memleax.Prelude.{
  ◌⊎◌, inl, inr, ◌==◌, ◌-◌, ◌<◌, ◌≤◌, ◌^◌, ◌≢◌, ℕ, Option, Option-cases, Bool, Bool-cases, true,
  false, All, none, some, List, [], ◌∷◌, ◌≡◌, ◌∙◌, sym, refl, ap, subst, arith, length, codes,
  same_string, same_string_iff, sub64,
}
use memleax.AddrMaps.{AddrMap, addr_maps_search}
use memleax.AddrMaps.Located.{MapsApart, Located, addr_maps_search-Located}
use memleax.Symtab.{Symbol, symtab_by_address}
use memleax.Symtab.Symbols.{SymbolsApart, Named, symtab_by_address-Named}
use memleax.DebugLine.{DwarfDie, debug_line_search}
use memleax.DebugLine.Lines.{LineAt}
use memleax.DebugLine.Units.{UnitsInOrder, SourceAt, in_unit, debug_line_search-SourceAt}
use memleax.Report.{Names, Frame, frame_of, printed, is_main, callstack_print}

-- The maps, the symbols and the units are apart and in order, and no more than 2 ^ 30 each.
pub record InOrder (names : Names) : Type 0 where
  pub maps : MapsApart names.maps
  pub few_maps : length names.maps ≤ 2 ^ 30
  pub symbols : SymbolsApart names.symbols
  pub few_symbols : length names.symbols ≤ 2 ^ 30
  pub dies : UnitsInOrder names.dies
  pub few_dies : length names.dies ≤ 2 ^ 30

-- What a line says of its address: the map that has it, the function with the offset in it, and the source
-- line of the address before, at which the call stands.
pub record Describes (names : Names) (f : Frame) : Type 0 where
  pub map_file : Located names.maps f.address (some f.map_file)
  pub proc : Named names.symbols f.address (some f.proc)
  pub line : SourceAt names.dies (f.address - 1) (some f.line)

abbrev pub IsMain : Frame → Type 0
IsMain f = (offset : ℕ) × (f.proc ≡ some (codes "main", offset))

-- The lines of a backtrace: one for each address up to a zero, and none behind the first in main.
abbrev pub Shown : Names → List ℕ → List Frame → Type 0
Shown names ips [] = (ips ≡ []) ⊎ ((rest : List ℕ) × (ips ≡ 0 ∷ rest))
Shown names ips (f ∷ fs) =
    (rest : List ℕ) × (ips ≡ f.address ∷ rest)
    × (f.address ≢ 0)
    × Describes names f
    × ((IsMain f × (fs ≡ [])) ⊎ ((¬ IsMain f) × Shown names rest fs))

-- The name of main, as the code compares it.
abbrev names_main : Option (List ℕ × ℕ) → Bool
names_main o = elim o [ none ↦ false | some (name, offset) ↦ same_string name (codes "main") ]

names_main-true :
    (o : Option (List ℕ × ℕ))
    → names_main o ≡ true
    → (offset : ℕ) × (o ≡ some (codes "main", offset))
names_main-true none h = absurd (ground (arith, h))
names_main-true (some (name, offset)) h =
    (offset, ap (λ n. some (n, offset)) ((same_string_iff name (codes "main")).0 h))

is_main-IsMain : (f : Frame) → is_main f ≡ true → IsMain f
is_main-IsMain f h = names_main-true f.proc h

is_main-false : (f : Frame) → is_main f ≡ false → ¬ IsMain f
is_main-false f h (offset, e) =
    let yes' : is_main f ≡ true = ap names_main e in ground (arith, h, yes')

Located-none : {maps : List AddrMap} {address : ℕ} → ¬ Located maps address none
Located-none h = elim h [ ]

Named-none : {table : List Symbol} {address : ℕ} → ¬ Named table address none
Named-none h = elim h [ ]

LineAt-none : {dd : DwarfDie} {address : ℕ} → ¬ LineAt dd address none
LineAt-none h = elim h [ ]

SourceAt-none : {dies : List DwarfDie} {address : ℕ} → ¬ SourceAt dies address none
SourceAt-none (in_unit i dd r at lo hi line) = LineAt-none line

module _ (names : Names) (order : InOrder names) where
  frame_of-Describes :
      (address : ℕ)
      → address ≢ 0
      → address < 2 ^ 64
      → (f : Frame) × (frame_of names address ≡ some f) × (f.address ≡ address) × Describes names f
  unfolding frame_of
  frame_of-Describes address nonzero word =
      let located = addr_maps_search-Located names.maps address order.maps order.few_maps in
      let named =
        symtab_by_address-Named names.symbols address order.symbols word order.few_symbols in
      let at = debug_line_search-SourceAt names.dies (sub64 address 1) order.dies order.few_dies in
      let before : sub64 address 1 ≡ address - 1 = omega (arith, nonzero) in
      elim (Option-cases (addr_maps_search names.maps address)) [
        | inl e ↦ absurd (Located-none (subst (Located names.maps address) e located))
        | inr (map_file, e₁) ↦ elim (Option-cases (symtab_by_address names.symbols address)) [
          | inl e ↦ absurd (Named-none (subst (Named names.symbols address) e named))
          | inr (proc, e₂) ↦ elim (Option-cases (debug_line_search names.dies (sub64 address 1))) [
            | inl e ↦ absurd (SourceAt-none (subst (SourceAt names.dies (sub64 address 1)) e at))
            | inr (line, e₃) ↦ (
              record { address = address; map_file = map_file; proc = proc; line = line },
              rw (frame_of, e₁, e₂, e₃) refl,
              refl,
              record {
                map_file = subst (Located names.maps address) e₁ located;
                proc = subst (Named names.symbols address) e₂ named;
                line =
                    subst (λ n. SourceAt names.dies n (some line)) before
                      (subst (SourceAt names.dies (sub64 address 1)) e₃ at);
              },
            )
          ]
        ]
      ]

  -- The maps, symbols and units are apart and in order, at most 2 ^ 30 each. Then the printing of a backtrace of 64-bit
  -- addresses does not fault, and prints one line for each address, in order, up to a zero or to the
  -- first function named main, whose line is the last. Each line has the name of a map with the
  -- address between its bounds, or "??" if there is none; the name of the symbol that has the
  -- address and the offset in it, or none if no symbol has it; and the source line that the search
  -- in a unit around the address before gives, or none if there is no such unit.
  pub callstack_print-Shown :
      (ips : List ℕ)
      → All (λ a. a < 2 ^ 64) ips
      → (fs : List Frame) × (callstack_print names ips ≡ some fs) × Shown names ips fs
  unfolding callstack_print
  callstack_print-Shown [] words = ([], refl, inl refl)
  callstack_print-Shown (address ∷ rest) (word, words) = elim (Bool-cases (address == 0)) [
    | inl z ↦
        let e : address ≡ 0 = ground (arith, z) in
        ([], rw (callstack_print, z) refl, inr (rest, ap (λ x. x ∷ rest) e))
    | inr n ↦
        let nonzero : address ≢ 0 = λ z. ground (arith, n, z) in
        let (f, m, same, describes) = frame_of-Describes address nonzero word in
        let first = ap (λ a. a ∷ rest) (sym same) in
        let nonzero' : f.address ≢ 0 = λ z. nonzero (sym same ∙ z) in
        elim (Bool-cases (is_main f)) [
          | inl last ↦ (
            f ∷ [],
            rw (callstack_print, n, m, printed, last) refl,
            (rest, first, nonzero', describes, inl (is_main-IsMain f last, refl)),
          )
          | inr more ↦
              let (fs, e, shown) = callstack_print-Shown rest words in
              (
                f ∷ fs,
                rw (callstack_print, n, m, printed, more, e) refl,
                (rest, first, nonzero', describes, inr (is_main-false f more, shown)),
              )
        ]
  ]
