-- ===== src/Symtab/Symbols.antt =====
-- The lookups in the symbol table: what is found for an address and for a name.
use memleax.Prelude.{
  ◌⊎◌, add64, ◌%◌, ltb, not, sub64, ◌-◌, Bool, arith, length, ◌+◌, get_elem?, ◌^◌, Option, ◌<◌, ◌≤◌,
  List, ℕ, ◌≡◌, some, none,
}
use memleax.Search.Bisect.{strict-IsOrdered, IsOrdered, Answer, hit, miss, binary_search-Answer}
use memleax.Symtab.{Symbol, symtab_by_address, symbol_at}

-- The symbols are in order and do not overlap, and none reaches past the end of the memory.
abbrev pub SymbolsApart : List Symbol → Type 0
SymbolsApart table =
    (i j : ℕ) (x y : Symbol)
    → i ≤ j
    → get_elem? table i ≡ some x
    → get_elem? table j ≡ some y
    → (y.address + y.size < 2 ^ 64) × ((i < j) → x.address + x.size ≤ y.address)

-- The name of the symbol that has the address and the offset in it, or NULL when none has.
pub data Named (table : List Symbol) (address : ℕ) : Option (Option (List ℕ × ℕ)) → Type 0 where
  in_symbol :
      (i : ℕ) (sym : Symbol)
      → get_elem? table i ≡ some sym
      → sym.address ≤ address
      → address < sym.address + sym.size
      → Named table address (some (some (sym.name, (address - sym.address) % 2 ^ 32)))
  in_none :
      ((i : ℕ) (sym : Symbol)
        → get_elem? table i ≡ some sym
        → (address < sym.address) ⊎ (sym.address + sym.size ≤ address))
      → Named table address (some none)

module _ (table : List Symbol) (address : ℕ) (apart : SymbolsApart table)
    (word : address < 2 ^ 64) where
  below : Symbol → Bool
  below sym = ltb address sym.address

  above : Symbol → Bool
  above sym = not (ltb address (add64 sym.address sym.size))

  symbols-IsOrdered : IsOrdered below above table
  unfolding below above
  symbols-IsOrdered =
      strict-IsOrdered _ _ table
        (λ i j x y h at at' b. ground (arith, (apart i j x y (omega arith) at at').1 h))
        (λ i j x y h at at' b. ground (
          arith,
          (apart i i x x (omega arith) at at).0,
          (apart i j x y (omega arith) at at').0,
          (apart i j x y (omega arith) at at').1 h,
        ))

  named :
      (r : Option (Option Symbol))
      → Answer below above table r
      → Named table address (symbol_at address r)
  unfolding below above
  named r (hit i x at b a) =
      let whole = (apart i i x x (omega arith) at at).0 in
      let offset : sub64 address x.address ≡ address - x.address = ground (arith, whole) in
      rw offset (in_symbol i x at (ground arith) (ground (arith, whole)))
  named r (miss out) =
      in_none (λ i sym at. ground (arith, out i sym at, (apart i i sym sym (omega arith) at at).0))

  -- When the symbols are in order and apart, and no more than 2 ^ 30, the search for an address
  -- ends, neither overflows nor reads outside the table, and gives the name of the symbol that has
  -- the address, with the offset in it as an int, or NULL if no symbol has it.
  pub symtab_by_address-Named :
      length table ≤ 2 ^ 30 → Named table address (symtab_by_address table address)
  unfolding symtab_by_address below above
  symtab_by_address-Named small =
      named _ (binary_search-Answer below above table symbols-IsOrdered small)
