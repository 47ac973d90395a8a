-- ===== src/Symtab.antt =====
-- symtab.c: the symbols of the target's files, and the lookups by address and by name.
pub mod Symbols
pub mod Build
pub mod Built
pub mod Sizes
pub mod Lookup
pub mod Names
use memleax.Prelude.{
  same_string, ℕ, zero, ◌-◌, Bool, true, false, not, ◌&&◌, ◌||◌, Option, none, some, List, [], ◌∷◌,
  if◌then◌else◌, ltb, ◌==◌, add64, sub64, int_of,
}
use memleax.Search.{binary_search}

-- `struct symbol_s`; the name without the NUL that ends it.
pub record Symbol : Type 0 where
  pub address : ℕ
  pub size : ℕ
  pub weak : Bool
  pub name : List ℕ

-- The name and the offset of the symbol that is found, NULL, or a fault of the search.
abbrev pub symbol_at : ℕ → Option (Option Symbol) → Option (Option (List ℕ × ℕ))
symbol_at address none = none
symbol_at address (some none) = some none
symbol_at address (some (some sym)) = some (some (sym.name, int_of (sub64 address sym.address)))

unfoldable pub symtab_by_address : List Symbol → ℕ → Option (Option (List ℕ × ℕ))
unfolding binary_search
symtab_by_address table address = symbol_at address (
    binary_search (λ (sym : Symbol). ltb address sym.address)
      (λ (sym : Symbol). not (ltb address (add64 sym.address sym.size))) table)

-- The loop of `symtab_by_name`, `address` being the variable of that name.
unfoldable pub by_name_loop : List ℕ → ℕ → List Symbol → ℕ
by_name_loop name address [] = address
by_name_loop name address (sym ∷ rest) =
    let skipped = by_name_loop name address rest in
    let taken = by_name_loop name sym.address rest in
    if same_string sym.name name
    then (if not sym.weak then sym.address else if address == 0 then taken else skipped)
    else skipped

unfoldable pub symtab_by_name : List Symbol → List ℕ → ℕ
unfolding by_name_loop
symtab_by_name table name = by_name_loop name 0 table
