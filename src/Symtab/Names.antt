-- ===== src/Symtab/Names.antt =====
-- The symbol that symtab_by_name chooses among those of one name.
use memleax.Prelude.{
  same_string, arith, not, ◌==◌, if◌then◌else◌, ◌&&◌, Bool, List, ℕ, ◌≡◌, [], ◌∷◌,
}
use memleax.Symtab.{Symbol, symtab_by_name, by_name_loop}

-- The address of the first symbol that a test takes, or a default.
abbrev pub first_address : (Symbol → Bool) → List Symbol → ℕ → ℕ
first_address p [] default = default
first_address p (sym ∷ rest) default =
    let later = first_address p rest default in if p sym then sym.address else later

abbrev pub is_strong : List ℕ → Symbol → Bool
is_strong name sym = same_string sym.name name && not sym.weak

abbrev pub is_weak : List ℕ → Symbol → Bool
is_weak name sym = same_string sym.name name && sym.weak && not (sym.address == 0)

by_name_loop_lem :
    (name : List ℕ) (address : ℕ) (table : List Symbol)
    → by_name_loop name address table
      ≡ first_address
          (is_strong name)
          table
          (if address == 0 then first_address (is_weak name) table 0 else address)
unfolding by_name_loop
by_name_loop_lem name address [] = ground arith
by_name_loop_lem name address (sym ∷ rest) =
    ground (arith, by_name_loop_lem name address rest, by_name_loop_lem name sym.address rest)

-- The address for a name is that of the first symbol of the name that is not weak, wherever it
-- stands; if all of them are weak, that of the first with an address; and 0 if there is none.
pub symtab_by_name_lem :
    (table : List Symbol) (name : List ℕ)
    → symtab_by_name table name
      ≡ first_address (is_strong name) table (first_address (is_weak name) table 0)
unfolding symtab_by_name
symtab_by_name_lem table name = by_name_loop_lem name 0 table
