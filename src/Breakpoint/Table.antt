-- ===== src/Breakpoint/Table.antt =====
-- breakpoint.c: the table of the four breakpoints, setting and removing them, and the lookup.
use memleax.Prelude.{ℕ, Option, none, some, if◌then◌else◌, ◌==◌}
use memleax.Machine.{Target, ptrace_get_data, ptrace_set_data, set_breakpoint}
use memleax.Breakpoint.{Api, malloc, free, realloc, calloc}

infixl 5 ◌>>=◌
abbrev ◌>>=◌ {ℓ κ} : {A : Type ℓ} {B : Type κ} → Option A → (A → Option B) → Option B
none >>= f = none
some a >>= f = f a

-- `struct breakpoint_s`; the name and the handler are those of the API.
pub record Breakpoint : Type 0 where
  pub entry_address : ℕ
  pub entry_code : ℕ

-- `g_breakpoints`
abbrev pub Breakpoints : Type 0
Breakpoints = Api → Breakpoint

-- The index of an API in the table.
abbrev pub index : Api → ℕ
index malloc = 0
index free = 1
index realloc = 2
index calloc = 3

module _ (target : Target) where
  open target use {State}

  -- `none`: the API has no address, and memleax exits.
  unfoldable pub do_breakpoint_init : State → ℕ → ℕ → Option (Breakpoint × State)
  do_breakpoint_init s pid address =
      if address == 0
      then none
      else (let code = ptrace_get_data target s pid address in
          some (
            record { entry_address = address; entry_code = code },
            set_breakpoint target s pid address code,
          ))

  abbrev pub table : Breakpoint → Breakpoint → Breakpoint → Breakpoint → Breakpoints
  table m f r c malloc = m
  table m f r c free = f
  table m f r c realloc = r
  table m f r c calloc = c

  -- `symtab_by_name` gives the addresses.
  unfoldable pub breakpoint_init : State → ℕ → (Api → ℕ) → Option (Breakpoints × State)
  unfolding do_breakpoint_init
  breakpoint_init s pid symtab_by_name = do
    (m, s₁) ← do_breakpoint_init s pid (symtab_by_name malloc)
    (f, s₂) ← do_breakpoint_init s₁ pid (symtab_by_name free)
    (r, s₃) ← do_breakpoint_init s₂ pid (symtab_by_name realloc)
    (c, s₄) ← do_breakpoint_init s₃ pid (symtab_by_name calloc)
    some (table m f r c, s₄)

  abbrev recover_entry : State → ℕ → Breakpoint → State
  recover_entry s pid bp = ptrace_set_data target s pid bp.entry_address bp.entry_code

  unfoldable pub breakpoint_cleanup : State → ℕ → Breakpoints → State
  breakpoint_cleanup s pid bps =
      let s₁ = recover_entry s pid (bps malloc) in
      let s₂ = recover_entry s₁ pid (bps free) in
      let s₃ = recover_entry s₂ pid (bps realloc) in recover_entry s₃ pid (bps calloc)

unfoldable pub breakpoint_by_entry : Breakpoints → ℕ → Option Api
breakpoint_by_entry bps address =
    if address == (bps malloc).entry_address
    then some malloc
    else if address == (bps free).entry_address
    then some free
    else if address == (bps realloc).entry_address
    then some realloc
    else if address == (bps calloc).entry_address
    then some calloc
    else none
