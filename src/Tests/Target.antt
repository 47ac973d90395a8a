-- ===== src/Tests/Target.antt =====
-- A target of two address spaces, with the four functions in its text.
use memleax.Prelude.{
  ◌*◌, ◌+◌, leb, ◌<◌, ◌≤◌, ◌-◌, arith, ltb, ◌&&◌, if◌then◌else◌, ◌==◌, ℕ, ◌%◌, ◌≡◌, ◌≢◌, refl, Bool,
}
use memleax.Machine.{Target, Registers, Apart, word_at, byte_of, within}
use memleax.Breakpoint.{Api, malloc, free, realloc, calloc}
use memleax.Breakpoint.Table.{Breakpoints, index}
use memleax.Monitor.Text.{Setting}

-- Tasks below 20 are the target's; the others share another memory.
abbrev pub space : ℕ → ℕ
space p = if ltb p 20 then 0 else 1

pub record Machine : Type 0 where
  pub memory : ℕ → ℕ → ℕ
  pub registers : ℕ → Registers
  pub stops : ℕ → Bool

abbrev pub poked : Machine → ℕ → ℕ → ℕ → Machine
poked s p a w = record s {
  memory =
      λ m b. if m == space p && s.stops p && within a b then byte_of w (b - a) else s.memory m b;
}

abbrev pub with_registers : Machine → ℕ → Registers → Machine
with_registers s p r = record s { registers = λ q. if q == p then r else s.registers q }

pub poked-byte :
    (s : Machine) (p q a w b : ℕ)
    → (poked s p a w).memory (space q) b % 256 ≡ (
        if (space p == space q) && s.stops p && within a b
        then byte_of w (b - a)
        else s.memory (space q) b % 256)
unfolding byte_of
poked-byte s p q a w b = ground arith

abbrev pub machine : Target
machine = record {
  State = Machine;
  byte = λ s p a. s.memory (space p) a % 256;
  poke = poked;
  get_regs = λ s p. s.registers p;
  set_regs = with_registers;
  shares = λ p q. space p == space q;
  in_stop = λ s p. s.stops p;
  shares_refl = λ p. ground arith;
  byte-lt = λ s p a. omega arith;
  byte_shared = λ s p q a h. let e : space p ≡ space q = ground (arith, h) in rw e refl;
  byte-poke = poked-byte;
  in_stop-poke = λ s p q a w. refl;
  in_stop-set_regs = λ s p q r. refl;
  byte-set_regs = λ s p q a r. refl;
}

abbrev pub IsText : ℕ → Type 0
IsText a = (0x1000 ≤ a) × (a < 0x1100)

abbrev pub bytes : ℕ → ℕ
bytes a =
    if a == 0x8000
    then 0x80
    else if a == 0x8001
    then 0x10
    else if leb 0x1000 a && ltb a 0x1100
    then 0x90
    else 0

abbrev pub addresses : Api → ℕ
addresses malloc = 0x1000
addresses free = 0x1010
addresses realloc = 0x1020
addresses calloc = 0x1030

abbrev pub points : Breakpoints
points x = record { entry_address = addresses x; entry_code = word_at bytes (addresses x) }

address_at : (x : Api) → addresses x ≡ 0x1000 + 16 * index x
address_at malloc = refl
address_at free = refl
address_at realloc = refl
address_at calloc = refl

pub addresses-Apart : (x y : Api) → index x ≢ index y → Apart (addresses x) (addresses y)
addresses-Apart x y h = ground (arith, address_at x, address_at y)

pub addresses-IsText : (x : Api) (i : ℕ) → i < 8 → IsText (addresses x + i)
addresses-IsText malloc i h = (omega arith, omega arith)
addresses-IsText free i h = (omega arith, omega arith)
addresses-IsText realloc i h = (omega arith, omega arith)
addresses-IsText calloc i h = (omega arith, omega arith)

abbrev pub setting : Setting
setting = record {
  target_pid = 10;
  orig = bytes;
  Text = IsText;
  small = λ a. ground arith;
  bps = points;
  spaced = addresses-Apart;
  texts = addresses-IsText;
  codes = λ x. refl;
  options = record { memory_expire = 10; memblock_limit = 1000; callstack_limit = 1000 };
}
