-- ===== src/Machine.antt =====
-- machines.h and ptrace_utils.h, for GNU/Linux on x86_64: what memleax reads and writes in the
-- target. The kernel behind ptrace is the parameter `Target`.
pub mod Traps
pub mod Image
pub mod Variants
use memleax.Prelude.{
  ltb, ◌-◌, ◌&&◌, if◌then◌else◌, leb, ℕ, ◌+◌, ◌*◌, ◌/◌, ◌%◌, ◌^◌, ◌≤◌, ◌<◌, ◌≡◌, ◌⊎◌, Bool, true,
  false, ◌==◌, sub64,
}

-- The registers that memleax uses.
pub record Registers : Type 0 where
  pub rip : ℕ
  pub rsp : ℕ
  pub rax : ℕ
  pub rdi : ℕ
  pub rsi : ℕ

-- The words at two addresses do not overlap.
abbrev pub Apart : ℕ → ℕ → Type 0
Apart a b = (a + 8 ≤ b) ⊎ (b + 8 ≤ a)

-- A little-endian word of eight bytes, and its bytes.
unfoldable pub word_at : (ℕ → ℕ) → ℕ → ℕ
word_at m a =
    m (a + 0)
    + 256
      * (m (a + 1)
          + 256
            * (m (a + 2)
                + 256
                  * (m (a + 3)
                      + 256
                        * (m (a + 4) + 256 * (m (a + 5) + 256 * (m (a + 6) + 256 * m (a + 7)))))))

unfoldable pub byte_of : ℕ → ℕ → ℕ
byte_of w i = w / 256 ^ i % 256

-- Whether an address lies in the word at `a`.
abbrev pub within : ℕ → ℕ → Bool
within a b = leb a b && ltb b (a + 8)

-- The tasks behind ptrace: the memory of each, as bytes; PTRACE_POKETEXT, which writes the eight
-- bytes of a word for all tasks of the address space and nothing else, if the task is in a
-- ptrace-stop, and otherwise fails; and PTRACE_GETREGS and PTRACE_SETREGS, which leave all
-- memory as it is. Neither moves a task into a stop or out of it. `byte` is also what
-- PTRACE_PEEKTEXT reads, of the stopped tasks to which memleax applies it. `shares` tells which
-- tasks have one address space, `in_stop` which are in a ptrace-stop.
pub record Target : Type 1 where
  pub State : Type 0
  pub byte : State → ℕ → ℕ → ℕ
  pub poke : State → ℕ → ℕ → ℕ → State
  pub get_regs : State → ℕ → Registers
  pub set_regs : State → ℕ → Registers → State
  pub shares : ℕ → ℕ → Bool
  pub in_stop : State → ℕ → Bool
  pub shares_refl : (p : ℕ) → shares p p ≡ true
  pub byte-lt : (s : State) (p a : ℕ) → byte s p a < 256
  pub byte_shared : (s : State) (p q a : ℕ) → shares p q ≡ true → byte s p a ≡ byte s q a
  pub byte-poke :
      (s : State) (p q a w b : ℕ)
      → byte (poke s p a w) q b
        ≡ (if shares p q && in_stop s p && within a b then byte_of w (b - a) else byte s q b)
  pub in_stop-poke : (s : State) (p q a w : ℕ) → in_stop (poke s p a w) q ≡ in_stop s q
  pub in_stop-set_regs :
      (s : State) (p q : ℕ) (r : Registers) → in_stop (set_regs s p r) q ≡ in_stop s q
  pub byte-set_regs :
      (s : State) (p q a : ℕ) (r : Registers) → byte (set_regs s p r) q a ≡ byte s q a

-- `(code & 0xFFFFFFFFFFFFFF00UL) | 0xCC`
unfoldable pub trap_word : ℕ → ℕ
trap_word code = code / 256 * 256 + 0xCC

module _ (target : Target) where
  open target use {State, byte, poke, get_regs, set_regs}

  abbrev pub ptrace_get_data : State → ℕ → ℕ → ℕ
  ptrace_get_data s pid address = word_at (byte s pid) address

  abbrev pub ptrace_set_data : State → ℕ → ℕ → ℕ → State
  ptrace_set_data s pid address word = poke s pid address word

  abbrev pub call_return_address : State → ℕ → Registers → ℕ
  call_return_address s pid regs = ptrace_get_data s pid regs.rsp

  abbrev pub call_return_value : Registers → ℕ
  call_return_value regs = regs.rax

  abbrev pub call_arg1 : State → ℕ → Registers → ℕ
  call_arg1 s pid regs = regs.rdi

  abbrev pub call_arg2 : State → ℕ → Registers → ℕ
  call_arg2 s pid regs = regs.rsi

  -- The registers with `rip` back at the trap, which are written to the task.
  abbrev pub unwound : Registers → Registers
  unwound regs = record regs { rip = sub64 regs.rip 1 }

  abbrev pub pc_unwind : State → ℕ → Registers → State
  pc_unwind s pid regs = set_regs s pid (unwound regs)

  abbrev pub set_breakpoint : State → ℕ → ℕ → ℕ → State
  set_breakpoint s pid address code = ptrace_set_data s pid address (trap_word code)

  abbrev pub is_breakpoint : State → ℕ → ℕ → Bool
  is_breakpoint s pid address = ptrace_get_data s pid address % 256 == 0xCC
