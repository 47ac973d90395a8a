-- ===== src/Machine/Variants.antt =====
-- machines.h for the other machines: x86, x86_64 on FreeBSD, ARMv7 and AArch64. A machine is a parameter: the
-- size of the words that ptrace reads and writes, and that a word that was written is read again.
use memleax.Prelude.{
  none, some, ltb, if◌then◌else◌, Option, ◌∙◌, refl, true, ℕ, ◌+◌, ◌*◌, ◌/◌, ◌%◌, ◌^◌, ◌≡◌, Bool,
  ◌==◌, arith, sub32, add32,
}

pub record Tracee : Type 1 where
  pub State : Type 0
  pub get_data : State → ℕ → ℕ → ℕ
  pub set_data : State → ℕ → ℕ → ℕ → State
  pub word_bytes : ℕ
  pub read_written :
      (s : State) (pid a w : ℕ) → get_data (set_data s pid a w) pid a ≡ w % 256 ^ word_bytes

-- `user_regs_struct` on x86, as far as it is used.
pub record X86Registers : Type 0 where
  pub eip : ℕ
  pub esp : ℕ
  pub eax : ℕ

-- `user_regs` on ARMv7 and `user_regs_struct` on AArch64.
pub record ArmRegisters : Type 0 where
  pub uregs : ℕ → ℕ

pub record Aarch64Registers : Type 0 where
  pub regs : ℕ → ℕ
  pub sp : ℕ
  pub pc : ℕ

-- `_ptr_access_reg` of ptr_backtrace.c, for a number that is not negative; `none` for -UNW_EBADREG.
abbrev pub access_reg : Aarch64Registers → ℕ → Option ℕ
access_reg regs reg =
    if ltb reg 31
    then some (regs.regs reg)
    else if reg == 31
    then some regs.sp
    else if reg == 32
    then some regs.pc
    else none

-- `(code & 0xFFFFFF00U) | 0xCC`
abbrev pub trap_word32 : ℕ → ℕ
trap_word32 code = code % 2 ^ 32 / 256 * 256 + 0xCC

module _ (tracee : Tracee) where
  open tracee use {State, get_data, set_data, word_bytes, read_written}

  abbrev pub x86_call_return_address : State → ℕ → X86Registers → ℕ
  x86_call_return_address s pid regs = get_data s pid regs.esp

  abbrev pub x86_call_return_value : X86Registers → ℕ
  x86_call_return_value regs = regs.eax

  abbrev pub x86_call_arg1 : State → ℕ → X86Registers → ℕ
  x86_call_arg1 s pid regs = get_data s pid (add32 regs.esp 4)

  abbrev pub x86_call_arg2 : State → ℕ → X86Registers → ℕ
  x86_call_arg2 s pid regs = get_data s pid (add32 regs.esp 8)

  -- The registers that are written back; the result is their `eip`.
  abbrev pub x86_unwound : X86Registers → X86Registers
  x86_unwound regs = record regs { eip = sub32 regs.eip 1 }

  abbrev pub x86_set_breakpoint : State → ℕ → ℕ → ℕ → State
  x86_set_breakpoint s pid address code = set_data s pid address (trap_word32 code)

  abbrev pub x86_is_breakpoint : State → ℕ → ℕ → Bool
  x86_is_breakpoint s pid address = get_data s pid address % 256 == 0xCC

  abbrev pub freebsd_set_breakpoint : State → ℕ → ℕ → ℕ → State
  freebsd_set_breakpoint s pid address code = set_data s pid address (trap_word32 code)

  abbrev pub armv7_call_return_address : ArmRegisters → ℕ
  armv7_call_return_address regs = regs.uregs 14

  abbrev pub armv7_call_return_value : ArmRegisters → ℕ
  armv7_call_return_value regs = regs.uregs 0

  abbrev pub armv7_call_arg1 : ArmRegisters → ℕ
  armv7_call_arg1 regs = regs.uregs 0

  abbrev pub armv7_call_arg2 : ArmRegisters → ℕ
  armv7_call_arg2 regs = regs.uregs 1

  abbrev pub armv7_pc_unwind : ArmRegisters → ℕ
  armv7_pc_unwind regs = regs.uregs 15

  abbrev pub armv7_set_breakpoint : State → ℕ → ℕ → ℕ → State
  armv7_set_breakpoint s pid address code = set_data s pid address 0xE7F001F0

  abbrev pub armv7_is_breakpoint : State → ℕ → ℕ → Bool
  armv7_is_breakpoint s pid address = get_data s pid address == 0xE7F001F0

  abbrev pub aarch64_call_return_address : Aarch64Registers → ℕ
  aarch64_call_return_address regs = regs.regs 30

  abbrev pub aarch64_call_return_value : Aarch64Registers → ℕ
  aarch64_call_return_value regs = regs.regs 0

  abbrev pub aarch64_call_arg1 : Aarch64Registers → ℕ
  aarch64_call_arg1 regs = regs.regs 0

  abbrev pub aarch64_call_arg2 : Aarch64Registers → ℕ
  aarch64_call_arg2 regs = regs.regs 1

  abbrev pub aarch64_pc_unwind : Aarch64Registers → ℕ
  aarch64_pc_unwind regs = regs.pc

  abbrev pub aarch64_set_breakpoint : State → ℕ → ℕ → ℕ → State
  aarch64_set_breakpoint s pid address code = set_data s pid address 0xD4200000

  abbrev pub aarch64_is_breakpoint : State → ℕ → ℕ → Bool
  aarch64_is_breakpoint s pid address = get_data s pid address == 0xD4200000

  -- A word of four bytes, of x86 and of x86_64 on FreeBSD: after a breakpoint is set it is found, and the
  -- three bytes behind it are as they were; after the code is written back nothing has changed.
  pub x86_set_breakpoint-x86_is_breakpoint :
      (s : State) (pid address : ℕ)
      → word_bytes ≡ 4
      → (x86_is_breakpoint (x86_set_breakpoint s pid address (get_data s pid address)) pid address
          ≡ true)
        × (get_data (x86_set_breakpoint s pid address (get_data s pid address)) pid address / 256
            ≡ get_data s pid address % 2 ^ 32 / 256)
  x86_set_breakpoint-x86_is_breakpoint s pid address four =
      let code = get_data s pid address in
      let word : trap_word32 code % 256 ^ word_bytes ≡ trap_word32 code = rw four (omega arith) in
      rw (read_written s pid address (trap_word32 code) ∙ word) (ground arith, omega arith)

  -- On ARMv7, with words of four bytes, a breakpoint that is set is found.
  pub armv7_set_breakpoint-armv7_is_breakpoint :
      (s : State) (pid address code : ℕ)
      → word_bytes ≡ 4
      → armv7_is_breakpoint (armv7_set_breakpoint s pid address code) pid address ≡ true
  armv7_set_breakpoint-armv7_is_breakpoint s pid address code four =
      let word : 0xE7F001F0 % 256 ^ word_bytes ≡ 0xE7F001F0 = rw four refl in
      rw (read_written s pid address 0xE7F001F0 ∙ word) refl

  -- On AArch64, with words of eight bytes, a breakpoint that is set is found, and the instruction behind it
  -- is zero.
  pub aarch64_set_breakpoint-aarch64_is_breakpoint :
      (s : State) (pid address code : ℕ)
      → word_bytes ≡ 8
      → (aarch64_is_breakpoint (aarch64_set_breakpoint s pid address code) pid address ≡ true)
        × (get_data (aarch64_set_breakpoint s pid address code) pid address / 2 ^ 32 ≡ 0)
  aarch64_set_breakpoint-aarch64_is_breakpoint s pid address code eight =
      let word : 0xD4200000 % 256 ^ word_bytes ≡ 0xD4200000 = rw eight refl in
      rw (read_written s pid address 0xD4200000 ∙ word) (refl, refl)
