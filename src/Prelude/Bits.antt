-- ===== src/Prelude/Bits.antt =====
-- Laws of the exclusive or at variables, from its digits.
use Prim.Native.Nat.{
  ℕ, zero, suc, ◌+◌, ◌*◌, ◌/◌, ◌%◌, ◌^◌, ◌≤◌, ◌<◌, bit_xor, digits, differ, bit_xor-bitwise,
}
use mathlib.Core.Path.{◌≡◌, refl, ap, sym, subst, ◌∙◌}
use mathlib.Core.Logic.{inl, inr}
use memleax.Prelude.Tests.{leb, Bool-cases}
use native.Mathlib.Omega.{arith}

abbrev by_digits : ℕ → ℕ → ℕ → ℕ
by_digits fuel = digits (λ rest. rest) differ fuel

pub zero-bit_xor : (b : ℕ) → bit_xor 0 b ≡ b
zero-bit_xor b = bit_xor-bitwise 0 b

-- One more step of fuel changes nothing.
by_digits-suc : (fuel a b : ℕ) → a ≤ fuel → by_digits (suc fuel) a b ≡ by_digits fuel a b
by_digits-suc zero zero b enough = refl
by_digits-suc (suc fuel) zero b enough = refl
by_digits-suc zero (suc a) b enough = absurd (omega arith)
by_digits-suc (suc fuel) (suc a) b enough =
    let half : suc a / 2 ≤ fuel = omega arith in
    omega (arith, by_digits-suc fuel (suc a / 2) (b / 2) half)

by_digits-bit_xor : (fuel a b : ℕ) → a ≤ fuel → by_digits fuel a b ≡ bit_xor a b
by_digits-bit_xor zero a b enough =
    let none_left : 0 ≡ a = omega arith in
    subst (λ n. by_digits n a b ≡ bit_xor a b) (sym none_left) (sym (bit_xor-bitwise a b))
by_digits-bit_xor (suc fuel) a b enough = elim (Bool-cases (leb a fuel)) [
  | inl less ↦
      let still : a ≤ fuel = ground (arith, less) in
      by_digits-suc fuel a b still ∙ by_digits-bit_xor fuel a b still
  | inr most ↦
      let all : a ≡ suc fuel = ground (arith, most, enough) in
      subst (λ n. by_digits n a b ≡ bit_xor a b) all (sym (bit_xor-bitwise a b))
]

differ_digits : (a b : ℕ) → a < 2 → b < 2 → differ a b ≡ (a + b) % 2
differ_digits zero b p q = omega arith
differ_digits (suc zero) zero p q = omega arith
differ_digits (suc zero) (suc zero) p q = omega arith
differ_digits (suc zero) (suc (suc b)) p q = absurd (omega arith)
differ_digits (suc (suc a)) b p q = absurd (omega arith)

-- The lowest digit, and the others.
pub bit_xor_step : (a b : ℕ) → bit_xor a b ≡ bit_xor (a / 2) (b / 2) * 2 + (a + b) % 2
bit_xor_step zero b = omega (arith, zero-bit_xor b, zero-bit_xor (b / 2))
bit_xor_step (suc a) b =
    let others = by_digits-bit_xor a (suc a / 2) (b / 2) (omega arith) in
    let lowest = differ_digits (suc a % 2) (b % 2) (omega arith) (omega arith) in
    bit_xor-bitwise (suc a) b ∙ omega (arith, others, lowest)

pub bit_xor-half : (a b : ℕ) → bit_xor a b / 2 ≡ bit_xor (a / 2) (b / 2)
bit_xor-half a b = omega (arith, bit_xor_step a b)

pub bit_xor-low : (a b : ℕ) → bit_xor a b % 2 ≡ (a + b) % 2
bit_xor-low a b = omega (arith, bit_xor_step a b)

-- What holds of 0, and of a number if it does of its half, holds of all.
by_halves : (P : ℕ → Type 0) → P 0 → ((a : ℕ) → P (a / 2) → P a) → (n a : ℕ) → a ≤ n → P a
by_halves P base up n zero h = base
by_halves P base up zero (suc a) h = absurd (omega arith)
by_halves P base up (suc n) (suc a) h = up (suc a) (by_halves P base up n (suc a / 2) (omega arith))

pub bit_xor-zero : (b : ℕ) → bit_xor b 0 ≡ b
bit_xor-zero b =
    by_halves (λ a. bit_xor a 0 ≡ a) (zero-bit_xor 0) (λ a ih. omega (arith, ih, bit_xor_step a 0))
      b b (omega arith)

pub bit_xor_comm : (a b : ℕ) → bit_xor a b ≡ bit_xor b a
bit_xor_comm a =
    by_halves (λ a. (b : ℕ) → bit_xor a b ≡ bit_xor b a)
      (λ b. zero-bit_xor b ∙ sym (bit_xor-zero b))
      (λ a ih b. omega (arith, ih (b / 2), bit_xor_step a b, bit_xor_step b a)) a a (omega arith)

assoc_step :
    (a b c : ℕ)
    → bit_xor (bit_xor (a / 2) (b / 2)) (c / 2) ≡ bit_xor (a / 2) (bit_xor (b / 2) (c / 2))
    → bit_xor (bit_xor a b) c ≡ bit_xor a (bit_xor b c)
assoc_step a b c ih =
    let left = ap (λ t. bit_xor t (c / 2)) (bit_xor-half a b) in
    let right = ap (bit_xor (a / 2)) (bit_xor-half b c) in
    omega (
      arith,
      ih,
      left,
      right,
      bit_xor_step (bit_xor a b) c,
      bit_xor_step a (bit_xor b c),
      bit_xor-low a b,
      bit_xor-low b c,
    )

pub bit_xor_assoc : (a b c : ℕ) → bit_xor (bit_xor a b) c ≡ bit_xor a (bit_xor b c)
bit_xor_assoc a =
    by_halves (λ a. (b c : ℕ) → bit_xor (bit_xor a b) c ≡ bit_xor a (bit_xor b c))
      (λ b c. ap (λ t. bit_xor t c) (zero-bit_xor b) ∙ sym (zero-bit_xor (bit_xor b c)))
      (λ a ih b c. assoc_step a b c (ih (b / 2) (c / 2))) a a (omega arith)

pub bit_xor_self : (a : ℕ) → bit_xor a a ≡ 0
bit_xor_self a =
    by_halves (λ a. bit_xor a a ≡ 0) (zero-bit_xor 0) (λ a ih. omega (arith, ih, bit_xor_step a a))
      a a (omega arith)

pub bit_xor-cancel : (a b : ℕ) → bit_xor (bit_xor a b) b ≡ a
bit_xor-cancel a b = rw (bit_xor_assoc a b b, bit_xor_self b) (bit_xor-zero a)

-- Shifted out by eight digits.
pub bit_xor-byte : (a b : ℕ) → bit_xor a b / 256 ≡ bit_xor (a / 256) (b / 256)
bit_xor-byte a b =
    let a₈ : a / 256 ≡ a / 2 / 2 / 2 / 2 / 2 / 2 / 2 / 2 = omega arith in
    let b₈ : b / 256 ≡ b / 2 / 2 / 2 / 2 / 2 / 2 / 2 / 2 = omega arith in
    rw (a₈, b₈)
      (omega (
        arith,
        bit_xor-half (a) (b),
        bit_xor-half (a / 2) (b / 2),
        bit_xor-half (a / 2 / 2) (b / 2 / 2),
        bit_xor-half (a / 2 / 2 / 2) (b / 2 / 2 / 2),
        bit_xor-half (a / 2 / 2 / 2 / 2) (b / 2 / 2 / 2 / 2),
        bit_xor-half (a / 2 / 2 / 2 / 2 / 2) (b / 2 / 2 / 2 / 2 / 2),
        bit_xor-half (a / 2 / 2 / 2 / 2 / 2 / 2) (b / 2 / 2 / 2 / 2 / 2 / 2),
        bit_xor-half (a / 2 / 2 / 2 / 2 / 2 / 2 / 2) (b / 2 / 2 / 2 / 2 / 2 / 2 / 2),
      ))

bit_xor-double : (a b : ℕ) → bit_xor a (b * 2) ≡ bit_xor (a / 2) b * 2 + a % 2
bit_xor-double a b =
    let half : b * 2 / 2 ≡ b = omega arith in
    omega (arith, bit_xor_step a (b * 2), ap (bit_xor (a / 2)) half)

-- A byte below a multiple of 256 does not meet it.
pub bit_xor-disjoint : (l h : ℕ) → l < 256 → bit_xor l (h * 256) ≡ h * 256 + l
bit_xor-disjoint l h b =
    let h₈ : h * 256 ≡ h * 2 * 2 * 2 * 2 * 2 * 2 * 2 * 2 = omega arith in
    let l₈ : l / 2 / 2 / 2 / 2 / 2 / 2 / 2 / 2 ≡ 0 = omega arith in
    let top : bit_xor (l / 2 / 2 / 2 / 2 / 2 / 2 / 2 / 2) h ≡ h =
      ap (λ t. bit_xor t h) l₈ ∙ zero-bit_xor h in
    rw h₈ (
      omega (
        arith,
        top,
        bit_xor-double (l) (h * 2 * 2 * 2 * 2 * 2 * 2 * 2),
        bit_xor-double (l / 2) (h * 2 * 2 * 2 * 2 * 2 * 2),
        bit_xor-double (l / 2 / 2) (h * 2 * 2 * 2 * 2 * 2),
        bit_xor-double (l / 2 / 2 / 2) (h * 2 * 2 * 2 * 2),
        bit_xor-double (l / 2 / 2 / 2 / 2) (h * 2 * 2 * 2),
        bit_xor-double (l / 2 / 2 / 2 / 2 / 2) (h * 2 * 2),
        bit_xor-double (l / 2 / 2 / 2 / 2 / 2 / 2) (h * 2),
        bit_xor-double (l / 2 / 2 / 2 / 2 / 2 / 2 / 2) (h),
      ))

pub bit_xor-lt : (n a b : ℕ) → a < 2 ^ n → b < 2 ^ n → bit_xor a b < 2 ^ n
bit_xor-lt zero zero b p q = omega (arith, zero-bit_xor b)
bit_xor-lt zero (suc a) b p q = absurd (omega arith)
bit_xor-lt (suc n) a b p q =
    omega (arith, bit_xor_step a b, bit_xor-lt n (a / 2) (b / 2) (omega arith) (omega arith))
