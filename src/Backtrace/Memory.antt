-- ===== src/Backtrace/Memory.antt =====
-- The copies of the mapped files answer as the target's memory does.
use memleax.Prelude.{
  subst, inside_list, arith, ◌/◌, inl, inr, ◌&&◌, leb, Bool-cases, ◌%◌, ◌^◌, get_elem?, ◌-◌, length,
  ◌<◌, ◌*◌, ◌≤◌, All, ◌+◌, ◌≢◌, ℕ, ◌≡◌, refl, some, List, [], ◌∷◌,
}
use memleax.Machine.{Target, ptrace_get_data}
use memleax.Backtrace.{MapSection, peeked, access_mem}

-- A section holds the words of the target's memory at its addresses, none of them all ones, and ends
-- where its words do.
pub record Mirrors (target : Target) (s : target.State) (thread : ℕ) (ms : MapSection)
    : Type 0 where
  pub full : ms.end ≡ ms.start + 8 * length ms.words
  pub same :
      (i w : ℕ)
      → get_elem? ms.words i ≡ some w
      → (ptrace_get_data target s thread (ms.start + 8 * i) ≡ w) × (w ≢ 2 ^ 64 - 1)

-- An address that no section ends with, and that is a whole number of words into those that have it.
abbrev pub Fits : ℕ → MapSection → Type 0
Fits addr ms = (addr ≢ ms.end) × (ms.start ≤ addr → addr < ms.end → (addr - ms.start) % 8 ≡ 0)

module _ (target : Target) (s : target.State) (thread : ℕ) where
  -- The sections mirror the memory, and the address is the end of none and a whole number of words
  -- into those that have it. Then a read of the unwinder gives what a read of the target's memory
  -- gives, whether it comes from a section or from the target.
  pub access_mem-peeked :
      (sections : List MapSection) (addr : ℕ)
      → All (λ ms. Mirrors target s thread ms) sections
      → All (Fits addr) sections
      → access_mem target s thread sections addr
        ≡ peeked target (ptrace_get_data target s thread addr)
  unfolding access_mem
  access_mem-peeked [] addr m f = refl
  access_mem-peeked (ms ∷ rest) addr (m, mirrors) (f, fits) =
      let later = access_mem-peeked rest addr mirrors fits in
      elim (Bool-cases (leb ms.start addr && leb addr ms.end)) [
        | inr out ↦ rw (out, later) refl
        | inl within ↦
            let i = (addr - ms.start) / 8 in
            let low : ms.start ≤ addr = ground (arith, within) in
            let high : addr < ms.end = ground (arith, within, f.0) in
            let whole : (addr - ms.start) % 8 ≡ 0 = f.1 low high in
            let (w, at) = inside_list ms.words i (omega (arith, m.full, low, high, whole)) in
            let (read, no_error) = m.same i w at in
            let place : ms.start + 8 * i ≡ addr = omega (arith, low, whole) in
            let read' : ptrace_get_data target s thread addr ≡ w =
              subst (λ a. ptrace_get_data target s thread a ≡ w) place read in
            rw (within, at, read') (ground (arith, no_error))
      ]
