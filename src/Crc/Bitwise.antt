-- ===== src/Crc/Bitwise.antt =====
-- The CRC by its table is the CRC bit by bit, however the file is cut into reads.
use memleax.Prelude.{
  inr, subst, inl, Bool-cases, bit_xor-lt, bit_xor-cancel, bit_xor-disjoint, sym, bit_xor-zero,
  bit_xor_comm, ap, bit_xor-low, ◌∙◌, bit_xor-byte, bit_xor-half, bit_xor_assoc, ℕ, zero, suc, ◌*◌,
  ◌-◌, ◌/◌, ◌%◌, ◌^◌, ◌<◌, ◌≡◌, refl, Bool, true, ◌&&◌, none, some, List, [], ◌∷◌, ◌++◌, bit_xor,
  arith, if◌then◌else◌, ◌==◌, All,
}
use memleax.Crc.{table_at, complement, crc_loop, gnu_debuglink_crc32, Reads, crc_reads, file_crc32}

-- One bit of the division by the polynomial of CRC-32, written with its lowest term first.
abbrev pub polynomial : ℕ
polynomial = 0xEDB88320

pub divide_bit : ℕ → ℕ
divide_bit c = if c % 2 == 1 then bit_xor (c / 2) polynomial else c / 2

pub divide_byte : ℕ → ℕ
divide_byte c =
    divide_bit
      (divide_bit (divide_bit (divide_bit (divide_bit (divide_bit (divide_bit (divide_bit c)))))))

-- The remainder after the bits of a message, from a remainder.
abbrev pub remainder : ℕ → List ℕ → ℕ
remainder c [] = c
remainder c (byte ∷ rest) = remainder (divide_byte (bit_xor c byte)) rest

-- CRC-32 of a message: all ones go in, and the complement comes out.
abbrev pub crc32 : List ℕ → ℕ
crc32 message = 2 ^ 32 - 1 - remainder (2 ^ 32 - 1) message

-- Whether the first entries of the table are the remainders of their indices.
entries_match : ℕ → Bool
entries_match zero = true
entries_match (suc i) = table_at i == divide_byte i && entries_match i

table_matches : entries_match 256 ≡ true
unfolding entries_match table_at divide_byte divide_bit
table_matches = refl

matching_entry :
    (count : ℕ) → entries_match count ≡ true → (i : ℕ) → i < count → table_at i ≡ divide_byte i
unfolding entries_match
matching_entry zero e i below = absurd (omega arith)
matching_entry (suc last) e i below = elim (Bool-cases (i == last)) [
  | inl at_last ↦
      let same : last ≡ i = ground (arith, at_last) in
      let entry : table_at last ≡ divide_byte last = ground (arith, e) in
      subst (λ j. table_at j ≡ divide_byte j) same entry
  | inr earlier ↦ matching_entry last (ground (arith, e)) i (ground (arith, earlier, below))
]

-- Each entry of the table is the remainder of its index.
table_at-divide_byte : (i : ℕ) → i < 256 → table_at i ≡ divide_byte i
table_at-divide_byte = matching_entry 256 table_matches

cancel_right : (x y p : ℕ) → bit_xor (bit_xor x p) (bit_xor y p) ≡ bit_xor x y
cancel_right x y p =
    bit_xor_assoc x p (bit_xor y p)
    ∙ ap (bit_xor x) (bit_xor_comm p (bit_xor y p) ∙ bit_xor-cancel y p)

swap_right : (x y p : ℕ) → bit_xor (bit_xor x p) y ≡ bit_xor (bit_xor x y) p
swap_right x y p =
    bit_xor_assoc x p y ∙ ap (bit_xor x) (bit_xor_comm p y) ∙ sym (bit_xor_assoc x y p)

-- The division is linear.
divide_bit-bit_xor : (a b : ℕ) → divide_bit (bit_xor a b) ≡ bit_xor (divide_bit a) (divide_bit b)
unfolding divide_bit
divide_bit-bit_xor a b = ground (
  arith,
  bit_xor-half a b,
  bit_xor-low a b,
  cancel_right (a / 2) (b / 2) polynomial,
  swap_right (a / 2) (b / 2) polynomial,
  bit_xor_assoc (a / 2) (b / 2) polynomial,
)

divide_byte-bit_xor :
    (a b : ℕ) → divide_byte (bit_xor a b) ≡ bit_xor (divide_byte a) (divide_byte b)
unfolding divide_byte
divide_byte-bit_xor a b = simp divide_bit-bit_xor

divide_bit-double : (k : ℕ) → divide_bit (k * 2) ≡ k
unfolding divide_bit
divide_bit-double k = ground arith

divide_byte-shift : (h : ℕ) → divide_byte (h * 256) ≡ h
unfolding divide_byte
divide_byte-shift h =
    let h₈ : h * 256 ≡ h * 2 * 2 * 2 * 2 * 2 * 2 * 2 * 2 = omega arith in
    rw h₈ (simp divide_bit-double)

-- A step of the loop over the bytes is a byte of the division.
step_lem :
    (crc byte : ℕ)
    → byte < 256
    → bit_xor (table_at (bit_xor crc byte % 256)) (crc / 2 ^ 8) ≡ divide_byte (bit_xor crc byte)
step_lem crc byte small =
    let x : ℕ = bit_xor crc byte in
    let top : x / 256 ≡ crc / 256 =
      bit_xor-byte crc byte ∙ ap (bit_xor (crc / 256)) (omega arith) ∙ bit_xor-zero (crc / 256) in
    let parts : x ≡ bit_xor (x % 256) (x / 256 * 256) =
      omega (arith, bit_xor-disjoint (x % 256) (x / 256) (omega arith)) in
    let split : divide_byte x ≡ bit_xor (divide_byte (x % 256)) (x / 256) =
      ap divide_byte parts
      ∙ divide_byte-bit_xor (x % 256) (x / 256 * 256)
      ∙ ap (bit_xor (divide_byte (x % 256))) (divide_byte-shift (x / 256)) in
    ap (λ t. bit_xor t (crc / 256)) (table_at-divide_byte (x % 256) (omega arith))
    ∙ ap (bit_xor (divide_byte (x % 256))) (sym top)
    ∙ sym split

abbrev pub Bytes : List ℕ → Type 0
Bytes = All (λ b. b < 256)

loop-remainder : (crc : ℕ) (buf : List ℕ) → Bytes buf → crc_loop crc buf ≡ remainder crc buf
unfolding crc_loop
loop-remainder crc [] h = refl
loop-remainder crc (byte ∷ rest) (b, h) =
    rw (step_lem crc byte b) (loop-remainder (divide_byte (bit_xor crc byte)) rest h)

-- Remainders fit 32 bits.
divide_bit-lt : (c : ℕ) → c < 2 ^ 32 → divide_bit c < 2 ^ 32
unfolding divide_bit
divide_bit-lt c h = ground (arith, bit_xor-lt 32 (c / 2) polynomial)

divide_byte-lt : (c : ℕ) → c < 2 ^ 32 → divide_byte c < 2 ^ 32
unfolding divide_byte
divide_byte-lt c h = search (divide_bit-lt, h)

remainder-lt : (c : ℕ) (m : List ℕ) → Bytes m → c < 2 ^ 32 → remainder c m < 2 ^ 32
remainder-lt c [] bs h = h
remainder-lt c (byte ∷ rest) (b, bs) h =
    remainder-lt (divide_byte (bit_xor c byte)) rest bs
      (divide_byte-lt _ (bit_xor-lt 32 c byte h (omega arith)))

remainder-append : (c : ℕ) (xs ys : List ℕ) → remainder c (xs ++ ys) ≡ remainder (remainder c xs) ys
remainder-append c [] ys = refl
remainder-append c (x ∷ xs) ys = remainder-append (divide_byte (bit_xor c x)) xs ys

-- The contents that the reads return up to the end of the file or an error.
abbrev pub contents : Reads → List ℕ
contents [] = []
contents (none ∷ rest) = []
contents (some [] ∷ rest) = []
contents (some (byte ∷ buf) ∷ rest) = (byte ∷ buf) ++ contents rest

reads_from :
    (c : ℕ) (reads : Reads)
    → c < 2 ^ 32
    → All (λ r. Bytes (elim r [ none ↦ [] | some buf ↦ buf ])) reads
    → crc_reads (complement c) reads ≡ 2 ^ 32 - 1 - remainder c (contents reads)
unfolding crc_reads gnu_debuglink_crc32
reads_from c [] h bs = omega arith
reads_from c (none ∷ rest) h bs = omega arith
reads_from c (some [] ∷ rest) h bs = omega arith
reads_from c (some (byte ∷ buf) ∷ rest) h (b, bs) =
    let back : complement (complement c) ≡ c = omega arith in
    let loop : crc_loop c (byte ∷ buf) ≡ remainder c (byte ∷ buf) =
      loop-remainder c (byte ∷ buf) b in
    rw (back, loop, remainder-append c (byte ∷ buf) (contents rest))
      (reads_from (remainder c (byte ∷ buf)) rest (remainder-lt c (byte ∷ buf) b h) bs)

-- The CRC of a file, by the table and over the buffers that `read` fills, is the CRC-32 of the
-- contents read, divided bit by bit; every byte read is below 256. Neither the sizes of the reads nor
-- the start value 0 shows in it.
pub file_crc32-crc32 :
    (reads : Reads)
    → All (λ r. Bytes (elim r [ none ↦ [] | some buf ↦ buf ])) reads
    → file_crc32 reads ≡ crc32 (contents reads)
unfolding file_crc32
file_crc32-crc32 reads bs = reads_from (2 ^ 32 - 1) reads (omega arith) bs
