-- ===== src/Multicast/Crc.antt =====
-- `ether_crc32_le` goes through its bytes by half bytes and a table of sixteen words. The reference is
-- the bitwise division by the CRC-32 polynomial, least significant bit first.
use mathlib.Core.Path.{◌≡⟨◌⟩◌, ◌∎}
use maxxuss_amdpcnet_v.Base.{
  ℕ, zero, suc, ◌*◌, ◌/◌, ◌%◌, List, [], ◌∷◌, bit_and, bit_xor, ◌≡◌, refl, arith, sym, ap, ap₂, ◌∙◌,
  get_or, ◌==◌, if◌then◌else◌, true, ==_iff,
}
use maxxuss_amdpcnet_v.Base.Bits.{
  bit_xor_assoc, bit_xor_parts, bit_xor_low, bit_xor_cancel, bit_xor_swap, bit_and_fifteen,
  all_below, all_below_sound,
}
use maxxuss_amdpcnet_v.Multicast.{crctab, crc_nibble, crc_bytes, ether_crc32_le}

-- The polynomial, with its bits in reverse order.
abbrev pub polynomial : ℕ
polynomial = 0xedb88320

-- One bit: shift right, and add the polynomial if a one fell out.
pub crc_bit : ℕ → ℕ
crc_bit c = if c % 2 == 1 then bit_xor (c / 2) polynomial else c / 2

pub crc_bits : ℕ → ℕ → ℕ
crc_bits zero c = c
crc_bits (suc n) c = crc_bits n (crc_bit c)

-- The reference: eight bits for each byte.
pub reference_bytes : ℕ → List ℕ → ℕ
reference_bytes crc [] = crc
reference_bytes crc (b ∷ buf) = reference_bytes (crc_bits 8 (bit_xor crc b)) buf

-- A step is linear.
crc_bit-bit_xor : (a b : ℕ) → crc_bit (bit_xor a b) ≡ bit_xor (crc_bit a) (crc_bit b)
unfolding crc_bit
crc_bit-bit_xor a b = ground (
  arith,
  bit_xor_parts a b,
  bit_xor_cancel (a / 2) (b / 2) polynomial,
  bit_xor_swap (a / 2) (b / 2) polynomial,
  bit_xor_assoc (a / 2) (b / 2) polynomial,
)

crc_bits-bit_xor : (n a b : ℕ) → crc_bits n (bit_xor a b) ≡ bit_xor (crc_bits n a) (crc_bits n b)
unfolding crc_bits
crc_bits-bit_xor zero a b = refl
crc_bits-bit_xor (suc n) a b = rw crc_bit-bit_xor (crc_bits-bit_xor n (crc_bit a) (crc_bit b))

crc_bit_even : (m : ℕ) → crc_bit (m * 2) ≡ m
unfolding crc_bit
crc_bit_even m = ground arith

crc_bits_high : (q : ℕ) → crc_bits 4 (q * 16) ≡ q
unfolding crc_bits
crc_bits_high q =
    let e : q * 16 ≡ q * 2 * 2 * 2 * 2 = omega arith in
    rw (
      e,
      crc_bit_even (q * 2 * 2 * 2),
      crc_bit_even (q * 2 * 2),
      crc_bit_even (q * 2),
      crc_bit_even q,
    )

crctab_table : all_below 16 (λ r. crc_bits 4 r == get_or crctab r 0) ≡ true
unfolding all_below crc_bits crc_bit
crctab_table = refl

-- Half a byte by the table is four steps.
crc_nibble_lem : (c : ℕ) → crc_nibble c ≡ crc_bits 4 c
unfolding crc_nibble
crc_nibble_lem c =
    let split : c ≡ bit_xor (c / 16 * 16) (c % 16) =
      omega (arith, bit_xor_low (c / 16) (c % 16) (omega arith)) in
    bit_xor (c / 16) (get_or crctab (bit_and c 0xf) 0)
    ≡⟨ ap (λ r. bit_xor (c / 16) (get_or crctab r 0)) (bit_and_fifteen c) ⟩
      bit_xor (c / 16) (get_or crctab (c % 16) 0)
    ≡⟨ ap₂ bit_xor (sym (crc_bits_high (c / 16))) (sym table) ⟩
      bit_xor (crc_bits 4 (c / 16 * 16)) (crc_bits 4 (c % 16))
    ≡⟨ sym (crc_bits-bit_xor 4 (c / 16 * 16) (c % 16)) ⟩ crc_bits 4 (bit_xor (c / 16 * 16) (c % 16))
    ≡⟨ ap (crc_bits 4) (sym split) ⟩ crc_bits 4 c ∎
  where
    table : crc_bits 4 (c % 16) ≡ get_or crctab (c % 16) 0
    table = (==_iff _ _).0 (all_below_sound 16 _ (c % 16) crctab_table (omega arith))

crc_nibble_twice : (c : ℕ) → crc_nibble (crc_nibble c) ≡ crc_bits 8 c
unfolding crc_bits
crc_nibble_twice c = crc_nibble_lem (crc_nibble c) ∙ ap (crc_bits 4) (crc_nibble_lem c)

crc_bytes_reference : (crc : ℕ) (buf : List ℕ) → crc_bytes crc buf ≡ reference_bytes crc buf
unfolding crc_bytes reference_bytes
crc_bytes_reference crc [] = refl
crc_bytes_reference crc (b ∷ buf) =
    rw (crc_nibble_twice (bit_xor crc b)) (crc_bytes_reference (crc_bits 8 (bit_xor crc b)) buf)

-- For every text of bytes the table-driven checksum is the bitwise CRC-32 remainder, started at
-- 0xffffffff and not complemented.
pub ether_crc32_le_reference : (buf : List ℕ) → ether_crc32_le buf ≡ reference_bytes 0xffff_ffff buf
unfolding ether_crc32_le
ether_crc32_le_reference buf = crc_bytes_reference 0xffff_ffff buf
