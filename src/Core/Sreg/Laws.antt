-- ===== src/Core/Sreg/Laws.antt =====
-- Reading a flag back from a status byte.
use native.Mathlib.Nat.{one-le-pow}
use oseid_simulavr.Base.{
  ℕ, ◌<◌, ◌≡◌, arith, if◌then◌else◌, ◌==◌, truth, complement, bit_and, bit_or, ◌<<<◌,
}
use oseid_simulavr.Bits.{
  digit, digit-u8, digit-bit_or, digit-bit_and, digit-mask, digit-complement, digit-lt, bit_and-pow,
}
use package.oseid_simulavr.Core.Sreg.{nonzero, set_bit_in_byte, sreg_bit}

-- Setting one bit of a byte sets that digit to whether the value is nonzero and no other.
pub digit-set_bit_in_byte :
    (src bit val j : ℕ)
    → bit < 8
    → j < 8
    → digit (set_bit_in_byte src bit val) j
      ≡ (if bit == j then truth (nonzero val) else digit src j)
unfolding set_bit_in_byte
digit-set_bit_in_byte src bit val j hb hj = ground (
  arith,
  digit-u8 j (bit_or (bit_and src (complement (1 <<< bit))) (truth (nonzero val) <<< bit)) hj,
  digit-bit_or j (bit_and src (complement (1 <<< bit))) (truth (nonzero val) <<< bit),
  digit-bit_and j src (complement (1 <<< bit)),
  digit-mask (nonzero val) bit j hb hj,
  digit-complement bit j hb hj,
  digit-lt j src,
)

pub set_bit_in_byte-lt : (src bit val : ℕ) → set_bit_in_byte src bit val < 256
unfolding set_bit_in_byte
set_bit_in_byte-lt src bit val = omega arith

-- `sreg_get_bit` reads the digit.
pub sreg_bit-eq-digit : (reg bit : ℕ) → sreg_bit reg bit ≡ digit reg bit
unfolding sreg_bit
sreg_bit-eq-digit reg bit = grind (arith, bit_and-pow bit reg, one-le-pow bit 2, digit-lt bit reg)
