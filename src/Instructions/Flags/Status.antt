-- ===== src/Instructions/Flags/Status.antt =====
-- The flags of a status byte that a handler has updated.
use oseid_simulavr.Base.{
  ℕ, ◌<◌, List, [], ◌∷◌, ◌≡◌, refl, ◌∙◌, ap, arith, ◌==◌, truth, if◌then◌else◌,
}
use oseid_simulavr.Bits.{digit, digit-lt}
use oseid_simulavr.Core.Sreg.{SregBit, sreg_c, bit_number, nonzero, set_bit_in_byte, sreg_bit}
use oseid_simulavr.Core.Sreg.Laws.{digit-set_bit_in_byte, set_bit_in_byte-lt, sreg_bit-eq-digit}
use package.oseid_simulavr.Instructions.Flags.{set_flags}

-- A flag of a status byte, 0 or 1.
unfoldable pub flag : ℕ → SregBit → ℕ
flag sreg b = digit sreg (bit_number b)

pub bit_number-lt : (b : SregBit) → bit_number b < 8
unfolding bit_number
bit_number-lt sreg_c = omega arith
bit_number-lt _ = omega arith

-- The value of flag `b` after the updates, where it was `old`.
abbrev pub updated : List (SregBit × ℕ) → SregBit → ℕ → ℕ
updated [] b old = old
updated ((bit, value) ∷ rest) b old =
    updated rest b (if bit_number bit == bit_number b then truth (nonzero value) else old)

pub flag-set_flags :
    (fs : List (SregBit × ℕ)) (sreg : ℕ) (b : SregBit)
    → flag (set_flags fs sreg) b ≡ updated fs b (flag sreg b)
unfolding set_flags flag
flag-set_flags [] sreg b = refl
flag-set_flags ((bit, value) ∷ rest) sreg b =
    flag-set_flags rest (set_bit_in_byte sreg (bit_number bit) value) b
    ∙ ap (updated rest b) (
        digit-set_bit_in_byte sreg (bit_number bit) value (bit_number b) (bit_number-lt bit)
          (bit_number-lt b))

pub set_flags-lt : (fs : List (SregBit × ℕ)) (sreg : ℕ) → sreg < 256 → set_flags fs sreg < 256
unfolding set_flags
set_flags-lt [] sreg h = h
set_flags-lt ((bit, value) ∷ rest) sreg h =
    set_flags-lt rest (set_bit_in_byte sreg (bit_number bit) value)
      (set_bit_in_byte-lt sreg (bit_number bit) value)

pub flag-lt : (sreg : ℕ) (b : SregBit) → flag sreg b < 2
unfolding flag
flag-lt sreg b = digit-lt (bit_number b) sreg

pub sreg_bit-eq-flag : (sreg : ℕ) (b : SregBit) → sreg_bit sreg (bit_number b) ≡ flag sreg b
unfolding flag
sreg_bit-eq-flag sreg b = sreg_bit-eq-digit sreg (bit_number b)
