-- ===== src/Bits/Digit.antt =====
-- One binary digit of a number, and the digits of a result of `&`, `|` and `^`.

use oseid_simulavr.Base.{
  ℕ, zero, suc, ◌+◌, ◌/◌, ◌%◌, ◌<◌, min, max, bit_and, bit_or, bit_xor, ◌≡◌, arith,
}
use oseid_simulavr.Bits.Step.{bit_and_step, bit_or_step, bit_xor_step}

-- Digit `j` of `x`, the lowest first.
unfoldable pub digit : ℕ → ℕ → ℕ
digit x zero = x % 2
digit x (suc j) = digit (x / 2) j

pub digit-bit_and : (j a b : ℕ) → digit (bit_and a b) j ≡ min (digit a j) (digit b j)
unfolding digit
digit-bit_and zero a b = omega (arith, bit_and_step a b)
digit-bit_and (suc j) a b =
    let half : bit_and a b / 2 ≡ bit_and (a / 2) (b / 2) = omega (arith, bit_and_step a b) in
    rw half (digit-bit_and j (a / 2) (b / 2))

pub digit-bit_or : (j a b : ℕ) → digit (bit_or a b) j ≡ max (digit a j) (digit b j)
unfolding digit
digit-bit_or zero a b = omega (arith, bit_or_step a b)
digit-bit_or (suc j) a b =
    let half : bit_or a b / 2 ≡ bit_or (a / 2) (b / 2) = omega (arith, bit_or_step a b) in
    rw half (digit-bit_or j (a / 2) (b / 2))

pub digit-bit_xor : (j a b : ℕ) → digit (bit_xor a b) j ≡ (digit a j + digit b j) % 2
unfolding digit
digit-bit_xor zero a b = omega (arith, bit_xor_step a b)
digit-bit_xor (suc j) a b =
    let half : bit_xor a b / 2 ≡ bit_xor (a / 2) (b / 2) = omega (arith, bit_xor_step a b) in
    rw half (digit-bit_xor j (a / 2) (b / 2))

pub digit-lt : (j x : ℕ) → digit x j < 2
unfolding digit
digit-lt zero x = omega arith
digit-lt (suc j) x = digit-lt j (x / 2)

-- The digits of the eight bits of a byte, as quotients.
pub record Digits (x : ℕ) : Type 0 where
  pub at0 : digit x 0 ≡ x % 2
  pub at1 : digit x 1 ≡ x / 2 % 2
  pub at2 : digit x 2 ≡ x / 4 % 2
  pub at3 : digit x 3 ≡ x / 8 % 2
  pub at4 : digit x 4 ≡ x / 16 % 2
  pub at5 : digit x 5 ≡ x / 32 % 2
  pub at6 : digit x 6 ≡ x / 64 % 2
  pub at7 : digit x 7 ≡ x / 128 % 2

pub digits_lem : (x : ℕ) → Digits x
unfolding digit
digits_lem x = omega arith
