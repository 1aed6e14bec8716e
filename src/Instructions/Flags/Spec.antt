-- ===== src/Instructions/Flags/Spec.antt =====
-- What the data sheet says of the flags after an addition or a subtraction, in terms of the exact
-- sum or difference, unsigned and signed.
use oseid_simulavr.Base.{
  ℕ, ◌+◌, ◌-◌, ◌/◌, ◌%◌, ◌^◌, ◌≡◌, pos, ◌+ℤ◌, ◌-ℤ◌, int8, is_int8, is_negative, u8, truth, not, ltb,
  ◌==◌, update,
}
use oseid_simulavr.Core.State.{AvrCore}
use oseid_simulavr.Core.Sreg.{sreg_c, sreg_z, sreg_n, sreg_v, sreg_s, sreg_h, sreg_t, sreg_i}
use oseid_simulavr.Core.Counter.{adjust_pc_to_max}
use oseid_simulavr.Instructions.Flags.Status.{flag}

-- The status byte `new` after x + y + c, where it was `old`.
pub record IsSumStatus (x y c old new : ℕ) : Type 0 where
  pub carry : flag new sreg_c ≡ (x + y + c) / 256
  pub zero_ : flag new sreg_z ≡ truth (u8 (x + y + c) == 0)
  pub negative : flag new sreg_n ≡ u8 (x + y + c) / 128
  pub overflow : flag new sreg_v ≡ truth (not (is_int8 (int8 x +ℤ int8 y +ℤ pos c)))
  pub sign : flag new sreg_s ≡ truth (is_negative (int8 x +ℤ int8 y +ℤ pos c))
  pub half : flag new sreg_h ≡ (x % 16 + y % 16 + c) / 16
  pub transfer : flag new sreg_t ≡ flag old sreg_t
  pub interrupt : flag new sreg_i ≡ flag old sreg_i

-- The status byte `new` after x - y - c, where it was `old`; `z` is the zero flag.
pub record IsDifferenceStatus (x y c z old new : ℕ) : Type 0 where
  pub carry : flag new sreg_c ≡ truth (ltb x (y + c))
  pub zero_ : flag new sreg_z ≡ z
  pub negative : flag new sreg_n ≡ u8 (x + 2 ^ 9 - y - c) / 128
  pub overflow : flag new sreg_v ≡ truth (not (is_int8 (int8 x -ℤ int8 y -ℤ pos c)))
  pub sign : flag new sreg_s ≡ truth (is_negative (int8 x -ℤ int8 y -ℤ pos c))
  pub half : flag new sreg_h ≡ truth (ltb (x % 16) (y % 16 + c))
  pub transfer : flag new sreg_t ≡ flag old sreg_t
  pub interrupt : flag new sreg_i ≡ flag old sreg_i

-- The core after an instruction of one word and `clocks` clocks with the status byte `status`.
abbrev pub advanced : ℕ → ℕ → AvrCore → AvrCore
advanced clocks status c = record c {
  sreg = status;
  pc = adjust_pc_to_max c.pc_max (c.pc +ℤ pos 1);
  inst_cks = clocks;
}

-- Register `d` holds `value`.
abbrev pub with_register : ℕ → ℕ → AvrCore → AvrCore
with_register d value c = record c { gpwr = update c.gpwr d value }
