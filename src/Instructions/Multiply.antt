-- ===== src/Instructions/Multiply.antt =====
-- The handlers of MUL, MULS, MULSU, FMUL, FMULS, FMULSU. A product is held as its 16-bit pattern.
pub mod Product
use oseid_simulavr.Base.{
  ◌*◌, bit_and, ℤ, pos, ◌*ℤ◌, [], ◌∷◌, u8, u16, ◌<<<◌, ◌>>>◌, truth, ◌==◌, int8, int_to_u16,
}
use oseid_simulavr.Exec.{Exec, ◌>>=◌, ◌>>◌}
use oseid_simulavr.Core.State.{AvrCore}
use oseid_simulavr.Core.Sreg.{sreg_c, sreg_z, sreg_get, sreg_set, gpwr_get, gpwr_set}
use oseid_simulavr.Decoder.Op.{
  Result, opcode_fmul, opcode_fmuls, opcode_fmulsu, opcode_mul, opcode_muls, opcode_mulsu,
}
use oseid_simulavr.Instructions.Flags.{bit_at, set_flags, finish}

unfoldable pub avr_op_mul : ℤ → ℤ → Exec AvrCore Result
unfolding gpwr_get gpwr_set sreg_get sreg_set finish
avr_op_mul rd_arg rr_arg = do
  rd ← gpwr_get rd_arg
  rr ← gpwr_get rr_arg
  let res = u16 (rd * rr)
  sreg ← sreg_get
  sreg_set
      (set_flags ((sreg_z, truth (bit_and res 0xffff == 0)) ∷ (sreg_c, bit_at res 15) ∷ []) sreg)
  gpwr_set (pos 1) (u8 (res >>> 8))
  gpwr_set (pos 0) (u8 (bit_and res 0xff))
  finish 2 opcode_mul

unfoldable pub avr_op_muls : ℤ → ℤ → Exec AvrCore Result
unfolding gpwr_get gpwr_set sreg_get sreg_set finish
avr_op_muls rd_arg rr_arg = do
  rd ← gpwr_get rd_arg
  rr ← gpwr_get rr_arg
  let res = int_to_u16 (int8 rd *ℤ int8 rr)
  sreg ← sreg_get
  sreg_set
      (set_flags ((sreg_z, truth (bit_and res 0xffff == 0)) ∷ (sreg_c, bit_at res 15) ∷ []) sreg)
  gpwr_set (pos 1) (u8 (res >>> 8))
  gpwr_set (pos 0) (u8 (bit_and res 0xff))
  finish 2 opcode_muls

unfoldable pub avr_op_mulsu : ℤ → ℤ → Exec AvrCore Result
unfolding gpwr_get gpwr_set sreg_get sreg_set finish
avr_op_mulsu rd_arg rr_arg = do
  rd ← gpwr_get rd_arg
  rr ← gpwr_get rr_arg
  let res = int_to_u16 (int8 rd *ℤ pos rr)
  sreg ← sreg_get
  sreg_set
      (set_flags ((sreg_z, truth (bit_and res 0xffff == 0)) ∷ (sreg_c, bit_at res 15) ∷ []) sreg)
  gpwr_set (pos 1) (u8 (res >>> 8))
  gpwr_set (pos 0) (u8 (bit_and res 0xff))
  finish 2 opcode_mulsu

unfoldable pub avr_op_fmul : ℤ → ℤ → Exec AvrCore Result
unfolding gpwr_get gpwr_set sreg_get sreg_set finish
avr_op_fmul rd_arg rr_arg = do
  rd ← gpwr_get rd_arg
  rr ← gpwr_get rr_arg
  let resp = u16 (rd * rr)
  let res = u16 (resp <<< 1)
  sreg ← sreg_get
  sreg_set
      (set_flags ((sreg_z, truth (bit_and res 0xffff == 0)) ∷ (sreg_c, bit_at resp 15) ∷ []) sreg)
  gpwr_set (pos 1) (u8 (res >>> 8))
  gpwr_set (pos 0) (u8 (bit_and res 0xff))
  finish 2 opcode_fmul

unfoldable pub avr_op_fmuls : ℤ → ℤ → Exec AvrCore Result
unfolding gpwr_get gpwr_set sreg_get sreg_set finish
avr_op_fmuls rd_arg rr_arg = do
  rd ← gpwr_get rd_arg
  rr ← gpwr_get rr_arg
  let resp = int_to_u16 (int8 rd *ℤ int8 rr)
  let res = u16 (resp <<< 1)
  sreg ← sreg_get
  sreg_set
      (set_flags ((sreg_z, truth (bit_and res 0xffff == 0)) ∷ (sreg_c, bit_at resp 15) ∷ []) sreg)
  gpwr_set (pos 1) (u8 (res >>> 8))
  gpwr_set (pos 0) (u8 (bit_and res 0xff))
  finish 2 opcode_fmuls

unfoldable pub avr_op_fmulsu : ℤ → ℤ → Exec AvrCore Result
unfolding gpwr_get gpwr_set sreg_get sreg_set finish
avr_op_fmulsu rd_arg rr_arg = do
  rd ← gpwr_get rd_arg
  rr ← gpwr_get rr_arg
  let resp = int_to_u16 (int8 rd *ℤ pos rr)
  let res = u16 (resp <<< 1)
  sreg ← sreg_get
  sreg_set
      (set_flags ((sreg_z, truth (bit_and res 0xffff == 0)) ∷ (sreg_c, bit_at resp 15) ∷ []) sreg)
  gpwr_set (pos 1) (u8 (res >>> 8))
  gpwr_set (pos 0) (u8 (bit_and res 0xff))
  finish 2 opcode_fmulsu
