-- ===== src/Instructions/Arithmetic/Compare.antt =====
-- The handlers of CP, CPC, CPI, DEC, NEG, COM.
use oseid_simulavr.Base.{
  ◌+◌, ◌-◌, ◌^◌, bit_and, bit_or, bit_xor, ℤ, [], ◌∷◌, u8, ◌>>>◌, truth, ◌==◌, ◌&&◌, int_to_u8,
}
use oseid_simulavr.Exec.{Exec, ◌>>=◌, ◌>>◌}
use oseid_simulavr.Core.State.{AvrCore}
use oseid_simulavr.Core.Sreg.{
  sreg_c, sreg_z, sreg_n, sreg_v, sreg_s, sreg_h, bit_number, nonzero, sreg_get, sreg_set,
  sreg_get_bit, gpwr_get, gpwr_set,
}
use oseid_simulavr.Decoder.Op.{
  Result, opcode_com, opcode_cp, opcode_cpc, opcode_cpi, opcode_dec, opcode_neg,
}
use oseid_simulavr.Instructions.Flags.{
  bit_at, get_compare_carry, get_compare_overflow, set_flags, finish,
}

unfoldable pub avr_op_cp : ℤ → ℤ → Exec AvrCore Result
unfolding gpwr_get gpwr_set sreg_get sreg_set sreg_get_bit finish
avr_op_cp rd_arg rr_arg = do
  rd ← gpwr_get rd_arg
  rr ← gpwr_get rr_arg
  let res = u8 (rd + 2 ^ 8 - rr)
  sreg ← sreg_get
  let v = get_compare_overflow res rd rr
  let n = bit_at res 7
  sreg_set (
      set_flags
        ((sreg_h, get_compare_carry res rd rr 3)
          ∷ (sreg_v, v)
          ∷ (sreg_n, n)
          ∷ (sreg_s, bit_xor n v)
          ∷ (sreg_z, truth (bit_and res 0xff == 0))
          ∷ (sreg_c, get_compare_carry res rd rr 7)
          ∷ [])
        sreg)
  finish 1 opcode_cp

unfoldable pub avr_op_cpc : ℤ → ℤ → Exec AvrCore Result
unfolding gpwr_get gpwr_set sreg_get sreg_set sreg_get_bit finish
avr_op_cpc rd_arg rr_arg = do
  rd ← gpwr_get rd_arg
  rr ← gpwr_get rr_arg
  carry ← sreg_get_bit (bit_number sreg_c)
  let res = u8 (rd + 2 ^ 9 - rr - carry)
  sreg ← sreg_get
  let v = get_compare_overflow res rd rr
  let n = bit_at res 7
  prev_z ← sreg_get_bit (bit_number sreg_z)
  sreg_set (
      set_flags
        ((sreg_h, get_compare_carry res rd rr 3)
          ∷ (sreg_v, v)
          ∷ (sreg_n, n)
          ∷ (sreg_s, bit_xor n v)
          ∷ (sreg_c, get_compare_carry res rd rr 7)
          ∷ (sreg_z, truth (bit_and res 0xff == 0 && nonzero prev_z))
          ∷ [])
        sreg)
  finish 1 opcode_cpc

unfoldable pub avr_op_cpi : ℤ → ℤ → Exec AvrCore Result
unfolding gpwr_get gpwr_set sreg_get sreg_set sreg_get_bit finish
avr_op_cpi rd_arg k_arg = do
  let k = int_to_u8 k_arg
  rd ← gpwr_get rd_arg
  let res = u8 (rd + 2 ^ 8 - k)
  sreg ← sreg_get
  let v = get_compare_overflow res rd k
  let n = bit_at res 7
  sreg_set (
      set_flags
        ((sreg_h, get_compare_carry res rd k 3)
          ∷ (sreg_v, v)
          ∷ (sreg_n, n)
          ∷ (sreg_s, bit_xor n v)
          ∷ (sreg_z, truth (bit_and res 0xff == 0))
          ∷ (sreg_c, get_compare_carry res rd k 7)
          ∷ [])
        sreg)
  finish 1 opcode_cpi

unfoldable pub avr_op_dec : ℤ → ℤ → Exec AvrCore Result
unfolding gpwr_get gpwr_set sreg_get sreg_set sreg_get_bit finish
avr_op_dec rd_arg _ = do
  rd ← gpwr_get rd_arg
  let res = u8 (rd + 2 ^ 8 - 1)
  sreg ← sreg_get
  let n = bit_at res 7
  let v = truth (rd == 0x80)
  sreg_set (
      set_flags
        ((sreg_n, n)
          ∷ (sreg_v, v)
          ∷ (sreg_s, bit_xor n v)
          ∷ (sreg_z, truth (bit_and res 0xff == 0))
          ∷ [])
        sreg)
  gpwr_set rd_arg res
  finish 1 opcode_dec

unfoldable pub avr_op_neg : ℤ → ℤ → Exec AvrCore Result
unfolding gpwr_get gpwr_set sreg_get sreg_set sreg_get_bit finish
avr_op_neg rd_arg _ = do
  rd ← gpwr_get rd_arg
  let res = u8 (2 ^ 8 - rd)
  sreg ← sreg_get
  let v = truth (res == 0x80)
  let n = bit_at res 7
  sreg_set (
      set_flags
        ((sreg_h, bit_and (bit_or (res >>> 3) (rd >>> 3)) 0x1)
          ∷ (sreg_v, v)
          ∷ (sreg_n, n)
          ∷ (sreg_s, bit_xor n v)
          ∷ (sreg_z, truth (res == 0))
          ∷ (sreg_c, truth (nonzero res))
          ∷ [])
        sreg)
  gpwr_set rd_arg res
  finish 1 opcode_neg

unfoldable pub avr_op_com : ℤ → ℤ → Exec AvrCore Result
unfolding gpwr_get gpwr_set sreg_get sreg_set sreg_get_bit finish
avr_op_com rd_arg _ = do
  rd ← gpwr_get rd_arg
  let res = u8 (0xff - rd)
  sreg ← sreg_get
  let n = bit_at res 7
  sreg_set (
      set_flags
        ((sreg_n, n)
          ∷ (sreg_c, 1)
          ∷ (sreg_v, 0)
          ∷ (sreg_s, bit_xor n 0)
          ∷ (sreg_z, truth (bit_and res 0xff == 0))
          ∷ [])
        sreg)
  gpwr_set rd_arg res
  finish 1 opcode_com
