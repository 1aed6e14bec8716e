-- ===== src/Instructions/Arithmetic/Add.antt =====
-- The handlers of ADC, ADD, ADIW, INC.
pub mod Sum
use oseid_simulavr.Base.{
  ◌+◌, bit_and, bit_xor, ℤ, pos, ◌+ℤ◌, [], ◌∷◌, u8, u16, ◌<<<◌, ◌>>>◌, complement, truth, ◌==◌,
  int_to_u8,
}
use oseid_simulavr.Exec.{Exec, ◌>>=◌, ◌>>◌}
use oseid_simulavr.Core.State.{AvrCore}
use oseid_simulavr.Core.Sreg.{
  sreg_c, sreg_z, sreg_n, sreg_v, sreg_s, sreg_h, bit_number, sreg_get, sreg_set, sreg_get_bit,
  gpwr_get, gpwr_set,
}
use oseid_simulavr.Decoder.Op.{Result, opcode_adc, opcode_add, opcode_adiw, opcode_inc}
use oseid_simulavr.Instructions.Flags.{bit_at, get_add_carry, get_add_overflow, set_flags, finish}

unfoldable pub avr_op_adc : ℤ → ℤ → Exec AvrCore Result
unfolding gpwr_get gpwr_set sreg_get sreg_set sreg_get_bit finish
avr_op_adc rd_arg rr_arg = do
  rd ← gpwr_get rd_arg
  rr ← gpwr_get rr_arg
  carry ← sreg_get_bit (bit_number sreg_c)
  let res = u8 (rd + rr + carry)
  sreg ← sreg_get
  let v = get_add_overflow res rd rr
  let n = bit_at res 7
  sreg_set (
      set_flags
        ((sreg_h, get_add_carry res rd rr 3)
          ∷ (sreg_v, v)
          ∷ (sreg_n, n)
          ∷ (sreg_s, bit_xor n v)
          ∷ (sreg_z, truth (bit_and res 0xff == 0))
          ∷ (sreg_c, get_add_carry res rd rr 7)
          ∷ [])
        sreg)
  gpwr_set rd_arg res
  finish 1 opcode_adc

unfoldable pub avr_op_add : ℤ → ℤ → Exec AvrCore Result
unfolding gpwr_get gpwr_set sreg_get sreg_set sreg_get_bit finish
avr_op_add rd_arg rr_arg = do
  rd ← gpwr_get rd_arg
  rr ← gpwr_get rr_arg
  let res = u8 (rd + rr)
  sreg ← sreg_get
  let v = get_add_overflow res rd rr
  let n = bit_at res 7
  sreg_set (
      set_flags
        ((sreg_h, get_add_carry res rd rr 3)
          ∷ (sreg_v, v)
          ∷ (sreg_n, n)
          ∷ (sreg_s, bit_xor n v)
          ∷ (sreg_z, truth (bit_and res 0xff == 0))
          ∷ (sreg_c, get_add_carry res rd rr 7)
          ∷ [])
        sreg)
  gpwr_set rd_arg res
  finish 1 opcode_add

unfoldable pub avr_op_adiw : ℤ → ℤ → Exec AvrCore Result
unfolding gpwr_get gpwr_set sreg_get sreg_set sreg_get_bit finish
avr_op_adiw rd_arg k_arg = do
  let k = int_to_u8 k_arg
  rdl ← gpwr_get rd_arg
  rdh ← gpwr_get (rd_arg +ℤ pos 1)
  let rd = u16 (rdh <<< 8 + rdl)
  let res = u16 (rd + k)
  sreg ← sreg_get
  let v = bit_and (complement (bit_at rdh 7)) (bit_at res 15)
  let n = bit_at res 15
  sreg_set (
      set_flags
        ((sreg_v, v)
          ∷ (sreg_n, n)
          ∷ (sreg_s, bit_xor n v)
          ∷ (sreg_z, truth (bit_and res 0xffff == 0))
          ∷ (sreg_c, bit_and (complement (bit_at res 15)) (bit_at rdh 7))
          ∷ [])
        sreg)
  gpwr_set rd_arg (u8 (bit_and res 0xff))
  gpwr_set (rd_arg +ℤ pos 1) (u8 (res >>> 8))
  finish 2 opcode_adiw

unfoldable pub avr_op_inc : ℤ → ℤ → Exec AvrCore Result
unfolding gpwr_get gpwr_set sreg_get sreg_set sreg_get_bit finish
avr_op_inc rd_arg _ = do
  rd ← gpwr_get rd_arg
  let res = u8 (rd + 1)
  sreg ← sreg_get
  let n = bit_at res 7
  let v = truth (rd == 0x7f)
  sreg_set (
      set_flags
        ((sreg_n, n)
          ∷ (sreg_v, v)
          ∷ (sreg_s, bit_xor n v)
          ∷ (sreg_z, truth (bit_and res 0xff == 0))
          ∷ [])
        sreg)
  gpwr_set rd_arg res
  finish 1 opcode_inc
