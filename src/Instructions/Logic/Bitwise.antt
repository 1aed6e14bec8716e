-- ===== src/Instructions/Logic/Bitwise.antt =====
-- The handlers of AND, ANDI, EOR, OR, ORI.
pub mod Digits
use oseid_simulavr.Base.{bit_and, bit_or, bit_xor, ℤ, [], ◌∷◌, u8, truth, ◌==◌, int_to_u8}
use oseid_simulavr.Exec.{Exec, ◌>>=◌, ◌>>◌}
use oseid_simulavr.Core.State.{AvrCore}
use oseid_simulavr.Core.Sreg.{
  sreg_z, sreg_n, sreg_v, sreg_s, sreg_get, sreg_set, sreg_get_bit, gpwr_get, gpwr_set,
}
use oseid_simulavr.Decoder.Op.{Result, opcode_and, opcode_andi, opcode_eor, opcode_or, opcode_ori}
use oseid_simulavr.Instructions.Flags.{bit_at, set_flags, finish}

unfoldable pub avr_op_and : ℤ → ℤ → Exec AvrCore Result
unfolding gpwr_get gpwr_set sreg_get sreg_set sreg_get_bit finish
avr_op_and rd_arg rr_arg = do
  rd ← gpwr_get rd_arg
  rr ← gpwr_get rr_arg
  let res = u8 (bit_and rd rr)
  sreg ← sreg_get
  let n = bit_at res 7
  sreg_set (
      set_flags
        ((sreg_v, 0)
          ∷ (sreg_n, n)
          ∷ (sreg_s, bit_xor n 0)
          ∷ (sreg_z, truth (bit_and res 0xff == 0))
          ∷ [])
        sreg)
  gpwr_set rd_arg res
  finish 1 opcode_and

unfoldable pub avr_op_andi : ℤ → ℤ → Exec AvrCore Result
unfolding gpwr_get gpwr_set sreg_get sreg_set sreg_get_bit finish
avr_op_andi rd_arg k_arg = do
  let k = int_to_u8 k_arg
  rd ← gpwr_get rd_arg
  let res = u8 (bit_and rd k)
  sreg ← sreg_get
  let n = bit_at res 7
  sreg_set (
      set_flags
        ((sreg_v, 0)
          ∷ (sreg_n, n)
          ∷ (sreg_s, bit_xor n 0)
          ∷ (sreg_z, truth (bit_and res 0xff == 0))
          ∷ [])
        sreg)
  gpwr_set rd_arg res
  finish 1 opcode_andi

unfoldable pub avr_op_eor : ℤ → ℤ → Exec AvrCore Result
unfolding gpwr_get gpwr_set sreg_get sreg_set sreg_get_bit finish
avr_op_eor rd_arg rr_arg = do
  rd ← gpwr_get rd_arg
  rr ← gpwr_get rr_arg
  let res = u8 (bit_xor rd rr)
  sreg ← sreg_get
  let n = bit_at res 7
  sreg_set (
      set_flags
        ((sreg_v, 0)
          ∷ (sreg_n, n)
          ∷ (sreg_s, bit_xor n 0)
          ∷ (sreg_z, truth (bit_and res 0xff == 0))
          ∷ [])
        sreg)
  gpwr_set rd_arg res
  finish 1 opcode_eor

unfoldable pub avr_op_or : ℤ → ℤ → Exec AvrCore Result
unfolding gpwr_get gpwr_set sreg_get sreg_set sreg_get_bit finish
avr_op_or rd_arg rr_arg = do
  rd ← gpwr_get rd_arg
  rr ← gpwr_get rr_arg
  let res = u8 (bit_or rd rr)
  sreg ← sreg_get
  let n = bit_at res 7
  sreg_set (
      set_flags
        ((sreg_v, 0) ∷ (sreg_n, n) ∷ (sreg_s, bit_xor n 0) ∷ (sreg_z, truth (res == 0)) ∷ []) sreg)
  gpwr_set rd_arg res
  finish 1 opcode_or

unfoldable pub avr_op_ori : ℤ → ℤ → Exec AvrCore Result
unfolding gpwr_get gpwr_set sreg_get sreg_set sreg_get_bit finish
avr_op_ori rd_arg k_arg = do
  let k = int_to_u8 k_arg
  rd ← gpwr_get rd_arg
  let res = u8 (bit_or rd k)
  sreg ← sreg_get
  let n = bit_at res 7
  sreg_set (
      set_flags
        ((sreg_v, 0) ∷ (sreg_n, n) ∷ (sreg_s, bit_xor n 0) ∷ (sreg_z, truth (res == 0)) ∷ []) sreg)
  gpwr_set rd_arg res
  finish 1 opcode_ori
