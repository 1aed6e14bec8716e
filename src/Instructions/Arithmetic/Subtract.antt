-- ===== src/Instructions/Arithmetic/Subtract.antt =====
-- The handlers of SUB, SUBI, SBC, SBCI, SBIW.
pub mod Status
pub mod Difference
use oseid_simulavr.Base.{
  ◌+◌, ◌-◌, ◌^◌, bit_and, bit_xor, ℤ, pos, ◌+ℤ◌, [], ◌∷◌, u8, u16, ◌<<<◌, ◌>>>◌, complement, truth,
  ◌==◌, if◌then◌else◌, int_to_u8,
}
use oseid_simulavr.Exec.{Exec, ◌>>=◌, ◌>>◌}
use oseid_simulavr.Core.State.{AvrCore}
use oseid_simulavr.Core.Sreg.{
  sreg_c, sreg_z, sreg_n, sreg_v, sreg_s, sreg_h, bit_number, sreg_get, sreg_set, sreg_get_bit,
  gpwr_get, gpwr_set,
}
use oseid_simulavr.Decoder.Op.{
  Result, opcode_sbc, opcode_sbci, opcode_sbiw, opcode_sub, opcode_subi,
}
use oseid_simulavr.Instructions.Flags.{bit_at, get_sub_carry, get_sub_overflow, set_flags, finish}

unfoldable pub avr_op_sub : ℤ → ℤ → Exec AvrCore Result
unfolding gpwr_get gpwr_set sreg_get sreg_set sreg_get_bit finish
avr_op_sub rd_arg rr_arg = do
  rd ← gpwr_get rd_arg
  rr ← gpwr_get rr_arg
  let res = u8 (rd + 2 ^ 8 - rr)
  sreg ← sreg_get
  let v = get_sub_overflow res rd rr
  let n = bit_at res 7
  sreg_set (
      set_flags
        ((sreg_h, get_sub_carry res rd rr 3)
          ∷ (sreg_v, v)
          ∷ (sreg_n, n)
          ∷ (sreg_s, bit_xor n v)
          ∷ (sreg_z, truth (bit_and res 0xff == 0))
          ∷ (sreg_c, get_sub_carry res rd rr 7)
          ∷ [])
        sreg)
  gpwr_set rd_arg res
  finish 1 opcode_sub

unfoldable pub avr_op_subi : ℤ → ℤ → Exec AvrCore Result
unfolding gpwr_get gpwr_set sreg_get sreg_set sreg_get_bit finish
avr_op_subi rd_arg k_arg = do
  let k = int_to_u8 k_arg
  rd ← gpwr_get rd_arg
  let res = u8 (rd + 2 ^ 8 - k)
  sreg ← sreg_get
  let v = get_sub_overflow res rd k
  let n = bit_at res 7
  sreg_set (
      set_flags
        ((sreg_h, get_sub_carry res rd k 3)
          ∷ (sreg_v, v)
          ∷ (sreg_n, n)
          ∷ (sreg_s, bit_xor n v)
          ∷ (sreg_z, truth (bit_and res 0xff == 0))
          ∷ (sreg_c, get_sub_carry res rd k 7)
          ∷ [])
        sreg)
  gpwr_set rd_arg res
  finish 1 opcode_subi

unfoldable pub avr_op_sbc : ℤ → ℤ → Exec AvrCore Result
unfolding gpwr_get gpwr_set sreg_get sreg_set sreg_get_bit finish
avr_op_sbc rd_arg rr_arg = do
  rd ← gpwr_get rd_arg
  rr ← gpwr_get rr_arg
  carry ← sreg_get_bit (bit_number sreg_c)
  let res = u8 (rd + 2 ^ 9 - rr - carry)
  sreg ← sreg_get
  let v = get_sub_overflow res rd rr
  let n = bit_at res 7
  let sreg1 =
      set_flags
        ((sreg_h, get_sub_carry res rd rr 3)
          ∷ (sreg_v, v)
          ∷ (sreg_n, n)
          ∷ (sreg_s, bit_xor n v)
          ∷ (sreg_c, get_sub_carry res rd rr 7)
          ∷ [])
        sreg
  sreg_set (if bit_and res 0xff == 0 then sreg1 else set_flags ((sreg_z, 0) ∷ []) sreg1)
  gpwr_set rd_arg res
  finish 1 opcode_sbc

unfoldable pub avr_op_sbci : ℤ → ℤ → Exec AvrCore Result
unfolding gpwr_get gpwr_set sreg_get sreg_set sreg_get_bit finish
avr_op_sbci rd_arg k_arg = do
  let k = int_to_u8 k_arg
  rd ← gpwr_get rd_arg
  carry ← sreg_get_bit (bit_number sreg_c)
  let res = u8 (rd + 2 ^ 9 - k - carry)
  sreg ← sreg_get
  let v = get_sub_overflow res rd k
  let n = bit_at res 7
  let sreg1 =
      set_flags
        ((sreg_h, get_sub_carry res rd k 3)
          ∷ (sreg_v, v)
          ∷ (sreg_n, n)
          ∷ (sreg_s, bit_xor n v)
          ∷ (sreg_c, get_sub_carry res rd k 7)
          ∷ [])
        sreg
  sreg_set (if bit_and res 0xff == 0 then sreg1 else set_flags ((sreg_z, 0) ∷ []) sreg1)
  gpwr_set rd_arg res
  finish 1 opcode_sbci

unfoldable pub avr_op_sbiw : ℤ → ℤ → Exec AvrCore Result
unfolding gpwr_get gpwr_set sreg_get sreg_set sreg_get_bit finish
avr_op_sbiw rd_arg k_arg = do
  let k = int_to_u8 k_arg
  rdl ← gpwr_get rd_arg
  rdh ← gpwr_get (rd_arg +ℤ pos 1)
  let rd = u16 (rdh <<< 8 + rdl)
  let res = u16 (rd + 2 ^ 16 - k)
  sreg ← sreg_get
  let v = bit_and (bit_at rdh 7) (complement (bit_at res 15))
  let n = bit_at res 15
  sreg_set (
      set_flags
        ((sreg_v, v)
          ∷ (sreg_n, n)
          ∷ (sreg_s, bit_xor n v)
          ∷ (sreg_z, truth (bit_and res 0xffff == 0))
          ∷ (sreg_c, bit_and (bit_at res 15) (complement (bit_at rdh 7)))
          ∷ [])
        sreg)
  gpwr_set rd_arg (u8 (bit_and res 0xff))
  gpwr_set (rd_arg +ℤ pos 1) (u8 (res >>> 8))
  finish 2 opcode_sbiw
