-- ===== src/Instructions/Logic/Shift.antt =====
-- The handlers of ASR, LSR, ROR, SWAP.
use oseid_simulavr.Base.{
  ℕ, ◌+◌, bit_and, bit_or, bit_xor, ℤ, [], ◌∷◌, u8, ◌<<<◌, ◌>>>◌, truth, ◌==◌,
}
use oseid_simulavr.Exec.{Exec, ◌>>=◌, ◌>>◌}
use oseid_simulavr.Core.State.{AvrCore}
use oseid_simulavr.Core.Sreg.{
  sreg_c, sreg_z, sreg_n, sreg_v, sreg_s, bit_number, sreg_get, sreg_set, sreg_get_bit, gpwr_get,
  gpwr_set,
}
use oseid_simulavr.Decoder.Op.{Result, opcode_asr, opcode_lsr, opcode_ror, opcode_swap}
use oseid_simulavr.Instructions.Flags.{bit_at, set_flags, finish}

unfoldable pub avr_op_asr : ℤ → ℤ → Exec AvrCore Result
unfolding gpwr_get gpwr_set sreg_get sreg_set sreg_get_bit finish
avr_op_asr rd_arg _ = do
  rd ← gpwr_get rd_arg
  let res = u8 ((rd >>> 1) + bit_and rd 0x80)
  sreg ← sreg_get
  let n = bit_at res 7
  let c = bit_and rd 0x1
  let v = bit_xor n c
  sreg_set (
      set_flags
        ((sreg_n, n)
          ∷ (sreg_c, c)
          ∷ (sreg_v, v)
          ∷ (sreg_s, bit_xor n v)
          ∷ (sreg_z, truth (bit_and res 0xff == 0))
          ∷ [])
        sreg)
  gpwr_set rd_arg res
  finish 1 opcode_asr

unfoldable pub avr_op_lsr : ℤ → ℤ → Exec AvrCore Result
unfolding gpwr_get gpwr_set sreg_get sreg_set sreg_get_bit finish
avr_op_lsr rd_arg _ = do
  rd ← gpwr_get rd_arg
  let res = u8 (bit_and (rd >>> 1) 0x7f)
  sreg ← sreg_get
  let c = bit_and rd 0x1
  let n : ℕ = 0
  let v = bit_xor n c
  sreg_set (
      set_flags
        ((sreg_c, c)
          ∷ (sreg_n, n)
          ∷ (sreg_v, v)
          ∷ (sreg_s, bit_xor n v)
          ∷ (sreg_z, truth (bit_and res 0xff == 0))
          ∷ [])
        sreg)
  gpwr_set rd_arg res
  finish 1 opcode_lsr

unfoldable pub avr_op_ror : ℤ → ℤ → Exec AvrCore Result
unfolding gpwr_get gpwr_set sreg_get sreg_set sreg_get_bit finish
avr_op_ror rd_arg _ = do
  rd ← gpwr_get rd_arg
  carry ← sreg_get_bit (bit_number sreg_c)
  let res = u8 (bit_or (rd >>> 1) (bit_and (carry <<< 7) 0x80))
  sreg ← sreg_get
  let c = bit_and rd 0x1
  let n = bit_at res 7
  let v = bit_xor n c
  sreg_set (
      set_flags
        ((sreg_c, c)
          ∷ (sreg_n, n)
          ∷ (sreg_v, v)
          ∷ (sreg_s, bit_xor n v)
          ∷ (sreg_z, truth (res == 0))
          ∷ [])
        sreg)
  gpwr_set rd_arg res
  finish 1 opcode_ror

unfoldable pub avr_op_swap : ℤ → ℤ → Exec AvrCore Result
unfolding gpwr_get gpwr_set finish
avr_op_swap rd_arg _ = do
  rd ← gpwr_get rd_arg
  gpwr_set rd_arg (bit_or (bit_and (rd <<< 4) 0xf0) (bit_and (rd >>> 4) 0x0f))
  finish 1 opcode_swap
