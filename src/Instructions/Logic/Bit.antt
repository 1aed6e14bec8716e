-- ===== src/Instructions/Logic/Bit.antt =====
-- The handlers of BCLR, BSET, BLD, BST, CBI, SBI.
use oseid_simulavr.Base.{
  bit_and, bit_or, ℤ, u8, ◌<<<◌, complement, ◌==◌, if◌then◌else◌, shift_count,
}
use oseid_simulavr.Exec.{Exec, defined, ◌>>=◌, ◌>>◌}
use oseid_simulavr.Core.State.{AvrCore}
use oseid_simulavr.Core.Sreg.{sreg_t, bit_number, sreg_get_bit, sreg_set_bit, gpwr_get, gpwr_set}
use oseid_simulavr.Core.Memory.{io_read, io_write}
use oseid_simulavr.Decoder.Op.{
  Result, opcode_bclr, opcode_bld, opcode_bset, opcode_bst, opcode_cbi, opcode_sbi,
}
use oseid_simulavr.Instructions.Flags.{bit_at, finish}

unfoldable pub avr_op_bclr : ℤ → ℤ → Exec AvrCore Result
unfolding sreg_set_bit finish
avr_op_bclr bit_arg _ = do
  bit ← defined (shift_count bit_arg)
  sreg_set_bit bit 0
  finish 1 opcode_bclr

unfoldable pub avr_op_bset : ℤ → ℤ → Exec AvrCore Result
unfolding sreg_set_bit finish
avr_op_bset bit_arg _ = do
  bit ← defined (shift_count bit_arg)
  sreg_set_bit bit 1
  finish 1 opcode_bset

unfoldable pub avr_op_bld : ℤ → ℤ → Exec AvrCore Result
unfolding gpwr_get gpwr_set sreg_get_bit finish
avr_op_bld rd_arg bit_arg = do
  rd ← gpwr_get rd_arg
  t ← sreg_get_bit (bit_number sreg_t)
  bit ← defined (shift_count bit_arg)
  let res = u8 (if t == 0 then bit_and rd (complement (1 <<< bit)) else bit_or rd (1 <<< bit))
  gpwr_set rd_arg res
  finish 1 opcode_bld

unfoldable pub avr_op_bst : ℤ → ℤ → Exec AvrCore Result
unfolding gpwr_get sreg_set_bit finish
avr_op_bst rd_arg bit_arg = do
  rd ← gpwr_get rd_arg
  bit ← defined (shift_count bit_arg)
  sreg_set_bit (bit_number sreg_t) (bit_at rd bit)
  finish 1 opcode_bst

unfoldable pub avr_op_cbi : ℤ → ℤ → Exec AvrCore Result
unfolding io_read io_write finish
avr_op_cbi a_arg b_arg = do
  val ← io_read a_arg
  b ← defined (shift_count b_arg)
  io_write a_arg (bit_and val (complement (1 <<< b)))
  finish 2 opcode_cbi

unfoldable pub avr_op_sbi : ℤ → ℤ → Exec AvrCore Result
unfolding io_read io_write finish
avr_op_sbi a_arg b_arg = do
  val ← io_read a_arg
  b ← defined (shift_count b_arg)
  io_write a_arg (bit_or val (1 <<< b))
  finish 2 opcode_sbi
