-- ===== src/Instructions/Transfer.antt =====
-- The handlers of MOV, MOVW, LDI, IN, OUT, PUSH, POP.
use oseid_simulavr.Base.{ℤ, pos, negsuc, ◌+ℤ◌, u8, int_to_u8}
use oseid_simulavr.Exec.{Exec, ◌>>=◌, ◌>>◌}
use oseid_simulavr.Storage.{twice}
use oseid_simulavr.Core.State.{AvrCore}
use oseid_simulavr.Core.Sreg.{gpwr_get, gpwr_set}
use oseid_simulavr.Core.Memory.{io_read, io_write}
use oseid_simulavr.Core.Stack.{stack_pop, stack_push}
use oseid_simulavr.Decoder.Op.{
  Result, opcode_in, opcode_ldi, opcode_mov, opcode_movw, opcode_out, opcode_pop, opcode_push,
}
use oseid_simulavr.Instructions.Flags.{finish}

unfoldable pub avr_op_mov : ℤ → ℤ → Exec AvrCore Result
unfolding gpwr_get gpwr_set finish
avr_op_mov rd_arg rr_arg = do rr ← gpwr_get rr_arg; gpwr_set rd_arg rr; finish 1 opcode_mov

unfoldable pub avr_op_movw : ℤ → ℤ → Exec AvrCore Result
unfolding gpwr_get gpwr_set finish
avr_op_movw rd_arg rr_arg = do
  let rd = twice (rd_arg +ℤ negsuc 15)
  let rr = twice (rr_arg +ℤ negsuc 15)
  low ← gpwr_get rr
  gpwr_set rd low
  high ← gpwr_get (rr +ℤ pos 1)
  gpwr_set (rd +ℤ pos 1) high
  finish 1 opcode_movw

unfoldable pub avr_op_ldi : ℤ → ℤ → Exec AvrCore Result
unfolding gpwr_set finish
avr_op_ldi rd_arg k_arg = do gpwr_set rd_arg (int_to_u8 k_arg); finish 1 opcode_ldi

unfoldable pub avr_op_in : ℤ → ℤ → Exec AvrCore Result
unfolding io_read gpwr_set finish
avr_op_in rd_arg a_arg = do val ← io_read a_arg; gpwr_set rd_arg val; finish 1 opcode_in

unfoldable pub avr_op_out : ℤ → ℤ → Exec AvrCore Result
unfolding io_write gpwr_get finish
avr_op_out rd_arg a_arg = do rd ← gpwr_get rd_arg; io_write a_arg rd; finish 1 opcode_out

unfoldable pub avr_op_pop : ℤ → ℤ → Exec AvrCore Result
unfolding stack_pop gpwr_set finish
avr_op_pop rd_arg _ = do val ← stack_pop 1; gpwr_set rd_arg (u8 val); finish 2 opcode_pop

unfoldable pub avr_op_push : ℤ → ℤ → Exec AvrCore Result
unfolding stack_push gpwr_get finish
avr_op_push rd_arg _ = do rd ← gpwr_get rd_arg; stack_push 1 rd; finish 2 opcode_push
