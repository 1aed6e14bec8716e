-- ===== src/Instructions/Jump.antt =====
-- The handlers of the branches, jumps, calls and returns.
pub mod Return
use oseid_simulavr.Base.{
  ◌+◌, bit_and, ℤ, pos, ◌+ℤ◌, ◌<<<◌, not, ◌==◌, ◌&&◌, ltb, if◌then◌else◌, shift_count, int_to_u32,
  u32_to_int, not_negative,
}
use oseid_simulavr.Exec.{Exec, pure, stop, defined, gets, ◌>>=◌, ◌>>◌}
use oseid_simulavr.Storage.{flash_read}
use oseid_simulavr.Core.State.{AvrCore, on_flash}
use oseid_simulavr.Core.Sreg.{sreg_i, bit_number, sreg_get_bit, sreg_set_bit, gpwr_get}
use oseid_simulavr.Core.Counter.{pc_get, pc_set, pc_incr, pc_size_get, inst_cks_set}
use oseid_simulavr.Core.Stack.{stack_pop, stack_push}
use oseid_simulavr.Decoder.Op.{
  Result, executed, opcode_brbc, opcode_brbs, opcode_call, opcode_eicall, opcode_eijmp,
  opcode_icall, opcode_ijmp, opcode_jmp, opcode_rcall, opcode_ret, opcode_reti, opcode_rjmp,
}
use oseid_simulavr.Instructions.Flags.{finish}

unfoldable pub avr_op_brbc : ℤ → ℤ → Exec AvrCore Result
unfolding sreg_get_bit pc_incr inst_cks_set finish
avr_op_brbc bit_arg k_arg = do
  bit ← defined (shift_count bit_arg)
  flag ← sreg_get_bit bit
  if flag == 0
      then (do pc_incr (k_arg +ℤ pos 1); inst_cks_set 2; pure (executed opcode_brbc))
      else finish 1 opcode_brbc

unfoldable pub avr_op_brbs : ℤ → ℤ → Exec AvrCore Result
unfolding sreg_get_bit pc_incr inst_cks_set finish
avr_op_brbs bit_arg k_arg = do
  bit ← defined (shift_count bit_arg)
  flag ← sreg_get_bit bit
  if not (flag == 0)
      then (do pc_incr (k_arg +ℤ pos 1); inst_cks_set 2; pure (executed opcode_brbs))
      else finish 1 opcode_brbs

unfoldable pub avr_op_call : ℤ → ℤ → Exec AvrCore Result
unfolding pc_get pc_size_get flash_read stack_push pc_set inst_cks_set
avr_op_call kh_arg _ = do
  pc ← pc_get
  pc_bytes ← pc_size_get
  kl ← on_flash (flash_read (pc +ℤ pos 1))
  kh ← defined (not_negative kh_arg)
  let k = (kh <<< 16) + kl
  if pc_bytes == 2 && ltb 0xffff k then stop else do
    stack_push pc_bytes (int_to_u32 (pc +ℤ pos 2))
    pc_set (pos k)
    inst_cks_set (pc_bytes + 2)
    pure (executed opcode_call)

unfoldable pub avr_op_jmp : ℤ → ℤ → Exec AvrCore Result
unfolding pc_get flash_read pc_set inst_cks_set
avr_op_jmp kh_arg _ = do
  pc ← pc_get
  kl ← on_flash (flash_read (pc +ℤ pos 1))
  kh ← defined (not_negative kh_arg)
  pc_set (pos ((kh <<< 16) + kl))
  inst_cks_set 3
  pure (executed opcode_jmp)

unfoldable pub avr_op_rcall : ℤ → ℤ → Exec AvrCore Result
unfolding pc_get pc_size_get stack_push pc_incr inst_cks_set
avr_op_rcall k_arg _ = do
  pc ← pc_get
  pc_bytes ← pc_size_get
  stack_push pc_bytes (int_to_u32 (pc +ℤ pos 1))
  pc_incr (k_arg +ℤ pos 1)
  inst_cks_set (pc_bytes + 1)
  pure (executed opcode_rcall)

unfoldable pub avr_op_rjmp : ℤ → ℤ → Exec AvrCore Result
unfolding pc_incr inst_cks_set
avr_op_rjmp k_arg _ = do pc_incr (k_arg +ℤ pos 1); inst_cks_set 2; pure (executed opcode_rjmp)

unfoldable pub avr_op_icall : ℤ → ℤ → Exec AvrCore Result
unfolding pc_get pc_size_get gpwr_get stack_push pc_set inst_cks_set
avr_op_icall _ _ = do
  pc ← pc_get
  pc_bytes ← pc_size_get
  high ← gpwr_get (pos 31)
  low ← gpwr_get (pos 30)
  stack_push pc_bytes (int_to_u32 (pc +ℤ pos 1))
  pc_set (pos ((high <<< 8) + low))
  inst_cks_set (pc_bytes + 1)
  pure (executed opcode_icall)

unfoldable pub avr_op_ijmp : ℤ → ℤ → Exec AvrCore Result
unfolding gpwr_get pc_set inst_cks_set
avr_op_ijmp _ _ = do
  high ← gpwr_get (pos 31)
  low ← gpwr_get (pos 30)
  pc_set (pos ((high <<< 8) + low))
  inst_cks_set 2
  pure (executed opcode_ijmp)

unfoldable pub avr_op_eicall : ℤ → ℤ → Exec AvrCore Result
unfolding pc_get gpwr_get stack_push pc_set inst_cks_set
avr_op_eicall _ _ = do
  pc ← pc_get
  eind ← gets (λ c. c.eind)
  high ← gpwr_get (pos 31)
  low ← gpwr_get (pos 30)
  let new_pc = (bit_and eind 0x3f <<< 16) + (high <<< 8) + low
  stack_push 3 (int_to_u32 (pc +ℤ pos 1))
  pc_set (pos new_pc)
  inst_cks_set 4
  pure (executed opcode_eicall)

unfoldable pub avr_op_eijmp : ℤ → ℤ → Exec AvrCore Result
unfolding gpwr_get pc_set inst_cks_set
avr_op_eijmp _ _ = do
  eind ← gets (λ c. c.eind)
  high ← gpwr_get (pos 31)
  low ← gpwr_get (pos 30)
  let new_pc = (bit_and eind 0x3f <<< 16) + (high <<< 8) + low
  pc_set (pos new_pc)
  inst_cks_set 2
  pure (executed opcode_eijmp)

unfoldable pub avr_op_ret : ℤ → ℤ → Exec AvrCore Result
unfolding pc_size_get stack_pop pc_set inst_cks_set
avr_op_ret _ _ = do
  pc_bytes ← pc_size_get
  pc ← stack_pop pc_bytes
  pc_set (u32_to_int pc)
  inst_cks_set (pc_bytes + 2)
  pure (executed opcode_ret)

unfoldable pub avr_op_reti : ℤ → ℤ → Exec AvrCore Result
unfolding pc_size_get stack_pop pc_set inst_cks_set sreg_set_bit
avr_op_reti _ _ = do
  pc_bytes ← pc_size_get
  pc ← stack_pop pc_bytes
  pc_set (u32_to_int pc)
  inst_cks_set (pc_bytes + 2)
  sreg_set_bit (bit_number sreg_i) 1
  pure (executed opcode_reti)
