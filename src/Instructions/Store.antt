-- ===== src/Instructions/Store.antt =====
-- The handlers of the stores to the data space: STS, STD and ST.
use oseid_simulavr.Base.{◌+◌, ◌-◌, ◌^◌, ℤ, pos, ◌+ℤ◌, u16, if◌then◌else◌}
use oseid_simulavr.Exec.{Exec, pure, stop, ◌>>=◌, ◌>>◌}
use oseid_simulavr.Storage.{flash_read}
use oseid_simulavr.Core.State.{AvrCore, on_flash}
use oseid_simulavr.Core.Sreg.{gpwr_get}
use oseid_simulavr.Core.Counter.{pc_get, pc_incr, inst_cks_set}
use oseid_simulavr.Core.Memory.{mem_write}
use oseid_simulavr.Decoder.Op.{
  Result, executed, opcode_st_x, opcode_st_x_decr, opcode_st_x_incr, opcode_st_y_decr,
  opcode_st_y_incr, opcode_st_z_decr, opcode_st_z_incr, opcode_std_y, opcode_std_z, opcode_sts,
}
use oseid_simulavr.Instructions.Flags.{finish}
use oseid_simulavr.Instructions.Pointer.{index_get, index_set, is_half}

unfoldable pub avr_op_sts : ℤ → ℤ → Exec AvrCore Result
unfolding pc_get flash_read mem_write gpwr_get pc_incr inst_cks_set
avr_op_sts rd_arg _ = do
  pc ← pc_get
  k ← on_flash (flash_read (pc +ℤ pos 1))
  rd ← gpwr_get rd_arg
  mem_write (pos k) rd
  pc_incr (pos 2)
  inst_cks_set 2
  pure (executed opcode_sts)

unfoldable pub avr_op_std_y : ℤ → ℤ → Exec AvrCore Result
unfolding mem_write gpwr_get index_get finish
avr_op_std_y rd_arg q_arg = do
  index ← index_get 28
  rd ← gpwr_get rd_arg
  mem_write (pos index +ℤ q_arg) rd
  finish 2 opcode_std_y

unfoldable pub avr_op_std_z : ℤ → ℤ → Exec AvrCore Result
unfolding mem_write gpwr_get index_get finish
avr_op_std_z rd_arg q_arg = do
  index ← index_get 30
  rd ← gpwr_get rd_arg
  mem_write (pos index +ℤ q_arg) rd
  finish 2 opcode_std_z

unfoldable pub avr_op_st_x : ℤ → ℤ → Exec AvrCore Result
unfolding mem_write gpwr_get index_get finish
avr_op_st_x rd_arg _ = do
  index ← index_get 26
  rd ← gpwr_get rd_arg
  mem_write (pos index) rd
  finish 2 opcode_st_x

unfoldable pub avr_op_st_x_decr : ℤ → ℤ → Exec AvrCore Result
unfolding mem_write gpwr_get index_get index_set finish
avr_op_st_x_decr rd_arg _ = do
  if is_half rd_arg 26 then stop else do
    index ← index_get 26
    let index' = u16 (index + 2 ^ 16 - 1)
    index_set 26 index'
    rd ← gpwr_get rd_arg
    mem_write (pos index') rd
    finish 2 opcode_st_x_decr

unfoldable pub avr_op_st_x_incr : ℤ → ℤ → Exec AvrCore Result
unfolding mem_write gpwr_get index_get index_set finish
avr_op_st_x_incr rd_arg _ = do
  if is_half rd_arg 26 then stop else do
    index ← index_get 26
    rd ← gpwr_get rd_arg
    mem_write (pos index) rd
    index_set 26 (u16 (index + 1))
    finish 2 opcode_st_x_incr

unfoldable pub avr_op_st_y_decr : ℤ → ℤ → Exec AvrCore Result
unfolding mem_write gpwr_get index_get index_set finish
avr_op_st_y_decr rd_arg _ = do
  if is_half rd_arg 28 then stop else do
    index ← index_get 28
    let index' = u16 (index + 2 ^ 16 - 1)
    index_set 28 index'
    rd ← gpwr_get rd_arg
    mem_write (pos index') rd
    finish 2 opcode_st_y_decr

unfoldable pub avr_op_st_y_incr : ℤ → ℤ → Exec AvrCore Result
unfolding mem_write gpwr_get index_get index_set finish
avr_op_st_y_incr rd_arg _ = do
  if is_half rd_arg 28 then stop else do
    index ← index_get 28
    rd ← gpwr_get rd_arg
    mem_write (pos index) rd
    index_set 28 (u16 (index + 1))
    finish 2 opcode_st_y_incr

unfoldable pub avr_op_st_z_decr : ℤ → ℤ → Exec AvrCore Result
unfolding mem_write gpwr_get index_get index_set finish
avr_op_st_z_decr rd_arg _ = do
  if is_half rd_arg 30 then stop else do
    index ← index_get 30
    let index' = u16 (index + 2 ^ 16 - 1)
    index_set 30 index'
    rd ← gpwr_get rd_arg
    mem_write (pos index') rd
    finish 2 opcode_st_z_decr

unfoldable pub avr_op_st_z_incr : ℤ → ℤ → Exec AvrCore Result
unfolding mem_write gpwr_get index_get index_set finish
avr_op_st_z_incr rd_arg _ = do
  if is_half rd_arg 30 then stop else do
    index ← index_get 30
    rd ← gpwr_get rd_arg
    mem_write (pos index) rd
    index_set 30 (u16 (index + 1))
    finish 2 opcode_st_z_incr
