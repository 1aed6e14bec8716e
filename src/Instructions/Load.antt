-- ===== src/Instructions/Load.antt =====
-- The handlers of the loads from the data space: LDS, LDD and LD.
use oseid_simulavr.Base.{◌+◌, ◌-◌, ◌^◌, ℤ, pos, ◌+ℤ◌, u16, if◌then◌else◌}
use oseid_simulavr.Exec.{Exec, pure, stop, ◌>>=◌, ◌>>◌}
use oseid_simulavr.Storage.{flash_read}
use oseid_simulavr.Core.State.{AvrCore, on_flash}
use oseid_simulavr.Core.Sreg.{gpwr_get, gpwr_set}
use oseid_simulavr.Core.Counter.{pc_get, pc_incr, inst_cks_set}
use oseid_simulavr.Core.Memory.{mem_read}
use oseid_simulavr.Decoder.Op.{
  Result, executed, opcode_ld_x, opcode_ld_x_decr, opcode_ld_x_incr, opcode_ld_y_decr,
  opcode_ld_y_incr, opcode_ld_z_decr, opcode_ld_z_incr, opcode_ldd_y, opcode_ldd_z, opcode_lds,
}
use oseid_simulavr.Instructions.Flags.{finish}
use oseid_simulavr.Instructions.Pointer.{index_get, index_set, is_half}

unfoldable pub avr_op_lds : ℤ → ℤ → Exec AvrCore Result
unfolding pc_get flash_read mem_read gpwr_set finish pc_incr inst_cks_set
avr_op_lds rd_arg _ = do
  pc ← pc_get
  k ← on_flash (flash_read (pc +ℤ pos 1))
  val ← mem_read (pos k)
  gpwr_set rd_arg val
  pc_incr (pos 2)
  inst_cks_set 2
  pure (executed opcode_lds)

unfoldable pub avr_op_ldd_y : ℤ → ℤ → Exec AvrCore Result
unfolding mem_read gpwr_get gpwr_set index_get index_set finish
avr_op_ldd_y rd_arg q_arg = do
  index ← index_get 28
  val ← mem_read (pos index +ℤ q_arg)
  gpwr_set rd_arg val
  finish 2 opcode_ldd_y

unfoldable pub avr_op_ldd_z : ℤ → ℤ → Exec AvrCore Result
unfolding mem_read gpwr_get gpwr_set index_get index_set finish
avr_op_ldd_z rd_arg q_arg = do
  index ← index_get 30
  val ← mem_read (pos index +ℤ q_arg)
  gpwr_set rd_arg val
  finish 2 opcode_ldd_z

unfoldable pub avr_op_ld_x : ℤ → ℤ → Exec AvrCore Result
unfolding mem_read gpwr_get gpwr_set index_get index_set finish
avr_op_ld_x rd_arg _ = do
  index ← index_get 26
  val ← mem_read (pos index)
  gpwr_set rd_arg val
  finish 2 opcode_ld_x

unfoldable pub avr_op_ld_x_decr : ℤ → ℤ → Exec AvrCore Result
unfolding mem_read gpwr_get gpwr_set index_get index_set finish
avr_op_ld_x_decr rd_arg _ = do
  if is_half rd_arg 26 then stop else do
    index ← index_get 26
    let index' = u16 (index + 2 ^ 16 - 1)
    index_set 26 index'
    val ← mem_read (pos index')
    gpwr_set rd_arg val
    finish 2 opcode_ld_x_decr

unfoldable pub avr_op_ld_x_incr : ℤ → ℤ → Exec AvrCore Result
unfolding mem_read gpwr_get gpwr_set index_get index_set finish
avr_op_ld_x_incr rd_arg _ = do
  if is_half rd_arg 26 then stop else do
    index ← index_get 26
    val ← mem_read (pos index)
    gpwr_set rd_arg val
    index_set 26 (u16 (index + 1))
    finish 2 opcode_ld_x_incr

unfoldable pub avr_op_ld_y_decr : ℤ → ℤ → Exec AvrCore Result
unfolding mem_read gpwr_get gpwr_set index_get index_set finish
avr_op_ld_y_decr rd_arg _ = do
  if is_half rd_arg 28 then stop else do
    index ← index_get 28
    let index' = u16 (index + 2 ^ 16 - 1)
    index_set 28 index'
    val ← mem_read (pos index')
    gpwr_set rd_arg val
    finish 2 opcode_ld_y_decr

unfoldable pub avr_op_ld_y_incr : ℤ → ℤ → Exec AvrCore Result
unfolding mem_read gpwr_get gpwr_set index_get index_set finish
avr_op_ld_y_incr rd_arg _ = do
  if is_half rd_arg 28 then stop else do
    index ← index_get 28
    val ← mem_read (pos index)
    gpwr_set rd_arg val
    index_set 28 (u16 (index + 1))
    finish 2 opcode_ld_y_incr

unfoldable pub avr_op_ld_z_decr : ℤ → ℤ → Exec AvrCore Result
unfolding mem_read gpwr_get gpwr_set index_get index_set finish
avr_op_ld_z_decr rd_arg _ = do
  if is_half rd_arg 30 then stop else do
    index ← index_get 30
    let index' = u16 (index + 2 ^ 16 - 1)
    index_set 30 index'
    val ← mem_read (pos index')
    gpwr_set rd_arg val
    finish 2 opcode_ld_z_decr

unfoldable pub avr_op_ld_z_incr : ℤ → ℤ → Exec AvrCore Result
unfolding mem_read gpwr_get gpwr_set index_get index_set finish
avr_op_ld_z_incr rd_arg _ = do
  if is_half rd_arg 30 then stop else do
    index ← index_get 30
    val ← mem_read (pos index)
    gpwr_set rd_arg val
    index_set 30 (u16 (index + 1))
    finish 2 opcode_ld_z_incr
