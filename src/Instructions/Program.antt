-- ===== src/Instructions/Program.antt =====
-- The handlers of the accesses to the program memory: LPM, ELPM, SPM, ESPM.
use oseid_simulavr.Base.{◌+◌, ◌/◌, bit_and, ℤ, pos, u8, u16, ◌<<<◌, ◌>>>◌, ◌==◌, if◌then◌else◌}
use oseid_simulavr.Exec.{Exec, pure, stop, ◌>>=◌, ◌>>◌}
use oseid_simulavr.Storage.{flash_read}
use oseid_simulavr.Core.State.{AvrCore, on_flash}
use oseid_simulavr.Core.Sreg.{gpwr_get, gpwr_set, rampz_get, rampz_set}
use oseid_simulavr.Core.Spm.{spm_run}
use oseid_simulavr.Decoder.Op.{
  Result, executed, opcode_elpm, opcode_elpm_z, opcode_elpm_z_incr, opcode_lpm_z, opcode_lpm_z_incr,
  opcode_spm,
}
use oseid_simulavr.Instructions.Flags.{finish}
use oseid_simulavr.Instructions.Pointer.{index_get, index_set, is_half}

unfoldable pub avr_op_elpm_z : ℤ → ℤ → Exec AvrCore Result
unfolding rampz_get gpwr_get gpwr_set flash_read finish
avr_op_elpm_z rd_arg _ = do
  if is_half rd_arg 30 then stop else do
    rampz ← rampz_get
    high ← gpwr_get (pos 31)
    low ← gpwr_get (pos 30)
    let z = (bit_and rampz 0x3f <<< 16) + (high <<< 8) + low
    word ← on_flash (flash_read (pos (z / 2)))
    gpwr_set rd_arg (if bit_and z 0x1 == 1 then u8 (word >>> 8) else u8 (bit_and word 0xff))
    finish 3 opcode_elpm_z

unfoldable pub avr_op_elpm_z_incr : ℤ → ℤ → Exec AvrCore Result
unfolding rampz_get gpwr_get gpwr_set flash_read finish rampz_set
avr_op_elpm_z_incr rd_arg _ = do
  if is_half rd_arg 30 then stop else do
    rampz ← rampz_get
    high ← gpwr_get (pos 31)
    low ← gpwr_get (pos 30)
    let z = (bit_and rampz 0x3f <<< 16) + (high <<< 8) + low
    word ← on_flash (flash_read (pos (z / 2)))
    gpwr_set rd_arg (if bit_and z 0x1 == 1 then u8 (word >>> 8) else u8 (bit_and word 0xff))
    let z' = z + 1
    gpwr_set (pos 30) (u8 (bit_and z' 0xff))
    gpwr_set (pos 31) (u8 (z' >>> 8))
    rampz_set (u8 (bit_and (z' >>> 16) 0x3f))
    finish 3 opcode_elpm_z_incr

unfoldable pub avr_op_elpm : ℤ → ℤ → Exec AvrCore Result
unfolding avr_op_elpm_z
avr_op_elpm arg1 arg2 = do avr_op_elpm_z arg1 arg2; pure (executed opcode_elpm)

unfoldable pub avr_op_lpm_z : ℤ → ℤ → Exec AvrCore Result
unfolding gpwr_get gpwr_set flash_read index_get finish
avr_op_lpm_z rd_arg _ = do
  z ← index_get 30
  word ← on_flash (flash_read (pos (z / 2)))
  gpwr_set rd_arg (if bit_and z 0x1 == 1 then u8 (word >>> 8) else u8 (bit_and word 0xff))
  finish 3 opcode_lpm_z

unfoldable pub avr_op_lpm : ℤ → ℤ → Exec AvrCore Result
unfolding avr_op_lpm_z
avr_op_lpm arg1 arg2 = avr_op_lpm_z (pos 0) arg2

unfoldable pub avr_op_lpm_z_incr : ℤ → ℤ → Exec AvrCore Result
unfolding gpwr_get gpwr_set flash_read index_get index_set finish
avr_op_lpm_z_incr rd_arg _ = do
  if is_half rd_arg 30 then stop else do
    z ← index_get 30
    word ← on_flash (flash_read (pos (z / 2)))
    gpwr_set rd_arg (if bit_and z 0x1 == 1 then u8 (word >>> 8) else u8 (bit_and word 0xff))
    index_set 30 (u16 (z + 1))
    finish 3 opcode_lpm_z_incr

unfoldable pub avr_op_spm : ℤ → ℤ → Exec AvrCore Result
unfolding rampz_get gpwr_get spm_run finish
avr_op_spm _ _ = do
  rampz ← rampz_get
  high ← gpwr_get (pos 31)
  low ← gpwr_get (pos 30)
  let z = (bit_and rampz 0x3f <<< 16) + (high <<< 8) + low
  r0 ← gpwr_get (pos 0)
  r1 ← gpwr_get (pos 1)
  spm_run r0 r1 z
  finish 2 opcode_spm

unfoldable pub avr_op_espm : ℤ → ℤ → Exec AvrCore Result
avr_op_espm _ _ = stop
