-- ===== src/Instructions/System.antt =====
-- The handlers of NOP, BREAK, SLEEP, WDR and of an unknown opcode.
use oseid_simulavr.Base.{ℤ, Option}
use oseid_simulavr.Exec.{Exec, pure, stop, ◌>>=◌, ◌>>◌}
use oseid_simulavr.Core.State.{AvrCore}
use oseid_simulavr.Decoder.Op.{
  Result, executed, break_point, opcode_nop, opcode_sleep, opcode_unknown, opcode_wdr,
}
use oseid_simulavr.Instructions.Flags.{finish}
use oseid_simulavr.Core.State.{VDevice}

-- The clock count that is kept between two NOPs is only printed.
unfoldable pub avr_op_nop : ℤ → ℤ → Exec AvrCore Result
unfolding finish
avr_op_nop _ _ = finish 1 opcode_nop

-- The program counter stays where it is.
unfoldable pub avr_op_break : ℤ → ℤ → Exec AvrCore Result
avr_op_break _ _ = pure break_point

-- `mem_get_vdevice_by_name` of memory.c: "use of deprecated interface".
unfoldable pub mem_get_vdevice_by_name : Exec AvrCore (Option VDevice)
mem_get_vdevice_by_name = stop

-- What these two handlers do with the device that they look up is never reached.
unfoldable pub avr_op_sleep : ℤ → ℤ → Exec AvrCore Result
unfolding mem_get_vdevice_by_name finish
avr_op_sleep _ _ = do mcucr ← mem_get_vdevice_by_name; finish 1 opcode_sleep

unfoldable pub avr_op_wdr : ℤ → ℤ → Exec AvrCore Result
unfolding mem_get_vdevice_by_name finish
avr_op_wdr _ _ = do wdtcr ← mem_get_vdevice_by_name; finish 1 opcode_wdr

unfoldable pub avr_op_unknown : ℤ → ℤ → Exec AvrCore Result
unfolding avr_op_nop
avr_op_unknown arg1 arg2 = do avr_op_nop arg1 arg2; pure (executed opcode_unknown)
