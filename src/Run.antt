-- ===== src/Run.antt =====
-- avrcore.c: the execution of an instruction, the interrupts and the reset.
pub mod Call
pub mod Interrupt
use oseid_simulavr.Base.{
  ℕ, zero, suc, ◌+◌, ℤ, pos, Bool, true, false, not, Option, none, some, List, [], ◌∷◌, ◌==◌,
  if◌then◌else◌, int_to_u32,
}
use oseid_simulavr.Exec.{Exec, pure, stop, gets, modify, ◌>>=◌, ◌>>◌}
use oseid_simulavr.Storage.{flash_read}
use oseid_simulavr.Core.State.{
  StateType, state_running, state_stopped, state_break_pt, state_sleep, IntVect, AvrCore, on_flash,
}
use oseid_simulavr.Core.Sreg.{sreg_i, bit_number, sreg_get_bit, sreg_set_bit}
use oseid_simulavr.Core.Counter.{pc_get, pc_set, pc_size_get, inst_cks_set, ck_incr}
use oseid_simulavr.Core.Memory.{mem_reset}
use oseid_simulavr.Core.Stack.{stack_push}
use oseid_simulavr.Decoder.Op.{Op, Result, executed, break_point, opcode_break, opcode_reti}
use oseid_simulavr.Decoder.Lookup.{lookup_opcode}
use oseid_simulavr.Irq.{irq_get_pending, avr_core_irq_clear, avr_core_irq_clear_all}
use Call.{call}

unfoldable pub exec_next_instruction : Exec AvrCore Result
unfolding pc_get flash_read inst_cks_set
exec_next_instruction = do
  pc ← pc_get
  opcode ← on_flash (flash_read pc)
  inst_cks_set 0
  let info = lookup_opcode opcode
  call info.func info.arg1 info.arg2

unfoldable pub avr_core_reset : Exec AvrCore Unit
unfolding pc_set avr_core_irq_clear_all inst_cks_set mem_reset
avr_core_reset = do pc_set (pos 0); avr_core_irq_clear_all; inst_cks_set 0; mem_reset

-- `irq->addr == IRQ_RESET_ADDR`
unfoldable pub is_reset : IntVect → Bool
is_reset irq = irq.addr == 0

-- The part of `avr_core_check_interrupts` that depends on SREG(I).
unfoldable pub vector_to : IntVect → Exec AvrCore Unit
unfolding sreg_get_bit sreg_set_bit pc_get pc_size_get stack_push pc_set avr_core_irq_clear
vector_to irq = do
  enabled ← sreg_get_bit (bit_number sreg_i)
  if enabled == 0 then pure tt else do
    pc ← pc_get
    pc_bytes ← pc_size_get
    stack_push pc_bytes (int_to_u32 pc)
    sreg_set_bit (bit_number sreg_i) 0
    offset ← gets (λ c. c.irq_offset)
    pc_set (pos (irq.addr + offset))
    avr_core_irq_clear irq

abbrev pub is_empty : List IntVect → Bool
is_empty [] = true
is_empty (v ∷ rest) = false

unfoldable pub avr_core_check_interrupts : Exec AvrCore Unit
unfolding irq_get_pending avr_core_reset vector_to is_reset
avr_core_check_interrupts = do
  pending ← gets (λ c. c.irq_pending)
  if is_empty pending then pure tt else do
    irq ← irq_get_pending
    if not irq.has_name
        then stop
        else do if is_reset irq then avr_core_reset else pure tt; vector_to irq

abbrev pub is_sleeping : StateType → Bool
is_sleeping state_sleep = true
is_sleeping state_running = false
is_sleeping state_stopped = false
is_sleeping state_break_pt = false

abbrev pub is_reti : Result → Bool
is_reti (executed opcode_reti) = true
is_reti _ = false

abbrev pub is_running : StateType → Bool
is_running state_running = true
is_running state_stopped = false
is_running state_break_pt = false
is_running state_sleep = false

abbrev pub is_break_point : Result → Bool
is_break_point break_point = true
is_break_point (executed op) = false
