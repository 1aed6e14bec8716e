-- ===== src/Tests/Machine.antt =====
-- The stack, the flash, and the interrupts of the small device.
use mathlib.Core.Logic.{◌↔◌}
use oseid_simulavr.Base.{◌≡◌, refl, arith, pos, negsuc, false, ◌≢◌, ◌⊎◌, []}
use oseid_simulavr.Exec.{ok, ◌>>◌}
use oseid_simulavr.Bits.{digit}
use oseid_simulavr.Storage.{flash_read, flash_write}
use oseid_simulavr.Storage.Words.{with_word, flash_read-flash_write}
use oseid_simulavr.Core.Sreg.{bit_number}
use oseid_simulavr.Core.Counter.{adjust_pc_to_max}
use oseid_simulavr.Core.Counter.Wrap.{IsInProgram, IsNearProgram, adjust_pc_to_max-IsInProgram}
use oseid_simulavr.Core.Memory.Ram.{IsRamOf, with_ram, mem_read-mem_write}
use oseid_simulavr.Core.Memory.{mem_read, mem_write}
use oseid_simulavr.Core.Stack.{stack_pop, stack_push, hw_push, hw_pop}
use oseid_simulavr.Core.Stack.RoundTrip.{HasRoom, with_return, elsewhere, stack_pop-stack_push}
use oseid_simulavr.Core.Stack.Hardware.{hw_push-hw_pop}
use oseid_simulavr.Decoder.Op.{executed, opcode_ret, opcode_reti, opcode_add, opcode_unknown}
use oseid_simulavr.Decoder.Lookup.{lookup_opcode}
use oseid_simulavr.Decoder.Lookup.Encoding.{encode, is_instruction, patterns}
use oseid_simulavr.Decoder.Lookup.Table.{lookup_opcode-encode}
use oseid_simulavr.Instructions.Flags.Status.{flag}
use oseid_simulavr.Instructions.Jump.{avr_op_rcall, avr_op_ret, avr_op_reti}
use oseid_simulavr.Instructions.Jump.Return.{avr_op_ret-avr_op_rcall}
use oseid_simulavr.Breakpoints.{
  avr_core_insert_breakpoint, avr_core_remove_breakpoint, brk_pt_list_lookup,
}
use oseid_simulavr.Breakpoints.Restore.{avr_core_remove_breakpoint-avr_core_insert_breakpoint}
use oseid_simulavr.Run.{avr_core_check_interrupts}
use oseid_simulavr.Run.Interrupt.{
  CanInterrupt, delivered, avr_core_check_interrupts-delivered,
  avr_op_reti-avr_core_check_interrupts,
}
use oseid_simulavr.Tests.Device.{device, timer, three_deep}

top_IsRam : IsRamOf device 0x25f
top_IsRam = record {
  in_memory = omega arith;
  attached = refl;
  above = omega arith;
  below = omega arith;
}

next_IsRam : IsRamOf device 0x25e
next_IsRam = record {
  in_memory = omega arith;
  attached = refl;
  above = omega arith;
  below = omega arith;
}

room : HasRoom device
room = record {
  in_memory = refl;
  spl_byte = omega arith;
  sph_byte = omega arith;
  two = omega arith;
  top = top_IsRam;
  next = next_IsRam;
}

stack_pop-stack_push_example :
    (stack_push 2 0x1234 >> stack_pop 2) device ≡ ok (0x1234, with_return 0x1234 device)
stack_pop-stack_push_example = stack_pop-stack_push 0x1234 device room (omega arith)

hw_push-hw_pop_example :
    ((hw_push 5 three_deep).stack 1 ≡ 72)
    × ((hw_pop three_deep).1 ≡ 70)
    × ((hw_pop three_deep).0.stack 1 ≡ 72)
hw_push-hw_pop_example = hw_push-hw_pop 5 1 three_deep (omega arith)

flash_read-flash_write_example :
    (flash_write (pos 20) 0x9598 >> flash_read (pos 20)) device.flash
    ≡ ok (0x9598, with_word 20 0x9598 device.flash)
flash_read-flash_write_example =
    flash_read-flash_write 20 0x9598 device.flash (omega arith, omega arith) (omega arith)

remove-insert_example :
    (avr_core_insert_breakpoint (pos 20) >> avr_core_remove_breakpoint (pos 20)) device
    ≡ ok (tt, device)
unfolding brk_pt_list_lookup
remove-insert_example =
    avr_core_remove_breakpoint-avr_core_insert_breakpoint 20 device (omega arith, omega arith)
      (λ i. ground arith) refl

avr_op_ret-avr_op_rcall_example :
    (avr_op_rcall (negsuc 4) (negsuc 0) >> avr_op_ret (negsuc 0) (negsuc 0)) device
    ≡ ok (executed opcode_ret, record (with_return 21 device) { pc = pos 21; inst_cks = 4 })
unfolding adjust_pc_to_max
avr_op_ret-avr_op_rcall_example =
    avr_op_ret-avr_op_rcall 20 (negsuc 4) (negsuc 0) (negsuc 0) (negsuc 0) device room refl refl
      (omega arith)

adjust_pc_to_max_example :
    (IsInProgram 256 (adjust_pc_to_max 256 (negsuc 9)) ↔ IsNearProgram 256 (negsuc 9))
    × (IsNearProgram 256 (negsuc 9) → adjust_pc_to_max 256 (negsuc 9) ≡ pos 246)
adjust_pc_to_max_example = adjust_pc_to_max-IsInProgram 256 (negsuc 9) (omega arith)

pub ready : CanInterrupt timer [] 20 device
unfolding flag digit bit_number
ready = record {
  running = refl;
  pending = refl;
  named = refl;
  not_reset = refl;
  enabled = refl;
  room = room;
  counter = refl;
  size = refl;
  word = omega arith;
}

delivered_example : avr_core_check_interrupts device ≡ ok (tt, delivered timer [] 20 device)
delivered_example = avr_core_check_interrupts-delivered timer [] 20 device ready

interrupt_return_example :
    (avr_core_check_interrupts >> avr_op_reti (negsuc 0) (negsuc 0)) device
    ≡ ok (executed opcode_reti, elsewhere (pos 20) 0x83 4 [] (with_return 20 device))
unfolding adjust_pc_to_max
interrupt_return_example =
    avr_op_reti-avr_core_check_interrupts timer [] 20 device (negsuc 0) (negsuc 0) ready
      (omega arith)

lookup_opcode-encode_example :
    ((lookup_opcode 0x0c34).func ≢ opcode_unknown × (encode opcode_add (pos 3) (pos 4) ≡ 0x0c34))
    ⊎ ((lookup_opcode 0x0c34).func ≡ opcode_unknown × (is_instruction patterns 0x0c34 ≡ false))
unfolding lookup_opcode
lookup_opcode-encode_example = lookup_opcode-encode 0x0c34 (omega arith)

mem_read-mem_write_example :
    (mem_write (pos 0x25f) 0x1ab >> mem_read (pos 0x25e)) device
    ≡ ok (0, with_ram 0x25f 0xab device)
mem_read-mem_write_example = mem_read-mem_write 0x25f 0x25e 0x1ab device top_IsRam next_IsRam
