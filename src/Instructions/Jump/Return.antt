-- ===== src/Instructions/Jump/Return.antt =====
-- A return comes back behind the call.
use oseid_simulavr.Base.{
  ℕ, ◌+◌, ◌^◌, ◌<◌, ◌≡◌, ap, ◌∙◌, arith, ℤ, pos, ◌+ℤ◌, int_to_u32, u32_to_int,
}
use oseid_simulavr.Exec.{Outcome, ok, then_with, ◌>>◌}
use oseid_simulavr.Core.State.{AvrCore}
use oseid_simulavr.Core.Counter.{adjust_pc_to_max}
use oseid_simulavr.Core.Stack.{stack_pop, stack_push}
use oseid_simulavr.Core.Stack.RoundTrip.{
  HasRoom, pushed, with_return, elsewhere, stack_push-run, stack_pop-pushed,
}
use oseid_simulavr.Decoder.Op.{Result, executed, opcode_rcall, opcode_ret}
use package.oseid_simulavr.Instructions.Jump.{avr_op_rcall, avr_op_ret}

-- RCALL and then RET, at an address whose successor has 16 bits, on a device with a program
-- counter of two bytes and a stack in memory that has room: the execution goes on at the word
-- after the RCALL, adjusted to the program, the stack pointer is where it was, the last
-- instruction took 4 clocks, and nothing else has changed but the two bytes of SRAM that held the
-- return address.
pub avr_op_ret-avr_op_rcall :
    (pc : ℕ) (k a b e : ℤ) (c : AvrCore)
    → HasRoom c
    → c.pc ≡ pos pc
    → c.pc_size ≡ 2
    → pc + 1 < 2 ^ 16
    → (avr_op_rcall k a >> avr_op_ret b e) c
      ≡ ok (
        executed opcode_ret,
        record (with_return (pc + 1) c) {
          pc = adjust_pc_to_max c.pc_max (pos (pc + 1));
          inst_cks = 4;
        },
      )
unfolding avr_op_rcall avr_op_ret
avr_op_ret-avr_op_rcall pc k a b e c h hp hs hv =
    let v = pc + 1 in
    let word : int_to_u32 (pos v) ≡ v = omega arith in
    let short : u32_to_int v ≡ pos v = ground arith in
    let call : ℕ → Outcome (Unit {0} × AvrCore) → Outcome (Result × AvrCore) = λ size o.
      then_with o (λ t s. ok (
        executed opcode_rcall,
        record s { pc = adjust_pc_to_max s.pc_max (s.pc +ℤ (k +ℤ pos 1)); inst_cks = size + 1 },
      )) in
    let go_on : ℕ → Outcome (Result × AvrCore) → Outcome (Result × AvrCore) =
      λ size o. then_with o (λ r. avr_op_ret b e) in
    let back : ℕ → Outcome (ℕ × AvrCore) → Outcome (Result × AvrCore) = λ size o.
      then_with o (λ v s. ok (
        executed opcode_ret,
        record s { pc = adjust_pc_to_max s.pc_max (u32_to_int v); inst_cks = size + 2 },
      )) in
    let there = adjust_pc_to_max c.pc_max (c.pc +ℤ (k +ℤ pos 1)) in
    ap
      (λ size.
        then_with (call size (stack_push size (int_to_u32 (c.pc +ℤ pos 1)) c))
          (λ r. avr_op_ret b e))
      hs
    ∙ ap (λ p. then_with (call 2 (stack_push 2 (int_to_u32 (p +ℤ pos 1)) c)) (λ r. avr_op_ret b e))
        hp
    ∙ ap (λ v. then_with (call 2 (stack_push 2 v c)) (λ r. avr_op_ret b e)) word
    ∙ ap (λ o. then_with (call 2 o) (λ r. avr_op_ret b e)) (stack_push-run v c h hv)
    ∙ ap (λ size. back size (stack_pop size (elsewhere there c.sreg 3 c.irq_pending (pushed v c))))
        hs
    ∙ ap (back 2) (stack_pop-pushed v c there c.sreg 3 c.irq_pending h hv)
    ∙ ap
        (λ p. ok (
          executed opcode_ret,
          record (with_return v c) { pc = adjust_pc_to_max c.pc_max p; inst_cks = 4 },
        ))
        short
