-- ===== src/Run/Interrupt.antt =====
-- How a pending interrupt is delivered, and how RETI ends it.
use oseid_simulavr.Base.{
  [], ℕ, ◌+◌, ◌^◌, ◌<◌, ◌≡◌, refl, ap, ◌∙◌, arith, ℤ, pos, List, ◌∷◌, true, false, not, ◌==◌,
  if◌then◌else◌, int_to_u32, u32_to_int, all_below, all_below_sound, Bool, ◌||◌,
}
use oseid_simulavr.Exec.{Outcome, ok, then_with, ◌>>◌}
use oseid_simulavr.Bits.{digit}
use oseid_simulavr.Core.State.{AvrCore, IntVect, state_running}
use oseid_simulavr.Core.Sreg.{sreg_i, bit_number, sreg_bit, set_bit_in_byte}
use oseid_simulavr.Core.Counter.{adjust_pc_to_max}
use oseid_simulavr.Core.Stack.{stack_push, stack_pop}
use oseid_simulavr.Core.Stack.RoundTrip.{
  HasRoom, pushed, with_return, elsewhere, stack_push-run, stack_pop-pushed,
}
use oseid_simulavr.Decoder.Op.{Result, executed, opcode_reti}
use oseid_simulavr.Instructions.Flags.Status.{flag, sreg_bit-eq-flag}
use oseid_simulavr.Instructions.Jump.{avr_op_reti}
use oseid_simulavr.Irq.{irq_get_pending, first_ready, is_ready, irq_list_delete}
use package.oseid_simulavr.Run.{avr_core_check_interrupts, vector_to, is_reset}

-- The core when `irq` is the first of the pending interrupts and can be delivered at `pc`.
pub record CanInterrupt (irq : IntVect) (rest : List IntVect) (pc : ℕ) (c : AvrCore) : Type 0 where
  pub running : c.state ≡ state_running
  pub pending : c.irq_pending ≡ irq ∷ rest
  pub named : irq.has_name ≡ true
  pub not_reset : (irq.addr == 0) ≡ false
  pub enabled : flag c.sreg sreg_i ≡ 1
  pub room : HasRoom c
  pub counter : c.pc ≡ pos pc
  pub size : c.pc_size ≡ 2
  pub word : pc < 2 ^ 16

-- Delivered: I is clear, the counter is at the vector and the interrupt is no longer pending.
abbrev pub delivered : IntVect → List IntVect → ℕ → AvrCore → AvrCore
delivered irq rest pc c =
    elsewhere (adjust_pc_to_max c.pc_max (pos (irq.addr + c.irq_offset)))
      (set_bit_in_byte c.sreg 7 0) c.inst_cks rest (pushed pc c)

vector_to-run :
    (irq : IntVect) (rest : List IntVect) (pc : ℕ) (c : AvrCore)
    → CanInterrupt irq rest pc c
    → vector_to irq c ≡ ok (tt, delivered irq rest pc c)
unfolding vector_to irq_list_delete bit_number
vector_to-run irq rest pc c h =
    let after : Outcome (Unit {0} × AvrCore) → Outcome (Unit {0} × AvrCore) = λ o.
      then_with o (λ t s. ok (
        tt,
        record s {
          sreg = set_bit_in_byte s.sreg 7 0;
          pc = adjust_pc_to_max s.pc_max (pos (irq.addr + s.irq_offset));
          irq_pending = irq_list_delete irq s.irq_pending;
        },
      )) in
    let set : sreg_bit c.sreg 7 ≡ 1 = sreg_bit-eq-flag c.sreg sreg_i ∙ h.enabled in
    let word : int_to_u32 (pos pc) ≡ pc = omega (arith, h.word) in
    let taken : irq_list_delete irq (irq ∷ rest) ≡ rest = ground arith in
    let there =
      elsewhere (adjust_pc_to_max c.pc_max (pos (irq.addr + c.irq_offset)))
        (set_bit_in_byte c.sreg 7 0) c.inst_cks in
    let stay : AvrCore → Outcome (Unit {0} × AvrCore) = λ s. ok (tt, s) in
    let go : AvrCore → Outcome (Unit {0} × AvrCore) =
      λ s. after (stack_push s.pc_size (int_to_u32 s.pc) s) in
    ap (λ e. (if e == 0 then stay else go) c) set
    ∙ ap (λ size. after (stack_push size (int_to_u32 c.pc) c)) h.size
    ∙ ap (λ p. after (stack_push 2 (int_to_u32 p) c)) h.counter
    ∙ ap (λ v. after (stack_push 2 v c)) word
    ∙ ap after (stack_push-run pc c h.room h.word)
    ∙ ap (λ irqs. ok (tt, there (irq_list_delete irq irqs) (pushed pc c))) h.pending
    ∙ ap (λ irqs. ok (tt, there irqs (pushed pc c))) taken

irq_get_pending-run :
    (irq : IntVect) (rest : List IntVect) (c : AvrCore)
    → c.state ≡ state_running
    → c.irq_pending ≡ irq ∷ rest
    → irq_get_pending c ≡ ok (irq, c)
unfolding irq_get_pending first_ready is_ready
irq_get_pending-run irq rest c hs hp = ground (arith, hs, hp)

-- On a running core with I set, a program counter of two bytes and a stack in memory that has
-- room, the first pending interrupt, if it has a name and is not the reset, is delivered: the
-- counter is pushed, I is cleared, the core goes on at the vector and the interrupt is taken off
-- the list.
pub avr_core_check_interrupts-delivered :
    (irq : IntVect) (rest : List IntVect) (pc : ℕ) (c : AvrCore)
    → CanInterrupt irq rest pc c
    → avr_core_check_interrupts c ≡ ok (tt, delivered irq rest pc c)
unfolding avr_core_check_interrupts is_reset
avr_core_check_interrupts-delivered irq rest pc c h = ground (
  arith,
  h.pending,
  h.named,
  h.not_reset,
  irq_get_pending-run irq rest c h.running h.pending,
  vector_to-run irq rest pc c h,
)

set_i :
    (sreg : ℕ)
    → sreg < 256
    → flag sreg sreg_i ≡ 1
    → set_bit_in_byte (set_bit_in_byte sreg 7 0) 7 1 ≡ sreg
unfolding flag bit_number set_bit_in_byte
set_i sreg h e =
    let test : ℕ → Bool =
      λ x. not (digit x 7 == 1) || (set_bit_in_byte (set_bit_in_byte x 7 0) 7 1 == x) in
    let checked : all_below 256 test ≡ true = unfold all_below in unfold digit in refl in
    let here : test sreg ≡ true = all_below_sound 256 test sreg checked h in ground (arith, here, e)

-- An interrupt that is delivered, under the conditions of avr_core_check_interrupts-delivered and
-- with a status byte below 256, and ended by RETI at once leaves the core at the instruction it
-- was at, adjusted to the program, with the status byte and the stack pointer it had; the
-- interrupt is no longer pending, the return address is in SRAM, RETI took 4 clocks, and nothing
-- else has changed.
pub avr_op_reti-avr_core_check_interrupts :
    (irq : IntVect) (rest : List IntVect) (pc : ℕ) (c : AvrCore) (a b : ℤ)
    → CanInterrupt irq rest pc c
    → c.sreg < 256
    → (avr_core_check_interrupts >> avr_op_reti a b) c
      ≡ ok (
        executed opcode_reti,
        elsewhere (adjust_pc_to_max c.pc_max (pos pc)) c.sreg 4 rest (with_return pc c),
      )
unfolding avr_op_reti bit_number
avr_op_reti-avr_core_check_interrupts irq rest pc c a b h hs =
    let there = adjust_pc_to_max c.pc_max (pos (irq.addr + c.irq_offset)) in
    let clear = set_bit_in_byte c.sreg 7 0 in
    let short : u32_to_int pc ≡ pos pc = ground (arith, h.word) in
    let back : ℕ → Outcome (ℕ × AvrCore) → Outcome (Result × AvrCore) = λ size o.
      then_with o (λ v s. ok (
        executed opcode_reti,
        record s {
          pc = adjust_pc_to_max s.pc_max (u32_to_int v);
          inst_cks = size + 2;
          sreg = set_bit_in_byte s.sreg 7 1;
        },
      )) in
    ap (λ o. then_with o (λ (t : Unit {0}). avr_op_reti a b))
      (avr_core_check_interrupts-delivered irq rest pc c h)
    ∙ ap (λ size. back size (stack_pop size (delivered irq rest pc c))) h.size
    ∙ ap (back 2) (stack_pop-pushed pc c there clear c.inst_cks rest h.room h.word)
    ∙ ap
        (λ p. ok (
          executed opcode_reti,
          elsewhere (adjust_pc_to_max c.pc_max p) (set_bit_in_byte clear 7 1) 4 rest
              (with_return pc c),
        ))
        short
    ∙ ap
        (λ s. ok (
          executed opcode_reti,
          elsewhere (adjust_pc_to_max c.pc_max (pos pc)) s 4 rest (with_return pc c),
        ))
        (set_i c.sreg hs h.enabled)

-- Nothing happens when no interrupt is pending.
pub quiet_check : (c : AvrCore) → c.irq_pending ≡ [] → avr_core_check_interrupts c ≡ ok (tt, c)
unfolding avr_core_check_interrupts
quiet_check c h = ground arith
