-- ===== src/Step/Add.antt =====
-- A whole step of the board: fetch, decoding, the handler of ADD, its clock with the timer, and the
-- interrupt check.
use oseid_simulavr.Base.{
  ℕ, ◌+◌, ◌-◌, ◌/◌, ◌%◌, ◌^◌, ◌<◌, ◌≡◌, refl, sym, ap, ◌∙◌, arith, ℤ, pos, negsuc, Bool, true,
  false, [], ◌∷◌, ◌&&◌, if◌then◌else◌, all_below, all_below_sound, u8, u16, bit_or, ◌<<<◌, eq_of_==,
}
use oseid_simulavr.Exec.{
  Outcome, ok, avr_error, undefined, Exec, pure, gets, modify, then_with, ◌>>=◌, ◌>>◌,
}
use oseid_simulavr.Bits.{bit_or-join}
use oseid_simulavr.Storage.{Storage, flash_read}
use oseid_simulavr.Storage.Words.{HasWord, flash_read-run}
use oseid_simulavr.Core.State.{AvrCore, state_running}
use oseid_simulavr.Decoder.Op.{Op, Result, executed, opcode_add, opcode_break}
use oseid_simulavr.Decoder.Lookup.{lookup_opcode}
use oseid_simulavr.Decoder.Lookup.Encoding.{encode}
use oseid_simulavr.Breakpoints.{int_eq}
use oseid_simulavr.Instructions.Flags.Spec.{IsSumStatus, advanced, with_register}
use oseid_simulavr.Instructions.Arithmetic.Add.{avr_op_add}
use oseid_simulavr.Instructions.Arithmetic.Add.Sum.{sum_status, avr_op_add-sum}
use oseid_simulavr.Board.{Board, timer_intr, on_core, zoomed}
use oseid_simulavr.Callback.{callback_list_execute_all, avr_core_async_cb_exec, board_clock_loop}
use oseid_simulavr.Timers.Multiples.{ticks_in}
use oseid_simulavr.Timers.Count.{IsCounting, after_ticks, board_clock_loop-count}
use oseid_simulavr.Run.{exec_next_instruction, avr_core_check_interrupts, is_sleeping, is_reti}
use oseid_simulavr.Run.Call.{call}
use oseid_simulavr.Run.Interrupt.{CanInterrupt, delivered, quiet_check}
use oseid_simulavr.Timers.Flags.{Source, vector_of, intrs, IsFirst, raised}
use oseid_simulavr.Timers.Delivery.{interrupted, avr_core_check_interrupts-timer_intr}
use package.oseid_simulavr.Step.{avr_core_step}

abbrev is_add : Op → Bool
is_add opcode_add = true
is_add _ = false

is_add-eq : (f : Op) → is_add f ≡ true → f ≡ opcode_add
is_add-eq opcode_add h = refl
is_add-eq _ h = cc

int_eq-pos : (x : ℤ) (n : ℕ) → int_eq x (pos n) ≡ true → x ≡ pos n
int_eq-pos (pos m) n h = ap pos (eq_of_== m n h)
int_eq-pos (negsuc m) n h = cc

-- The entry for the encoding of ADD, as a test.
decodes : ℕ → ℕ → Bool
unfolding lookup_opcode encode
decodes d r =
    let info = lookup_opcode (encode opcode_add (pos d) (pos r)) in
    is_add info.func && (int_eq info.arg1 (pos d) && int_eq info.arg2 (pos r))

decodes_lem : (d r : ℕ) → d < 32 → r < 32 → decodes d r ≡ true
unfolding decodes all_below lookup_opcode encode
decodes_lem d r hd hr =
    all_below_sound 32 (λ r. decodes d r) r
      (all_below_sound 32 (λ d. all_below 32 (λ r. decodes d r)) d refl hd) hr

both : (a b : Bool) → (a && b) ≡ true → (a ≡ true) × (b ≡ true)
both a b h = (ground arith, ground arith)

-- ADD of register `r` to register `d` stands at word `w` of the flash.
pub record IsAddAt (d r w : ℕ) (s : Storage) : Type 0 where
  pub inside : HasWord w s
  pub high : s.bytes (w + w - s.base) ≡ encode opcode_add (pos d) (pos r) / 256
  pub low : s.bytes (w + w - s.base + 1) ≡ encode opcode_add (pos d) (pos r) % 256

-- A running core whose counter is at that instruction, with bytes in both registers.
pub record RunsAdd (d r w : ℕ) (c : AvrCore) : Type 0 where
  pub running : c.state ≡ state_running
  pub counter : c.pc ≡ pos w
  pub there : IsAddAt d r w c.flash
  pub first : d < 32
  pub second : r < 32
  pub first_byte : c.gpwr d < 256
  pub second_byte : c.gpwr r < 256

read_lem :
    (d r w : ℕ) (s : Storage)
    → d < 32
    → r < 32
    → IsAddAt d r w s
    → flash_read (pos w) s ≡ ok (encode opcode_add (pos d) (pos r), s)
unfolding encode
read_lem d r w s hd hr a =
    let e = encode opcode_add (pos d) (pos r) in
    let word : ℕ → ℕ → Outcome (ℕ × Storage) = λ h l. ok (u16 (bit_or (h <<< 8) l), s) in
    let joined : u16 (bit_or ((e / 256) <<< 8) (e % 256)) ≡ e =
      omega (arith, bit_or-join 8 (e / 256) (e % 256) (omega arith)) in
    flash_read-run w s a.inside
    ∙ ap (λ h. word h (s.bytes (w + w - s.base + 1))) a.high
    ∙ ap (word (e / 256)) a.low
    ∙ ap (λ (v : ℕ). ok (v, s)) joined

-- The core after the instruction.
abbrev pub added : ℕ → ℕ → AvrCore → AvrCore
added d r c =
    with_register d (u8 (c.gpwr d + c.gpwr r))
      (advanced 1 (sum_status (c.gpwr d) (c.gpwr r) 0 c.sreg) c)

exec_lem :
    (d r w : ℕ) (c : AvrCore)
    → RunsAdd d r w c
    → exec_next_instruction c ≡ ok (executed opcode_add, added d r c)
unfolding exec_next_instruction decodes call
exec_lem d r w c h =
    let info = lookup_opcode (encode opcode_add (pos d) (pos r)) in
    let row = both (is_add info.func) _ (decodes_lem d r h.first h.second) in
    let args = both (int_eq info.arg1 (pos d)) (int_eq info.arg2 (pos r)) row.1 in
    let start : AvrCore = record c { inst_cks = 0 } in
    let run : Outcome (ℕ × Storage) → Outcome (Result × AvrCore) = λ o.
      then_with (zoomed (λ s c. record c { flash = s }) c o) (λ opcode s.
        call (lookup_opcode opcode).func (lookup_opcode opcode).arg1 (lookup_opcode opcode).arg2
          (record s { inst_cks = 0 })) in
    ap (λ p. run (flash_read p c.flash)) h.counter
    ∙ ap run (read_lem d r w c.flash h.first h.second h.there)
    ∙ ap (λ f. call f info.arg1 info.arg2 start) (is_add-eq info.func row.0)
    ∙ ap (λ x. avr_op_add x info.arg2 start) (int_eq-pos info.arg1 d args.0)
    ∙ ap (λ y. avr_op_add (pos d) y start) (int_eq-pos info.arg2 r args.1)
    ∙ (avr_op_add-sum d r start h.first h.second h.first_byte h.second_byte).0

-- The board after the instruction and its clock, on which the timer may have counted.
abbrev pub counted_on : ℕ → ℕ → Board → Board
counted_on d r b =
    after_ticks (record b { core = added d r b.core }) 1 (ticks_in b.timer0.divisor b.core.ck 1)

after_both :
    (res : Result) (n : Exec Board Unit) (o : Outcome (Unit {0} × Board))
    → then_with o (λ (t : Unit {0}). n >> pure res)
      ≡ then_with (then_with o (λ (t : Unit {0}). n)) (λ (t : Unit {0}). pure res)
after_both res n (ok (t, b)) = refl
after_both res n avr_error = refl
after_both res n undefined = refl

-- The part of the step after the clocks.
ending : Exec Board Result
ending = avr_core_async_cb_exec >> (on_core avr_core_check_interrupts >> pure (executed opcode_add))

module _ (d r w : ℕ) (b : Board) (h : RunsAdd d r w b.core) (c : IsCounting b)
    (clock : b.core.ck + 1 < 2 ^ 64) where
  step_lem : avr_core_step b ≡ ending (counted_on d r b)
  unfolding avr_core_step ending
  step_lem =
      let ran : Board = record b { core = added d r b.core } in
      let later : Result → Exec Board Result = λ res. (do
        clocks ← gets (λ b. b.core.inst_cks)
        board_clock_loop clocks
        avr_core_async_cb_exec
        if is_reti res then pure tt else on_core avr_core_check_interrupts
        pure res) in
      let fetch : Bool → Exec Board Result =
        λ asleep. if asleep then pure (executed opcode_break) else on_core exec_next_instruction in
      let counting : IsCounting ran = record {
        registered = c.registered;
        started = c.started;
        divides = c.divides;
        related = c.related;
        tcnt_byte = c.tcnt_byte;
        tifr_byte = c.tifr_byte;
      } in
      ap (λ s. then_with (fetch (is_sleeping s) b) later) h.running
      ∙ ap (λ o. then_with (zoomed (λ t b. record b { core = t }) b o) later)
          (exec_lem d r w b.core h)
      ∙ ap (λ o. then_with o (λ t. ending)) (board_clock_loop-count 1 ran counting clock)

  -- On a running core at an ADD in the flash, while timer/counter 0 counts as the only device with a
  -- clock call back, a step with no asynchronous call back and no interrupt pending adds the registers,
  -- sets the flags as the exact sum asks, goes on one word, counts one clock, on which the timer counts
  -- if the clock is a multiple of its divisor, and changes nothing else.
  pub avr_core_step-add :
      b.async_cb ≡ []
      → b.core.irq_pending ≡ []
      → (avr_core_step b ≡ ok (executed opcode_add, counted_on d r b))
        × IsSumStatus (b.core.gpwr d) (b.core.gpwr r) 0 b.core.sreg (counted_on d r b).core.sreg
  unfolding ending avr_core_async_cb_exec callback_list_execute_all
  avr_core_step-add none_ quiet =
      let after = counted_on d r b in
      let check : Exec Board Result =
        on_core avr_core_check_interrupts >> pure (executed opcode_add) in
      (
        step_lem
            ∙ ap
                (λ l.
                  then_with
                    (then_with (callback_list_execute_all l 0 after)
                      (λ kept. modify (λ b. record b { async_cb = kept })))
                    (λ t. check))
                none_
            ∙ (λ i. check (record after { async_cb = sym none_ i }))
            ∙ ap
                (λ o.
                  then_with (zoomed (λ t b. record b { core = t }) after o)
                    (λ t. pure (executed opcode_add)))
                (quiet_check after.core quiet),
        (avr_op_add-sum d r b.core h.first h.second h.first_byte h.second_byte).1,
      )

  -- Under the same conditions, but with the timer interrupts enabled and their call back as the only
  -- asynchronous one, the lowest timer flag that is set, enabled and present after the clock is
  -- delivered in the same step: after the addition and the clock, the core goes on at the vector of its
  -- interrupt, with the address of the next instruction pushed, I clear and the flag cleared. The core
  -- must be able to take the interrupt then.
  pub avr_core_step-timer_intr :
      (s : Source) (pc : ℕ)
      → b.timer_intr.intr_cb ≡ true
      → b.async_cb ≡ timer_intr ∷ []
      → b.core.irq_pending ≡ []
      → IsFirst s (intrs (counted_on d r b).timer_intr)
      → CanInterrupt (b.core.irq_vtable (vector_of s)) [] pc (interrupted s (counted_on d r b))
      → avr_core_step b
        ≡ ok (
          executed opcode_add,
          record (raised s (counted_on d r b)) {
            core =
                delivered
                  (b.core.irq_vtable (vector_of s))
                  []
                  pc
                  (interrupted s (counted_on d r b));
          },
        )
  unfolding ending
  avr_core_step-timer_intr s pc on alone quiet first can =
      let after = counted_on d r b in
      step_lem
      ∙ after_both (executed opcode_add) (on_core avr_core_check_interrupts)
          (avr_core_async_cb_exec after)
      ∙ ap (λ o. then_with o (λ t. pure (executed opcode_add)))
          (avr_core_check_interrupts-timer_intr s pc after on first alone quiet can)
