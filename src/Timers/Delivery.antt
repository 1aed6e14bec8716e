-- ===== src/Timers/Delivery.antt =====
-- A timer flag reaches the interrupt vector: the call back of timers.c and then the interrupt check of
-- avrcore.c.
use oseid_simulavr.Base.{ℕ, ◌≡◌, ap, sym, ◌∙◌, true, List, [], ◌∷◌}
use oseid_simulavr.Exec.{ok, pure, modify, then_with, ◌>>◌}
use oseid_simulavr.Core.State.{AvrCore}
use oseid_simulavr.Irq.{irq_list_add}
use oseid_simulavr.Board.{Board, CallBack, timer_intr, on_core, zoomed}
use oseid_simulavr.Callback.{avr_core_async_cb_exec, callback_list_execute_all, keep}
use oseid_simulavr.Run.{avr_core_check_interrupts}
use oseid_simulavr.Run.Interrupt.{CanInterrupt, delivered, avr_core_check_interrupts-delivered}
use package.oseid_simulavr.Timers.Flags.{
  Source, vector_of, intrs, IsFirst, raised, timer_intr_cb_lem,
}

-- The core with the interrupt of the source as the only pending one.
abbrev pub interrupted : Source → Board → AvrCore
interrupted s b = record b.core { irq_pending = b.core.irq_vtable (vector_of s) ∷ [] }

async_exec :
    (s : Source) (b : Board)
    → b.timer_intr.intr_cb ≡ true
    → IsFirst s (intrs b.timer_intr)
    → b.async_cb ≡ timer_intr ∷ []
    → b.core.irq_pending ≡ []
    → avr_core_async_cb_exec b ≡ ok (tt, record (raised s b) { core = interrupted s b })
unfolding avr_core_async_cb_exec callback_list_execute_all irq_list_add
async_exec s b on h alone none_ =
    let set : List CallBack → Board → Board = λ l b. record b { async_cb = l } in
    ap (λ l. then_with (callback_list_execute_all l 0 b) (λ kept. modify (set kept))) alone
    ∙ ap
        (λ o.
          then_with (then_with o (λ ret. pure (keep timer_intr ret [])))
            (λ kept. modify (set kept)))
        (timer_intr_cb_lem s b on h)
    ∙ (λ i. ok (
      tt,
      record (raised s b) {
        core = record b.core {
          irq_pending = irq_list_add (b.core.irq_vtable (vector_of s)) (none_ i);
        };
        async_cb = sym alone i;
      },
    ))

-- When the timer interrupts are enabled, and the call back of the timers is the only asynchronous
-- one, the lowest timer flag that is set, enabled and present makes the core go on at the vector of
-- its interrupt, with the return address pushed and I cleared, and the flag is cleared; the core
-- must be able to take that interrupt, and no other may be pending.
pub avr_core_check_interrupts-timer_intr :
    (s : Source) (pc : ℕ) (b : Board)
    → b.timer_intr.intr_cb ≡ true
    → IsFirst s (intrs b.timer_intr)
    → b.async_cb ≡ timer_intr ∷ []
    → b.core.irq_pending ≡ []
    → CanInterrupt (b.core.irq_vtable (vector_of s)) [] pc (interrupted s b)
    → (avr_core_async_cb_exec >> on_core avr_core_check_interrupts) b
      ≡ ok (
        tt,
        record (raised s b) {
          core = delivered (b.core.irq_vtable (vector_of s)) [] pc (interrupted s b);
        },
      )
avr_core_check_interrupts-timer_intr s pc b on h alone none_ can =
    let there = record (raised s b) { core = interrupted s b } in
    ap (λ o. then_with o (λ (t : Unit). on_core avr_core_check_interrupts))
      (async_exec s b on h alone none_)
    ∙ ap (zoomed (λ t b. record b { core = t }) there) (
        avr_core_check_interrupts-delivered (b.core.irq_vtable (vector_of s)) [] pc
          (interrupted s b) can)
