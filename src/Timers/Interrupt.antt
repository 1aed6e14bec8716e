-- ===== src/Timers/Interrupt.antt =====
-- timers.c: TIMSK and TIFR, and the call back that raises their interrupts.
use oseid_simulavr.Base.{ℕ, true, false, not, ◌==◌, if◌then◌else◌, bit_and, complement}
use oseid_simulavr.Exec.{Exec, pure, stop, gets, modify, ◌>>=◌, ◌>>◌}
use oseid_simulavr.Board.{
  TimerIntr, Board, timer_intr, on_timer_intr, on_core, avr_core_async_cb_add, CbRet, retain,
  remove,
}
use oseid_simulavr.Irq.{avr_core_irq_raise}
use package.oseid_simulavr.Timers.{mask_tov0, mask_icf1, mask_ocf1b, mask_ocf1a, mask_tov1}

-- The indices in `IntVectTable`.
abbrev pub timer0_ovf : ℕ
timer0_ovf = 10

abbrev pub timer1_capt : ℕ
timer1_capt = 11

abbrev pub timer1_compa : ℕ
timer1_compa = 12

abbrev pub timer1_compb : ℕ
timer1_compb = 13

abbrev pub timer1_ovf : ℕ
timer1_ovf = 15

unfoldable pub timer_intr_read : ℕ → Exec TimerIntr ℕ
timer_intr_read addr = do
  ti ← gets (λ ti. ti)
  if addr == ti.timsk_addr
      then pure (bit_and ti.timsk ti.func_mask)
      else if addr == ti.tifr_addr
      then pure (bit_and ti.tifr ti.func_mask)
      else stop

unfoldable pub timer_intr_write : ℕ → ℕ → Exec Board Unit
unfolding avr_core_async_cb_add
timer_intr_write addr val = do
  ti ← gets (λ b. b.timer_intr)
  let enabled = bit_and val ti.func_mask
  if addr == ti.timsk_addr
      then (do
        on_timer_intr (modify (λ ti. record ti { timsk = enabled }))
        if enabled == 0
            then on_timer_intr (modify (λ ti. record ti { intr_cb = false }))
            else if ti.intr_cb
            then pure tt
            else do
              on_timer_intr (modify (λ ti. record ti { intr_cb = true }))
              avr_core_async_cb_add timer_intr)
      else if addr == ti.tifr_addr
      then on_timer_intr (
          modify
            (λ ti. record ti { tifr = bit_and ti.tifr (complement (bit_and val ti.func_mask)) }))
      else stop

unfoldable pub timer_intr_reset : Exec TimerIntr Unit
timer_intr_reset = modify (λ ti. record ti { intr_cb = false; timsk = 0; tifr = 0 })

-- Raises the interrupt and clears its flag.
unfoldable pub raise_flag : ℕ → ℕ → Exec Board Unit
unfolding avr_core_irq_raise
raise_flag irq mask = do
  on_core (avr_core_irq_raise irq)
  on_timer_intr (modify (λ ti. record ti { tifr = bit_and ti.tifr (complement mask) }))

unfoldable pub raise_first : ℕ → Exec Board Unit
unfolding raise_flag
raise_first intrs =
    if not (bit_and intrs mask_tov0 == 0)
    then raise_flag timer0_ovf mask_tov0
    else if not (bit_and intrs mask_icf1 == 0)
    then raise_flag timer1_capt mask_icf1
    else if not (bit_and intrs mask_ocf1b == 0)
    then raise_flag timer1_compb mask_ocf1b
    else if not (bit_and intrs mask_ocf1a == 0)
    then raise_flag timer1_compa mask_ocf1a
    else if not (bit_and intrs mask_tov1 == 0)
    then raise_flag timer1_ovf mask_tov1
    else stop

unfoldable pub timer_intr_cb : Exec Board CbRet
unfolding raise_first
timer_intr_cb = do
  ti ← gets (λ b. b.timer_intr)
  let intrs = bit_and (bit_and ti.timsk ti.tifr) ti.func_mask
  if not ti.intr_cb
      then pure remove
      else if intrs == 0
      then pure retain
      else (do raise_first intrs; pure retain)
