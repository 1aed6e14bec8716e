-- ===== src/Timers/Eight.antt =====
-- timers.c: timer/counter 0.
use oseid_simulavr.Base.{
  ℕ, ◌+◌, ◌-◌, Bool, true, false, not, ◌&&◌, ◌||◌, Option, none, some, ◌==◌, if◌then◌else◌, bit_and,
  bit_or, u8, truth,
}
use oseid_simulavr.Exec.{Exec, pure, stop, fault, gets, modify, ◌>>=◌, ◌>>◌}
use oseid_simulavr.Board.{
  TimerIntr, Timer0, Board, timer0_clk_incr, on_timer_intr, on_timer0, avr_core_clk_cb_add, CbRet,
  retain, remove,
}
use package.oseid_simulavr.Timers.{mask_tov0, divisor_of}

unfoldable pub timer0_read : ℕ → Exec Timer0 ℕ
timer0_read addr = do
  timer ← gets (λ t. t)
  if addr == timer.tcnt_addr
      then pure timer.tcnt
      else if addr == timer.tccr_addr
      then pure timer.tccr
      else stop

-- What follows the switch of `timer0_write`.
unfoldable pub start_timer0 : Option ℕ → Exec Board Unit
unfolding avr_core_clk_cb_add
start_timer0 none = stop
start_timer0 (some divisor) = do
  timer ← gets (λ b. b.timer0)
  on_timer0 (modify (λ t. record t { divisor = divisor; ext_cb = false }))
  if timer.clk_cb then pure tt else do
    on_timer0 (modify (λ t. record t { clk_cb = true }))
    avr_core_clk_cb_add timer0_clk_incr

unfoldable pub timer0_write : ℕ → ℕ → Exec Board Unit
unfolding start_timer0
timer0_write addr val = do
  timer ← gets (λ b. b.timer0)
  let cs = bit_and val 7
  if addr == timer.tcnt_addr
      then on_timer0 (modify (λ t. record t { tcnt = val }))
      else if addr == timer.tccr_addr
      then (do
        on_timer0 (modify (λ t. record t { tccr = cs }))
        if cs == 0
            then on_timer0 (modify (λ t. record t { clk_cb = false; ext_cb = false; divisor = 0 }))
            else start_timer0 (divisor_of cs))
      else stop

unfoldable pub timer0_reset : Exec Timer0 Unit
timer0_reset =
    modify (λ t. record t { clk_cb = false; ext_cb = false; tccr = 0; tcnt = 0; divisor = 0 })

-- The device that `avr_core_get_vdev_by_addr` finds for `related_addr` is the timer interrupt.
abbrev pub is_related : ℕ → TimerIntr → Bool
is_related addr ti = addr == ti.timsk_addr || addr == ti.tifr_addr

abbrev pub counted : ℕ → ℕ → ℕ
counted ck divisor = truth (bit_and ck (divisor - 1) == 0)

-- The divisor is an `int` that no write makes negative. A device at `related_addr` that is no timer
-- interrupt would be used as one.
unfoldable pub timer0_clk_incr_cb : ℕ → Exec Board CbRet
timer0_clk_incr_cb ck = do
  timer ← gets (λ b. b.timer0)
  ti ← gets (λ b. b.timer_intr)
  let next = u8 (timer.tcnt + counted ck timer.divisor)
  if not timer.clk_cb then pure remove else if timer.divisor == 0 then stop else do
    on_timer0 (modify (λ t. record t { tcnt = next }))
    if next == 0 && not (next == timer.tcnt)
        then (if is_related timer.related_addr ti
            then on_timer_intr (modify (λ ti. record ti { tifr = bit_or ti.tifr mask_tov0 }))
            else fault)
        else pure tt
    pure retain
