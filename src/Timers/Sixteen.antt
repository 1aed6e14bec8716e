-- ===== src/Timers/Sixteen.antt =====
-- timers.c: the 16-bit timers and their output compare registers.
use oseid_simulavr.Base.{
  ℕ, ◌+◌, Bool, true, false, not, ◌&&◌, Option, none, some, ◌==◌, if◌then◌else◌, bit_and, bit_or,
  u8, u16, ◌<<<◌, ◌>>>◌,
}
use oseid_simulavr.Exec.{Exec, pure, stop, fault, gets, modify, ◌>>=◌, ◌>>◌}
use oseid_simulavr.Board.{
  TimerIntr, OcReg16, Timer16, Board, timer16_clk_incr, on_timer_intr, on_timer16,
  avr_core_clk_cb_add, CbRet, retain, remove,
}
use package.oseid_simulavr.Timers.{mask_tov1, mask_ocf1a, mask_ocf1b, divisor_of}
use package.oseid_simulavr.Timers.Eight.{is_related, counted}

unfoldable pub timer16_read : ℕ → Exec Timer16 ℕ
timer16_read addr = do
  timer ← gets (λ t. t)
  if addr == timer.tcntl_addr
      then (do
        modify (λ t. record t { temp = u8 (timer.tcnt >>> 8) })
        pure (bit_and timer.tcnt 0xff))
      else if addr == timer.tcnth_addr
      then pure timer.temp
      else if addr == timer.tccra_addr
      then pure timer.tccra
      else if addr == timer.tccrb_addr
      then pure timer.tccrb
      else if addr == timer.tccrc_addr
      then pure timer.tccrc
      else stop

unfoldable pub start_timer16 : Option ℕ → Exec Board Unit
unfolding avr_core_clk_cb_add
start_timer16 none = stop
start_timer16 (some divisor) = do
  timer ← gets (λ b. b.timer16)
  on_timer16 (modify (λ t. record t { divisor = divisor; ext_cb = false }))
  if timer.clk_cb then pure tt else do
    on_timer16 (modify (λ t. record t { clk_cb = true }))
    avr_core_clk_cb_add timer16_clk_incr

unfoldable pub timer16_handle_tccr_write : Exec Board Unit
unfolding start_timer16
timer16_handle_tccr_write = do
  timer ← gets (λ b. b.timer16)
  let cs = bit_and timer.tccrb 7
  if cs == 0
      then on_timer16 (modify (λ t. record t { clk_cb = false; ext_cb = false; divisor = 0 }))
      else start_timer16 (divisor_of cs)

unfoldable pub timer16_write : ℕ → ℕ → Exec Board Unit
unfolding timer16_handle_tccr_write
timer16_write addr val = do
  timer ← gets (λ b. b.timer16)
  if addr == timer.tcntl_addr
      then on_timer16 (modify (λ t. record t { tcnt = bit_or (bit_and (t.temp <<< 8) 0xff00) val }))
      else if addr == timer.tcnth_addr
      then on_timer16 (modify (λ t. record t { temp = val }))
      else if addr == timer.tccra_addr
      then (do on_timer16 (modify (λ t. record t { tccra = val })); timer16_handle_tccr_write)
      else if addr == timer.tccrb_addr
      then (do on_timer16 (modify (λ t. record t { tccrb = val })); timer16_handle_tccr_write)
      else if addr == timer.tccrc_addr
      then (do on_timer16 (modify (λ t. record t { tccrc = val })); timer16_handle_tccr_write)
      else stop

unfoldable pub timer16_reset : Exec Timer16 Unit
timer16_reset = modify (λ t. record t {
  clk_cb = false;
  ext_cb = false;
  tccra = 0;
  tccrb = 0;
  tccrc = 0;
  tcnt = 0;
  divisor = 0;
})

unfoldable pub timer_intr_set_flag : ℕ → Exec TimerIntr Unit
timer_intr_set_flag bitnr = modify (λ ti. record ti { tifr = bit_or ti.tifr bitnr })

-- `timer->ocra && (timer->tcnt == timer->ocra->ocr)`
abbrev pub matches_ocr : ℕ → Option OcReg16 → Bool
matches_ocr tcnt none = false
matches_ocr tcnt (some reg) = tcnt == reg.ocr

unfoldable pub flag_if : Bool → ℕ → Exec Board Unit
unfolding timer_intr_set_flag
flag_if test mask = do
  related ← gets (λ b. is_related b.timer16.related_addr b.timer_intr)
  if not test then pure tt else if related then on_timer_intr (timer_intr_set_flag mask) else fault

-- The source tests the divisor after it has counted, which does not show, since it exits.
unfoldable pub timer16_clk_incr_cb : ℕ → Exec Board CbRet
unfolding flag_if
timer16_clk_incr_cb ck = do
  timer ← gets (λ b. b.timer16)
  let next = u16 (timer.tcnt + counted ck timer.divisor)
  let changed = not (next == timer.tcnt)
  if not timer.clk_cb then pure remove else if timer.divisor == 0 then stop else do
    on_timer16 (modify (λ t. record t { tcnt = next }))
    flag_if (changed && next == 0) mask_tov1
    flag_if (changed && matches_ocr next timer.ocra) mask_ocf1a
    flag_if (changed && matches_ocr next timer.ocrb) mask_ocf1b
    pure retain

unfoldable pub ocreg16_read : ℕ → Exec OcReg16 ℕ
ocreg16_read addr = do
  reg ← gets (λ r. r)
  if addr == reg.ocrl_addr
      then pure (bit_and reg.ocr 0xff)
      else if addr == reg.ocrh_addr
      then pure (u8 (reg.ocr >>> 8))
      else stop

unfoldable pub ocreg16_write : ℕ → ℕ → Exec OcReg16 Unit
ocreg16_write addr val = do
  reg ← gets (λ r. r)
  if addr == reg.ocrl_addr
      then modify (λ r. record r { ocr = bit_or (bit_and (r.temp <<< 8) 0xff00) val })
      else if addr == reg.ocrh_addr
      then modify (λ r. record r { temp = val })
      else stop

unfoldable pub ocreg16_reset : Exec OcReg16 Unit
ocreg16_reset = modify (λ r. record r { ocr = 0 })
