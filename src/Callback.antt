-- ===== src/Callback.antt =====
-- callback.c, and the clocks of avrcore.c with the call backs of the devices.
use oseid_simulavr.Base.{ℕ, zero, suc, List, [], ◌∷◌}
use oseid_simulavr.Exec.{Exec, pure, gets, modify, ◌>>=◌, ◌>>◌}
use oseid_simulavr.Board.{
  CallBack, eeprom_wr_op, eeprom_mwe_clr, timer_intr, timer0_clk_incr, timer16_clk_incr, spi_intr,
  spi_clk_incr, uart_intr, uart_clk_incr, adc_intr, adc_clk_incr, Board, on_eeprom, on_core, CbRet,
  retain, remove,
}
use oseid_simulavr.Core.Counter.{inst_cks_set, ck_incr}
use oseid_simulavr.Eeprom.{eeprom_wr_op_cb, eeprom_mwe_clr_cb}
use oseid_simulavr.Timers.Interrupt.{timer_intr_cb}
use oseid_simulavr.Timers.Eight.{timer0_clk_incr_cb}
use oseid_simulavr.Timers.Sixteen.{timer16_clk_incr_cb}
use oseid_simulavr.Spi.{spi_intr_cb, spi_clk_incr_cb}
use oseid_simulavr.Uart.{uart_intr_cb, uart_clk_incr_cb}
use oseid_simulavr.Adc.{adc_intr_cb, adc_clk_incr_cb}

-- `cb->func (time, cb->data)`
unfoldable pub callback_execute : ℕ → CallBack → Exec Board CbRet
unfolding eeprom_wr_op_cb eeprom_mwe_clr_cb timer_intr_cb timer0_clk_incr_cb timer16_clk_incr_cb
    spi_intr_cb spi_clk_incr_cb uart_intr_cb uart_clk_incr_cb adc_intr_cb adc_clk_incr_cb
callback_execute time eeprom_wr_op = on_eeprom eeprom_wr_op_cb
callback_execute time eeprom_mwe_clr = on_eeprom eeprom_mwe_clr_cb
callback_execute time timer_intr = timer_intr_cb
callback_execute time timer0_clk_incr = timer0_clk_incr_cb time
callback_execute time timer16_clk_incr = timer16_clk_incr_cb time
callback_execute time spi_intr = spi_intr_cb
callback_execute time spi_clk_incr = spi_clk_incr_cb time
callback_execute time uart_intr = uart_intr_cb
callback_execute time uart_clk_incr = uart_clk_incr_cb time
callback_execute time adc_intr = adc_intr_cb
callback_execute time adc_clk_incr = adc_clk_incr_cb time

abbrev pub keep : CallBack → CbRet → List CallBack → List CallBack
keep cb retain rest = cb ∷ rest
keep cb remove rest = rest

-- `dlist_iterator` goes on from the node that it has just freed, whose `next` still holds. No call
-- back adds another.
unfoldable pub callback_list_execute_all : List CallBack → ℕ → Exec Board (List CallBack)
unfolding callback_execute
callback_list_execute_all [] time = pure []
callback_list_execute_all (cb ∷ rest) time = do
  ret ← callback_execute time cb
  kept ← callback_list_execute_all rest time
  pure (keep cb ret kept)

unfoldable pub avr_core_clk_cb_exec : Exec Board Unit
unfolding callback_list_execute_all
avr_core_clk_cb_exec = do
  head ← gets (λ b. b.clk_cb)
  ck ← gets (λ b. b.core.ck)
  kept ← callback_list_execute_all head ck
  modify (λ b. record b { clk_cb = kept })

-- The call backs of this list do not read the time.
unfoldable pub avr_core_async_cb_exec : Exec Board Unit
unfolding callback_list_execute_all
avr_core_async_cb_exec = do
  head ← gets (λ b. b.async_cb)
  kept ← callback_list_execute_all head 0
  modify (λ b. record b { async_cb = kept })

-- The clock loop of `avr_core_step`, for the clocks that are left.
unfoldable pub board_clock_loop : ℕ → Exec Board Unit
unfolding avr_core_clk_cb_exec ck_incr inst_cks_set
board_clock_loop zero = pure tt
board_clock_loop (suc left) = do
  avr_core_clk_cb_exec
  on_core ck_incr
  on_core (inst_cks_set left)
  board_clock_loop left
