-- ===== src/Eeprom/Events.antt =====
-- What a program and the clock can do to the EEPROM, and the state in which it cannot be written.
use oseid_simulavr.Base.{ℕ, ◌≡◌, ◌≢◌, List, [], ◌∷◌, bit_and}
use oseid_simulavr.Exec.{Exec, pure, ◌>>◌}
use oseid_simulavr.Bits.{digit}
use oseid_simulavr.Storage.{Storage}
use oseid_simulavr.Board.{
  CallBack, eeprom_wr_op, eeprom_mwe_clr, timer_intr, timer0_clk_incr, timer16_clk_incr, spi_intr,
  spi_clk_incr, uart_intr, uart_clk_incr, adc_intr, adc_clk_incr, Board, on_eeprom,
}
use oseid_simulavr.Callback.{avr_core_clk_cb_exec, avr_core_async_cb_exec}
use package.oseid_simulavr.Eeprom.{eecr_addr, mask_eemwe, eeprom_reg_write, eeprom_reg_reset}

-- What a program and the clock can do to the EEPROM and to the lists of call backs.
pub data Event : Type 0 where
  reg_write : ℕ → ℕ → Event
  reset clk async : Event

unfoldable pub event : Event → Exec Board Unit
unfolding eeprom_reg_write eeprom_reg_reset avr_core_clk_cb_exec avr_core_async_cb_exec
event (reg_write addr val) = eeprom_reg_write addr val
event reset = on_eeprom eeprom_reg_reset
event clk = avr_core_clk_cb_exec
event async = avr_core_async_cb_exec

unfoldable pub events : List Event → Exec Board Unit
unfolding event
events [] = pure tt
events (e ∷ rest) = do event e; events rest

-- No write to the control register sets bit 2, the master write enable.
abbrev pub NeverEnables : List Event → Type 0
NeverEnables [] = Unit
NeverEnables (reg_write addr val ∷ rest) =
    ((addr ≡ eecr_addr) → digit val 2 ≡ 0) × NeverEnables rest
NeverEnables (reset ∷ rest) = NeverEnables rest
NeverEnables (clk ∷ rest) = NeverEnables rest
NeverEnables (async ∷ rest) = NeverEnables rest

-- The call backs of the other devices.
abbrev pub NoEeprom : List CallBack → Type 0
NoEeprom [] = Unit
NoEeprom (eeprom_wr_op ∷ rest) = ⊥
NoEeprom (eeprom_mwe_clr ∷ rest) = ⊥
NoEeprom (timer_intr ∷ rest) = NoEeprom rest
NoEeprom (timer0_clk_incr ∷ rest) = NoEeprom rest
NoEeprom (timer16_clk_incr ∷ rest) = NoEeprom rest
NoEeprom (spi_intr ∷ rest) = NoEeprom rest
NoEeprom (spi_clk_incr ∷ rest) = NoEeprom rest
NoEeprom (uart_intr ∷ rest) = NoEeprom rest
NoEeprom (uart_clk_incr ∷ rest) = NoEeprom rest
NoEeprom (adc_intr ∷ rest) = NoEeprom rest
NoEeprom (adc_clk_incr ∷ rest) = NoEeprom rest

pub record IsLocked (s : Storage) (b : Board) : Type 0 where
  pub same_stor : b.eeprom.stor ≡ s
  pub has_mwe : bit_and b.eeprom.eecr_mask mask_eemwe ≢ 0
  pub idle : b.eeprom.eecr ≡ 0
  pub clk_others : NoEeprom b.clk_cb
  pub async_others : NoEeprom b.async_cb
