-- ===== src/Board.antt =====
-- The devices of a part beside its core, with the call backs that they register: eeprom.h, timers.h,
-- spi.h, uart.h, adc.h, callback.c and the lists `clk_cb` and `async_cb` of `struct _AvrCore`.
use oseid_simulavr.Base.{ℕ, Bool, Option, List}
use oseid_simulavr.Exec.{Outcome, ok, avr_error, undefined, Exec, modify}
use oseid_simulavr.Storage.{Storage}
use oseid_simulavr.Core.State.{AvrCore}
use oseid_simulavr.DList.{dlist_append}

-- A field for a `CallBack *` holds whether the pointer is set: the sources only test it.
pub record EeProm : Type 0 where
  pub stor : Storage
  pub eecr : ℕ
  pub eecr_mask : ℕ
  pub eedr : ℕ
  pub eearl : ℕ
  pub eearh : ℕ
  pub wr_op_cb : Bool
  pub wr_op_clk : ℕ
  pub mwe_clr_cb : Bool
  pub mwe_clk : ℕ

pub record TimerIntr : Type 0 where
  pub timsk_addr : ℕ
  pub timsk : ℕ
  pub tifr_addr : ℕ
  pub tifr : ℕ
  pub func_mask : ℕ
  pub intr_cb : Bool

pub record Timer0 : Type 0 where
  pub tccr_addr : ℕ
  pub tccr : ℕ
  pub tcnt_addr : ℕ
  pub tcnt : ℕ
  pub divisor : ℕ
  pub related_addr : ℕ
  pub clk_cb : Bool
  pub ext_cb : Bool

pub record OcReg16 : Type 0 where
  pub ocr : ℕ
  pub ocrl_addr : ℕ
  pub ocrh_addr : ℕ
  pub temp : ℕ

-- `ocra` and `ocrb` are `none` for a null pointer. The field `ti` caches the device at
-- `related_addr`, which is looked up where it is used.
pub record Timer16 : Type 0 where
  pub tccra : ℕ
  pub tccra_addr : ℕ
  pub tccrb : ℕ
  pub tccrb_addr : ℕ
  pub tccrc : ℕ
  pub tccrc_addr : ℕ
  pub tcnt : ℕ
  pub tcntl_addr : ℕ
  pub tcnth_addr : ℕ
  pub divisor : ℕ
  pub temp : ℕ
  pub related_addr : ℕ
  pub clk_cb : Bool
  pub ext_cb : Bool
  pub ocra : Option OcReg16
  pub ocrb : Option OcReg16

pub record SpiIntr : Type 0 where
  pub spcr_addr : ℕ
  pub spcr : ℕ
  pub spsr_addr : ℕ
  pub spsr : ℕ
  pub spsr_read : ℕ
  pub intr_cb : Bool

pub record Spi : Type 0 where
  pub spdr_addr : ℕ
  pub rel_addr : ℕ
  pub spdr : ℕ
  pub spdr_in : ℕ
  pub tcnt : ℕ
  pub divisor : ℕ
  pub clk_cb : Bool

-- `int_table` is indexed by `URX`, `UUDRE` and `UTX`.
pub record UartIntr : Type 0 where
  pub ubrr : ℕ
  pub ubrr_temp : ℕ
  pub ubrrl_addr : ℕ
  pub ubrrh_addr : ℕ
  pub usr : ℕ
  pub usr_addr : ℕ
  pub ucr : ℕ
  pub ucr_addr : ℕ
  pub usr_shadow : ℕ
  pub intr_cb : Bool
  pub int_table : ℕ → ℕ

pub record Uart : Type 0 where
  pub udr_rx : ℕ
  pub udr_tx : ℕ
  pub udr_addr : ℕ
  pub related_addr : ℕ
  pub tcnt : ℕ
  pub divisor : ℕ
  pub clk_cb : Bool

pub record AdcIntr : Type 0 where
  pub adcsr_addr : ℕ
  pub admux_addr : ℕ
  pub rel_addr : ℕ
  pub adcsr : ℕ
  pub admux : ℕ
  pub intr_cb : Bool

pub record Adc : Type 0 where
  pub adcl_addr : ℕ
  pub adcl : ℕ
  pub adch_addr : ℕ
  pub adch : ℕ
  pub rel_addr : ℕ
  pub adc_count : ℕ
  pub adc_in : ℕ
  pub divisor : ℕ
  pub u_divisor : ℕ
  pub clk_cb : Bool

-- The terminal of the user: the numbers that are typed, how many of them are read, and the bytes that
-- are shown.
pub record Console : Type 0 where
  pub typed : ℕ → ℕ
  pub taken : ℕ
  pub wrote : List ℕ

-- A call back, by its function; its data is the device of that kind.
pub data CallBack : Type 0 where
  eeprom_wr_op eeprom_mwe_clr timer_intr timer0_clk_incr timer16_clk_incr : CallBack
  spi_intr spi_clk_incr uart_intr uart_clk_incr adc_intr adc_clk_incr : CallBack

pub record Board : Type 0 where
  pub core : AvrCore
  pub eeprom : EeProm
  pub timer_intr : TimerIntr
  pub timer0 : Timer0
  pub timer16 : Timer16
  pub spi_intr : SpiIntr
  pub spi : Spi
  pub uart_intr : UartIntr
  pub uart : Uart
  pub adc_intr : AdcIntr
  pub adc : Adc
  pub console : Console
  pub clk_cb : List CallBack
  pub async_cb : List CallBack

module _ {A S T : Type 0} (set : T → S → S) where
  abbrev pub zoomed : S → Outcome (A × T) → Outcome (A × S)
  zoomed s (ok (a, t)) = ok (a, set t s)
  zoomed s avr_error = avr_error
  zoomed s undefined = undefined

  -- An action on a part of the state.
  abbrev pub zoom : (S → T) → Exec T A → Exec S A
  zoom get m s = zoomed s (m (get s))

module _ {A : Type 0} where
  abbrev pub on_stor : Exec Storage A → Exec EeProm A
  on_stor m = zoom (λ t e. record e { stor = t }) (λ e. e.stor) m

  abbrev pub on_eeprom : Exec EeProm A → Exec Board A
  on_eeprom m = zoom (λ t b. record b { eeprom = t }) (λ b. b.eeprom) m

  abbrev pub on_core : Exec AvrCore A → Exec Board A
  on_core m = zoom (λ t b. record b { core = t }) (λ b. b.core) m

  abbrev pub on_timer_intr : Exec TimerIntr A → Exec Board A
  on_timer_intr m = zoom (λ t b. record b { timer_intr = t }) (λ b. b.timer_intr) m

  abbrev pub on_timer0 : Exec Timer0 A → Exec Board A
  on_timer0 m = zoom (λ t b. record b { timer0 = t }) (λ b. b.timer0) m

  abbrev pub on_timer16 : Exec Timer16 A → Exec Board A
  on_timer16 m = zoom (λ t b. record b { timer16 = t }) (λ b. b.timer16) m

  abbrev pub on_spi_intr : Exec SpiIntr A → Exec Board A
  on_spi_intr m = zoom (λ t b. record b { spi_intr = t }) (λ b. b.spi_intr) m

  abbrev pub on_spi : Exec Spi A → Exec Board A
  on_spi m = zoom (λ t b. record b { spi = t }) (λ b. b.spi) m

  abbrev pub on_uart_intr : Exec UartIntr A → Exec Board A
  on_uart_intr m = zoom (λ t b. record b { uart_intr = t }) (λ b. b.uart_intr) m

  abbrev pub on_uart : Exec Uart A → Exec Board A
  on_uart m = zoom (λ t b. record b { uart = t }) (λ b. b.uart) m

  abbrev pub on_adc_intr : Exec AdcIntr A → Exec Board A
  on_adc_intr m = zoom (λ t b. record b { adc_intr = t }) (λ b. b.adc_intr) m

  abbrev pub on_adc : Exec Adc A → Exec Board A
  on_adc m = zoom (λ t b. record b { adc = t }) (λ b. b.adc) m

  abbrev pub on_console : Exec Console A → Exec Board A
  on_console m = zoom (λ t b. record b { console = t }) (λ b. b.console) m

unfoldable pub avr_core_clk_cb_add : CallBack → Exec Board Unit
unfolding dlist_append
avr_core_clk_cb_add cb = modify (λ b. record b { clk_cb = dlist_append cb b.clk_cb })

unfoldable pub avr_core_async_cb_add : CallBack → Exec Board Unit
unfolding dlist_append
avr_core_async_cb_add cb = modify (λ b. record b { async_cb = dlist_append cb b.async_cb })

-- The value that a call back returns.
pub data CbRet : Type 0 where
  retain remove : CbRet
