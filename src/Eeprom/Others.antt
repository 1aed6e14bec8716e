-- ===== src/Eeprom/Others.antt =====
-- The call backs of the other devices leave the EEPROM as it is.
use oseid_simulavr.Base.{ℕ, arith, Bool, List, [], ◌∷◌}
use oseid_simulavr.Exec.{Outcome, ok, avr_error, undefined, pure, modify, then_with, ◌>>=◌}
use oseid_simulavr.Exec.Keeps.{
  After, Keeps, Keeps-if, Keeps-bind, Keeps-pure, Keeps-stop, Keeps-fault, Keeps-gets,
}
use oseid_simulavr.Storage.{Storage}
use oseid_simulavr.Board.{
  CallBack, eeprom_wr_op, eeprom_mwe_clr, timer_intr, timer0_clk_incr, timer16_clk_incr, spi_intr,
  spi_clk_incr, uart_intr, uart_clk_incr, adc_intr, adc_clk_incr, Board, SpiIntr, Spi, Console,
  on_spi_intr, on_spi, on_console, on_core, UartIntr, Uart, AdcIntr, Adc, on_uart_intr, on_uart,
  on_adc_intr, on_adc, on_timer16, on_timer0, on_timer_intr, TimerIntr, Timer0, Timer16, CbRet,
  retain, remove,
}
use oseid_simulavr.Callback.{callback_execute, callback_list_execute_all, keep}
use oseid_simulavr.Timers.Eight.{timer0_clk_incr_cb}
use oseid_simulavr.Timers.Sixteen.{flag_if, timer16_clk_incr_cb}
use oseid_simulavr.Spi.{spi_clk_incr_cb, finish_spi, spi_port_wr}
use oseid_simulavr.Irq.{avr_core_irq_raise}
use oseid_simulavr.Uart.{uart_intr_cb, raise_uart, uart_clk_incr_cb, finish_char}
use oseid_simulavr.Adc.{adc_clk_incr_cb, finish_adc, adc_port_rd}
use package.oseid_simulavr.Eeprom.Events.{NoEeprom, IsLocked}

flag-IsLocked : (s : Storage) (test : Bool) (mask : ℕ) → Keeps (IsLocked s) (flag_if test mask)
unfolding flag_if
flag-IsLocked s test mask = record { at = λ b l. ground arith }

on_timer16-IsLocked :
    (s : Storage) (f : Timer16 → Timer16) → Keeps (IsLocked s) (on_timer16 (modify f))
on_timer16-IsLocked s f = record { at = λ b l. ground arith }

on_timer0-IsLocked : (s : Storage) (f : Timer0 → Timer0) → Keeps (IsLocked s) (on_timer0 (modify f))
on_timer0-IsLocked s f = record { at = λ b l. ground arith }

on_timer_intr-IsLocked :
    (s : Storage) (f : TimerIntr → TimerIntr) → Keeps (IsLocked s) (on_timer_intr (modify f))
on_timer_intr-IsLocked s f = record { at = λ b l. ground arith }

on_spi_intr-IsLocked :
    (s : Storage) (f : SpiIntr → SpiIntr) → Keeps (IsLocked s) (on_spi_intr (modify f))
on_spi_intr-IsLocked s f = record { at = λ b l. ground arith }

on_spi-IsLocked : (s : Storage) (f : Spi → Spi) → Keeps (IsLocked s) (on_spi (modify f))
on_spi-IsLocked s f = record { at = λ b l. ground arith }

on_console-IsLocked :
    (s : Storage) (f : Console → Console) → Keeps (IsLocked s) (on_console (modify f))
on_console-IsLocked s f = record { at = λ b l. ground arith }

on_uart_intr-IsLocked :
    (s : Storage) (f : UartIntr → UartIntr) → Keeps (IsLocked s) (on_uart_intr (modify f))
on_uart_intr-IsLocked s f = record { at = λ b l. ground arith }

on_uart-IsLocked : (s : Storage) (f : Uart → Uart) → Keeps (IsLocked s) (on_uart (modify f))
on_uart-IsLocked s f = record { at = λ b l. ground arith }

on_adc_intr-IsLocked :
    (s : Storage) (f : AdcIntr → AdcIntr) → Keeps (IsLocked s) (on_adc_intr (modify f))
on_adc_intr-IsLocked s f = record { at = λ b l. ground arith }

on_adc-IsLocked : (s : Storage) (f : Adc → Adc) → Keeps (IsLocked s) (on_adc (modify f))
on_adc-IsLocked s f = record { at = λ b l. ground arith }

adc_port_rd-IsLocked : (s : Storage) → Keeps (IsLocked s) (on_console adc_port_rd)
unfolding adc_port_rd
adc_port_rd-IsLocked s = record { at = λ b l. ground arith }

irq_raise-IsLocked : (s : Storage) (irq : ℕ) → Keeps (IsLocked s) (on_core (avr_core_irq_raise irq))
unfolding avr_core_irq_raise
irq_raise-IsLocked s irq = record { at = λ b l. ground arith }

ruleset locked_rules = (
  Keeps-if, Keeps-bind, Keeps-pure, Keeps-stop, Keeps-fault, Keeps-gets, on_timer16-IsLocked,
  on_timer0-IsLocked, on_timer_intr-IsLocked, flag-IsLocked, on_spi_intr-IsLocked, on_spi-IsLocked,
  on_console-IsLocked, on_uart_intr-IsLocked, on_uart-IsLocked, on_adc_intr-IsLocked,
  on_adc-IsLocked, adc_port_rd-IsLocked, irq_raise-IsLocked,
)

timer0-IsLocked : (s : Storage) (time : ℕ) → Keeps (IsLocked s) (timer0_clk_incr_cb time)
unfolding timer0_clk_incr_cb
timer0-IsLocked s time = search locked_rules depth 20

timer16-IsLocked : (s : Storage) (time : ℕ) → Keeps (IsLocked s) (timer16_clk_incr_cb time)
unfolding timer16_clk_incr_cb
timer16-IsLocked s time = search locked_rules depth 20

spi-IsLocked : (s : Storage) (time : ℕ) → Keeps (IsLocked s) (spi_clk_incr_cb time)
unfolding spi_clk_incr_cb finish_spi spi_port_wr
spi-IsLocked s time = search locked_rules depth 20

uart_intr-IsLocked : (s : Storage) → Keeps (IsLocked s) uart_intr_cb
unfolding uart_intr_cb raise_uart
uart_intr-IsLocked s = search locked_rules depth 30

uart-IsLocked : (s : Storage) (time : ℕ) → Keeps (IsLocked s) (uart_clk_incr_cb time)
unfolding uart_clk_incr_cb finish_char
uart-IsLocked s time = search locked_rules depth 20

adc-IsLocked : (s : Storage) (time : ℕ) → Keeps (IsLocked s) (adc_clk_incr_cb time)
unfolding adc_clk_incr_cb finish_adc
adc-IsLocked s time = search locked_rules depth 20

other_execute :
    (s : Storage) (time : ℕ) (cb : CallBack) (rest : List CallBack) (b : Board)
    → NoEeprom (cb ∷ rest)
    → IsLocked s b
    → After (IsLocked s) (callback_execute time cb b)
unfolding callback_execute
other_execute s time eeprom_wr_op rest b h l = absurd h
other_execute s time eeprom_mwe_clr rest b h l = absurd h
other_execute s time timer_intr rest b h l = ground arith
other_execute s time timer0_clk_incr rest b h l = (timer0-IsLocked s time).at b l
other_execute s time timer16_clk_incr rest b h l = (timer16-IsLocked s time).at b l
other_execute s time spi_intr rest b h l = ground arith
other_execute s time spi_clk_incr rest b h l = (spi-IsLocked s time).at b l
other_execute s time uart_intr rest b h l = (uart_intr-IsLocked s).at b l
other_execute s time uart_clk_incr rest b h l = (uart-IsLocked s time).at b l
other_execute s time adc_intr rest b h l = ground arith
other_execute s time adc_clk_incr rest b h l = (adc-IsLocked s time).at b l

keep_others :
    (cb : CallBack) (ret : CbRet) (rest kept : List CallBack)
    → NoEeprom (cb ∷ rest)
    → NoEeprom kept
    → NoEeprom (keep cb ret kept)
keep_others cb remove rest kept h k = k
keep_others eeprom_wr_op retain rest kept h k = h
keep_others eeprom_mwe_clr retain rest kept h k = h
keep_others timer_intr retain rest kept h k = k
keep_others timer0_clk_incr retain rest kept h k = k
keep_others timer16_clk_incr retain rest kept h k = k
keep_others spi_intr retain rest kept h k = k
keep_others spi_clk_incr retain rest kept h k = k
keep_others uart_intr retain rest kept h k = k
keep_others uart_clk_incr retain rest kept h k = k
keep_others adc_intr retain rest kept h k = k
keep_others adc_clk_incr retain rest kept h k = k

tail_others : (cb : CallBack) (rest : List CallBack) → NoEeprom (cb ∷ rest) → NoEeprom rest
tail_others eeprom_wr_op rest h = absurd h
tail_others eeprom_mwe_clr rest h = absurd h
tail_others timer_intr rest h = h
tail_others timer0_clk_incr rest h = h
tail_others timer16_clk_incr rest h = h
tail_others spi_intr rest h = h
tail_others spi_clk_incr rest h = h
tail_others uart_intr rest h = h
tail_others uart_clk_incr rest h = h
tail_others adc_intr rest h = h
tail_others adc_clk_incr rest h = h

-- The call backs that stay are of other devices, and the EEPROM is locked.
abbrev Others : Storage → Outcome (List CallBack × Board) → Type 0
Others s (ok (kept, b)) = NoEeprom kept × IsLocked s b
Others s avr_error = Unit
Others s undefined = Unit

keep_result :
    (s : Storage) (cb : CallBack) (ret : CbRet) (rest : List CallBack)
    (o : Outcome (List CallBack × Board))
    → NoEeprom (cb ∷ rest)
    → Others s o
    → Others s (then_with o (λ kept. pure (keep cb ret kept)))
keep_result s cb ret rest (ok (kept, b)) h p = (keep_others cb ret rest kept h p.0, p.1)
keep_result s cb ret rest avr_error h p = tt
keep_result s cb ret rest undefined h p = tt

execute_next :
    (s : Storage) (time : ℕ) (cb : CallBack) (rest : List CallBack) (o : Outcome (CbRet × Board))
    → NoEeprom (cb ∷ rest)
    → ((b : Board) → IsLocked s b → Others s (callback_list_execute_all rest time b))
    → After (IsLocked s) o
    → Others s (
        then_with o
          (λ ret. callback_list_execute_all rest time >>= λ kept. pure (keep cb ret kept)))
execute_next s time cb rest (ok (ret, b)) h ih l =
    keep_result s cb ret rest (callback_list_execute_all rest time b) h (ih b l)
execute_next s time cb rest avr_error h ih l = tt
execute_next s time cb rest undefined h ih l = tt

pub execute-Others :
    (s : Storage) (time : ℕ) (list : List CallBack) (b : Board)
    → NoEeprom list
    → IsLocked s b
    → Others s (callback_list_execute_all list time b)
unfolding callback_list_execute_all
execute-Others s time [] b h l = (h, l)
execute-Others s time (cb ∷ rest) b h l =
    execute_next s time cb rest (callback_execute time cb b) h
      (λ b l. execute-Others s time rest b (tail_others cb rest h) l)
      (other_execute s time cb rest b h l)

pub set_clk :
    (s : Storage) (o : Outcome (List CallBack × Board))
    → Others s o
    → After (IsLocked s) (then_with o (λ kept. modify (λ b. record b { clk_cb = kept })))
set_clk s (ok (kept, b)) h = ground arith
set_clk s avr_error h = tt
set_clk s undefined h = tt

pub set_async :
    (s : Storage) (o : Outcome (List CallBack × Board))
    → Others s o
    → After (IsLocked s) (then_with o (λ kept. modify (λ b. record b { async_cb = kept })))
set_async s (ok (kept, b)) h = ground arith
set_async s avr_error h = tt
set_async s undefined h = tt
