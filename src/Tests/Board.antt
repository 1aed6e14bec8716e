-- ===== src/Tests/Board.antt =====
-- A board with the small device, an EEPROM of 16 bytes and the timers, and the theorems of the call
-- backs at it.
use oseid_simulavr.Base.{
  ℕ, ◌+◌, ◌<◌, ◌≡◌, refl, arith, inr, inl, true, false, none, [], ◌∷◌, if◌then◌else◌, ◌==◌,
}
use oseid_simulavr.Exec.{ok, ◌>>◌}
use oseid_simulavr.Exec.Keeps.{After}
use oseid_simulavr.Exec.Returns.{Returns}
use oseid_simulavr.Bits.{digit}
use oseid_simulavr.Board.{Board, EeProm, timer_intr, timer0_clk_incr, on_core, retain}
use oseid_simulavr.Eeprom.{eecr_addr, mask_eewe, mask_eemwe, eeprom_reg_write}
use oseid_simulavr.Eeprom.Write.{
  MayWrite, HasByte, async_rounds, written, read_back, async_rounds-eeprom_reg_write,
  eeprom_reg_read-eeprom_reg_write,
}
use oseid_simulavr.Eeprom.Window.{clk_rounds, closed, eeprom_reg_write-clk_rounds}
use oseid_simulavr.Eeprom.Events.{reg_write, reset, clk, async, events, IsLocked}
use oseid_simulavr.Eeprom.Locked.{events-IsLocked}
use oseid_simulavr.Callback.{board_clock_loop, avr_core_async_cb_exec}
use oseid_simulavr.Timers.Count.{IsCounting, after_ticks, board_clock_loop-count}
use oseid_simulavr.Timers.Interrupt.{timer_intr_cb}
use oseid_simulavr.Timers.Flags.{
  Source, icf1, tov0, ocf1b, ocf1a, tov1, IsFirst, intrs, flag_bit, raised, timer_intr_cb-first,
}
use oseid_simulavr.Timers.Delivery.{interrupted, avr_core_check_interrupts-timer_intr}
use oseid_simulavr.Timers.Paired.{write_counter, read_counter, read_counter-write_counter}
use oseid_simulavr.Irq.{irq_list_add}
use oseid_simulavr.Run.{avr_core_check_interrupts}
use oseid_simulavr.Run.Interrupt.{delivered}
use oseid_simulavr.Board.{on_timer16}
use package.oseid_simulavr.Tests.Machine.{ready}
use package.oseid_simulavr.Tests.Device.{device, timer}

abbrev eeprom : EeProm
eeprom = record {
  stor = record { base = 0; size = 16; bytes = λ i. 0xff };
  eecr = 0;
  eecr_mask = 7;
  eedr = 0x5a;
  eearl = 3;
  eearh = 0;
  wr_op_cb = false;
  wr_op_clk = 0;
  mwe_clr_cb = false;
  mwe_clk = 0;
}

-- Timer 0 counts every eighth clock, and is about to roll over.
abbrev pub board : Board
board = record {
  core = record device { irq_pending = [] };
  eeprom = eeprom;
  timer_intr = record {
    timsk_addr = 0x59;
    timsk = 0x8a;
    tifr_addr = 0x58;
    tifr = 0x88;
    func_mask = 0xea;
    intr_cb = true;
  };
  timer0 = record {
    tccr_addr = 0x53;
    tccr = 2;
    tcnt_addr = 0x52;
    tcnt = 254;
    divisor = 8;
    related_addr = 0x58;
    clk_cb = true;
    ext_cb = false;
  };
  timer16 = record {
    tccra = 0;
    tccra_addr = 0x4f;
    tccrb = 0;
    tccrb_addr = 0x4e;
    tccrc = 0;
    tccrc_addr = 0x7a;
    tcnt = 7;
    tcntl_addr = 0x4c;
    tcnth_addr = 0x4d;
    divisor = 0;
    temp = 0;
    related_addr = 0x58;
    clk_cb = false;
    ext_cb = false;
    ocra = none;
    ocrb = none;
  };
  spi_intr = record {
    spcr_addr = 0x2d;
    spcr = 0xd0;
    spsr_addr = 0x2e;
    spsr = 0x80;
    spsr_read = 0x80;
    intr_cb = true;
  };
  spi = record {
    spdr_addr = 0x2f;
    rel_addr = 0x2d;
    spdr = 0;
    spdr_in = 0;
    tcnt = 0;
    divisor = 0;
    clk_cb = false;
  };
  uart_intr = record {
    ubrr = 0;
    ubrr_temp = 0;
    ubrrl_addr = 0x29;
    ubrrh_addr = 0x40;
    usr = 0;
    usr_addr = 0x2b;
    ucr = 0;
    ucr_addr = 0x2a;
    usr_shadow = 0;
    intr_cb = false;
    int_table = λ i. i + 25;
  };
  uart = record {
    udr_rx = 0;
    udr_tx = 0;
    udr_addr = 0x2c;
    related_addr = 0x2a;
    tcnt = 0;
    divisor = 0;
    clk_cb = false;
  };
  adc_intr = record {
    adcsr_addr = 0x26;
    admux_addr = 0x27;
    rel_addr = 0x24;
    adcsr = 0;
    admux = 0;
    intr_cb = false;
  };
  adc = record {
    adcl_addr = 0x24;
    adcl = 0;
    adch_addr = 0x25;
    adch = 0;
    rel_addr = 0x26;
    adc_count = 0;
    adc_in = 0;
    divisor = 0;
    u_divisor = 1;
    clk_cb = false;
  };
  console = record { typed = λ n. n + 0x30; taken = 0; wrote = [] };
  clk_cb = [];
  async_cb = [];
}

-- The window of the master write enable bit is open.
abbrev enabled : Board
enabled = record board { eeprom = record eeprom { eecr = 4 } }

may_write : MayWrite enabled.eeprom
may_write = (refl, refl, refl, omega arith, refl)

has_byte : HasByte enabled.eeprom
has_byte = (omega arith, omega arith)

write_example :
    (eeprom_reg_write eecr_addr mask_eewe >> async_rounds 2501) enabled ≡ ok (tt, written enabled)
write_example = async_rounds-eeprom_reg_write enabled may_write has_byte refl 2501

read_back_example :
    (eeprom_reg_write eecr_addr mask_eewe >> async_rounds 2501 >> read_back 0) enabled
    ≡ ok (0x5a, written enabled)
read_back_example = eeprom_reg_read-eeprom_reg_write enabled may_write has_byte refl 0 refl

window_example :
    ((eeprom_reg_write eecr_addr mask_eemwe >> clk_rounds 5)
        >> eeprom_reg_write eecr_addr mask_eewe)
      board
    ≡ ok (tt, closed board)
window_example =
    eeprom_reg_write-clk_rounds board (refl, refl, omega arith, refl, refl, refl) refl 5 refl

board-IsLocked : IsLocked eeprom.stor board
board-IsLocked = record {
  same_stor = refl;
  has_mwe = λ e. absurd (omega (arith, e));
  idle = refl;
  clk_others = tt;
  async_others = tt;
}

two : digit 2 2 ≡ 0
unfolding digit
two = refl

events-IsLocked_example :
    After
      (IsLocked eeprom.stor)
      (events (reg_write 0x3d 9 ∷ reg_write 0x3c 2 ∷ async ∷ clk ∷ reset ∷ []) board)
events-IsLocked_example =
    events-IsLocked (reg_write 0x3d 9 ∷ reg_write 0x3c 2 ∷ async ∷ clk ∷ reset ∷ []) eeprom.stor
      board (λ e. absurd (omega (arith, e)), (λ e. two, tt)) board-IsLocked

abbrev counting : Board
counting = record board { clk_cb = timer0_clk_incr ∷ [] }

counting_lem : IsCounting counting
counting_lem = record {
  registered = refl;
  started = refl;
  divides = inr (inl refl);
  related = refl;
  tcnt_byte = omega arith;
  tifr_byte = omega arith;
}

-- 20 clocks from 1000 on hold the multiples 1000, 1008 and 1016 of 8.
count_example : board_clock_loop 20 counting ≡ ok (tt, after_ticks counting 20 3)
count_example = board_clock_loop-count 20 counting counting_lem (omega arith)

lower_clear : (other : Source) → flag_bit other < 3 → digit 0x88 (flag_bit other) ≡ 0
unfolding digit
lower_clear tov0 h = refl
lower_clear icf1 h = absurd (omega arith)
lower_clear ocf1b h = absurd (omega arith)
lower_clear ocf1a h = absurd (omega arith)
lower_clear tov1 h = absurd (omega arith)

-- ICF1 and TOV1 are flagged and enabled.
icf1_IsFirst : IsFirst icf1 (intrs board.timer_intr)
unfolding digit
icf1_IsFirst = (refl, lower_clear)

first_example : Returns (timer_intr_cb board) (λ r.
    (r.0 ≡ retain)
    × (r.1.core.irq_pending ≡ irq_list_add timer [])
    × ((j : ℕ) → j < 8 → digit r.1.timer_intr.tifr j ≡ (if 3 == j then 0 else digit 0x88 j)))
first_example = timer_intr_cb-first icf1 board refl icf1_IsFirst

abbrev flagged_board : Board
flagged_board = record board { async_cb = timer_intr ∷ [] }

avr_core_check_interrupts-timer_intr_example :
    (avr_core_async_cb_exec >> on_core avr_core_check_interrupts) flagged_board
    ≡ ok (
      tt,
      record (raised icf1 flagged_board) {
        core = delivered timer [] 20 (interrupted icf1 flagged_board);
      },
    )
avr_core_check_interrupts-timer_intr_example =
    avr_core_check_interrupts-timer_intr icf1 20 flagged_board refl icf1_IsFirst refl refl ready

counter_example :
    (write_counter 0x1234 >> on_timer16 read_counter) board
    ≡ ok (
      (0x12, 0x34),
      record board { timer16 = record board.timer16 { tcnt = 0x1234; temp = 0x12 } },
    )
counter_example =
    read_counter-write_counter 0x1234 board (λ e. absurd (omega (arith, e))) (omega arith)
