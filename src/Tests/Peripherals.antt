-- ===== src/Tests/Peripherals.antt =====
-- The serial devices of the board, and a port that is connected to a probe.
use oseid_simulavr.Base.{ℕ, ◌<◌, ◌≡◌, refl, arith, true, some, [], ◌∷◌, ◌==◌, if◌then◌else◌}
use oseid_simulavr.Exec.{ok, avr_error, ◌>>◌}
use oseid_simulavr.Exec.Returns.{Returns}
use oseid_simulavr.Bits.{digit}
use oseid_simulavr.Callback.{board_clock_loop}
use oseid_simulavr.Board.{Board}
use oseid_simulavr.Spi.{spi_write}
use oseid_simulavr.Uart.{uart_write}
use oseid_simulavr.Uart.Baud.{board_clock_loop-uart_write}
use oseid_simulavr.Spi.Transfer.{IsFree, loaded, later, sent, board_clock_loop-spi_write}
use oseid_simulavr.Ports.{Wired}
use oseid_simulavr.Ports.Pins.{
  Probe, probe_rd, probe_wr, IsProbed, drive, port_reg_read-port_reg_write,
}
use package.oseid_simulavr.Tests.Board.{board}

board-IsFree : IsFree board
board-IsFree = record { unregistered = refl; stopped = refl; counted_down = refl; related = refl }

-- The 40 clocks from 1000 on hold ten multiples of 4.
board_clock_loop-spi_write_example :
    (spi_write 0x2f 0xa5 >> board_clock_loop 40) board
    ≡ ok (tt, record (sent (loaded board 0xa5)) { core = (later board 40).core })
board_clock_loop-spi_write_example =
    board_clock_loop-spi_write 0xa5 40 board board-IsFree (omega arith)

-- The largest rate of twelve bits.
abbrev slow : Board
slow = record board { uart_intr = record board.uart_intr { ubrr = 4095 } }

board_clock_loop-uart_write_example : (uart_write 0x2c 0x41 >> board_clock_loop 1) slow ≡ avr_error
board_clock_loop-uart_write_example = board_clock_loop-uart_write 0 0x41 slow refl refl refl refl

abbrev wired : Wired Probe
wired = record {
  p = record {
    port_addr = 0x3b;
    ddr_addr = 0x3a;
    pin_addr = 0x39;
    port = 0;
    ddr = 0;
    pin = 0;
    ext_enable = true;
    ext_rd = some probe_rd;
    ext_wr = some probe_wr;
  };
  hardware = record { shown = []; supply = 0x3c };
}

wired-IsProbed : IsProbed wired
wired-IsProbed = record {
  reads = refl;
  writes = refl;
  enabled = refl;
  pin_ddr = λ e. absurd (omega (arith, e));
  pin_port = λ e. absurd (omega (arith, e));
  ddr_port = λ e. absurd (omega (arith, e));
}

port_reg_read-port_reg_write_example : Returns (drive wired 0xf0 0xaa wired) (λ r.
    (r.1.hardware.shown ≡ 0xa0 ∷ [])
    × ((j : ℕ) → j < 8 → digit 0xa0 j ≡ (if digit 0xf0 j == 1 then digit 0xaa j else 0))
    × ((j : ℕ) → j < 8 → digit r.0 j ≡ (if digit 0xf0 j == 1 then 0 else digit 0x3c j)))
port_reg_read-port_reg_write_example =
    port_reg_read-port_reg_write 0xf0 0xaa wired wired-IsProbed (omega arith)
