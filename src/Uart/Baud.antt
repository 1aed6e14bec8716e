-- ===== src/Uart/Baud.antt =====
-- The divisor that the UART takes from its baud rate register.
use oseid_simulavr.Base.{
  ℕ, suc, ◌+◌, ◌*◌, ◌%◌, ◌≡◌, refl, ap, ◌∙◌, arith, true, false, [], ◌∷◌, ◌==◌, if◌then◌else◌,
  bit_and, bit_or, complement, u16,
}
use oseid_simulavr.Exec.{ok, avr_error, then_with, ◌>>◌}
use oseid_simulavr.Board.{UartIntr, Board, uart_clk_incr, avr_core_clk_cb_add}
use oseid_simulavr.DList.{dlist_append}
use oseid_simulavr.Callback.{
  callback_execute, callback_list_execute_all, avr_core_clk_cb_exec, board_clock_loop,
}
use package.oseid_simulavr.Uart.{
  mask_udre, is_set, is_uart_intr, char_clks, start_uart, uart_write, uart_clk_incr_cb,
}

-- USR after a write to UDR: its bit UDRE changes, in the shadow too.
abbrev pub toggled : UartIntr → UartIntr
toggled u =
    if is_set u.usr mask_udre
    then record u {
      usr = bit_and u.usr (complement mask_udre);
      usr_shadow = bit_and u.usr_shadow (complement mask_udre);
    }
    else record u { usr = bit_or u.usr mask_udre; usr_shadow = bit_or u.usr_shadow mask_udre }

-- The board with a character to send.
abbrev pub loaded : Board → ℕ → Board
loaded b val = record b {
  uart = record b.uart {
    udr_tx = val;
    divisor = u16 (((toggled b.uart_intr).ubrr + 1) * 16);
    tcnt = char_clks (toggled b.uart_intr).ucr;
    clk_cb = true;
  };
  uart_intr = toggled b.uart_intr;
  clk_cb = uart_clk_incr ∷ [];
}

uart_write_lem :
    (val : ℕ) (b : Board)
    → b.clk_cb ≡ []
    → b.uart.clk_cb ≡ false
    → is_uart_intr b.uart.related_addr b.uart_intr ≡ true
    → uart_write b.uart.udr_addr val b ≡ ok (tt, loaded b val)
unfolding uart_write start_uart avr_core_clk_cb_add dlist_append
uart_write_lem val b l c r =
    let mine : (b.uart.udr_addr == b.uart.udr_addr) ≡ true = ground arith in rw (mine, r, c, l) refl

toggled-ubrr : (u : UartIntr) → (toggled u).ubrr ≡ u.ubrr
toggled-ubrr u = ground arith

clock_fails :
    (n : ℕ) (b : Board)
    → b.clk_cb ≡ uart_clk_incr ∷ []
    → b.uart.clk_cb ≡ true
    → b.uart.divisor ≡ 0
    → board_clock_loop (suc n) b ≡ avr_error
unfolding board_clock_loop avr_core_clk_cb_exec callback_list_execute_all callback_execute
    uart_clk_incr_cb
clock_fails n b l c d = rw (l, c, d) refl

-- A byte that is written to UDR, while no transmission is in progress and no device has a clock call
-- back, ends the program with an error at the next clock if the baud rate register is one less than a
-- multiple of 4096.
pub board_clock_loop-uart_write :
    (n val : ℕ) (b : Board)
    → b.clk_cb ≡ []
    → b.uart.clk_cb ≡ false
    → is_uart_intr b.uart.related_addr b.uart_intr ≡ true
    → (b.uart_intr.ubrr + 1) % 4096 ≡ 0
    → (uart_write b.uart.udr_addr val >> board_clock_loop (suc n)) b ≡ avr_error
board_clock_loop-uart_write n val b l c r h =
    let none_ : u16 (((toggled b.uart_intr).ubrr + 1) * 16) ≡ 0 =
      omega (arith, toggled-ubrr b.uart_intr, h) in
    ap (λ o. then_with o (λ t. board_clock_loop (suc n))) (uart_write_lem val b l c r)
    ∙ clock_fails n (loaded b val) refl refl none_
