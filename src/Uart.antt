-- ===== src/Uart.antt =====
-- uart.c: the serial port with its interrupt registers.
pub mod Baud
use oseid_simulavr.Base.{
  ℕ, ◌+◌, ◌-◌, ◌*◌, ◌%◌, Bool, true, false, not, ◌||◌, ◌&&◌, ◌==◌, if◌then◌else◌, bit_and, bit_or,
  complement, ◌<<<◌, ◌>>>◌, u8, u16, truth,
}
use oseid_simulavr.Exec.{Exec, pure, stop, fault, gets, modify, ◌>>=◌, ◌>>◌}
use oseid_simulavr.Irq.{avr_core_irq_raise}
use oseid_simulavr.Board.{
  UartIntr, Uart, uart_intr, uart_clk_incr, on_uart_intr, on_uart, Console, Board, on_core,
  on_console, avr_core_clk_cb_add, avr_core_async_cb_add, CbRet, retain, remove,
}

abbrev pub mask_udre : ℕ
mask_udre = 0x20

abbrev pub mask_txc : ℕ
mask_txc = 0x40

abbrev pub mask_rxc : ℕ
mask_rxc = 0x80

abbrev pub mask_rxb8 : ℕ
mask_rxb8 = 2

abbrev pub mask_chr9 : ℕ
mask_chr9 = 4

abbrev pub mask_txen : ℕ
mask_txen = 8

abbrev pub mask_rxen : ℕ
mask_rxen = 0x10

abbrev pub mask_udrie : ℕ
mask_udrie = 0x20

abbrev pub mask_txcie : ℕ
mask_txcie = 0x40

abbrev pub mask_rxcie : ℕ
mask_rxcie = 0x80

abbrev pub is_set : ℕ → ℕ → Bool
is_set x mask = not (bit_and x mask == 0)

unfoldable pub uart_intr_read : ℕ → Exec UartIntr ℕ
uart_intr_read addr = do
  uart ← gets (λ u. u)
  if addr == uart.ubrrl_addr
      then pure (bit_and uart.ubrr 0xff)
      else if addr == uart.ubrrh_addr
      then pure (uart.ubrr >>> 8)
      else if addr == uart.ucr_addr
      then pure uart.ucr
      else if addr == uart.usr_addr
      then pure uart.usr
      else stop

-- Whether the control register enables an interrupt.
abbrev pub enables : ℕ → Bool
enables ucr =
    is_set ucr mask_txen && is_set ucr mask_txcie
    || (is_set ucr mask_rxen && is_set ucr mask_rxcie || is_set ucr mask_udrie)

-- The source compares the address with the value of USR.
unfoldable pub uart_intr_write : ℕ → ℕ → Exec Board Unit
unfolding avr_core_async_cb_add
uart_intr_write addr val = do
  uart ← gets (λ b. b.uart_intr)
  if addr == uart.ubrrl_addr
      then on_uart_intr (modify (λ u. record u { ubrr = u16 (val + (uart.ubrr_temp <<< 8)) }))
      else if addr == uart.ubrrh_addr
      then on_uart_intr (modify (λ u. record u { ubrr_temp = val }))
      else if addr == uart.usr
      then (if is_set val mask_txc
          then on_uart_intr (modify (λ u. record u { usr = bit_and u.usr (complement mask_txc) }))
          else pure tt)
      else if addr == uart.ucr_addr
      then (do
        on_uart_intr (modify (λ u. record u { ucr = val }))
        if enables val
            then (if uart.intr_cb then pure tt else do
              on_uart_intr (modify (λ u. record u { intr_cb = true }))
              avr_core_async_cb_add uart_intr)
            else on_uart_intr (modify (λ u. record u { intr_cb = false })))
      else stop

unfoldable pub uart_intr_reset : Exec UartIntr Unit
uart_intr_reset =
    modify (λ u. record u { intr_cb = false; ubrr = 0; usr = 0; ucr = 0; usr_shadow = 0 })

-- `URX` is 0, `UUDRE` is 1 and `UTX` is 2.
unfoldable pub raise_uart : ℕ → Exec Board Unit
unfolding avr_core_irq_raise
raise_uart i = do uart ← gets (λ b. b.uart_intr); on_core (avr_core_irq_raise (uart.int_table i))

unfoldable pub uart_intr_cb : Exec Board CbRet
unfolding raise_uart
uart_intr_cb = do
  uart ← gets (λ b. b.uart_intr)
  if not uart.intr_cb then pure remove else do
    if is_set uart.ucr mask_rxcie && is_set uart.usr mask_rxc then raise_uart 0 else pure tt
    if is_set uart.ucr mask_txcie && is_set uart.usr mask_txc
        then (do
          raise_uart 2
          on_uart_intr (modify (λ u. record u { usr = bit_and u.usr (complement mask_txc) })))
        else pure tt
    if is_set uart.ucr mask_udrie && (is_set uart.usr mask_udre && is_set uart.usr_shadow mask_udre)
        then (do
          raise_uart 1
          on_uart_intr
              (modify (λ u. record u { usr_shadow = bit_and u.usr_shadow (complement mask_udre) })))
        else pure tt
    pure retain

-- The device that `avr_core_get_vdev_by_addr` finds for `related_addr` is the interrupt register.
abbrev pub is_uart_intr : ℕ → UartIntr → Bool
is_uart_intr addr u =
    addr == u.ubrrl_addr || (addr == u.ubrrh_addr || (addr == u.usr_addr || addr == u.ucr_addr))

-- The user types lines until one holds a number.
unfoldable pub uart_port_rd : Exec Console ℕ
uart_port_rd = do
  data_ ← gets (λ c. c.typed c.taken)
  modify (λ c. record c { taken = c.taken + 1 })
  pure (bit_and data_ 0x1ff)

-- A byte is received while a transmission is in progress.
unfoldable pub receive : Exec Board Unit
unfolding uart_port_rd
receive = do
  udr_temp ← on_console uart_port_rd
  on_uart (modify (λ u. record u { udr_rx = u8 udr_temp }))
  on_uart_intr (
      modify (λ u. record u {
        ucr =
            if is_set u.ucr mask_chr9 && is_set udr_temp 0x100
            then bit_or u.ucr mask_rxb8
            else bit_and u.ucr (complement mask_rxb8);
      }))

unfoldable pub uart_read : ℕ → Exec Board ℕ
unfolding receive
uart_read addr = do
  uart ← gets (λ b. b.uart)
  uart_t ← gets (λ b. b.uart_intr)
  if addr == uart.udr_addr
      then (if is_uart_intr uart.related_addr uart_t
          then (do
            on_uart_intr (modify (λ u. record u { usr = bit_and u.usr (complement mask_rxc) }))
            if uart.clk_cb then receive else pure tt
            gets (λ b. b.uart.udr_rx))
          else fault)
      else stop

-- The clocks of a character, with its start and stop bits.
abbrev pub char_clks : ℕ → ℕ
char_clks ucr = if is_set ucr mask_chr9 then 11 else 10

unfoldable pub start_uart : ℕ → Exec Board Unit
unfolding avr_core_clk_cb_add
start_uart val = do
  on_uart_intr (
      modify (λ u.
        if is_set u.usr mask_udre
        then record u {
          usr = bit_and u.usr (complement mask_udre);
          usr_shadow = bit_and u.usr_shadow (complement mask_udre);
        }
        else record u { usr = bit_or u.usr mask_udre; usr_shadow = bit_or u.usr_shadow mask_udre }))
  uart_t ← gets (λ b. b.uart_intr)
  on_uart (modify (λ u. record u { udr_tx = val; divisor = u16 ((uart_t.ubrr + 1) * 16) }))
  installed ← gets (λ b. b.uart.clk_cb)
  if installed
      then pure tt
      else do on_uart (modify (λ u. record u { clk_cb = true })); avr_core_clk_cb_add uart_clk_incr
  on_uart (modify (λ u. record u { tcnt = char_clks uart_t.ucr }))

unfoldable pub uart_write : ℕ → ℕ → Exec Board Unit
unfolding start_uart
uart_write addr val = do
  uart ← gets (λ b. b.uart)
  uart_t ← gets (λ b. b.uart_intr)
  if addr == uart.udr_addr
      then (if is_uart_intr uart.related_addr uart_t then start_uart val else fault)
      else stop

unfoldable pub uart_reset : Exec Uart Unit
uart_reset =
    modify (λ u. record u { clk_cb = false; udr_rx = 0; udr_tx = 0; tcnt = 0; divisor = 0 })

-- The end of a character.
unfoldable pub finish_char : Exec Board CbRet
finish_char = do
  uart ← gets (λ b. b.uart)
  uart_t ← gets (λ b. b.uart_intr)
  if is_uart_intr uart.related_addr uart_t
      then (if is_set uart_t.usr mask_udre
          then (do
            on_uart_intr (modify (λ u. record u { usr = bit_or u.usr mask_txc }))
            on_uart (modify (λ u. record u { clk_cb = false }))
            pure remove)
          else do
            on_uart_intr (
                modify (λ u. record u {
                  usr = bit_or u.usr mask_udre;
                  usr_shadow = bit_or u.usr_shadow mask_udre;
                }))
            on_uart (modify (λ u. record u { tcnt = char_clks uart_t.ucr }))
            pure retain)
      else fault

unfoldable pub uart_clk_incr_cb : ℕ → Exec Board CbRet
unfolding finish_char
uart_clk_incr_cb ck = do
  uart ← gets (λ b. b.uart)
  let next = u16 (uart.tcnt + 0x10000 - truth (ck % uart.divisor == 0))
  if not uart.clk_cb then pure remove else if uart.divisor == 0 then stop else do
    on_uart (modify (λ u. record u { tcnt = next }))
    if next == 0 && not (next == uart.tcnt) then finish_char else pure retain
