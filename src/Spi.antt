-- ===== src/Spi.antt =====
-- spi.c: the serial peripheral interface with its interrupt register, and the bytes that the user types
-- and sees.
pub mod Transfer
use oseid_simulavr.Base.{
  ℕ, ◌+◌, ◌-◌, Bool, true, false, not, ◌||◌, ◌&&◌, List, [], ◌∷◌, ◌++◌, ◌==◌, if◌then◌else◌,
  bit_and, bit_or, complement, u8, truth,
}
use oseid_simulavr.Exec.{Exec, pure, stop, fault, gets, modify, ◌>>=◌, ◌>>◌}
use oseid_simulavr.Irq.{avr_core_irq_raise}
use oseid_simulavr.Board.{
  SpiIntr, Spi, Console, Board, spi_intr, spi_clk_incr, on_core, on_spi_intr, on_spi, on_console,
  avr_core_clk_cb_add, avr_core_async_cb_add, CbRet, retain, remove,
}

abbrev pub mask_spe : ℕ
mask_spe = 0x40

abbrev pub mask_spie : ℕ
mask_spie = 0x80

abbrev pub mask_wcol : ℕ
mask_wcol = 0x40

abbrev pub mask_spif : ℕ
mask_spif = 0x80

abbrev pub spi_stc : ℕ
spi_stc = 23

-- `spsr_read |= mask` if the bit is set in `spsr`.
abbrev pub seen : ℕ → ℕ → ℕ → ℕ
seen spsr mask read = if bit_and spsr mask == 0 then read else bit_or read mask

unfoldable pub spi_intr_read : ℕ → Exec SpiIntr ℕ
spi_intr_read addr = do
  spi ← gets (λ s. s)
  if addr == spi.spcr_addr
      then pure spi.spcr
      else if addr == spi.spsr_addr
      then (do
        modify (λ s. record s {
          spsr_read = seen spi.spsr mask_wcol (seen spi.spsr mask_spif spi.spsr_read);
        })
        pure spi.spsr)
      else stop

-- A write that enables the interface registers a call back even if there is one.
unfoldable pub spi_intr_write : ℕ → ℕ → Exec Board Unit
unfolding avr_core_async_cb_add
spi_intr_write addr val = do
  spi ← gets (λ b. b.spi_intr)
  if addr == spi.spcr_addr
      then (do
        on_spi_intr (modify (λ s. record s { spcr = val }))
        if bit_and val mask_spe == 0
            then on_spi_intr (modify (λ s. record s { intr_cb = false }))
            else do
              on_spi_intr (modify (λ s. record s { intr_cb = true }))
              avr_core_async_cb_add spi_intr)
      else stop

unfoldable pub spi_intr_reset : Exec SpiIntr Unit
spi_intr_reset = modify (λ s. record s { intr_cb = false; spcr = 0; spsr = 0; spsr_read = 0 })

-- Whether the interrupt is enabled and has occurred.
abbrev pub is_complete : SpiIntr → Bool
is_complete s =
    not (bit_and s.spcr mask_spe == 0)
    && (not (bit_and s.spcr mask_spie == 0) && not (bit_and s.spsr mask_spif == 0))

unfoldable pub spi_intr_cb : Exec Board CbRet
unfolding avr_core_irq_raise
spi_intr_cb = do
  spi ← gets (λ b. b.spi_intr)
  if not spi.intr_cb then pure remove else do
    if is_complete spi
        then (do
          on_core (avr_core_irq_raise spi_stc)
          on_spi_intr (modify (λ s. record s { spsr = 0 })))
        else pure tt
    pure retain

-- The device that `avr_core_get_vdev_by_addr` finds for `rel_addr` is the interrupt register.
abbrev pub is_interface : ℕ → SpiIntr → Bool
is_interface addr s = addr == s.spcr_addr || addr == s.spsr_addr

-- The bits of SPSR that were read are cleared.
unfoldable pub clear_read : Exec SpiIntr Unit
clear_read = do
  spi_ti ← gets (λ s. s)
  if spi_ti.spsr_read == 0
      then pure tt
      else modify
          (λ s. record s { spsr = bit_and s.spsr (complement spi_ti.spsr_read); spsr_read = 0 })

unfoldable pub spi_read : ℕ → Exec Board ℕ
unfolding clear_read
spi_read addr = do
  spi ← gets (λ b. b.spi)
  spi_ti ← gets (λ b. b.spi_intr)
  if addr == spi.spdr_addr
      then (if is_interface spi.rel_addr spi_ti
          then (do on_spi_intr clear_read; pure spi.spdr)
          else fault)
      else stop

-- The user types lines until one holds a number.
unfoldable pub spi_port_rd : Exec Console ℕ
spi_port_rd = do
  data_ ← gets (λ c. c.typed c.taken)
  modify (λ c. record c { taken = c.taken + 1 })
  pure (bit_and data_ 0xff)

unfoldable pub spi_port_wr : ℕ → Exec Console Unit
spi_port_wr val = modify (λ c. record c { wrote = c.wrote ++ (val ∷ []) })

-- The divisor for the two bits of the clock select.
abbrev pub spi_divisor : ℕ → ℕ
spi_divisor cs = if cs == 0 then 4 else if cs == 1 then 16 else if cs == 2 then 64 else 128

unfoldable pub start_spi : ℕ → ℕ → Exec Board Unit
unfolding avr_core_clk_cb_add spi_port_rd clear_read
start_spi tcnt val = do
  on_spi_intr clear_read
  if tcnt == 0
      then pure tt
      else on_spi_intr (modify (λ s. record s { spsr = bit_or s.spsr mask_wcol }))
  spcr ← gets (λ b. b.spi_intr.spcr)
  on_spi (modify (λ s. record s { spdr = val; divisor = spi_divisor (bit_and spcr 3) }))
  installed ← gets (λ b. b.spi.clk_cb)
  if installed
      then pure tt
      else do on_spi (modify (λ s. record s { clk_cb = true })); avr_core_clk_cb_add spi_clk_incr
  on_spi (modify (λ s. record s { tcnt = 8 }))
  byte ← on_console spi_port_rd
  on_spi (modify (λ s. record s { spdr_in = byte }))

unfoldable pub spi_write : ℕ → ℕ → Exec Board Unit
unfolding start_spi
spi_write addr val = do
  spi ← gets (λ b. b.spi)
  spi_ti ← gets (λ b. b.spi_intr)
  if addr == spi.spdr_addr
      then (if is_interface spi.rel_addr spi_ti then start_spi spi.tcnt val else fault)
      else stop

unfoldable pub spi_reset : Exec Spi Unit
spi_reset = modify (λ s. record s { clk_cb = false; spdr = 0; tcnt = 0; divisor = 0 })

-- The end of a transfer.
unfoldable pub finish_spi : Exec Board CbRet
unfolding spi_port_wr
finish_spi = do
  spi ← gets (λ b. b.spi)
  spi_ti ← gets (λ b. b.spi_intr)
  if is_interface spi.rel_addr spi_ti
      then (do
        on_spi_intr (modify (λ s. record s { spsr = bit_or s.spsr mask_spif }))
        on_console (spi_port_wr spi.spdr)
        on_spi (modify (λ s. record s { spdr = s.spdr_in; clk_cb = false }))
        pure remove)
      else fault

unfoldable pub spi_clk_incr_cb : ℕ → Exec Board CbRet
unfolding finish_spi
spi_clk_incr_cb ck = do
  spi ← gets (λ b. b.spi)
  let next = u8 (spi.tcnt + 256 - truth (bit_and ck (spi.divisor - 1) == 0))
  if not spi.clk_cb then pure remove else if spi.divisor == 0 then stop else do
    on_spi (modify (λ s. record s { tcnt = next }))
    if next == 0 && not (next == spi.tcnt) then finish_spi else pure retain
