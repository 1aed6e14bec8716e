-- ===== src/Adc.antt =====
-- adc.c: the converter of analog signals with its interrupt register.
use oseid_simulavr.Base.{
  ℕ, ◌+◌, ◌-◌, ◌*◌, ◌%◌, Bool, true, false, not, ◌||◌, ◌&&◌, ◌==◌, if◌then◌else◌, bit_and, bit_or,
  complement, ◌>>>◌, u16, truth,
}
use oseid_simulavr.Exec.{Exec, pure, stop, fault, gets, modify, ◌>>=◌, ◌>>◌}
use oseid_simulavr.Irq.{avr_core_irq_raise}
use oseid_simulavr.Board.{
  AdcIntr, Adc, adc_intr, adc_clk_incr, on_adc_intr, on_adc, Console, Board, on_core, on_console,
  avr_core_clk_cb_add, avr_core_async_cb_add, CbRet, retain, remove,
}

abbrev pub mask_adie : ℕ
mask_adie = 8

abbrev pub mask_adif : ℕ
mask_adif = 0x10

abbrev pub mask_adfr : ℕ
mask_adfr = 0x20

abbrev pub mask_adsc : ℕ
mask_adsc = 0x40

abbrev pub mask_aden : ℕ
mask_aden = 0x80

-- The index of `ADC` in the table of interrupts.
abbrev pub adc_vect : ℕ
adc_vect = 34

unfoldable pub adc_intr_read : ℕ → Exec AdcIntr ℕ
adc_intr_read addr = do
  adc ← gets (λ a. a)
  if addr == adc.adcsr_addr
      then pure adc.adcsr
      else if addr == adc.admux_addr
      then pure adc.admux
      else stop

-- The divisor for the three bits of the prescaler select.
abbrev pub adc_divisor : ℕ → ℕ
adc_divisor ps =
    if ps == 2
    then 4
    else if ps == 3
    then 8
    else if ps == 4
    then 16
    else if ps == 5
    then 32
    else if ps == 6
    then 64
    else if ps == 7
    then 128
    else 2

-- The device that `avr_core_get_vdev_by_addr` finds for `rel_addr` is the converter.
abbrev pub is_adc : ℕ → Adc → Bool
is_adc addr a = addr == a.adcl_addr || addr == a.adch_addr

unfoldable pub start_adc : Exec Board Unit
unfolding avr_core_clk_cb_add avr_core_async_cb_add
start_adc = do
  adc ← gets (λ b. b.adc_intr)
  adc_d ← gets (λ b. b.adc)
  if adc.intr_cb then pure tt else do
    on_adc_intr (modify (λ a. record a { intr_cb = true }))
    avr_core_async_cb_add adc_intr
  if is_adc adc.rel_addr adc_d
      then (do
        if adc_d.clk_cb then pure tt else do
          on_adc (modify (λ a. record a { clk_cb = true }))
          avr_core_clk_cb_add adc_clk_incr
        on_adc (
            modify (λ a. record a { adc_count = 13; divisor = adc_divisor (bit_and adc.adcsr 7) })))
      else fault

unfoldable pub adc_intr_write : ℕ → ℕ → Exec Board Unit
unfolding start_adc
adc_intr_write addr val = do
  adc ← gets (λ b. b.adc_intr)
  if addr == adc.adcsr_addr
      then (do
        on_adc_intr (modify (λ a. record a { adcsr = bit_and val (complement mask_adif) }))
        if not (bit_and val mask_adsc == 0) && not (bit_and val mask_aden == 0)
            then start_adc
            else on_adc_intr (modify (λ a. record a { intr_cb = false })))
      else if addr == adc.admux_addr
      then on_adc_intr (modify (λ a. record a { admux = val }))
      else stop

unfoldable pub adc_intr_reset : Exec AdcIntr Unit
adc_intr_reset = modify (λ a. record a { intr_cb = false; adcsr = 0; admux = 0 })

-- Whether the interrupt is enabled and has occurred.
abbrev pub is_converted : ℕ → Bool
is_converted adcsr =
    not (bit_and adcsr mask_aden == 0)
    && (not (bit_and adcsr mask_adie == 0) && not (bit_and adcsr mask_adif == 0))

unfoldable pub adc_intr_cb : Exec Board CbRet
unfolding avr_core_irq_raise
adc_intr_cb = do
  adc ← gets (λ b. b.adc_intr)
  if not adc.intr_cb then pure remove else do
    if is_converted adc.adcsr
        then (do
          on_core (avr_core_irq_raise adc_vect)
          on_adc_intr (modify (λ a. record a { adcsr = bit_and a.adcsr (complement mask_adif) })))
        else pure tt
    pure retain

unfoldable pub adc_read : ℕ → Exec Adc ℕ
adc_read addr = do
  adc ← gets (λ a. a)
  if addr == adc.adcl_addr
      then pure adc.adcl
      else if addr == adc.adch_addr
      then pure adc.adch
      else stop

unfoldable pub adc_write : ℕ → ℕ → Exec Adc Unit
adc_write addr val = stop

unfoldable pub adc_reset : Exec Adc Unit
adc_reset =
    modify
      (λ a. record a { clk_cb = false; adcl = 0; adch = 0; adc_count = 0; adc_in = 0; divisor = 0 })

-- The user types lines until one holds a number, here as the bits of an `int`.
unfoldable pub adc_port_rd : Exec Console ℕ
adc_port_rd = do
  data_ ← gets (λ c. c.typed c.taken)
  modify (λ c. record c { taken = c.taken + 1 })
  pure (bit_and data_ 0x3ff)

-- The device that `avr_core_get_vdev_by_addr` finds for `rel_addr` is the interrupt register.
abbrev pub is_adc_intr : ℕ → AdcIntr → Bool
is_adc_intr addr a = addr == a.adcsr_addr || addr == a.admux_addr

-- The end of a conversion.
unfoldable pub finish_adc : Exec Board CbRet
unfolding adc_port_rd
finish_adc = do
  adc ← gets (λ b. b.adc)
  adc_ti ← gets (λ b. b.adc_intr)
  if is_adc_intr adc.rel_addr adc_ti
      then (do
        on_adc_intr (
            modify
              (λ a. record a { adcsr = bit_and (bit_or a.adcsr mask_adif) (complement mask_adsc) }))
        sample ← on_console adc_port_rd
        on_adc (
            modify (λ a. record a {
              adc_in = sample;
              adcl = bit_and sample 0xff;
              adch = bit_and (sample >>> 8) 3;
            }))
        if bit_and adc_ti.adcsr mask_adfr == 0
            then (do on_adc (modify (λ a. record a { clk_cb = false })); pure remove)
            else do on_adc (modify (λ a. record a { adc_count = 13 })); pure retain)
      else fault

unfoldable pub adc_clk_incr_cb : ℕ → Exec Board CbRet
unfolding finish_adc
adc_clk_incr_cb ck = do
  adc ← gets (λ b. b.adc)
  let period = adc.divisor * adc.u_divisor
  let next = u16 (adc.adc_count + 0x10000 - truth (ck % period == 0))
  if not adc.clk_cb
      then pure remove
      else if adc.divisor == 0
      then stop
      else if period == 0
      then fault
      else do
        on_adc (modify (λ a. record a { adc_count = next }))
        if next == 0 && not (next == adc.adc_count) then finish_adc else pure retain
