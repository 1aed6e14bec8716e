-- ===== src/Eeprom.antt =====
-- eeprom.c: the EEPROM with its control register, and the two call backs that end a write operation
-- and close the window of the master write enable bit.
pub mod Write
pub mod Window
pub mod Events
pub mod Others
pub mod Locked
use oseid_simulavr.Base.{
  ℕ, zero, suc, ◌+◌, ◌-◌, ◌*◌, ◌/◌, ◌%◌, ◌^◌, pos, Bool, true, false, not, ◌||◌, List, [], ◌∷◌,
  ◌==◌, ltb, if◌then◌else◌, bit_and, bit_or, complement, ◌<<<◌, update,
}
use oseid_simulavr.Exec.{Exec, pure, stop, fault, gets, modify, ◌>>=◌, ◌>>◌}
use oseid_simulavr.Storage.{Storage, storage_readb, storage_writeb}
use oseid_simulavr.Board.{
  EeProm, eeprom_wr_op, eeprom_mwe_clr, Board, on_stor, on_eeprom, avr_core_clk_cb_add,
  avr_core_async_cb_add, CbRet, retain, remove,
}

abbrev pub mask_eere : ℕ
mask_eere = 1

abbrev pub mask_eewe : ℕ
mask_eewe = 2

abbrev pub mask_eemwe : ℕ
mask_eemwe = 4

abbrev pub eecr_addr : ℕ
eecr_addr = 0x3c

abbrev pub eedr_addr : ℕ
eedr_addr = 0x3d

abbrev pub eearl_addr : ℕ
eearl_addr = 0x3e

abbrev pub eearh_addr : ℕ
eearh_addr = 0x3f

abbrev pub eeprom_wr_op_clks : ℕ
eeprom_wr_op_clks = 2500

abbrev pub eeprom_mwe_clks : ℕ
eeprom_mwe_clks = 4

-- `(ee->eearh << 8) | ee->eearl`
abbrev pub eear : EeProm → ℕ
eear e = bit_or (e.eearh <<< 8) e.eearl

abbrev pub bit_is_set : ℕ → ℕ → Bool
bit_is_set x mask = not (bit_and x mask == 0)

unfoldable pub eeprom_reg_read : ℕ → Exec EeProm ℕ
eeprom_reg_read addr =
    if addr == eecr_addr
    then gets (λ e. e.eecr)
    else if addr == eedr_addr
    then gets (λ e. e.eedr)
    else if addr == eearl_addr
    then gets (λ e. e.eearl)
    else if addr == eearh_addr
    then gets (λ e. e.eearh)
    else stop

unfoldable pub eeprom_reg_reset : Exec EeProm Unit
eeprom_reg_reset = modify (λ e. record e {
  wr_op_cb = false;
  wr_op_clk = 0;
  mwe_clr_cb = false;
  mwe_clk = 0;
  eecr = 0;
  eedr = 0;
  eearl = 0;
  eearh = 0;
})

-- The case `mask_EERE` of `eeprom_wr_eecr`.
unfoldable pub read_byte : Exec Board Unit
unfolding storage_readb
read_byte = do
  addr ← gets (λ b. eear b.eeprom)
  datum ← on_eeprom (on_stor (storage_readb (pos addr)))
  on_eeprom (modify (λ e. record e { eedr = datum }))

-- The case `mask_EEWE`.
unfoldable pub start_write : Exec Board Unit
unfolding avr_core_async_cb_add
start_write = do
  ee ← gets (λ b. b.eeprom)
  let no_mwe = bit_and ee.eecr_mask mask_eemwe == 0
  if no_mwe || bit_is_set (bit_and ee.eecr ee.eecr_mask) mask_eemwe
      then (do
        on_eeprom (
            modify
              (λ e. record e { eecr = bit_or e.eecr mask_eewe; wr_op_clk = eeprom_wr_op_clks }))
        if ee.wr_op_cb then pure tt else do
          on_eeprom (modify (λ e. record e { wr_op_cb = true }))
          avr_core_async_cb_add eeprom_wr_op)
      else pure tt

-- The case `mask_EEMWE`.
unfoldable pub open_window : Exec Board Unit
unfolding avr_core_clk_cb_add
open_window = do
  ee ← gets (λ b. b.eeprom)
  on_eeprom (modify (λ e. record e { eecr = bit_or e.eecr mask_eemwe; mwe_clk = eeprom_mwe_clks }))
  if ee.mwe_clr_cb then pure tt else do
    on_eeprom (modify (λ e. record e { mwe_clr_cb = true }))
    avr_core_clk_cb_add eeprom_mwe_clr

-- `eeprom_wr_eecr`, with the number of calls of itself that are left.
unfoldable pub wr_eecr_loop : ℕ → ℕ → Exec Board Unit
unfolding read_byte start_write open_window
wr_eecr_loop zero val = fault
wr_eecr_loop (suc calls) val = do
  ee ← gets (λ b. b.eeprom)
  let bits = bit_and val ee.eecr_mask
  let again = wr_eecr_loop calls mask_eewe
  if bits == mask_eere
      then read_byte
      else if bits == mask_eewe
      then start_write
      else if bits == mask_eemwe
      then open_window
      else if bits == mask_eemwe + mask_eewe
      then again
      else stop

-- The second call has the value `mask_EEWE`, which leads to no third.
unfoldable pub eeprom_wr_eecr : ℕ → Exec Board Unit
unfolding wr_eecr_loop
eeprom_wr_eecr val = wr_eecr_loop 2 val

unfoldable pub eeprom_reg_write : ℕ → ℕ → Exec Board Unit
unfolding eeprom_wr_eecr
eeprom_reg_write addr val = do
  ee ← gets (λ b. b.eeprom)
  if bit_is_set ee.eecr mask_eewe
      then stop
      else if addr == eecr_addr
      then eeprom_wr_eecr val
      else if addr == eedr_addr
      then on_eeprom (modify (λ e. record e { eedr = val }))
      else if addr == eearl_addr
      then on_eeprom (modify (λ e. record e { eearl = val }))
      else if addr == eearh_addr
      then on_eeprom (modify (λ e. record e { eearh = val }))
      else stop

unfoldable pub eeprom_wr_op_cb : Exec EeProm CbRet
unfolding storage_writeb
eeprom_wr_op_cb = do
  ee ← gets (λ e. e)
  if ltb 0 ee.wr_op_clk
      then (do modify (λ e. record e { wr_op_clk = ee.wr_op_clk - 1 }); pure retain)
      else do
        on_stor (storage_writeb (pos (eear ee)) ee.eedr)
        modify (λ e. record e { eecr = bit_and ee.eecr (complement mask_eewe); wr_op_cb = false })
        pure remove

unfoldable pub eeprom_mwe_clr_cb : Exec EeProm CbRet
eeprom_mwe_clr_cb = do
  ee ← gets (λ e. e)
  if ltb 0 ee.mwe_clk
      then (do modify (λ e. record e { mwe_clk = ee.mwe_clk - 1 }); pure retain)
      else do
        modify
            (λ e. record e { eecr = bit_and ee.eecr (complement mask_eemwe); mwe_clr_cb = false })
        pure remove

unfoldable pub eeprom_get_size : EeProm → ℕ
eeprom_get_size e = e.stor.size

-- The loop of `eeprom_construct`, for the bytes that are left.
unfoldable pub fill_loop : ℕ → ℕ → Exec EeProm Unit
unfolding storage_writeb
fill_loop i zero = pure tt
fill_loop i (suc left) = do on_stor (storage_writeb (pos i) 0xff); fill_loop (i + 1) left

abbrev pub eeprom_alloc : ℕ → (ℕ → ℕ) → EeProm
eeprom_alloc size garbage = record {
  stor = record { base = 0; size = size; bytes = garbage };
  eecr = 0;
  eecr_mask = 0;
  eedr = 0;
  eearl = 0;
  eearh = 0;
  wr_op_cb = false;
  wr_op_clk = 0;
  mwe_clr_cb = false;
  mwe_clk = 0;
}

-- From the allocated object; `garbage` is what the new array holds.
unfoldable pub eeprom_construct : ℕ → ℕ → Exec EeProm Unit
unfolding fill_loop eeprom_reg_reset
eeprom_construct size eecr_mask = do
  fill_loop 0 size
  modify (λ e. record e { eecr_mask = eecr_mask })
  eeprom_reg_reset

-- The loop of `eeprom_load_from_bin_file` over the bytes of the file.
unfoldable pub load_loop : ℕ → List ℕ → Exec EeProm Unit
unfolding storage_writeb
load_loop addr [] = pure tt
load_loop addr (datum ∷ rest) = do
  on_stor (storage_writeb (pos addr) datum)
  load_loop (addr + 1) rest
