-- ===== src/OsEid.antt =====
-- OsEID.c: the EEPROM of 4096 bytes that the OsEID cards use, and gdb's access to it.
use oseid_simulavr.Base.{
  ℕ, Option, none, some, ◌+◌, not, ◌==◌, ltb, if◌then◌else◌, bit_and, bit_or, ◌<<<◌, update,
}
use oseid_simulavr.Exec.{Exec, pure, stop, gets, modify, ◌>>=◌}

pub record EEprom : Type 0 where
  pub addr : ℕ
  pub eedr : ℕ
  pub eearl : ℕ
  pub eearh : ℕ
  pub mem : ℕ → ℕ

-- `(ee->EEARH << 8 | ee->EEARL) & 0xfff`
abbrev pub ee_index : EEprom → ℕ
ee_index ee = bit_and (bit_or (ee.eearh <<< 8) ee.eearl) 0xfff

unfoldable pub ee_read : ℕ → Exec EEprom ℕ
ee_read addr = do
  ee ← gets (λ e. e)
  if addr == ee.addr + 1
      then pure ee.eedr
      else if addr == ee.addr + 2
      then pure ee.eearl
      else if addr == ee.addr + 3
      then pure (bit_and ee.eearh 15)
      else if addr == ee.addr
      then pure 0
      else stop

-- A write to EECR.
unfoldable pub ee_control : ℕ → Exec EEprom Unit
ee_control val =
    if val == 1
    then modify (λ e. record e { eedr = e.mem (ee_index e) })
    else if not (bit_and val 2 == 0)
    then modify (λ e. record e { mem = update e.mem (ee_index e) e.eedr })
    else pure tt

unfoldable pub ee_write : ℕ → ℕ → Exec EEprom Unit
unfolding ee_control
ee_write addr val = do
  ee ← gets (λ e. e)
  if addr == ee.addr + 2
      then modify (λ e. record e { eearl = val })
      else if addr == ee.addr + 3
      then modify (λ e. record e { eearh = val })
      else if addr == ee.addr + 1
      then modify (λ e. record e { eedr = val })
      else if addr == ee.addr
      then ee_control val
      else stop

unfoldable pub ee_reset : Exec EEprom Unit
ee_reset = pure tt

-- `ee_mem` is null, here `none`, on a device without this EEPROM. The address is not negative.
abbrev pub mem_at : ℕ → Option EEprom → ℕ
mem_at adr none = 0
mem_at adr (some e) = if ltb adr 4096 then e.mem adr else 0

abbrev pub mem_put : ℕ → ℕ → Option EEprom → Option EEprom
mem_put adr val none = none
mem_put adr val (some e) =
    some (if ltb adr 4096 then record e { mem = update e.mem adr val } else e)

unfoldable pub gdb_ee_read : ℕ → Exec (Option EEprom) ℕ
gdb_ee_read adr = gets (mem_at adr)

unfoldable pub gdb_ee_write : ℕ → ℕ → Exec (Option EEprom) Unit
gdb_ee_write adr val = modify (mem_put adr val)
