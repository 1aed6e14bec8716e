-- ===== src/Storage.antt =====
-- storage.c, storage.h and the word access of flash.c, flash.h: an array of bytes that starts at
-- address `base`.
pub mod Words
use oseid_simulavr.Base.{
  ℕ, ◌+◌, ◌-◌, ◌*◌, ◌^◌, ◌/◌, ◌%◌, bit_and, bit_or, Option, none, some, Bool, true, false, ◌&&◌,
  ltb, leb, if◌then◌else◌, ℤ, pos, negsuc, ◌+ℤ◌, update, u8, u16, ◌<<<◌, ◌>>>◌,
}
use oseid_simulavr.Exec.{
  Outcome, ok, avr_error, undefined, Exec, pure, stop, fault, gets, modify, ◌>>=◌, ◌>>◌,
}

pub record Storage : Type 0 where
  pub base : ℕ
  pub size : ℕ
  pub bytes : ℕ → ℕ

-- `addr - stor->base`, if the test of the bounds passes.
unfoldable pub storage_index : ℤ → Storage → Option ℕ
storage_index (pos a) s =
    if leb s.base a && ltb (a - s.base) s.size then some (a - s.base) else none
storage_index (negsuc a) s = none

-- `data` has `size` elements.
unfoldable pub data_get : ℕ → Exec Storage ℕ
data_get i s = if ltb i s.size then ok (s.bytes i, s) else undefined

unfoldable pub data_set : ℕ → ℕ → Exec Storage Unit
data_set i v s =
    if ltb i s.size then ok (tt, record s { bytes = update s.bytes i v }) else undefined

abbrev pub checked : ℤ → Exec Storage ℕ
checked addr s = elim (storage_index addr s) [ none ↦ avr_error | some i ↦ ok (i, s) ]

unfoldable pub storage_readb : ℤ → Exec Storage ℕ
unfolding storage_index data_get
storage_readb addr = do i ← checked addr; data_get i

unfoldable pub storage_readw : ℤ → Exec Storage ℕ
unfolding storage_index data_get
storage_readw addr = do
  i ← checked addr
  bh ← data_get i
  bl ← data_get (i + 1)
  pure (u16 (bit_or (bh <<< 8) bl))

unfoldable pub storage_writeb : ℤ → ℕ → Exec Storage Unit
unfolding storage_index data_set
storage_writeb addr val = do i ← checked addr; data_set i val

unfoldable pub storage_writew : ℤ → ℕ → Exec Storage Unit
unfolding storage_index data_set
storage_writew addr val = do
  i ← checked addr
  data_set i (u8 (bit_and (val >>> 8) 0xff))
  data_set (i + 1) (u8 (bit_and val 0xff))

-- `addr * 2`
abbrev pub twice : ℤ → ℤ
twice a = a +ℤ a

unfoldable pub flash_read : ℤ → Exec Storage ℕ
unfolding storage_readw
flash_read addr = storage_readw (twice addr)

unfoldable pub flash_write : ℤ → ℕ → Exec Storage Unit
unfolding storage_writew
flash_write addr val = storage_writew (twice addr) val

unfoldable pub flash_write_lo8 : ℤ → ℕ → Exec Storage Unit
unfolding storage_writeb
flash_write_lo8 addr val = storage_writeb (twice addr +ℤ pos 1) val

unfoldable pub flash_write_hi8 : ℤ → ℕ → Exec Storage Unit
unfolding storage_writeb
flash_write_hi8 addr val = storage_writeb (twice addr) val
