-- ===== src/Instructions/Pointer.antt =====
-- The index registers X, Y and Z as the handlers read and write them.
use oseid_simulavr.Base.{ℕ, ◌+◌, bit_and, ℤ, pos, Bool, u8, u16, ◌<<<◌, ◌>>>◌, ◌||◌, is_int}
use oseid_simulavr.Exec.{Exec, pure, ◌>>=◌, ◌>>◌}
use oseid_simulavr.Core.State.{AvrCore}
use oseid_simulavr.Core.Sreg.{gpwr_get, gpwr_set}

-- The index registers, by the number of their low byte: X is 26, Y is 28, Z is 30.
unfoldable pub index_get : ℕ → Exec AvrCore ℕ
unfolding gpwr_get
index_get r = do
  high ← gpwr_get (pos (r + 1))
  low ← gpwr_get (pos r)
  pure (u16 (high <<< 8 + low))

unfoldable pub index_set : ℕ → ℕ → Exec AvrCore Unit
unfolding gpwr_set
index_set r val = do
  gpwr_set (pos r) (u8 (bit_and val 0xff))
  gpwr_set (pos (r + 1)) (u8 (val >>> 8))

-- "Results of operation are undefined": the register is a half of the index.
abbrev pub is_half : ℤ → ℕ → Bool
is_half rd r = is_int rd r || is_int rd (r + 1)
