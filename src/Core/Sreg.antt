-- ===== src/Core/Sreg.antt =====
-- The status register and the working registers: register.h and `set_bit_in_byte` of utils.h.
pub mod Laws
use oseid_simulavr.Base.{
  ℕ, zero, suc, ◌*◌, ◌/◌, ◌%◌, ◌^◌, ◌-◌, bit_and, bit_or, ℤ, pos, negsuc, Bool, true, false, not,
  Option, none, some, ltb, ◌==◌, if◌then◌else◌, update, u8, ◌<<<◌, complement, truth,
}
use oseid_simulavr.Exec.{Outcome, ok, undefined, Exec, gets, modify, pure, ◌>>=◌}
use oseid_simulavr.Core.State.{AvrCore}

-- `enum _sreg_bits`
pub data SregBit : Type 0 where
  sreg_c sreg_z sreg_n sreg_v sreg_s sreg_h sreg_t sreg_i : SregBit

unfoldable pub bit_number : SregBit → ℕ
bit_number sreg_c = 0
bit_number sreg_z = 1
bit_number sreg_n = 2
bit_number sreg_v = 3
bit_number sreg_s = 4
bit_number sreg_h = 5
bit_number sreg_t = 6
bit_number sreg_i = 7

-- `val != 0`
abbrev pub nonzero : ℕ → Bool
nonzero v = not (v == 0)

unfoldable pub set_bit_in_byte : ℕ → ℕ → ℕ → ℕ
set_bit_in_byte src bit val =
    u8 (bit_or (bit_and src (complement (1 <<< bit))) (truth (nonzero val) <<< bit))

unfoldable pub sreg_get : Exec AvrCore ℕ
sreg_get = gets (λ c. c.sreg)

unfoldable pub sreg_set : ℕ → Exec AvrCore Unit
sreg_set val = modify (λ c. record c { sreg = val })

-- The value of `!!(sreg->sreg.reg & (1 << bit))`.
unfoldable pub sreg_bit : ℕ → ℕ → ℕ
sreg_bit reg bit = truth (nonzero (bit_and reg (1 <<< bit)))

unfoldable pub sreg_get_bit : ℕ → Exec AvrCore ℕ
unfolding sreg_bit
sreg_get_bit bit = gets (λ c. sreg_bit c.sreg bit)

unfoldable pub sreg_set_bit : ℕ → ℕ → Exec AvrCore Unit
unfolding set_bit_in_byte
sreg_set_bit bit val = modify (λ c. record c { sreg = set_bit_in_byte c.sreg bit val })

-- `gpwr->reg` has 32 elements; without CHECK_REGISTER_BOUNDS other indices are not tested.
unfoldable pub gpwr_get : ℤ → Exec AvrCore ℕ
gpwr_get (pos r) c = if ltb r 32 then ok (c.gpwr r, c) else undefined
gpwr_get (negsuc r) c = undefined

unfoldable pub gpwr_set : ℤ → ℕ → Exec AvrCore Unit
gpwr_set (pos r) val c =
    if ltb r 32 then ok (tt, record c { gpwr = update c.gpwr r (u8 val) }) else undefined
gpwr_set (negsuc r) val c = undefined

unfoldable pub rampz_get : Exec AvrCore ℕ
rampz_get c = elim c.rampz [ none ↦ ok (0, c) | some v ↦ ok (v, c) ]

unfoldable pub rampz_set : ℕ → Exec AvrCore Unit
rampz_set v c = elim c.rampz [
  | none ↦ ok (tt, c)
  | some w ↦ ok (tt, record c { rampz = some (u8 v) })
]
