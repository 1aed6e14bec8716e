-- ===== src/Instructions/Flags.antt =====
-- The helpers of the handlers: carry and overflow from the operands' bits, the update of the status
-- byte, and what nearly every handler ends with.
pub mod Laws
pub mod Status
pub mod Spec
use oseid_simulavr.Base.{
  ℕ, ◌+◌, ◌/◌, ◌^◌, bit_and, bit_or, bit_xor, ℤ, pos, List, [], ◌∷◌, ◌>>>◌, complement, truth, ◌==◌,
}
use oseid_simulavr.Exec.{Exec, pure, ◌>>=◌, ◌>>◌}
use oseid_simulavr.Core.State.{AvrCore}
use oseid_simulavr.Core.Sreg.{SregBit, bit_number, set_bit_in_byte}
use oseid_simulavr.Core.Counter.{pc_incr, inst_cks_set}
use oseid_simulavr.Decoder.Op.{Op, Result, executed}

-- `x >> b & 0x1`
abbrev pub bit_at : ℕ → ℕ → ℕ
bit_at x b = bit_and (x >>> b) 0x1

unfoldable pub get_add_carry : ℕ → ℕ → ℕ → ℕ → ℕ
get_add_carry res rd rr b =
    let resb = bit_at res b in
    let rdb = bit_at rd b in
    let rrb = bit_at rr b in
    bit_or (bit_or (bit_and rdb rrb) (bit_and rrb (complement resb)))
      (bit_and (complement resb) rdb)

unfoldable pub get_add_overflow : ℕ → ℕ → ℕ → ℕ
get_add_overflow res rd rr =
    let res7 = bit_at res 7 in
    let rd7 = bit_at rd 7 in
    let rr7 = bit_at rr 7 in
    bit_or (bit_and (bit_and rd7 rr7) (complement res7))
      (bit_and (bit_and (complement rd7) (complement rr7)) res7)

unfoldable pub get_sub_carry : ℕ → ℕ → ℕ → ℕ → ℕ
get_sub_carry res rd rr b =
    let resb = bit_at res b in
    let rdb = bit_at rd b in
    let rrb = bit_at rr b in
    bit_or (bit_or (bit_and (complement rdb) rrb) (bit_and rrb resb))
      (bit_and resb (complement rdb))

unfoldable pub get_sub_overflow : ℕ → ℕ → ℕ → ℕ
get_sub_overflow res rd rr =
    let res7 = bit_at res 7 in
    let rd7 = bit_at rd 7 in
    let rr7 = bit_at rr 7 in
    bit_or (bit_and (bit_and rd7 (complement rr7)) (complement res7))
      (bit_and (bit_and (complement rd7) rr7) res7)

-- `get_compare_carry` and `get_compare_overflow` have the bodies of the `sub` functions.
unfoldable pub get_compare_carry : ℕ → ℕ → ℕ → ℕ → ℕ
get_compare_carry res rd rr b =
    let resb = bit_at res b in
    let rdb = bit_at rd b in
    let rrb = bit_at rr b in
    bit_or (bit_or (bit_and (complement rdb) rrb) (bit_and rrb resb))
      (bit_and resb (complement rdb))

unfoldable pub get_compare_overflow : ℕ → ℕ → ℕ → ℕ
get_compare_overflow res rd rr =
    let res7 = bit_at res 7 in
    let rd7 = bit_at rd 7 in
    let rr7 = bit_at rr 7 in
    bit_or (bit_and (bit_and rd7 (complement rr7)) (complement res7))
      (bit_and (bit_and (complement rd7) rr7) res7)

-- A sequence of `sreg = set_bit_in_byte (sreg, bit, value)`.
unfoldable pub set_flags : List (SregBit × ℕ) → ℕ → ℕ
set_flags [] sreg = sreg
set_flags ((bit, value) ∷ rest) sreg = set_flags rest (set_bit_in_byte sreg (bit_number bit) value)

-- `avr_core_PC_incr (core, 1); avr_core_inst_CKS_set (core, clocks); return op;`
unfoldable pub finish : ℕ → Op → Exec AvrCore Result
unfolding pc_incr inst_cks_set
finish clocks op = do pc_incr (pos 1); inst_cks_set clocks; pure (executed op)
