-- ===== src/Instructions/Arithmetic/Subtract/Status.antt =====
-- The status bytes after the subtractions and the comparisons.
use oseid_simulavr.Base.{
  ℕ, ◌+◌, ◌-◌, ◌/◌, ◌^◌, ◌<◌, arith, List, [], ◌∷◌, u8, bit_and, bit_xor, truth, ◌==◌,
  if◌then◌else◌, ◌&&◌,
}
use oseid_simulavr.Bits.{bit_and-one, bit_and-0xff, bit_xor_bits}
use oseid_simulavr.Core.Sreg.{
  SregBit, sreg_c, sreg_z, sreg_n, sreg_v, sreg_s, sreg_h, sreg_t, sreg_i, bit_number, nonzero,
}
use oseid_simulavr.Instructions.Flags.{bit_at, get_sub_carry, get_sub_overflow, set_flags}
use oseid_simulavr.Instructions.Flags.Laws.{
  get_sub_carry-eq-lt, get_sub_carry_half, get_sub_overflow-eq-out_of_range,
}
use oseid_simulavr.Instructions.Flags.Status.{flag, flag-lt, flag-set_flags}
use oseid_simulavr.Instructions.Flags.Spec.{IsDifferenceStatus}

-- The low byte of x - y - c.
abbrev pub difference : ℕ → ℕ → ℕ → ℕ
difference x y c = u8 (x + 2 ^ 9 - y - c)

-- The updates without Z that a subtraction makes before it comes to C.
abbrev pub difference_flags : ℕ → ℕ → ℕ → List (SregBit × ℕ) → List (SregBit × ℕ)
difference_flags x y res rest =
    let v = get_sub_overflow res x y in
    let n = bit_at res 7 in
    (sreg_h, get_sub_carry res x y 3) ∷ (sreg_v, v) ∷ (sreg_n, n) ∷ (sreg_s, bit_xor n v) ∷ rest

-- The status byte that SUB, SUBI, CP and CPI leave after the result `res`.
unfoldable pub plain_status : ℕ → ℕ → ℕ → ℕ → ℕ
plain_status x y res old =
    set_flags
      (difference_flags x y res
        ((sreg_z, truth (bit_and res 0xff == 0)) ∷ (sreg_c, get_sub_carry res x y 7) ∷ []))
      old

pub plain_status-IsDifferenceStatus :
    (x y old : ℕ)
    → x < 256
    → y < 256
    → let res = difference x y 0 in
      IsDifferenceStatus x y 0 (truth (res == 0)) old (plain_status x y res old)
unfolding plain_status bit_number
plain_status-IsDifferenceStatus x y old hx hy =
    let res = difference x y 0 in
    let fs =
      difference_flags x y res
        ((sreg_z, truth (bit_and res 0xff == 0)) ∷ (sreg_c, get_sub_carry res x y 7) ∷ []) in
    record {
      carry = ground (arith, flag-set_flags fs old sreg_c, get_sub_carry-eq-lt x y 0);
      zero_ = ground (arith, flag-set_flags fs old sreg_z, bit_and-0xff res);
      negative = ground (arith, flag-set_flags fs old sreg_n, bit_and-one (res / 2 ^ 7));
      overflow =
          ground (arith, flag-set_flags fs old sreg_v, get_sub_overflow-eq-out_of_range x y 0);
      sign = ground (
        arith,
        flag-set_flags fs old sreg_s,
        bit_and-one (res / 2 ^ 7),
        get_sub_overflow-eq-out_of_range x y 0,
        bit_xor_bits (bit_at res 7) (get_sub_overflow res x y),
      );
      half = ground (arith, flag-set_flags fs old sreg_h, get_sub_carry_half x y 0);
      transfer = flag-set_flags fs old sreg_t;
      interrupt = flag-set_flags fs old sreg_i;
    }

-- The status byte that SBC, SBCI and CPC leave: Z stays set only if it was set and the result is 0.
unfoldable pub chained_status : ℕ → ℕ → ℕ → ℕ → ℕ
chained_status x y res old =
    let new = set_flags (difference_flags x y res ((sreg_c, get_sub_carry res x y 7) ∷ [])) old in
    if bit_and res 0xff == 0 then new else set_flags ((sreg_z, 0) ∷ []) new

pub chained_status-IsDifferenceStatus :
    (x y c old : ℕ)
    → x < 256
    → y < 256
    → c < 2
    → let res = difference x y c in
      IsDifferenceStatus x y c
        (if res == 0 then flag old sreg_z else 0)
        old
        (chained_status x y res old)
unfolding chained_status bit_number set_flags
chained_status-IsDifferenceStatus x y c old hx hy hc =
    let res = difference x y c in
    let fs = difference_flags x y res ((sreg_c, get_sub_carry res x y 7) ∷ []) in
    let gs = difference_flags x y res ((sreg_c, get_sub_carry res x y 7) ∷ (sreg_z, 0) ∷ []) in
    let masked = bit_and-0xff res in
    record {
      carry = ground (
        arith,
        flag-set_flags fs old sreg_c,
        flag-set_flags gs old sreg_c,
        get_sub_carry-eq-lt x y c,
      );
      zero_ = ground (arith, flag-set_flags fs old sreg_z, flag-set_flags gs old sreg_z, masked);
      negative = ground (
        arith,
        flag-set_flags fs old sreg_n,
        flag-set_flags gs old sreg_n,
        bit_and-one (res / 2 ^ 7),
      );
      overflow = ground (
        arith,
        flag-set_flags fs old sreg_v,
        flag-set_flags gs old sreg_v,
        get_sub_overflow-eq-out_of_range x y c,
      );
      sign = ground (
        arith,
        flag-set_flags fs old sreg_s,
        flag-set_flags gs old sreg_s,
        bit_and-one (res / 2 ^ 7),
        get_sub_overflow-eq-out_of_range x y c,
        bit_xor_bits (bit_at res 7) (get_sub_overflow res x y),
      );
      half = ground (
        arith,
        flag-set_flags fs old sreg_h,
        flag-set_flags gs old sreg_h,
        get_sub_carry_half x y c,
      );
      transfer = ground (arith, flag-set_flags fs old sreg_t, flag-set_flags gs old sreg_t);
      interrupt = ground (arith, flag-set_flags fs old sreg_i, flag-set_flags gs old sreg_i);
    }

abbrev pub compared_flags : ℕ → ℕ → ℕ → ℕ → List (SregBit × ℕ)
compared_flags x y res old = difference_flags x y res (
    (sreg_c, get_sub_carry res x y 7)
    ∷ (sreg_z, truth (bit_and res 0xff == 0 && nonzero (flag old sreg_z)))
    ∷ [])

-- The status byte that CPC leaves.
unfoldable pub compared_status : ℕ → ℕ → ℕ → ℕ → ℕ
compared_status x y res old = set_flags (compared_flags x y res old) old

pub compared_status-IsDifferenceStatus :
    (x y c old : ℕ)
    → x < 256
    → y < 256
    → c < 2
    → let res = difference x y c in
      IsDifferenceStatus x y c
        (if res == 0 then flag old sreg_z else 0)
        old
        (compared_status x y res old)
unfolding compared_status bit_number
compared_status-IsDifferenceStatus x y c old hx hy hc =
    let res = difference x y c in
    let fs = compared_flags x y res old in
    record {
      carry = ground (arith, flag-set_flags fs old sreg_c, get_sub_carry-eq-lt x y c);
      zero_ = ground (arith, flag-set_flags fs old sreg_z, bit_and-0xff res, flag-lt old sreg_z);
      negative = ground (arith, flag-set_flags fs old sreg_n, bit_and-one (res / 2 ^ 7));
      overflow =
          ground (arith, flag-set_flags fs old sreg_v, get_sub_overflow-eq-out_of_range x y c);
      sign = ground (
        arith,
        flag-set_flags fs old sreg_s,
        bit_and-one (res / 2 ^ 7),
        get_sub_overflow-eq-out_of_range x y c,
        bit_xor_bits (bit_at res 7) (get_sub_overflow res x y),
      );
      half = ground (arith, flag-set_flags fs old sreg_h, get_sub_carry_half x y c);
      transfer = flag-set_flags fs old sreg_t;
      interrupt = flag-set_flags fs old sreg_i;
    }
