-- ===== src/Instructions/Arithmetic/Wide/Status.antt =====
-- The status bytes that ADIW and SBIW leave.
use oseid_simulavr.Base.{
  ℕ, ◌+◌, ◌-◌, ◌*◌, ◌/◌, ◌^◌, ◌<◌, ◌≡◌, refl, arith, ℤ, pos, ◌+ℤ◌, ◌-ℤ◌, int16, is_int16,
  is_negative, [], ◌∷◌, List, u16, bit_and, bit_xor, complement, truth, ◌==◌, not, ltb, all_below,
  all_below_sound, eq_of_==,
}
use oseid_simulavr.Bits.{bit_and-one, bit_and-0xffff, bit_xor_bits}
use oseid_simulavr.Core.Sreg.{
  SregBit, sreg_c, sreg_z, sreg_n, sreg_v, sreg_s, sreg_h, sreg_t, sreg_i, bit_number,
}
use oseid_simulavr.Instructions.Flags.{bit_at, set_flags}
use oseid_simulavr.Instructions.Flags.Laws.{bit_at-lt}
use oseid_simulavr.Instructions.Flags.Status.{flag, flag-set_flags}

-- The updates for the result `res`, with C and V; `res` has 16 bits.
abbrev wide_flags : ℕ → ℕ → ℕ → List (SregBit × ℕ)
wide_flags res carry v =
    let n = bit_at res 15 in
    (sreg_v, v)
    ∷ (sreg_n, n)
    ∷ (sreg_s, bit_xor n v)
    ∷ (sreg_z, truth (bit_and res 0xffff == 0))
    ∷ (sreg_c, carry)
    ∷ []

and_not : (a b : ℕ) → a < 2 → b < 2 → bit_and (complement a) b ≡ truth (ltb a b)
unfolding all_below
and_not a b ha hb = eq_of_== (bit_and (complement a) b) (truth (ltb a b)) (
    all_below_sound 2 (λ b. bit_and (complement a) b == truth (ltb a b)) b
      (all_below_sound 2 (λ a. all_below 2 (λ b. bit_and (complement a) b == truth (ltb a b))) a
        refl ha)
      hb)

not_and : (a b : ℕ) → a < 2 → b < 2 → bit_and b (complement a) ≡ truth (ltb a b)
unfolding all_below
not_and a b ha hb = eq_of_== (bit_and b (complement a)) (truth (ltb a b)) (
    all_below_sound 2 (λ b. bit_and b (complement a) == truth (ltb a b)) b
      (all_below_sound 2 (λ a. all_below 2 (λ b. bit_and b (complement a) == truth (ltb a b))) a
        refl ha)
      hb)

-- The status byte `new` after a 16-bit operation with the exact unsigned result's carry and the
-- exact signed result.
pub record IsWideStatus (res carry_out : ℕ) (exact : ℤ) (old new : ℕ) : Type 0 where
  pub carry : flag new sreg_c ≡ carry_out
  pub zero_ : flag new sreg_z ≡ truth (res == 0)
  pub negative : flag new sreg_n ≡ res / 2 ^ 15
  pub overflow : flag new sreg_v ≡ truth (not (is_int16 exact))
  pub sign : flag new sreg_s ≡ truth (is_negative exact)
  pub half : flag new sreg_h ≡ flag old sreg_h
  pub transfer : flag new sreg_t ≡ flag old sreg_t
  pub interrupt : flag new sreg_i ≡ flag old sreg_i

-- The status byte that ADIW leaves.
unfoldable pub adiw_status : ℕ → ℕ → ℕ → ℕ
adiw_status high res old =
    set_flags
      (wide_flags res (bit_and (complement (bit_at res 15)) (bit_at high 7))
        (bit_and (complement (bit_at high 7)) (bit_at res 15)))
      old

pub adiw_status-IsWideStatus :
    (high low k old : ℕ)
    → high < 256
    → low < 256
    → k < 256
    → let x = high * 256 + low in
      IsWideStatus
        (u16 (x + k))
        ((x + k) / 2 ^ 16)
        (int16 x +ℤ pos k)
        old
        (adiw_status high (u16 (x + k)) old)
unfolding adiw_status bit_number
adiw_status-IsWideStatus high low k old hh hl hk =
    let x = high * 256 + low in
    let res = u16 (x + k) in
    let h7 = bit_at high 7 in
    let r15 = bit_at res 15 in
    let fs = wide_flags res (bit_and (complement r15) h7) (bit_and (complement h7) r15) in
    let h7_lem : h7 ≡ high / 128 = omega (arith, bit_and-one (high / 2 ^ 7)) in
    let r15_lem : r15 ≡ res / 2 ^ 15 = omega (arith, bit_and-one (res / 2 ^ 15)) in
    let v_lem = and_not h7 r15 (bit_at-lt high 7) (bit_at-lt res 15) in
    let c_lem = and_not r15 h7 (bit_at-lt res 15) (bit_at-lt high 7) in
    record {
      carry = ground (arith, flag-set_flags fs old sreg_c, c_lem, h7_lem, r15_lem);
      zero_ = ground (arith, flag-set_flags fs old sreg_z, bit_and-0xffff res);
      negative = ground (arith, flag-set_flags fs old sreg_n, r15_lem);
      overflow = ground (arith, flag-set_flags fs old sreg_v, v_lem, h7_lem, r15_lem);
      sign = ground (
        arith,
        flag-set_flags fs old sreg_s,
        v_lem,
        h7_lem,
        r15_lem,
        bit_xor_bits r15 (bit_and (complement h7) r15),
      );
      half = flag-set_flags fs old sreg_h;
      transfer = flag-set_flags fs old sreg_t;
      interrupt = flag-set_flags fs old sreg_i;
    }

-- The status byte that SBIW leaves.
unfoldable pub sbiw_status : ℕ → ℕ → ℕ → ℕ
sbiw_status high res old =
    set_flags
      (wide_flags res (bit_and (bit_at res 15) (complement (bit_at high 7)))
        (bit_and (bit_at high 7) (complement (bit_at res 15))))
      old

pub sbiw_status-IsWideStatus :
    (high low k old : ℕ)
    → high < 256
    → low < 256
    → k < 256
    → let x = high * 256 + low in
      IsWideStatus
        (u16 (x + 2 ^ 16 - k))
        (truth (ltb x k))
        (int16 x -ℤ pos k)
        old
        (sbiw_status high (u16 (x + 2 ^ 16 - k)) old)
unfolding sbiw_status bit_number
sbiw_status-IsWideStatus high low k old hh hl hk =
    let x = high * 256 + low in
    let res = u16 (x + 2 ^ 16 - k) in
    let h7 = bit_at high 7 in
    let r15 = bit_at res 15 in
    let fs = wide_flags res (bit_and r15 (complement h7)) (bit_and h7 (complement r15)) in
    let h7_lem : h7 ≡ high / 128 = omega (arith, bit_and-one (high / 2 ^ 7)) in
    let r15_lem : r15 ≡ res / 2 ^ 15 = omega (arith, bit_and-one (res / 2 ^ 15)) in
    let v_lem = not_and r15 h7 (bit_at-lt res 15) (bit_at-lt high 7) in
    let c_lem = not_and h7 r15 (bit_at-lt high 7) (bit_at-lt res 15) in
    record {
      carry = ground (arith, flag-set_flags fs old sreg_c, c_lem, h7_lem, r15_lem);
      zero_ = ground (arith, flag-set_flags fs old sreg_z, bit_and-0xffff res);
      negative = ground (arith, flag-set_flags fs old sreg_n, r15_lem);
      overflow = ground (arith, flag-set_flags fs old sreg_v, v_lem, h7_lem, r15_lem);
      sign = ground (
        arith,
        flag-set_flags fs old sreg_s,
        v_lem,
        h7_lem,
        r15_lem,
        bit_xor_bits r15 (bit_and h7 (complement r15)),
      );
      half = flag-set_flags fs old sreg_h;
      transfer = flag-set_flags fs old sreg_t;
      interrupt = flag-set_flags fs old sreg_i;
    }
