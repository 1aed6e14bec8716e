-- ===== src/Instructions/Arithmetic/Add/Sum.antt =====
-- ADC and ADD: the sum and the flags.
use oseid_simulavr.Base.{
  ℕ, ◌+◌, ◌/◌, ◌^◌, ◌<◌, ◌≡◌, arith, pos, [], ◌∷◌, u8, bit_and, bit_xor, truth, ◌==◌, List,
}
use oseid_simulavr.Exec.{ok}
use oseid_simulavr.Bits.{bit_and-one, bit_and-0xff, bit_xor_bits}
use oseid_simulavr.Core.State.{AvrCore}
use oseid_simulavr.Core.Sreg.{
  SregBit, sreg_c, sreg_z, sreg_n, sreg_v, sreg_s, sreg_h, sreg_t, sreg_i, bit_number,
}
use oseid_simulavr.Decoder.Op.{executed, opcode_adc, opcode_add}
use oseid_simulavr.Instructions.Flags.{bit_at, get_add_carry, get_add_overflow, set_flags}
use oseid_simulavr.Instructions.Flags.Laws.{
  get_add_carry-eq-div, get_add_carry_half, get_add_overflow-eq-out_of_range,
}
use oseid_simulavr.Instructions.Flags.Status.{flag, flag-lt, flag-set_flags, sreg_bit-eq-flag}
use oseid_simulavr.Instructions.Flags.Spec.{IsSumStatus, advanced, with_register}
use package.oseid_simulavr.Instructions.Arithmetic.Add.{avr_op_adc, avr_op_add}

-- The updates that ADC and ADD make.
abbrev sum_flags : ℕ → ℕ → ℕ → List (SregBit × ℕ)
sum_flags x y res =
    let v = get_add_overflow res x y in
    let n = bit_at res 7 in
    (sreg_h, get_add_carry res x y 3)
    ∷ (sreg_v, v)
    ∷ (sreg_n, n)
    ∷ (sreg_s, bit_xor n v)
    ∷ (sreg_z, truth (bit_and res 0xff == 0))
    ∷ (sreg_c, get_add_carry res x y 7)
    ∷ []

unfoldable pub sum_status : ℕ → ℕ → ℕ → ℕ → ℕ
sum_status x y c old = set_flags (sum_flags x y (u8 (x + y + c))) old

sum_status-IsSumStatus :
    (x y c old : ℕ) → x < 256 → y < 256 → c < 2 → IsSumStatus x y c old (sum_status x y c old)
unfolding sum_status bit_number
sum_status-IsSumStatus x y c old hx hy hc =
    let res = u8 (x + y + c) in
    let fs = sum_flags x y res in
    record {
      carry = ground (arith, flag-set_flags fs old sreg_c, get_add_carry-eq-div x y c);
      zero_ = ground (arith, flag-set_flags fs old sreg_z, bit_and-0xff res);
      negative = ground (arith, flag-set_flags fs old sreg_n, bit_and-one (res / 2 ^ 7));
      overflow =
          ground (arith, flag-set_flags fs old sreg_v, get_add_overflow-eq-out_of_range x y c);
      sign = ground (
        arith,
        flag-set_flags fs old sreg_s,
        bit_and-one (res / 2 ^ 7),
        get_add_overflow-eq-out_of_range x y c,
        bit_xor_bits (bit_at res 7) (get_add_overflow res x y),
      );
      half = ground (arith, flag-set_flags fs old sreg_h, get_add_carry_half x y c);
      transfer = flag-set_flags fs old sreg_t;
      interrupt = flag-set_flags fs old sreg_i;
    }

-- ADC Rd,Rr, on registers that hold bytes, returns; it leaves the low byte of Rd + Rr + C in Rd,
-- sets H, V, N, S, Z and C as the exact sum asks, keeps T and I, goes on one word in one clock,
-- and changes nothing else.
pub avr_op_adc-sum :
    (d r : ℕ) (c : AvrCore)
    → d < 32
    → r < 32
    → c.gpwr d < 256
    → c.gpwr r < 256
    → let carry = flag c.sreg sreg_c in
      let status = sum_status (c.gpwr d) (c.gpwr r) carry c.sreg in
      (avr_op_adc (pos d) (pos r) c
        ≡ ok (
          executed opcode_adc,
          with_register d (u8 (c.gpwr d + c.gpwr r + carry)) (advanced 1 status c),
        ))
      × IsSumStatus (c.gpwr d) (c.gpwr r) carry c.sreg status
unfolding avr_op_adc sum_status
avr_op_adc-sum d r c hd hr hx hy = (
  ground (arith, sreg_bit-eq-flag c.sreg sreg_c),
  sum_status-IsSumStatus (c.gpwr d) (c.gpwr r) (flag c.sreg sreg_c) c.sreg hx hy
      (flag-lt c.sreg sreg_c),
)

-- ADD Rd,Rr, on registers that hold bytes, returns; it leaves the low byte of Rd + Rr in Rd, sets
-- H, V, N, S, Z and C as the exact sum asks, keeps T and I, goes on one word in one clock, and
-- changes nothing else.
pub avr_op_add-sum :
    (d r : ℕ) (c : AvrCore)
    → d < 32
    → r < 32
    → c.gpwr d < 256
    → c.gpwr r < 256
    → let status = sum_status (c.gpwr d) (c.gpwr r) 0 c.sreg in
      (avr_op_add (pos d) (pos r) c
        ≡ ok
            (executed opcode_add, with_register d (u8 (c.gpwr d + c.gpwr r)) (advanced 1 status c)))
      × IsSumStatus (c.gpwr d) (c.gpwr r) 0 c.sreg status
unfolding avr_op_add sum_status
avr_op_add-sum d r c hd hr hx hy =
    (ground arith, sum_status-IsSumStatus (c.gpwr d) (c.gpwr r) 0 c.sreg hx hy (omega arith))
