-- ===== src/Instructions/Logic/Bitwise/Digits.antt =====
-- AND, OR and EOR: the digits of the result and the flags.
use oseid_simulavr.Base.{
  ℕ, ◌+◌, ◌/◌, ◌%◌, ◌^◌, ◌<◌, ◌≡◌, ap, ◌∙◌, arith, pos, min, max, List, [], ◌∷◌, u8, bit_and,
  bit_or, bit_xor, truth, ◌==◌,
}
use oseid_simulavr.Exec.{Outcome, ok}
use oseid_simulavr.Bits.{
  digit, digit-u8, digit-bit_and, digit-bit_or, digit-bit_xor, bit_and-one, bit_and-0xff,
  bit_xor_bits,
}
use oseid_simulavr.Core.State.{AvrCore}
use oseid_simulavr.Core.Sreg.{
  SregBit, sreg_c, sreg_z, sreg_n, sreg_v, sreg_s, sreg_h, sreg_t, sreg_i, bit_number,
}
use oseid_simulavr.Decoder.Op.{Result, executed, opcode_and, opcode_or, opcode_eor}
use oseid_simulavr.Instructions.Flags.{bit_at, set_flags}
use oseid_simulavr.Instructions.Flags.Laws.{bit_at-lt}
use oseid_simulavr.Instructions.Flags.Status.{flag, flag-set_flags}
use oseid_simulavr.Instructions.Flags.Spec.{advanced, with_register}
use package.oseid_simulavr.Instructions.Logic.Bitwise.{avr_op_and, avr_op_or, avr_op_eor}

-- The status byte `new` after a logic operation with the result `res`.
pub record IsLogicStatus (res old new : ℕ) : Type 0 where
  pub zero_ : flag new sreg_z ≡ truth (res == 0)
  pub negative : flag new sreg_n ≡ res / 128
  pub overflow : flag new sreg_v ≡ 0
  pub sign : flag new sreg_s ≡ res / 128
  pub carry : flag new sreg_c ≡ flag old sreg_c
  pub half : flag new sreg_h ≡ flag old sreg_h
  pub transfer : flag new sreg_t ≡ flag old sreg_t
  pub interrupt : flag new sreg_i ≡ flag old sreg_i

abbrev logic_flags : ℕ → List (SregBit × ℕ)
logic_flags res =
    let n = bit_at res 7 in
    (sreg_v, 0) ∷ (sreg_n, n) ∷ (sreg_s, bit_xor n 0) ∷ (sreg_z, truth (bit_and res 0xff == 0)) ∷ []

-- The status byte that the logic operations leave.
unfoldable pub logic_status : ℕ → ℕ → ℕ
logic_status res old = set_flags (logic_flags res) old

logic_status-IsLogicStatus :
    (res old : ℕ) → res < 256 → IsLogicStatus res old (logic_status res old)
unfolding logic_status bit_number
logic_status-IsLogicStatus res old h =
    let fs = logic_flags res in
    let n_lem : bit_at res 7 ≡ res / 128 = omega (arith, bit_and-one (res / 2 ^ 7)) in
    let s_lem = bit_xor_bits (bit_at res 7) 0 (bit_at-lt res 7) (omega arith) in
    record {
      zero_ = ground (arith, flag-set_flags fs old sreg_z, bit_and-0xff res);
      negative = ground (arith, flag-set_flags fs old sreg_n, n_lem);
      overflow = flag-set_flags fs old sreg_v;
      sign = ground (arith, flag-set_flags fs old sreg_s, n_lem, s_lem);
      carry = flag-set_flags fs old sreg_c;
      half = flag-set_flags fs old sreg_h;
      transfer = flag-set_flags fs old sreg_t;
      interrupt = flag-set_flags fs old sreg_i;
    }

-- AND Rd,Rr returns; each of the eight digits of Rd becomes the conjunction of the digits of Rd
-- and Rr, Z, N, V and S tell the result, C, H, T and I are kept, the core goes on one word in one
-- clock, and nothing else changes.
pub avr_op_and-digit :
    (d r : ℕ) (c : AvrCore)
    → d < 32
    → r < 32
    → let x = c.gpwr d in
      let y = c.gpwr r in
      let res = u8 (bit_and x y) in
      (avr_op_and (pos d) (pos r) c
        ≡ ok (executed opcode_and, with_register d res (advanced 1 (logic_status res c.sreg) c)))
      × ((j : ℕ) → j < 8 → digit res j ≡ min (digit x j) (digit y j))
      × IsLogicStatus res c.sreg (logic_status res c.sreg)
unfolding avr_op_and logic_status
avr_op_and-digit d r c hd hr =
    let x = c.gpwr d in
    let y = c.gpwr r in
    let res = u8 (bit_and x y) in
    let below : res < 256 = omega arith in
    (
      ground arith,
      λ j hj. digit-u8 j (bit_and x y) hj ∙ digit-bit_and j x y,
      logic_status-IsLogicStatus res c.sreg below,
    )

-- OR Rd,Rr returns; each of the eight digits of Rd becomes the disjunction of the digits of Rd and
-- Rr, Z, N, V and S tell the result, C, H, T and I are kept, the core goes on one word in one
-- clock, and nothing else changes.
pub avr_op_or-digit :
    (d r : ℕ) (c : AvrCore)
    → d < 32
    → r < 32
    → let x = c.gpwr d in
      let y = c.gpwr r in
      let res = u8 (bit_or x y) in
      (avr_op_or (pos d) (pos r) c
        ≡ ok (executed opcode_or, with_register d res (advanced 1 (logic_status res c.sreg) c)))
      × ((j : ℕ) → j < 8 → digit res j ≡ max (digit x j) (digit y j))
      × IsLogicStatus res c.sreg (logic_status res c.sreg)
unfolding avr_op_or logic_status
avr_op_or-digit d r c hd hr =
    let x = c.gpwr d in
    let y = c.gpwr r in
    let res = u8 (bit_or x y) in
    let below : res < 256 = omega arith in
    let masked : res ≡ bit_and res 0xff = omega (arith, bit_and-0xff res) in
    let n = bit_at res 7 in
    let after : ℕ → Outcome (Result × AvrCore) = λ t.
      let fs = (sreg_v, 0) ∷ (sreg_n, n) ∷ (sreg_s, bit_xor n 0) ∷ (sreg_z, truth (t == 0)) ∷ [] in
      ok (executed opcode_or, with_register d res (advanced 1 (set_flags fs c.sreg) c)) in
    let run : avr_op_or (pos d) (pos r) c ≡ after res = ground arith in
    (
      run ∙ ap after masked,
      λ j hj. digit-u8 j (bit_or x y) hj ∙ digit-bit_or j x y,
      logic_status-IsLogicStatus res c.sreg below,
    )

-- EOR Rd,Rr returns; each of the eight digits of Rd becomes the exclusive or of the digits of Rd
-- and Rr, Z, N, V and S tell the result, C, H, T and I are kept, the core goes on one word in one
-- clock, and nothing else changes.
pub avr_op_eor-digit :
    (d r : ℕ) (c : AvrCore)
    → d < 32
    → r < 32
    → let x = c.gpwr d in
      let y = c.gpwr r in
      let res = u8 (bit_xor x y) in
      (avr_op_eor (pos d) (pos r) c
        ≡ ok (executed opcode_eor, with_register d res (advanced 1 (logic_status res c.sreg) c)))
      × ((j : ℕ) → j < 8 → digit res j ≡ (digit x j + digit y j) % 2)
      × IsLogicStatus res c.sreg (logic_status res c.sreg)
unfolding avr_op_eor logic_status
avr_op_eor-digit d r c hd hr =
    let x = c.gpwr d in
    let y = c.gpwr r in
    let res = u8 (bit_xor x y) in
    let below : res < 256 = omega arith in
    (
      ground arith,
      λ j hj. digit-u8 j (bit_xor x y) hj ∙ digit-bit_xor j x y,
      logic_status-IsLogicStatus res c.sreg below,
    )
