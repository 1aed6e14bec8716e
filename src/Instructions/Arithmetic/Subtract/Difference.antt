-- ===== src/Instructions/Arithmetic/Subtract/Difference.antt =====
-- SUB, SUBI, SBC, SBCI, CP, CPI and CPC: the registers and the flags they leave.
use oseid_simulavr.Base.{
  ℕ, ◌+◌, ◌-◌, ◌^◌, ◌<◌, ◌≡◌, ap, ◌∙◌, arith, pos, u8, truth, ◌==◌, if◌then◌else◌,
}
use oseid_simulavr.Exec.{Outcome, ok}
use oseid_simulavr.Core.State.{AvrCore}
use oseid_simulavr.Core.Sreg.{sreg_c, sreg_z}
use oseid_simulavr.Decoder.Op.{
  Result, executed, opcode_sub, opcode_subi, opcode_sbc, opcode_sbci, opcode_cp, opcode_cpc,
  opcode_cpi,
}
use oseid_simulavr.Instructions.Flags.{
  get_sub_carry, get_sub_overflow, get_compare_carry, get_compare_overflow,
}
use oseid_simulavr.Instructions.Flags.Status.{flag, flag-lt, sreg_bit-eq-flag}
use oseid_simulavr.Instructions.Flags.Spec.{IsDifferenceStatus, advanced, with_register}
use oseid_simulavr.Instructions.Arithmetic.Compare.{avr_op_cp, avr_op_cpi, avr_op_cpc}
use package.oseid_simulavr.Instructions.Arithmetic.Subtract.Status.{
  difference, plain_status, chained_status, compared_status, plain_status-IsDifferenceStatus,
  chained_status-IsDifferenceStatus, compared_status-IsDifferenceStatus,
}
use package.oseid_simulavr.Instructions.Arithmetic.Subtract.{
  avr_op_sub, avr_op_subi, avr_op_sbc, avr_op_sbci,
}

byte_difference : (x y : ℕ) → y < 256 → u8 (x + 2 ^ 8 - y) ≡ difference x y 0
byte_difference x y hy = omega arith

-- SUB Rd,Rr, on registers that hold bytes, returns; it leaves the low byte of Rd - Rr in Rd, sets
-- H, V, N, S and C as the exact difference asks and Z if its low byte is 0, keeps T and I, goes on
-- one word in one clock, and changes nothing else.
pub avr_op_sub-difference :
    (d r : ℕ) (c : AvrCore)
    → d < 32
    → r < 32
    → c.gpwr d < 256
    → c.gpwr r < 256
    → let x = c.gpwr d in
      let y = c.gpwr r in
      let res = difference x y 0 in
      let status = plain_status x y res c.sreg in
      (avr_op_sub (pos d) (pos r) c
        ≡ ok (executed opcode_sub, with_register d res (advanced 1 status c)))
      × IsDifferenceStatus x y 0 (truth (res == 0)) c.sreg status
unfolding avr_op_sub plain_status get_compare_carry get_compare_overflow get_sub_carry
    get_sub_overflow
avr_op_sub-difference d r c hd hr hx hy =
    let x = c.gpwr d in
    let y = c.gpwr r in
    let after : ℕ → Outcome (Result × AvrCore) = λ res.
      ok (executed opcode_sub, with_register d res (advanced 1 (plain_status x y res c.sreg) c)) in
    let run : avr_op_sub (pos d) (pos r) c ≡ after (u8 (x + 2 ^ 8 - y)) = ground arith in
    (run ∙ ap after (byte_difference x y hy), plain_status-IsDifferenceStatus x y c.sreg hx hy)

-- SUBI Rd,K, on a register that holds a byte, returns; it leaves the low byte of Rd - K in Rd,
-- sets H, V, N, S and C as the exact difference asks and Z if its low byte is 0, keeps T and I,
-- goes on one word in one clock, and changes nothing else.
pub avr_op_subi-difference :
    (d k : ℕ) (c : AvrCore)
    → d < 32
    → c.gpwr d < 256
    → let x = c.gpwr d in
      let y = u8 k in
      let res = difference x y 0 in
      let status = plain_status x y res c.sreg in
      (avr_op_subi (pos d) (pos k) c
        ≡ ok (executed opcode_subi, with_register d res (advanced 1 status c)))
      × IsDifferenceStatus x y 0 (truth (res == 0)) c.sreg status
unfolding avr_op_subi plain_status get_compare_carry get_compare_overflow get_sub_carry
    get_sub_overflow
avr_op_subi-difference d k c hd hx =
    let x = c.gpwr d in
    let y = u8 k in
    let after : ℕ → Outcome (Result × AvrCore) = λ res.
      ok (executed opcode_subi, with_register d res (advanced 1 (plain_status x y res c.sreg) c)) in
    let run : avr_op_subi (pos d) (pos k) c ≡ after (u8 (x + 2 ^ 8 - y)) = ground arith in
    (
      run ∙ ap after (byte_difference x y (omega arith)),
      plain_status-IsDifferenceStatus x y c.sreg hx (omega arith),
    )

-- CP Rd,Rr, on registers that hold bytes, returns; it leaves the registers as they are, sets H, V,
-- N, S and C as the exact difference asks and Z if its low byte is 0, keeps T and I, goes on one
-- word in one clock, and changes nothing else.
pub avr_op_cp-difference :
    (d r : ℕ) (c : AvrCore)
    → d < 32
    → r < 32
    → c.gpwr d < 256
    → c.gpwr r < 256
    → let x = c.gpwr d in
      let y = c.gpwr r in
      let res = difference x y 0 in
      let status = plain_status x y res c.sreg in
      (avr_op_cp (pos d) (pos r) c ≡ ok (executed opcode_cp, advanced 1 status c))
      × IsDifferenceStatus x y 0 (truth (res == 0)) c.sreg status
unfolding avr_op_cp plain_status get_compare_carry get_compare_overflow get_sub_carry
    get_sub_overflow
avr_op_cp-difference d r c hd hr hx hy =
    let x = c.gpwr d in
    let y = c.gpwr r in
    let after : ℕ → Outcome (Result × AvrCore) =
      λ res. ok (executed opcode_cp, advanced 1 (plain_status x y res c.sreg) c) in
    let run : avr_op_cp (pos d) (pos r) c ≡ after (u8 (x + 2 ^ 8 - y)) = ground arith in
    (run ∙ ap after (byte_difference x y hy), plain_status-IsDifferenceStatus x y c.sreg hx hy)

-- CPI Rd,K, on a register that holds a byte, returns; it leaves the registers as they are, sets H,
-- V, N, S and C as the exact difference asks and Z if its low byte is 0, keeps T and I, goes on
-- one word in one clock, and changes nothing else.
pub avr_op_cpi-difference :
    (d k : ℕ) (c : AvrCore)
    → d < 32
    → c.gpwr d < 256
    → let x = c.gpwr d in
      let y = u8 k in
      let res = difference x y 0 in
      let status = plain_status x y res c.sreg in
      (avr_op_cpi (pos d) (pos k) c ≡ ok (executed opcode_cpi, advanced 1 status c))
      × IsDifferenceStatus x y 0 (truth (res == 0)) c.sreg status
unfolding avr_op_cpi plain_status get_compare_carry get_compare_overflow get_sub_carry
    get_sub_overflow
avr_op_cpi-difference d k c hd hx =
    let x = c.gpwr d in
    let y = u8 k in
    let after : ℕ → Outcome (Result × AvrCore) =
      λ res. ok (executed opcode_cpi, advanced 1 (plain_status x y res c.sreg) c) in
    let run : avr_op_cpi (pos d) (pos k) c ≡ after (u8 (x + 2 ^ 8 - y)) = ground arith in
    (
      run ∙ ap after (byte_difference x y (omega arith)),
      plain_status-IsDifferenceStatus x y c.sreg hx (omega arith),
    )

-- SBC Rd,Rr, on registers that hold bytes, returns; it leaves the low byte of Rd - Rr - C in Rd,
-- sets H, V, N, S and C as the exact difference with the carry asks, leaves Z as it was if the low
-- byte is 0 and clears it if not, keeps T and I, goes on one word in one clock, and changes
-- nothing else.
pub avr_op_sbc-difference :
    (d r : ℕ) (c : AvrCore)
    → d < 32
    → r < 32
    → c.gpwr d < 256
    → c.gpwr r < 256
    → let x = c.gpwr d in
      let y = c.gpwr r in
      let res = difference x y (flag c.sreg sreg_c) in
      let status = chained_status x y res c.sreg in
      (avr_op_sbc (pos d) (pos r) c
        ≡ ok (executed opcode_sbc, with_register d res (advanced 1 status c)))
      × IsDifferenceStatus x y
          (flag c.sreg sreg_c)
          (if res == 0 then flag c.sreg sreg_z else 0)
          c.sreg
          status
unfolding avr_op_sbc chained_status get_compare_carry get_compare_overflow get_sub_carry
    get_sub_overflow
avr_op_sbc-difference d r c hd hr hx hy =
    let x = c.gpwr d in
    let y = c.gpwr r in
    (
      ground (arith, sreg_bit-eq-flag c.sreg sreg_c, sreg_bit-eq-flag c.sreg sreg_z),
      chained_status-IsDifferenceStatus x y (flag c.sreg sreg_c) c.sreg hx hy
          (flag-lt c.sreg sreg_c),
    )

-- SBCI Rd,K, on a register that holds a byte, returns; it leaves the low byte of Rd - K - C in Rd,
-- sets H, V, N, S and C as the exact difference with the carry asks, leaves Z as it was if the low
-- byte is 0 and clears it if not, keeps T and I, goes on one word in one clock, and changes
-- nothing else.
pub avr_op_sbci-difference :
    (d k : ℕ) (c : AvrCore)
    → d < 32
    → c.gpwr d < 256
    → let x = c.gpwr d in
      let y = u8 k in
      let res = difference x y (flag c.sreg sreg_c) in
      let status = chained_status x y res c.sreg in
      (avr_op_sbci (pos d) (pos k) c
        ≡ ok (executed opcode_sbci, with_register d res (advanced 1 status c)))
      × IsDifferenceStatus x y
          (flag c.sreg sreg_c)
          (if res == 0 then flag c.sreg sreg_z else 0)
          c.sreg
          status
unfolding avr_op_sbci chained_status get_compare_carry get_compare_overflow get_sub_carry
    get_sub_overflow
avr_op_sbci-difference d k c hd hx =
    let x = c.gpwr d in
    let y = u8 k in
    (
      ground (arith, sreg_bit-eq-flag c.sreg sreg_c, sreg_bit-eq-flag c.sreg sreg_z),
      chained_status-IsDifferenceStatus x y (flag c.sreg sreg_c) c.sreg hx (omega arith)
          (flag-lt c.sreg sreg_c),
    )

-- CPC Rd,Rr, on registers that hold bytes, returns; it leaves the registers as they are, sets H,
-- V, N, S and C as the exact difference with the carry asks, leaves Z as it was if the low byte is
-- 0 and clears it if not, keeps T and I, goes on one word in one clock, and changes nothing else.
pub avr_op_cpc-difference :
    (d r : ℕ) (c : AvrCore)
    → d < 32
    → r < 32
    → c.gpwr d < 256
    → c.gpwr r < 256
    → let x = c.gpwr d in
      let y = c.gpwr r in
      let res = difference x y (flag c.sreg sreg_c) in
      let status = compared_status x y res c.sreg in
      (avr_op_cpc (pos d) (pos r) c ≡ ok (executed opcode_cpc, advanced 1 status c))
      × IsDifferenceStatus x y
          (flag c.sreg sreg_c)
          (if res == 0 then flag c.sreg sreg_z else 0)
          c.sreg
          status
unfolding avr_op_cpc compared_status get_compare_carry get_compare_overflow get_sub_carry
    get_sub_overflow
avr_op_cpc-difference d r c hd hr hx hy =
    let x = c.gpwr d in
    let y = c.gpwr r in
    (
      ground (arith, sreg_bit-eq-flag c.sreg sreg_c, sreg_bit-eq-flag c.sreg sreg_z),
      compared_status-IsDifferenceStatus x y (flag c.sreg sreg_c) c.sreg hx hy
          (flag-lt c.sreg sreg_c),
    )
