-- ===== src/Instructions/Arithmetic/Wide.antt =====
-- ADIW and SBIW: the 16-bit results and their flags.
pub mod Status
use oseid_simulavr.Base.{
  ℕ, ◌+◌, ◌-◌, ◌*◌, ◌/◌, ◌%◌, ◌^◌, ◌<◌, ◌≡◌, ap, ◌∙◌, arith, ℤ, pos, ◌+ℤ◌, ◌-ℤ◌, int16, u8, u16,
  ◌>>>◌, ◌<<<◌, bit_and, truth, ltb,
}
use oseid_simulavr.Exec.{Outcome, ok}
use oseid_simulavr.Bits.{bit_and-0xff}
use oseid_simulavr.Core.State.{AvrCore}
use oseid_simulavr.Decoder.Op.{Result, executed, opcode_adiw, opcode_sbiw}
use oseid_simulavr.Instructions.Flags.Spec.{advanced, with_register}
use oseid_simulavr.Instructions.Arithmetic.Add.{avr_op_adiw}
use oseid_simulavr.Instructions.Arithmetic.Subtract.{avr_op_sbiw}
use Status.{
  IsWideStatus, adiw_status, sbiw_status, adiw_status-IsWideStatus, sbiw_status-IsWideStatus,
}

-- The number in registers d + 1 and d.
abbrev pub pair_at : ℕ → AvrCore → ℕ
pair_at d c = c.gpwr (d + 1) * 256 + c.gpwr d

-- The core with `res` in registers d + 1 and d.
abbrev pub with_pair : ℕ → ℕ → ℕ → AvrCore → AvrCore
with_pair d res status c =
    with_register (d + 1) (res / 256) (with_register d (res % 256) (advanced 2 status c))

pair-run :
    (d res status : ℕ) (c : AvrCore)
    → res < 2 ^ 16
    → with_register
        (d + 1)
        (u8 (u8 (res >>> 8)))
        (with_register d (u8 (u8 (bit_and res 0xff))) (advanced 2 status c))
      ≡ with_pair d res status c
pair-run d res status c h =
    let high : u8 (u8 (res >>> 8)) ≡ res / 256 = omega arith in
    let low : u8 (u8 (bit_and res 0xff)) ≡ res % 256 = omega (arith, bit_and-0xff res) in
    ap
      (λ b.
        with_register (d + 1) b
          (with_register d (u8 (u8 (bit_and res 0xff))) (advanced 2 status c)))
      high
    ∙ ap (λ b. with_register (d + 1) (res / 256) (with_register d b (advanced 2 status c))) low

-- ADIW Rd,K on the number of two bytes in Rd+1:Rd, with K below 256, returns; it leaves the low 16
-- bits of the sum of that number and K in Rd+1:Rd, sets V, N, S, Z and C as the exact result asks,
-- keeps H, T and I, goes on one word in two clocks and changes nothing else.
pub avr_op_adiw-wide :
    (d k : ℕ) (c : AvrCore)
    → d + 1 < 32
    → k < 256
    → c.gpwr d < 256
    → c.gpwr (d + 1) < 256
    → let x = pair_at d c in
      let res = u16 (x + k) in
      let status = adiw_status (c.gpwr (d + 1)) res c.sreg in
      (avr_op_adiw (pos d) (pos k) c ≡ ok (executed opcode_adiw, with_pair d res status c))
      × IsWideStatus res ((x + k) / 2 ^ 16) (int16 x +ℤ pos k) c.sreg status
unfolding avr_op_adiw adiw_status
avr_op_adiw-wide d k c hd hk hl hh =
    let x = pair_at d c in
    let high = c.gpwr (d + 1) in
    let res = u16 (x + k) in
    let whole : u16 (high <<< 8 + c.gpwr d) ≡ x = omega arith in
    let narrow : u8 k ≡ k = omega arith in
    let after : ℕ → ℕ → Outcome (Result × AvrCore) = λ x k.
      let res = u16 (x + k) in
      ok (
        executed opcode_adiw,
        with_register (d + 1) (u8 (u8 (res >>> 8))) (
            with_register d (u8 (u8 (bit_and res 0xff)))
              (advanced 2 (adiw_status high res c.sreg) c)),
      ) in
    let run : avr_op_adiw (pos d) (pos k) c ≡ after (u16 (high <<< 8 + c.gpwr d)) (u8 k) =
      ground arith in
    (
      run
          ∙ ap (λ x. after x (u8 k)) whole
          ∙ ap (after x) narrow
          ∙ ap (λ c. ok (executed opcode_adiw, c))
              (pair-run d res (adiw_status high res c.sreg) c (omega arith)),
      adiw_status-IsWideStatus high (c.gpwr d) k c.sreg hh hl hk,
    )

-- SBIW Rd,K on the number of two bytes in Rd+1:Rd, with K below 256, returns; it leaves the low 16
-- bits of the difference of that number and K in Rd+1:Rd, sets V, N, S, Z and C as the exact
-- result asks, keeps H, T and I, goes on one word in two clocks and changes nothing else.
pub avr_op_sbiw-wide :
    (d k : ℕ) (c : AvrCore)
    → d + 1 < 32
    → k < 256
    → c.gpwr d < 256
    → c.gpwr (d + 1) < 256
    → let x = pair_at d c in
      let res = u16 (x + 2 ^ 16 - k) in
      let status = sbiw_status (c.gpwr (d + 1)) res c.sreg in
      (avr_op_sbiw (pos d) (pos k) c ≡ ok (executed opcode_sbiw, with_pair d res status c))
      × IsWideStatus res (truth (ltb x k)) (int16 x -ℤ pos k) c.sreg status
unfolding avr_op_sbiw sbiw_status
avr_op_sbiw-wide d k c hd hk hl hh =
    let x = pair_at d c in
    let high = c.gpwr (d + 1) in
    let res = u16 (x + 2 ^ 16 - k) in
    let whole : u16 (high <<< 8 + c.gpwr d) ≡ x = omega arith in
    let narrow : u8 k ≡ k = omega arith in
    let after : ℕ → ℕ → Outcome (Result × AvrCore) = λ x k.
      let res = u16 (x + 2 ^ 16 - k) in
      ok (
        executed opcode_sbiw,
        with_register (d + 1) (u8 (u8 (res >>> 8))) (
            with_register d (u8 (u8 (bit_and res 0xff)))
              (advanced 2 (sbiw_status high res c.sreg) c)),
      ) in
    let run : avr_op_sbiw (pos d) (pos k) c ≡ after (u16 (high <<< 8 + c.gpwr d)) (u8 k) =
      ground arith in
    (
      run
          ∙ ap (λ x. after x (u8 k)) whole
          ∙ ap (after x) narrow
          ∙ ap (λ c. ok (executed opcode_sbiw, c))
              (pair-run d res (sbiw_status high res c.sreg) c (omega arith)),
      sbiw_status-IsWideStatus high (c.gpwr d) k c.sreg hh hl hk,
    )
