-- ===== src/Instructions/Arithmetic/Chain.antt =====
-- Sequences of two instructions on numbers of two bytes.
use oseid_simulavr.Base.{
  ℕ, ◌+◌, ◌-◌, ◌*◌, ◌/◌, ◌%◌, ◌^◌, ◌<◌, ◌≡◌, ◌≢◌, ◌∙◌, arith, pos, ◌-ℤ◌, int8, int16, is_negative,
  update, refl, Bool-cases, inl, inr, u8, truth, ltb, ◌==◌, if◌then◌else◌, update_ne,
}
use oseid_simulavr.Exec.{◌>>◌}
use oseid_simulavr.Exec.Returns.{Returns, Returns-ok, Returns-then}
use oseid_simulavr.Core.State.{AvrCore}
use oseid_simulavr.Core.Sreg.{sreg_c, sreg_z, sreg_s}
use oseid_simulavr.Decoder.Op.{
  Result, executed, opcode_add, opcode_sub, opcode_cp, opcode_adc, opcode_sbc, opcode_cpc,
}
use oseid_simulavr.Instructions.Flags.Status.{flag}
use oseid_simulavr.Instructions.Flags.Spec.{advanced, with_register}
use oseid_simulavr.Instructions.Arithmetic.Add.{avr_op_add, avr_op_adc}
use oseid_simulavr.Instructions.Arithmetic.Add.Sum.{sum_status, avr_op_add-sum, avr_op_adc-sum}
use oseid_simulavr.Instructions.Arithmetic.Subtract.{avr_op_sub, avr_op_sbc}
use oseid_simulavr.Instructions.Arithmetic.Compare.{avr_op_cp, avr_op_cpc}
use oseid_simulavr.Instructions.Arithmetic.Subtract.Status.{
  difference, plain_status, chained_status, compared_status,
}
use oseid_simulavr.Instructions.Arithmetic.Subtract.Difference.{
  avr_op_sub-difference, avr_op_sbc-difference, avr_op_cp-difference, avr_op_cpc-difference,
}

-- The number with its high byte in register `high`.
abbrev pub word_in : ℕ → ℕ → AvrCore → ℕ
word_in high low c = c.gpwr high * 256 + c.gpwr low

-- The numbers of two bytes x1:x0 and y1:y0; the second operation sees the bytes u1 and v1.
module _ (x0 y0 x1 y1 u1 v1 : ℕ) (hx0 : x0 < 256) (hy0 : y0 < 256) (hx1 : x1 < 256) (hy1 : y1 < 256)
    (same_x : u1 ≡ x1) (same_y : v1 ≡ y1) where
  sum_word :
      (c : ℕ)
      → c ≡ (x0 + y0 + 0) / 256
      → (u8 (u1 + v1 + c) * 256 + u8 (x0 + y0) ≡ (x1 * 256 + x0 + (y1 * 256 + y0)) % 2 ^ 16)
        × ((u1 + v1 + c) / 256 ≡ (x1 * 256 + x0 + (y1 * 256 + y0)) / 2 ^ 16)
  sum_word c h = (omega arith, omega arith)

  difference_word :
      (c : ℕ)
      → c ≡ truth (ltb x0 (y0 + 0))
      → difference u1 v1 c * 256 + difference x0 y0 0
        ≡ (x1 * 256 + x0 + 2 ^ 16 - (y1 * 256 + y0)) % 2 ^ 16
  difference_word c h = elim (Bool-cases (ltb x0 (y0 + 0))) [
    | inl t ↦ ground arith
    | inr f ↦ ground arith
  ]

  borrow_word :
      (c : ℕ)
      → c ≡ truth (ltb x0 (y0 + 0))
      → truth (ltb u1 (v1 + c)) ≡ truth (ltb (x1 * 256 + x0) (y1 * 256 + y0))
  borrow_word c h = ground arith

  zero_word :
      (c z : ℕ)
      → c ≡ truth (ltb x0 (y0 + 0))
      → z ≡ truth (difference x0 y0 0 == 0)
      → (if difference u1 v1 c == 0 then z else 0) ≡ truth (x1 * 256 + x0 == y1 * 256 + y0)
  zero_word c z h hz = ground arith

  sign_word :
      (c : ℕ)
      → c ≡ truth (ltb x0 (y0 + 0))
      → truth (is_negative (int8 u1 -ℤ int8 v1 -ℤ pos c))
        ≡ truth (is_negative (int16 (x1 * 256 + x0) -ℤ int16 (y1 * 256 + y0)))
  sign_word c h = ground arith

-- Registers e and d after both were written.
word_in-update :
    (f : ℕ → ℕ) (d e v w : ℕ)
    → e ≢ d
    → update (update f d v) e w e * 256 + update (update f d v) e w d ≡ w * 256 + v
word_in-update f d e v w h = ground arith

-- On registers that hold bytes, ADD on the low bytes and ADC on the high bytes return and add
-- numbers of 16 bits, with the carry out of bit 15 in C, if the second instruction reads no
-- register that the first one writes.
pub avr_op_adc-avr_op_add :
    (d r e s : ℕ) (c : AvrCore)
    → d < 32
    → r < 32
    → e < 32
    → s < 32
    → e ≢ d
    → s ≢ d
    → ((i : ℕ) → c.gpwr i < 256)
    → let x = word_in e d c in
      let y = word_in s r c in
      Returns ((avr_op_add (pos d) (pos r) >> avr_op_adc (pos e) (pos s)) c) (λ out.
        (word_in e d (out.1) ≡ (x + y) % 2 ^ 16) × (flag (out.1).sreg sreg_c ≡ (x + y) / 2 ^ 16))
avr_op_adc-avr_op_add d r e s c hd hr he hs ned nsd hb =
    let first = avr_op_add-sum d r c hd hr (hb d) (hb r) in
    let v = u8 (c.gpwr d + c.gpwr r) in
    let c1 = with_register d v (advanced 1 (sum_status (c.gpwr d) (c.gpwr r) 0 c.sreg) c) in
    let same_e : c1.gpwr e ≡ c.gpwr e = update_ne c.gpwr d v e ned in
    let same_s : c1.gpwr s ≡ c.gpwr s = update_ne c.gpwr d v s nsd in
    let second =
      avr_op_adc-sum e s c1 he hs (omega (arith, same_e, hb e)) (omega (arith, same_s, hb s)) in
    let carry = flag c1.sreg sreg_c in
    let sums =
      sum_word (c.gpwr d) (c.gpwr r) (c.gpwr e) (c.gpwr s) (c1.gpwr e) (c1.gpwr s) (hb d) (hb r)
        (hb e) (hb s) same_e same_s carry (first.1).carry in
    let x = word_in e d c in
    let y = word_in s r c in
    let P : Result × AvrCore → Type 0 = λ out.
      (word_in e d (out.1) ≡ (x + y) % 2 ^ 16) × (flag (out.1).sreg sreg_c ≡ (x + y) / 2 ^ 16) in
    Returns-then (avr_op_add (pos d) (pos r)) (avr_op_adc (pos e) (pos s)) c c1
      (executed opcode_add) P (first.0)
      (Returns-ok (avr_op_adc (pos e) (pos s) c1)
        (
          executed opcode_adc,
          with_register e (u8 (c1.gpwr e + c1.gpwr s + carry))
              (advanced 1 (sum_status (c1.gpwr e) (c1.gpwr s) carry c1.sreg) c1),
        )
        P (second.0)
        (
          word_in-update c.gpwr d e v (u8 (c1.gpwr e + c1.gpwr s + carry)) ned ∙ sums.0,
          (second.1).carry ∙ sums.1,
        ))

-- On registers that hold bytes, SUB on the low bytes and SBC on the high bytes return and subtract
-- numbers of 16 bits, with the borrow in C and Z set exactly if the numbers are equal, if the
-- second instruction reads no register that the first one writes.
pub avr_op_sbc-avr_op_sub :
    (d r e s : ℕ) (c : AvrCore)
    → d < 32
    → r < 32
    → e < 32
    → s < 32
    → e ≢ d
    → s ≢ d
    → ((i : ℕ) → c.gpwr i < 256)
    → let x = word_in e d c in
      let y = word_in s r c in
      Returns ((avr_op_sub (pos d) (pos r) >> avr_op_sbc (pos e) (pos s)) c) (λ out.
        (word_in e d (out.1) ≡ (x + 2 ^ 16 - y) % 2 ^ 16)
        × (flag (out.1).sreg sreg_c ≡ truth (ltb x y))
        × (flag (out.1).sreg sreg_z ≡ truth (x == y)))
avr_op_sbc-avr_op_sub d r e s c hd hr he hs ned nsd hb =
    let first = avr_op_sub-difference d r c hd hr (hb d) (hb r) in
    let v = difference (c.gpwr d) (c.gpwr r) 0 in
    let c1 = with_register d v (advanced 1 (plain_status (c.gpwr d) (c.gpwr r) v c.sreg) c) in
    let same_e : c1.gpwr e ≡ c.gpwr e = update_ne c.gpwr d v e ned in
    let same_s : c1.gpwr s ≡ c.gpwr s = update_ne c.gpwr d v s nsd in
    let second =
      avr_op_sbc-difference e s c1 he hs (omega (arith, same_e, hb e))
        (omega (arith, same_s, hb s)) in
    let w = difference (c1.gpwr e) (c1.gpwr s) (flag c1.sreg sreg_c) in
    let x = word_in e d c in
    let y = word_in s r c in
    let P : Result × AvrCore → Type 0 = λ out.
      (word_in e d (out.1) ≡ (x + 2 ^ 16 - y) % 2 ^ 16)
      × (flag (out.1).sreg sreg_c ≡ truth (ltb x y))
      × (flag (out.1).sreg sreg_z ≡ truth (x == y)) in
    Returns-then (avr_op_sub (pos d) (pos r)) (avr_op_sbc (pos e) (pos s)) c c1
      (executed opcode_sub) P (first.0)
      (Returns-ok (avr_op_sbc (pos e) (pos s) c1)
        (
          executed opcode_sbc,
          with_register e w (advanced 1 (chained_status (c1.gpwr e) (c1.gpwr s) w c1.sreg) c1),
        )
        P (second.0)
        (
          word_in-update c.gpwr d e v w ned
              ∙ difference_word (c.gpwr d) (c.gpwr r) (c.gpwr e) (c.gpwr s) (c1.gpwr e) (c1.gpwr s)
                  (hb d) (hb r) (hb e) (hb s) same_e same_s (flag c1.sreg sreg_c) (first.1).carry,
          (second.1).carry
              ∙ borrow_word (c.gpwr d) (c.gpwr r) (c.gpwr e) (c.gpwr s) (c1.gpwr e) (c1.gpwr s)
                  (hb d) (hb r) (hb e) (hb s) same_e same_s (flag c1.sreg sreg_c) (first.1).carry,
          (second.1).zero_
              ∙ zero_word (c.gpwr d) (c.gpwr r) (c.gpwr e) (c.gpwr s) (c1.gpwr e) (c1.gpwr s) (hb d)
                  (hb r) (hb e) (hb s) same_e same_s (flag c1.sreg sreg_c) (flag c1.sreg sreg_z)
                  (first.1).carry (first.1).zero_,
        ))

-- On registers that hold bytes, CP on the low bytes and CPC on the high bytes return and compare
-- numbers of 16 bits: C tells that the first is less as unsigned numbers, S that it is less as
-- signed ones, and Z that they are equal.
pub avr_op_cpc-avr_op_cp :
    (d r e s : ℕ) (c : AvrCore)
    → d < 32
    → r < 32
    → e < 32
    → s < 32
    → ((i : ℕ) → c.gpwr i < 256)
    → let x = word_in e d c in
      let y = word_in s r c in
      Returns ((avr_op_cp (pos d) (pos r) >> avr_op_cpc (pos e) (pos s)) c) (λ out.
        (flag (out.1).sreg sreg_c ≡ truth (ltb x y))
        × (flag (out.1).sreg sreg_s ≡ truth (is_negative (int16 x -ℤ int16 y)))
        × (flag (out.1).sreg sreg_z ≡ truth (x == y)))
avr_op_cpc-avr_op_cp d r e s c hd hr he hs hb =
    let first = avr_op_cp-difference d r c hd hr (hb d) (hb r) in
    let v = difference (c.gpwr d) (c.gpwr r) 0 in
    let c1 = advanced 1 (plain_status (c.gpwr d) (c.gpwr r) v c.sreg) c in
    let second = avr_op_cpc-difference e s c1 he hs (hb e) (hb s) in
    let w = difference (c1.gpwr e) (c1.gpwr s) (flag c1.sreg sreg_c) in
    let x = word_in e d c in
    let y = word_in s r c in
    let P : Result × AvrCore → Type 0 = λ out.
      (flag (out.1).sreg sreg_c ≡ truth (ltb x y))
      × (flag (out.1).sreg sreg_s ≡ truth (is_negative (int16 x -ℤ int16 y)))
      × (flag (out.1).sreg sreg_z ≡ truth (x == y)) in
    Returns-then (avr_op_cp (pos d) (pos r)) (avr_op_cpc (pos e) (pos s)) c c1 (executed opcode_cp)
      P (first.0)
      (Returns-ok (avr_op_cpc (pos e) (pos s) c1)
        (executed opcode_cpc, advanced 1 (compared_status (c1.gpwr e) (c1.gpwr s) w c1.sreg) c1) P
        (second.0)
        (
          (second.1).carry
              ∙ borrow_word (c.gpwr d) (c.gpwr r) (c.gpwr e) (c.gpwr s) (c.gpwr e) (c.gpwr s) (hb d)
                  (hb r) (hb e) (hb s) refl refl (flag c1.sreg sreg_c) (first.1).carry,
          (second.1).sign
              ∙ sign_word (c.gpwr d) (c.gpwr r) (c.gpwr e) (c.gpwr s) (c.gpwr e) (c.gpwr s) (hb d)
                  (hb r) (hb e) (hb s) refl refl (flag c1.sreg sreg_c) (first.1).carry,
          (second.1).zero_
              ∙ zero_word (c.gpwr d) (c.gpwr r) (c.gpwr e) (c.gpwr s) (c.gpwr e) (c.gpwr s) (hb d)
                  (hb r) (hb e) (hb s) refl refl (flag c1.sreg sreg_c) (flag c1.sreg sreg_z)
                  (first.1).carry (first.1).zero_,
        ))
