-- ===== src/Decoder/Lookup/Table.antt =====
-- The lookup table against the encodings of the data sheet, for every opcode.
use oseid_simulavr.Base.{
  ℕ, zero, suc, ◌+◌, ◌*◌, ◌/◌, ◌%◌, ◌<◌, true, false, not, ◌==◌, ◌≡◌, ◌≢◌, ◌⊎◌, inl, inr, arith,
  all_below, all_below_sound, if◌then◌else◌, subst, refl, Bool-cases,
}
use oseid_simulavr.Decoder.Op.{Op, opcode_unknown}
use package.oseid_simulavr.Decoder.Lookup.{lookup_opcode}
use package.oseid_simulavr.Decoder.Lookup.Encoding.{
  encode, patterns, is_instruction, is_unknown, entry_agrees,
}
use package.oseid_simulavr.Decoder.Lookup.Low.{
  block_0, block_1, block_2, block_3, block_4, block_5, block_6, block_7,
}
use package.oseid_simulavr.Decoder.Lookup.High.{
  block_8, block_9, block_10, block_11, block_12, block_13, block_14, block_15,
}

block :
    (k : ℕ)
    → k < 16
    → all_below 16 (λ h. all_below 256 (λ l. entry_agrees ((k * 16 + h) * 256 + l))) ≡ true
block zero below = block_0
block (suc zero) below = block_1
block (suc (suc zero)) below = block_2
block (suc (suc (suc zero))) below = block_3
block (suc (suc (suc (suc zero)))) below = block_4
block (suc (suc (suc (suc (suc zero))))) below = block_5
block (suc (suc (suc (suc (suc (suc zero)))))) below = block_6
block (suc (suc (suc (suc (suc (suc (suc zero))))))) below = block_7
block (suc (suc (suc (suc (suc (suc (suc (suc zero)))))))) below = block_8
block (suc (suc (suc (suc (suc (suc (suc (suc (suc zero))))))))) below = block_9
block (suc (suc (suc (suc (suc (suc (suc (suc (suc (suc zero)))))))))) below = block_10
block (suc (suc (suc (suc (suc (suc (suc (suc (suc (suc (suc zero))))))))))) below = block_11
block (suc (suc (suc (suc (suc (suc (suc (suc (suc (suc (suc (suc zero)))))))))))) below = block_12
block (suc (suc (suc (suc (suc (suc (suc (suc (suc (suc (suc (suc (suc zero))))))))))))) below =
    block_13
block (suc (suc (suc (suc (suc (suc (suc (suc (suc (suc (suc (suc (suc (suc zero))))))))))))))
      below =
    block_14
block (suc (suc (suc (suc (suc (suc (suc (suc (suc (suc (suc (suc (suc (suc (suc zero)))))))))))))))
      below =
    block_15
block
      (suc
        (suc (suc (suc (suc (suc (suc (suc (suc (suc (suc (suc (suc (suc (suc (suc k))))))))))))))))
      below =
    absurd (omega arith)

entry_agrees_lem : (opcode : ℕ) → opcode < 65536 → entry_agrees opcode ≡ true
entry_agrees_lem opcode below =
    let k = opcode / 4096 in
    let h = opcode / 256 % 16 in
    let split : (k * 16 + h) * 256 + opcode % 256 ≡ opcode = omega arith in
    subst (λ x. entry_agrees x ≡ true) split
      (all_below_sound 256 (λ l. entry_agrees ((k * 16 + h) * 256 + l)) (opcode % 256)
        (all_below_sound 16 (λ h. all_below 256 (λ l. entry_agrees ((k * 16 + h) * 256 + l))) h
          (block k (omega arith)) (omega arith))
        (omega arith))

is_unknown-true : (f : Op) → is_unknown f ≡ true → f ≡ opcode_unknown
is_unknown-true opcode_unknown h = refl
is_unknown-true _ h = cc

is_unknown-false : (f : Op) → is_unknown f ≡ false → f ≢ opcode_unknown
is_unknown-false opcode_unknown h = cc
is_unknown-false _ h = cc

-- Every 16-bit opcode is decoded to a handler and operands whose encoding in the data sheet is
-- that opcode, or it is decoded to `avr_op_UNKNOWN` and has the fixed bits of no instruction.
pub lookup_opcode-encode :
    (opcode : ℕ)
    → opcode < 65536
    → let info = lookup_opcode opcode in
      ((info.func ≢ opcode_unknown) × (encode info.func info.arg1 info.arg2 ≡ opcode))
      ⊎ ((info.func ≡ opcode_unknown) × (is_instruction patterns opcode ≡ false))
lookup_opcode-encode opcode below =
    let info = lookup_opcode opcode in
    let checked : (if is_unknown info.func
          then not (is_instruction patterns opcode)
          else encode info.func info.arg1 info.arg2 == opcode)
        ≡ true =
      unfold entry_agrees in entry_agrees_lem opcode below in
    elim (Bool-cases (is_unknown info.func)) [
      | inl u ↦ inr (is_unknown-true info.func u, ground arith)
      | inr k ↦ inl (is_unknown-false info.func k, ground arith)
    ]
