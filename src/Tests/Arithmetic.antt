-- ===== src/Tests/Arithmetic.antt =====
-- The arithmetic instructions on the small device.
use oseid_simulavr.Base.{◌≡◌, arith, pos, ℕ, ◌<◌, ◌+◌, ◌%◌}
use oseid_simulavr.Exec.{ok, ◌>>◌}
use oseid_simulavr.Exec.Returns.{Returns}
use oseid_simulavr.Core.Sreg.{sreg_c, sreg_z, sreg_s, bit_number}
use oseid_simulavr.Bits.{digit}
use oseid_simulavr.Decoder.Op.{
  executed, opcode_adc, opcode_eor, opcode_add, opcode_sub, opcode_adiw, opcode_sbiw, opcode_mul,
}
use oseid_simulavr.Instructions.Flags.Status.{flag}
use oseid_simulavr.Instructions.Flags.Spec.{
  IsSumStatus, IsDifferenceStatus, advanced, with_register,
}
use oseid_simulavr.Instructions.Arithmetic.Add.{avr_op_adc, avr_op_add, avr_op_adiw}
use oseid_simulavr.Instructions.Arithmetic.Add.Sum.{sum_status, avr_op_add-sum, avr_op_adc-sum}
use oseid_simulavr.Instructions.Arithmetic.Subtract.{avr_op_sub, avr_op_sbc, avr_op_sbiw}
use oseid_simulavr.Instructions.Arithmetic.Compare.{avr_op_cp, avr_op_cpc}
use oseid_simulavr.Instructions.Arithmetic.Subtract.Status.{plain_status}
use oseid_simulavr.Instructions.Arithmetic.Subtract.Difference.{avr_op_sub-difference}
use oseid_simulavr.Instructions.Arithmetic.Wide.{with_pair, avr_op_adiw-wide, avr_op_sbiw-wide}
use oseid_simulavr.Instructions.Arithmetic.Wide.Status.{IsWideStatus, adiw_status, sbiw_status}
use oseid_simulavr.Instructions.Arithmetic.Chain.{
  word_in, avr_op_adc-avr_op_add, avr_op_sbc-avr_op_sub, avr_op_cpc-avr_op_cp,
}
use oseid_simulavr.Instructions.Multiply.{avr_op_mul}
use oseid_simulavr.Instructions.Multiply.Product.{
  IsProductStatus, product_status, with_product, avr_op_mul-product,
}
use oseid_simulavr.Instructions.Logic.Bitwise.{avr_op_eor}
use oseid_simulavr.Instructions.Logic.Bitwise.Digits.{IsLogicStatus, logic_status, avr_op_eor-digit}
use oseid_simulavr.Tests.Device.{device}

avr_op_adc-sum_example :
    (avr_op_adc (pos 3) (pos 4) device
      ≡ ok (
        executed opcode_adc,
        with_register 3 204 (advanced 1 (sum_status 211 248 1 0x83) device),
      ))
    × IsSumStatus 211 248 1 0x83 (sum_status 211 248 1 0x83)
unfolding flag digit bit_number
avr_op_adc-sum_example =
    avr_op_adc-sum 3 4 device (omega arith) (omega arith) (omega arith) (omega arith)

avr_op_add-sum_example :
    (avr_op_add (pos 3) (pos 4) device
      ≡ ok (
        executed opcode_add,
        with_register 3 203 (advanced 1 (sum_status 211 248 0 0x83) device),
      ))
    × IsSumStatus 211 248 0 0x83 (sum_status 211 248 0 0x83)
avr_op_add-sum_example =
    avr_op_add-sum 3 4 device (omega arith) (omega arith) (omega arith) (omega arith)

avr_op_sub-difference_example :
    (avr_op_sub (pos 3) (pos 4) device
      ≡ ok (
        executed opcode_sub,
        with_register 3 219 (advanced 1 (plain_status 211 248 219 0x83) device),
      ))
    × IsDifferenceStatus 211 248 0 0 0x83 (plain_status 211 248 219 0x83)
avr_op_sub-difference_example =
    avr_op_sub-difference 3 4 device (omega arith) (omega arith) (omega arith) (omega arith)

avr_op_adiw-wide_example :
    (avr_op_adiw (pos 24) (pos 63) device
      ≡ ok (executed opcode_adiw, with_pair 24 539 (adiw_status 1 539 0x83) device))
    × IsWideStatus 539 0 (pos 539) 0x83 (adiw_status 1 539 0x83)
avr_op_adiw-wide_example =
    avr_op_adiw-wide 24 63 device (omega arith) (omega arith) (omega arith) (omega arith)

avr_op_sbiw-wide_example :
    (avr_op_sbiw (pos 24) (pos 63) device
      ≡ ok (executed opcode_sbiw, with_pair 24 413 (sbiw_status 1 413 0x83) device))
    × IsWideStatus 413 0 (pos 413) 0x83 (sbiw_status 1 413 0x83)
avr_op_sbiw-wide_example =
    avr_op_sbiw-wide 24 63 device (omega arith) (omega arith) (omega arith) (omega arith)

avr_op_mul-product_example :
    (avr_op_mul (pos 3) (pos 4) device ≡ ok (executed opcode_mul, with_product 52328 device))
    × IsProductStatus 52328 0x83 (product_status 52328 0x83)
avr_op_mul-product_example =
    avr_op_mul-product 3 4 device (omega arith) (omega arith) (omega arith) (omega arith)

avr_op_adc-avr_op_add_example :
    Returns
      ((avr_op_add (pos 0) (pos 2) >> avr_op_adc (pos 1) (pos 3)) device)
      (λ out. (word_in 1 0 (out.1) ≡ 23826) × (flag (out.1).sreg sreg_c ≡ 1))
avr_op_adc-avr_op_add_example =
    avr_op_adc-avr_op_add 0 2 1 3 device (omega arith) (omega arith) (omega arith) (omega arith)
      (omega arith) (omega arith) (λ i. omega arith)

avr_op_sbc-avr_op_sub_example :
    Returns ((avr_op_sub (pos 0) (pos 2) >> avr_op_sbc (pos 1) (pos 3)) device) (λ out.
      (word_in 1 0 (out.1) ≡ 46518)
      × (flag (out.1).sreg sreg_c ≡ 1)
      × (flag (out.1).sreg sreg_z ≡ 0))
avr_op_sbc-avr_op_sub_example =
    avr_op_sbc-avr_op_sub 0 2 1 3 device (omega arith) (omega arith) (omega arith) (omega arith)
      (omega arith) (omega arith) (λ i. omega arith)

avr_op_cpc-avr_op_cp_example :
    Returns ((avr_op_cp (pos 0) (pos 2) >> avr_op_cpc (pos 1) (pos 3)) device) (λ out.
      (flag (out.1).sreg sreg_c ≡ 1)
      × (flag (out.1).sreg sreg_s ≡ 1)
      × (flag (out.1).sreg sreg_z ≡ 0))
avr_op_cpc-avr_op_cp_example =
    avr_op_cpc-avr_op_cp 0 2 1 3 device (omega arith) (omega arith) (omega arith) (omega arith)
      (λ i. omega arith)

avr_op_eor-digit_example :
    (avr_op_eor (pos 3) (pos 4) device
      ≡ ok (executed opcode_eor, with_register 3 43 (advanced 1 (logic_status 43 0x83) device)))
    × ((j : ℕ) → j < 8 → digit 43 j ≡ (digit 211 j + digit 248 j) % 2)
    × IsLogicStatus 43 0x83 (logic_status 43 0x83)
avr_op_eor-digit_example = avr_op_eor-digit 3 4 device (omega arith) (omega arith)
