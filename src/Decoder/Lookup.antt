-- ===== src/Decoder/Lookup.antt =====
-- `lookup_opcode`: the switches in the order of the source, each over the opcode with its operand
-- fields masked out.
pub mod Encoding
mod Low
mod High
pub mod Table
use oseid_simulavr.Base.{
  ℕ, ◌-◌, bit_and, ℤ, pos, negsuc, Option, none, some, List, [], ◌∷◌, ◌==◌, if◌then◌else◌,
  complement,
}
use oseid_simulavr.Decoder.Fields.{
  get_rd_2, get_rd_3, get_rd_4, get_rd_5, get_rr_3, get_rr_4, get_rr_5, get_k_8, get_k_6, get_k_7,
  get_k_12, get_k_22, get_reg_bit, get_sreg_bit, get_q, get_a_5, get_a_6, n_bit_unsigned_to_signed,
}
use oseid_simulavr.Decoder.Op.{
  Op, opcode_break, opcode_eicall, opcode_eijmp, opcode_elpm, opcode_espm, opcode_icall,
  opcode_ijmp, opcode_lpm, opcode_nop, opcode_ret, opcode_reti, opcode_sleep, opcode_spm,
  opcode_wdr, opcode_adc, opcode_add, opcode_and, opcode_cp, opcode_cpc, opcode_cpse, opcode_eor,
  opcode_mov, opcode_mul, opcode_or, opcode_sbc, opcode_sub, opcode_asr, opcode_com, opcode_dec,
  opcode_elpm_z, opcode_elpm_z_incr, opcode_inc, opcode_lds, opcode_ld_x, opcode_ld_x_decr,
  opcode_ld_x_incr, opcode_ld_y_decr, opcode_ld_y_incr, opcode_ld_z_decr, opcode_ld_z_incr,
  opcode_lpm_z, opcode_lpm_z_incr, opcode_lsr, opcode_neg, opcode_pop, opcode_push, opcode_ror,
  opcode_sts, opcode_st_x, opcode_st_x_decr, opcode_st_x_incr, opcode_st_y_decr, opcode_st_y_incr,
  opcode_st_z_decr, opcode_st_z_incr, opcode_swap, opcode_andi, opcode_cpi, opcode_ldi, opcode_ori,
  opcode_sbci, opcode_subi, opcode_bld, opcode_bst, opcode_sbrc, opcode_sbrs, opcode_brbc,
  opcode_brbs, opcode_ldd_y, opcode_ldd_z, opcode_std_y, opcode_std_z, opcode_call, opcode_jmp,
  opcode_bclr, opcode_bset, opcode_adiw, opcode_sbiw, opcode_cbi, opcode_sbi, opcode_sbic,
  opcode_sbis, opcode_in, opcode_out, opcode_rcall, opcode_rjmp, opcode_movw, opcode_muls,
  opcode_mulsu, opcode_fmul, opcode_fmuls, opcode_fmulsu, opcode_unknown,
}

-- `struct opcode_info`
pub record OpcodeInfo : Type 0 where
  pub func : Op
  pub arg1 : ℤ
  pub arg2 : ℤ

abbrev pub minus_one : ℤ
minus_one = negsuc 0

-- The first case of a `switch` that fits.
unfoldable pub switch : List (ℕ × Op) → ℕ → Option Op
switch [] decode = none
switch ((value, op) ∷ cases) decode = if decode == value then some op else switch cases decode

abbrev pub no_operand : List (ℕ × Op)
no_operand =
    (0x9598, opcode_break)
    ∷ (0x9519, opcode_eicall)
    ∷ (0x9419, opcode_eijmp)
    ∷ (0x95D8, opcode_elpm)
    ∷ (0x95F8, opcode_espm)
    ∷ (0x9509, opcode_icall)
    ∷ (0x9409, opcode_ijmp)
    ∷ (0x95C8, opcode_lpm)
    ∷ (0x0000, opcode_nop)
    ∷ (0x9508, opcode_ret)
    ∷ (0x9518, opcode_reti)
    ∷ (0x9588, opcode_sleep)
    ∷ (0x95E8, opcode_spm)
    ∷ (0x95A8, opcode_wdr)
    ∷ []

abbrev pub two_registers : List (ℕ × Op)
two_registers =
    (0x1C00, opcode_adc)
    ∷ (0x0C00, opcode_add)
    ∷ (0x2000, opcode_and)
    ∷ (0x1400, opcode_cp)
    ∷ (0x0400, opcode_cpc)
    ∷ (0x1000, opcode_cpse)
    ∷ (0x2400, opcode_eor)
    ∷ (0x2C00, opcode_mov)
    ∷ (0x9C00, opcode_mul)
    ∷ (0x2800, opcode_or)
    ∷ (0x0800, opcode_sbc)
    ∷ (0x1800, opcode_sub)
    ∷ []

abbrev pub one_register : List (ℕ × Op)
one_register =
    (0x9405, opcode_asr)
    ∷ (0x9400, opcode_com)
    ∷ (0x940A, opcode_dec)
    ∷ (0x9006, opcode_elpm_z)
    ∷ (0x9007, opcode_elpm_z_incr)
    ∷ (0x9403, opcode_inc)
    ∷ (0x9000, opcode_lds)
    ∷ (0x900C, opcode_ld_x)
    ∷ (0x900E, opcode_ld_x_decr)
    ∷ (0x900D, opcode_ld_x_incr)
    ∷ (0x900A, opcode_ld_y_decr)
    ∷ (0x9009, opcode_ld_y_incr)
    ∷ (0x9002, opcode_ld_z_decr)
    ∷ (0x9001, opcode_ld_z_incr)
    ∷ (0x9004, opcode_lpm_z)
    ∷ (0x9005, opcode_lpm_z_incr)
    ∷ (0x9406, opcode_lsr)
    ∷ (0x9401, opcode_neg)
    ∷ (0x900F, opcode_pop)
    ∷ (0x920F, opcode_push)
    ∷ (0x9407, opcode_ror)
    ∷ (0x9200, opcode_sts)
    ∷ (0x920C, opcode_st_x)
    ∷ (0x920E, opcode_st_x_decr)
    ∷ (0x920D, opcode_st_x_incr)
    ∷ (0x920A, opcode_st_y_decr)
    ∷ (0x9209, opcode_st_y_incr)
    ∷ (0x9202, opcode_st_z_decr)
    ∷ (0x9201, opcode_st_z_incr)
    ∷ (0x9402, opcode_swap)
    ∷ []

abbrev pub register_constant : List (ℕ × Op)
register_constant =
    (0x7000, opcode_andi)
    ∷ (0x3000, opcode_cpi)
    ∷ (0xE000, opcode_ldi)
    ∷ (0x6000, opcode_ori)
    ∷ (0x4000, opcode_sbci)
    ∷ (0x5000, opcode_subi)
    ∷ []

abbrev pub register_bit : List (ℕ × Op)
register_bit =
    (0xF800, opcode_bld) ∷ (0xFA00, opcode_bst) ∷ (0xFC00, opcode_sbrc) ∷ (0xFE00, opcode_sbrs) ∷ []

abbrev pub branch : List (ℕ × Op)
branch = (0xF400, opcode_brbc) ∷ (0xF000, opcode_brbs) ∷ []

abbrev pub displacement : List (ℕ × Op)
displacement =
    (0x8008, opcode_ldd_y)
    ∷ (0x8000, opcode_ldd_z)
    ∷ (0x8208, opcode_std_y)
    ∷ (0x8200, opcode_std_z)
    ∷ []

abbrev pub absolute : List (ℕ × Op)
absolute = (0x940E, opcode_call) ∷ (0x940C, opcode_jmp) ∷ []

abbrev pub status_bit : List (ℕ × Op)
status_bit = (0x9488, opcode_bclr) ∷ (0x9408, opcode_bset) ∷ []

abbrev pub word_constant : List (ℕ × Op)
word_constant = (0x9600, opcode_adiw) ∷ (0x9700, opcode_sbiw) ∷ []

abbrev pub io_bit : List (ℕ × Op)
io_bit =
    (0x9800, opcode_cbi) ∷ (0x9A00, opcode_sbi) ∷ (0x9900, opcode_sbic) ∷ (0x9B00, opcode_sbis) ∷ []

abbrev pub io_register : List (ℕ × Op)
io_register = (0xB000, opcode_in) ∷ (0xB800, opcode_out) ∷ []

abbrev pub relative : List (ℕ × Op)
relative = (0xD000, opcode_rcall) ∷ (0xC000, opcode_rjmp) ∷ []

abbrev pub two_high_registers : List (ℕ × Op)
two_high_registers = (0x0100, opcode_movw) ∷ (0x0200, opcode_muls) ∷ []

abbrev pub two_middle_registers : List (ℕ × Op)
two_middle_registers =
    (0x0300, opcode_mulsu)
    ∷ (0x0308, opcode_fmul)
    ∷ (0x0380, opcode_fmuls)
    ∷ (0x0388, opcode_fmulsu)
    ∷ []

-- What is left of the opcode when its operand fields are masked out.
abbrev pub without : ℕ → ℕ → ℕ
without opcode mask = bit_and opcode (complement mask)

-- One switch of the `default` case: its entry, or `rest` if no case fits.
abbrev pub or_else : Option Op → ℤ → ℤ → OpcodeInfo → OpcodeInfo
or_else none arg1 arg2 rest = rest
or_else (some op) arg1 arg2 rest = record { func = op; arg1 = arg1; arg2 = arg2 }

abbrev pub unknown : OpcodeInfo
unknown = record { func = opcode_unknown; arg1 = minus_one; arg2 = minus_one }

unfoldable pub lookup_opcode : ℕ → OpcodeInfo
unfolding get_rd_2 get_rd_3 get_rd_4 get_rd_5 get_rr_3 get_rr_4 get_rr_5 get_k_8 get_k_6 get_k_7
    get_k_12 get_k_22 get_reg_bit get_sreg_bit get_q get_a_5 get_a_6 n_bit_unsigned_to_signed switch
lookup_opcode opcode = or_else (switch no_operand opcode) minus_one minus_one (
    or_else (switch two_registers (without opcode 0x03ff)) (pos (get_rd_5 opcode))
      (pos (get_rr_5 opcode))
      (or_else (switch one_register (without opcode 0x01f0)) (pos (get_rd_5 opcode)) (minus_one) (
        or_else (switch register_constant (without opcode 0x0fff)) (pos (get_rd_4 opcode))
          (pos (get_k_8 opcode))
          (or_else (switch register_bit (without opcode 0x01f7)) (pos (get_rd_5 opcode))
            (pos (get_reg_bit opcode))
            (or_else (switch branch (without opcode 0x03ff)) (pos (get_reg_bit opcode))
              (n_bit_unsigned_to_signed (get_k_7 opcode) 7)
              (or_else (switch displacement (without opcode 0x2df7)) (pos (get_rd_5 opcode))
                (pos (get_q opcode))
                (or_else (switch absolute (without opcode 0x01f1)) (pos (get_k_22 opcode))
                  (minus_one)
                  (or_else (switch status_bit (without opcode 0x0070)) (pos (get_sreg_bit opcode))
                    (minus_one)
                    (or_else (switch word_constant (without opcode 0x00ff)) (pos (get_rd_2 opcode))
                      (pos (get_k_6 opcode))
                      (or_else (switch io_bit (without opcode 0x00ff)) (pos (get_a_5 opcode))
                        (pos (get_reg_bit opcode))
                        (or_else (switch io_register (without opcode 0x07ff))
                          (pos (get_rd_5 opcode)) (pos (get_a_6 opcode))
                          (or_else (switch relative (without opcode 0x0fff))
                            (n_bit_unsigned_to_signed (get_k_12 opcode) 12) (minus_one)
                            (or_else (switch two_high_registers (without opcode 0x00ff))
                              (pos (get_rd_4 opcode)) (pos (get_rr_4 opcode))
                              (or_else (switch two_middle_registers (without opcode 0x0077))
                                (pos (get_rd_3 opcode)) (pos (get_rr_3 opcode))
                                unknown))))))))))))))
