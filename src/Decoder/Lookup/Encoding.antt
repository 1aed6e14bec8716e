-- ===== src/Decoder/Lookup/Encoding.antt =====
-- The instruction encodings of the data sheet, as the comments of decoder.c quote them, and the
-- lookup table against them.
use oseid_simulavr.Base.{
  ℕ, suc, ◌+◌, ◌-◌, ◌*◌, ◌/◌, ◌%◌, ℤ, pos, negsuc, Bool, true, false, ◌==◌, ◌||◌, List, [], ◌∷◌,
  bit_and, not, if◌then◌else◌,
}
use oseid_simulavr.Decoder.Op.{
  Op, opcode_break, opcode_eicall, opcode_eijmp, opcode_elpm, opcode_espm, opcode_icall,
  opcode_ijmp, opcode_lpm, opcode_nop, opcode_ret, opcode_reti, opcode_sleep, opcode_spm,
  opcode_wdr, opcode_adc, opcode_add, opcode_and, opcode_cp, opcode_cpc, opcode_cpse, opcode_eor,
  opcode_mov, opcode_mul, opcode_or, opcode_sbc, opcode_sub, opcode_asr, opcode_com, opcode_dec,
  opcode_elpm_z, opcode_elpm_z_incr, opcode_inc, opcode_lds, opcode_ld_x, opcode_ld_x_decr,
  opcode_ld_x_incr, opcode_ld_y_decr, opcode_ld_y_incr, opcode_ld_z_decr, opcode_ld_z_incr,
  opcode_lpm_z, opcode_lpm_z_incr, opcode_lsr, opcode_neg, opcode_pop, opcode_push, opcode_ror,
  opcode_sts, opcode_st_x, opcode_st_x_decr, opcode_st_x_incr, opcode_st_y_decr, opcode_st_y_incr,
  opcode_st_z_decr, opcode_st_z_incr, opcode_swap, opcode_andi, opcode_cpi, opcode_ldi, opcode_ori,
  opcode_sbci, opcode_subi, opcode_bld, opcode_bst, opcode_sbrc, opcode_sbrs, opcode_brbc,
  opcode_brbs, opcode_ldd_y, opcode_ldd_z, opcode_std_y, opcode_std_z, opcode_call, opcode_jmp,
  opcode_bclr, opcode_bset, opcode_adiw, opcode_sbiw, opcode_cbi, opcode_sbi, opcode_sbic,
  opcode_sbis, opcode_in, opcode_out, opcode_rcall, opcode_rjmp, opcode_movw, opcode_muls,
  opcode_mulsu, opcode_fmul, opcode_fmuls, opcode_fmulsu, opcode_unknown,
}
use package.oseid_simulavr.Decoder.Lookup.{lookup_opcode}

-- The low `w` bits of two's complement, `w` given by 2 ^ w.
abbrev pub pattern_of : ℕ → ℤ → ℕ
pattern_of m (pos n) = n % m
pattern_of m (negsuc n) = (m - suc n % m) % m

-- A field of an operand that is not negative.
abbrev pub field : ℤ → ℕ
field (pos n) = n
field (negsuc n) = 0

-- The opcode of an instruction with its operands.
unfoldable pub encode : Op → ℤ → ℤ → ℕ
encode opcode_break a b = 0x9598
encode opcode_eicall a b = 0x9519
encode opcode_eijmp a b = 0x9419
encode opcode_elpm a b = 0x95D8
encode opcode_espm a b = 0x95F8
encode opcode_icall a b = 0x9509
encode opcode_ijmp a b = 0x9409
encode opcode_lpm a b = 0x95C8
encode opcode_nop a b = 0x0000
encode opcode_ret a b = 0x9508
encode opcode_reti a b = 0x9518
encode opcode_sleep a b = 0x9588
encode opcode_spm a b = 0x95E8
encode opcode_wdr a b = 0x95A8
encode opcode_adc a b = 0x1C00 + field a * 16 + field b % 16 + field b / 16 * 512
encode opcode_add a b = 0x0C00 + field a * 16 + field b % 16 + field b / 16 * 512
encode opcode_and a b = 0x2000 + field a * 16 + field b % 16 + field b / 16 * 512
encode opcode_cp a b = 0x1400 + field a * 16 + field b % 16 + field b / 16 * 512
encode opcode_cpc a b = 0x0400 + field a * 16 + field b % 16 + field b / 16 * 512
encode opcode_cpse a b = 0x1000 + field a * 16 + field b % 16 + field b / 16 * 512
encode opcode_eor a b = 0x2400 + field a * 16 + field b % 16 + field b / 16 * 512
encode opcode_mov a b = 0x2C00 + field a * 16 + field b % 16 + field b / 16 * 512
encode opcode_mul a b = 0x9C00 + field a * 16 + field b % 16 + field b / 16 * 512
encode opcode_or a b = 0x2800 + field a * 16 + field b % 16 + field b / 16 * 512
encode opcode_sbc a b = 0x0800 + field a * 16 + field b % 16 + field b / 16 * 512
encode opcode_sub a b = 0x1800 + field a * 16 + field b % 16 + field b / 16 * 512
encode opcode_asr a b = 0x9405 + field a * 16
encode opcode_com a b = 0x9400 + field a * 16
encode opcode_dec a b = 0x940A + field a * 16
encode opcode_elpm_z a b = 0x9006 + field a * 16
encode opcode_elpm_z_incr a b = 0x9007 + field a * 16
encode opcode_inc a b = 0x9403 + field a * 16
encode opcode_lds a b = 0x9000 + field a * 16
encode opcode_ld_x a b = 0x900C + field a * 16
encode opcode_ld_x_decr a b = 0x900E + field a * 16
encode opcode_ld_x_incr a b = 0x900D + field a * 16
encode opcode_ld_y_decr a b = 0x900A + field a * 16
encode opcode_ld_y_incr a b = 0x9009 + field a * 16
encode opcode_ld_z_decr a b = 0x9002 + field a * 16
encode opcode_ld_z_incr a b = 0x9001 + field a * 16
encode opcode_lpm_z a b = 0x9004 + field a * 16
encode opcode_lpm_z_incr a b = 0x9005 + field a * 16
encode opcode_lsr a b = 0x9406 + field a * 16
encode opcode_neg a b = 0x9401 + field a * 16
encode opcode_pop a b = 0x900F + field a * 16
encode opcode_push a b = 0x920F + field a * 16
encode opcode_ror a b = 0x9407 + field a * 16
encode opcode_sts a b = 0x9200 + field a * 16
encode opcode_st_x a b = 0x920C + field a * 16
encode opcode_st_x_decr a b = 0x920E + field a * 16
encode opcode_st_x_incr a b = 0x920D + field a * 16
encode opcode_st_y_decr a b = 0x920A + field a * 16
encode opcode_st_y_incr a b = 0x9209 + field a * 16
encode opcode_st_z_decr a b = 0x9202 + field a * 16
encode opcode_st_z_incr a b = 0x9201 + field a * 16
encode opcode_swap a b = 0x9402 + field a * 16
encode opcode_andi a b = 0x7000 + (field a - 16) * 16 + field b % 16 + field b / 16 * 256
encode opcode_cpi a b = 0x3000 + (field a - 16) * 16 + field b % 16 + field b / 16 * 256
encode opcode_ldi a b = 0xE000 + (field a - 16) * 16 + field b % 16 + field b / 16 * 256
encode opcode_ori a b = 0x6000 + (field a - 16) * 16 + field b % 16 + field b / 16 * 256
encode opcode_sbci a b = 0x4000 + (field a - 16) * 16 + field b % 16 + field b / 16 * 256
encode opcode_subi a b = 0x5000 + (field a - 16) * 16 + field b % 16 + field b / 16 * 256
encode opcode_bld a b = 0xF800 + field a * 16 + field b
encode opcode_bst a b = 0xFA00 + field a * 16 + field b
encode opcode_sbrc a b = 0xFC00 + field a * 16 + field b
encode opcode_sbrs a b = 0xFE00 + field a * 16 + field b
encode opcode_brbc a b = 0xF400 + field a + pattern_of 128 b * 8
encode opcode_brbs a b = 0xF000 + field a + pattern_of 128 b * 8
encode opcode_ldd_y a b =
    0x8008 + field a * 16 + field b % 8 + field b / 8 % 4 * 1024 + field b / 32 * 8192
encode opcode_ldd_z a b =
    0x8000 + field a * 16 + field b % 8 + field b / 8 % 4 * 1024 + field b / 32 * 8192
encode opcode_std_y a b =
    0x8208 + field a * 16 + field b % 8 + field b / 8 % 4 * 1024 + field b / 32 * 8192
encode opcode_std_z a b =
    0x8200 + field a * 16 + field b % 8 + field b / 8 % 4 * 1024 + field b / 32 * 8192
encode opcode_call a b = 0x940E + field a / 2 * 16 + field a % 2
encode opcode_jmp a b = 0x940C + field a / 2 * 16 + field a % 2
encode opcode_bclr a b = 0x9488 + field a * 16
encode opcode_bset a b = 0x9408 + field a * 16
encode opcode_adiw a b = 0x9600 + (field a - 24) / 2 * 16 + field b % 16 + field b / 16 * 64
encode opcode_sbiw a b = 0x9700 + (field a - 24) / 2 * 16 + field b % 16 + field b / 16 * 64
encode opcode_cbi a b = 0x9800 + field a * 8 + field b
encode opcode_sbi a b = 0x9A00 + field a * 8 + field b
encode opcode_sbic a b = 0x9900 + field a * 8 + field b
encode opcode_sbis a b = 0x9B00 + field a * 8 + field b
encode opcode_in a b = 0xB000 + field a * 16 + field b % 16 + field b / 16 * 512
encode opcode_out a b = 0xB800 + field a * 16 + field b % 16 + field b / 16 * 512
encode opcode_rcall a b = 0xD000 + pattern_of 4096 a
encode opcode_rjmp a b = 0xC000 + pattern_of 4096 a
encode opcode_movw a b = 0x0100 + (field a - 16) * 16 + (field b - 16)
encode opcode_muls a b = 0x0200 + (field a - 16) * 16 + (field b - 16)
encode opcode_mulsu a b = 0x0300 + (field a - 16) * 16 + (field b - 16)
encode opcode_fmul a b = 0x0308 + (field a - 16) * 16 + (field b - 16)
encode opcode_fmuls a b = 0x0380 + (field a - 16) * 16 + (field b - 16)
encode opcode_fmulsu a b = 0x0388 + (field a - 16) * 16 + (field b - 16)
encode opcode_unknown a b = 0

-- The fixed bits of each encoding: a mask and their value.
unfoldable pub patterns : List (ℕ × ℕ)
patterns =
    (0xffff, 0x9598)
    ∷ (0xffff, 0x9519)
    ∷ (0xffff, 0x9419)
    ∷ (0xffff, 0x95d8)
    ∷ (0xffff, 0x95f8)
    ∷ (0xffff, 0x9509)
    ∷ (0xffff, 0x9409)
    ∷ (0xffff, 0x95c8)
    ∷ (0xffff, 0x0000)
    ∷ (0xffff, 0x9508)
    ∷ (0xffff, 0x9518)
    ∷ (0xffff, 0x9588)
    ∷ (0xffff, 0x95e8)
    ∷ (0xffff, 0x95a8)
    ∷ (0xfc00, 0x1c00)
    ∷ (0xfc00, 0x0c00)
    ∷ (0xfc00, 0x2000)
    ∷ (0xfc00, 0x1400)
    ∷ (0xfc00, 0x0400)
    ∷ (0xfc00, 0x1000)
    ∷ (0xfc00, 0x2400)
    ∷ (0xfc00, 0x2c00)
    ∷ (0xfc00, 0x9c00)
    ∷ (0xfc00, 0x2800)
    ∷ (0xfc00, 0x0800)
    ∷ (0xfc00, 0x1800)
    ∷ (0xfe0f, 0x9405)
    ∷ (0xfe0f, 0x9400)
    ∷ (0xfe0f, 0x940a)
    ∷ (0xfe0f, 0x9006)
    ∷ (0xfe0f, 0x9007)
    ∷ (0xfe0f, 0x9403)
    ∷ (0xfe0f, 0x9000)
    ∷ (0xfe0f, 0x900c)
    ∷ (0xfe0f, 0x900e)
    ∷ (0xfe0f, 0x900d)
    ∷ (0xfe0f, 0x900a)
    ∷ (0xfe0f, 0x9009)
    ∷ (0xfe0f, 0x9002)
    ∷ (0xfe0f, 0x9001)
    ∷ (0xfe0f, 0x9004)
    ∷ (0xfe0f, 0x9005)
    ∷ (0xfe0f, 0x9406)
    ∷ (0xfe0f, 0x9401)
    ∷ (0xfe0f, 0x900f)
    ∷ (0xfe0f, 0x920f)
    ∷ (0xfe0f, 0x9407)
    ∷ (0xfe0f, 0x9200)
    ∷ (0xfe0f, 0x920c)
    ∷ (0xfe0f, 0x920e)
    ∷ (0xfe0f, 0x920d)
    ∷ (0xfe0f, 0x920a)
    ∷ (0xfe0f, 0x9209)
    ∷ (0xfe0f, 0x9202)
    ∷ (0xfe0f, 0x9201)
    ∷ (0xfe0f, 0x9402)
    ∷ (0xf000, 0x7000)
    ∷ (0xf000, 0x3000)
    ∷ (0xf000, 0xe000)
    ∷ (0xf000, 0x6000)
    ∷ (0xf000, 0x4000)
    ∷ (0xf000, 0x5000)
    ∷ (0xfe08, 0xf800)
    ∷ (0xfe08, 0xfa00)
    ∷ (0xfe08, 0xfc00)
    ∷ (0xfe08, 0xfe00)
    ∷ (0xfc00, 0xf400)
    ∷ (0xfc00, 0xf000)
    ∷ (0xd208, 0x8008)
    ∷ (0xd208, 0x8000)
    ∷ (0xd208, 0x8208)
    ∷ (0xd208, 0x8200)
    ∷ (0xfe0e, 0x940e)
    ∷ (0xfe0e, 0x940c)
    ∷ (0xff8f, 0x9488)
    ∷ (0xff8f, 0x9408)
    ∷ (0xff00, 0x9600)
    ∷ (0xff00, 0x9700)
    ∷ (0xff00, 0x9800)
    ∷ (0xff00, 0x9a00)
    ∷ (0xff00, 0x9900)
    ∷ (0xff00, 0x9b00)
    ∷ (0xf800, 0xb000)
    ∷ (0xf800, 0xb800)
    ∷ (0xf000, 0xd000)
    ∷ (0xf000, 0xc000)
    ∷ (0xff00, 0x0100)
    ∷ (0xff00, 0x0200)
    ∷ (0xff88, 0x0300)
    ∷ (0xff88, 0x0308)
    ∷ (0xff88, 0x0380)
    ∷ (0xff88, 0x0388)
    ∷ []

-- Some encoding has the fixed bits of `opcode`.
unfoldable pub is_instruction : List (ℕ × ℕ) → ℕ → Bool
is_instruction [] opcode = false
is_instruction ((mask, value) ∷ rest) opcode =
    bit_and opcode mask == value || is_instruction rest opcode

abbrev pub is_unknown : Op → Bool
is_unknown opcode_unknown = true
is_unknown _ = false

-- The entry for `opcode` is right, as a test.
unfoldable pub entry_agrees : ℕ → Bool
unfolding lookup_opcode encode is_instruction patterns
entry_agrees opcode =
    let info = lookup_opcode opcode in
    if is_unknown info.func
    then not (is_instruction patterns opcode)
    else encode info.func info.arg1 info.arg2 == opcode
