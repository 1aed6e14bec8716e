-- ===== src/Decoder/Fields.antt =====
-- The operand fields of an opcode (`get_rd_2` to `get_A_6`) and the signed operands.
use oseid_simulavr.Base.{
  ℕ, ◌+◌, ◌-◌, ◌*◌, bit_and, ℤ, pos, sub_ℕ, ◌==◌, if◌then◌else◌, ◌<<<◌, ◌>>>◌, u8, complement,
}

unfoldable pub get_rd_2 : ℕ → ℕ
get_rd_2 opcode = let reg = bit_and (bit_and opcode 0x0030 >>> 4) 0x3 in reg * 2 + 24

unfoldable pub get_rd_3 : ℕ → ℕ
get_rd_3 opcode = bit_and (bit_and opcode 0x0070 >>> 4) 0x7 + 16

unfoldable pub get_rd_4 : ℕ → ℕ
get_rd_4 opcode = bit_and (bit_and opcode 0x00f0 >>> 4) 0xf + 16

unfoldable pub get_rd_5 : ℕ → ℕ
get_rd_5 opcode = bit_and (bit_and opcode 0x01f0 >>> 4) 0x1f

unfoldable pub get_rr_3 : ℕ → ℕ
get_rr_3 opcode = bit_and opcode 0x0007 + 16

unfoldable pub get_rr_4 : ℕ → ℕ
get_rr_4 opcode = bit_and opcode 0x000f + 16

unfoldable pub get_rr_5 : ℕ → ℕ
get_rr_5 opcode = let reg = bit_and opcode 0x020f in bit_and reg 0xf + bit_and (reg >>> 5) 0x10

unfoldable pub get_k_8 : ℕ → ℕ
get_k_8 opcode = let k = bit_and opcode 0x0f0f in u8 (bit_and (k >>> 4) 0xf0 + bit_and k 0xf)

unfoldable pub get_k_6 : ℕ → ℕ
get_k_6 opcode = let k = bit_and opcode 0x00cf in u8 (bit_and (k >>> 2) 0x0030 + bit_and k 0xf)

unfoldable pub get_k_7 : ℕ → ℕ
get_k_7 opcode = bit_and (bit_and opcode 0x03f8 >>> 3) 0x7f

unfoldable pub get_k_12 : ℕ → ℕ
get_k_12 opcode = bit_and opcode 0x0fff

unfoldable pub get_k_22 : ℕ → ℕ
get_k_22 opcode = let k = bit_and opcode 0x01f1 in bit_and (k >>> 3) 0x003e + bit_and k 0x1

unfoldable pub get_reg_bit : ℕ → ℕ
get_reg_bit opcode = bit_and opcode 0x0007

unfoldable pub get_sreg_bit : ℕ → ℕ
get_sreg_bit opcode = bit_and opcode 0x0070 >>> 4

unfoldable pub get_q : ℕ → ℕ
get_q opcode =
    let q = bit_and opcode 0x2c07 in
    let qq = (bit_and (q >>> 1) 0x1000 + bit_and q 0x0c00) >>> 7 in
    bit_and qq 0x0038 + bit_and q 0x7

unfoldable pub get_a_5 : ℕ → ℕ
get_a_5 opcode = bit_and opcode 0x00f8 >>> 3

unfoldable pub get_a_6 : ℕ → ℕ
get_a_6 opcode = let a = bit_and opcode 0x060f in bit_and (a >>> 5) 0x0030 + bit_and a 0xf

-- `-1 * ((~val & mask) + 1)` for a value whose sign bit is set.
unfoldable pub n_bit_unsigned_to_signed : ℕ → ℕ → ℤ
n_bit_unsigned_to_signed val n =
    if bit_and val (1 <<< (n - 1)) == 0
    then pos val
    else let mask = (1 <<< n) - 1 in sub_ℕ 0 (bit_and (complement val) mask + 1)
