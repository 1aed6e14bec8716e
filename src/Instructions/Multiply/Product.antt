-- ===== src/Instructions/Multiply/Product.antt =====
-- MUL, MULS and MULSU leave the exact product in R1:R0.
use native.Mathlib.Nat.{mul-le-mul}
use oseid_simulavr.Base.{
  ℕ, suc, ◌*◌, ◌/◌, ◌%◌, ◌^◌, ◌<◌, ◌≤◌, ◌≡◌, ap, ◌∙◌, arith, ℤ, pos, negsuc, ◌*ℤ◌, int8, int16,
  is_int16, int_to_u16, [], ◌∷◌, List, u8, u16, ◌>>>◌, bit_and, truth, ◌==◌, true, Bool-cases, ltb,
  inl, inr,
}
use oseid_simulavr.Exec.{Outcome, ok}
use oseid_simulavr.Bits.{bit_and-one, bit_and-0xff, bit_and-0xffff}
use oseid_simulavr.Core.State.{AvrCore}
use oseid_simulavr.Core.Sreg.{
  SregBit, sreg_c, sreg_z, sreg_n, sreg_v, sreg_s, sreg_h, sreg_t, sreg_i, bit_number,
}
use oseid_simulavr.Decoder.Op.{Op, Result, executed, opcode_mul, opcode_muls, opcode_mulsu}
use oseid_simulavr.Instructions.Flags.{bit_at, set_flags}
use oseid_simulavr.Instructions.Flags.Status.{flag, flag-set_flags}
use oseid_simulavr.Instructions.Flags.Spec.{advanced, with_register}
use package.oseid_simulavr.Instructions.Multiply.{avr_op_mul, avr_op_muls, avr_op_mulsu}

abbrev product_flags : ℕ → List (SregBit × ℕ)
product_flags res = (sreg_z, truth (bit_and res 0xffff == 0)) ∷ (sreg_c, bit_at res 15) ∷ []

-- The status byte after the 16-bit product `res`.
unfoldable pub product_status : ℕ → ℕ → ℕ
product_status res old = set_flags (product_flags res) old

-- The core with the product in R1:R0.
abbrev pub with_product : ℕ → AvrCore → AvrCore
with_product res c =
    with_register 0 (res % 256)
      (with_register 1 (res / 256) (advanced 2 (product_status res c.sreg) c))

-- Z tells a product of 0 and C its highest bit.
pub record IsProductStatus (res old new : ℕ) : Type 0 where
  pub zero_ : flag new sreg_z ≡ truth (res == 0)
  pub carry : flag new sreg_c ≡ res / 2 ^ 15
  pub negative : flag new sreg_n ≡ flag old sreg_n
  pub overflow : flag new sreg_v ≡ flag old sreg_v
  pub sign : flag new sreg_s ≡ flag old sreg_s
  pub half : flag new sreg_h ≡ flag old sreg_h
  pub transfer : flag new sreg_t ≡ flag old sreg_t
  pub interrupt : flag new sreg_i ≡ flag old sreg_i

product_status-IsProductStatus :
    (res old : ℕ) → res < 2 ^ 16 → IsProductStatus res old (product_status res old)
unfolding product_status bit_number
product_status-IsProductStatus res old h =
    let fs = product_flags res in
    record {
      zero_ = ground (arith, flag-set_flags fs old sreg_z, bit_and-0xffff res);
      carry = ground (arith, flag-set_flags fs old sreg_c, bit_and-one (res / 2 ^ 15));
      negative = flag-set_flags fs old sreg_n;
      overflow = flag-set_flags fs old sreg_v;
      sign = flag-set_flags fs old sreg_s;
      half = flag-set_flags fs old sreg_h;
      transfer = flag-set_flags fs old sreg_t;
      interrupt = flag-set_flags fs old sreg_i;
    }

high_byte : (res : ℕ) → res < 2 ^ 16 → u8 (u8 (res >>> 8)) ≡ res / 256
high_byte res h = omega arith

low_byte : (res : ℕ) → u8 (u8 (bit_and res 0xff)) ≡ res % 256
low_byte res = omega (arith, bit_and-0xff res)

-- What the three handlers do with a product.
abbrev products : ℕ → ℕ → ℕ → AvrCore → AvrCore
products res h l c =
    with_register 0 l (with_register 1 h (advanced 2 (product_status res c.sreg) c))

abbrev returned : Op → AvrCore → Outcome (Result × AvrCore)
returned op c = ok (executed op, c)

products-run :
    (op : Op) (res : ℕ) (c : AvrCore)
    → res < 2 ^ 16
    → returned op (products res (u8 (u8 (res >>> 8))) (u8 (u8 (bit_and res 0xff))) c)
      ≡ returned op (with_product res c)
products-run op res c h =
    ap (λ b. returned op (products res b (u8 (u8 (bit_and res 0xff))) c)) (high_byte res h)
    ∙ ap (λ b. returned op (products res (res / 256) b c)) (low_byte res)

byte_product : (x y : ℕ) → x < 256 → y < 256 → x * y < 2 ^ 16
byte_product x y hx hy =
    let below : x * y ≤ 255 * 255 = mul-le-mul {n₂ = 255} {m₂ = 255} (omega arith) (omega arith) in
    omega (arith, below)

-- MUL Rd,Rr, on registers that hold bytes, returns and leaves the product of the two unsigned
-- registers in R1:R0, with Z and C set by it and the other flags kept; it goes on one word in two
-- clocks and changes nothing else.
pub avr_op_mul-product :
    (d r : ℕ) (c : AvrCore)
    → d < 32
    → r < 32
    → c.gpwr d < 256
    → c.gpwr r < 256
    → let res = c.gpwr d * c.gpwr r in
      (avr_op_mul (pos d) (pos r) c ≡ ok (executed opcode_mul, with_product res c))
      × IsProductStatus res c.sreg (product_status res c.sreg)
unfolding avr_op_mul product_status
avr_op_mul-product d r c hd hr hx hy =
    let res = c.gpwr d * c.gpwr r in
    let bound : res < 2 ^ 16 = byte_product (c.gpwr d) (c.gpwr r) hx hy in
    let narrow : u16 res ≡ res = omega arith in
    let after : ℕ → Outcome (Result × AvrCore) = λ res.
      ok (executed opcode_mul, products res (u8 (u8 (res >>> 8))) (u8 (u8 (bit_and res 0xff))) c) in
    let run : avr_op_mul (pos d) (pos r) c ≡ after (u16 res) = ground arith in
    (
      run ∙ ap after narrow ∙ products-run opcode_mul res c bound,
      product_status-IsProductStatus res c.sreg bound,
    )

int16-int_to_u16 : (z : ℤ) → is_int16 z ≡ true → int16 (int_to_u16 z) ≡ z
int16-int_to_u16 (pos n) h = ground arith
int16-int_to_u16 (negsuc n) h = ground arith

int_to_u16-lt : (z : ℤ) → int_to_u16 z < 2 ^ 16
int_to_u16-lt (pos n) = omega arith
int_to_u16-lt (negsuc n) = omega arith

-- The sizes of the integers that come from bytes.
abbrev IsSmall : ℕ → ℤ → Type 0
IsSmall m (pos n) = n < m
IsSmall m (negsuc n) = n < 128

int8-IsSmall : (m x : ℕ) → 128 ≤ m → x < 256 → IsSmall m (int8 x)
int8-IsSmall m x hm hx = elim (Bool-cases (ltb x 128)) [
  | inl h ↦ ground arith
  | inr h ↦ ground arith
]

product-is_int16 : (x y : ℤ) → IsSmall 128 x → IsSmall 256 y → is_int16 (x *ℤ y) ≡ true
product-is_int16 (pos a) (pos b) hx hy =
    let h : a * b ≤ 127 * 255 = mul-le-mul {n₂ = 127} {m₂ = 255} (omega arith) (omega arith) in
    ground (arith, h)
product-is_int16 (pos a) (negsuc b) hx hy =
    let h : a * suc b ≤ 127 * 128 = mul-le-mul {n₂ = 127} {m₂ = 128} (omega arith) (omega arith) in
    ground (arith, h)
product-is_int16 (negsuc a) (pos b) hx hy =
    let h : suc a * b ≤ 128 * 255 = mul-le-mul {n₂ = 128} {m₂ = 255} (omega arith) (omega arith) in
    ground (arith, h)
product-is_int16 (negsuc a) (negsuc b) hx hy =
    let h : suc a * suc b ≤ 128 * 128 =
      mul-le-mul {n₂ = 128} {m₂ = 128} (omega arith) (omega arith) in
    ground (arith, h)

-- MULS Rd,Rr, on registers that hold bytes, returns and leaves the product of the two signed
-- registers in R1:R0 as a 16-bit two's complement number, with Z and C set by it and the other
-- flags kept; it goes on one word in two clocks and changes nothing else.
pub avr_op_muls-product :
    (d r : ℕ) (c : AvrCore)
    → d < 32
    → r < 32
    → c.gpwr d < 256
    → c.gpwr r < 256
    → let product = int8 (c.gpwr d) *ℤ int8 (c.gpwr r) in
      let res = int_to_u16 product in
      (avr_op_muls (pos d) (pos r) c ≡ ok (executed opcode_muls, with_product res c))
      × (int16 res ≡ product)
      × IsProductStatus res c.sreg (product_status res c.sreg)
unfolding avr_op_muls product_status
avr_op_muls-product d r c hd hr hx hy =
    let product = int8 (c.gpwr d) *ℤ int8 (c.gpwr r) in
    let res = int_to_u16 product in
    let bound : res < 2 ^ 16 = int_to_u16-lt product in
    let run : avr_op_muls (pos d) (pos r) c
        ≡ returned opcode_muls (products res (u8 (u8 (res >>> 8))) (u8 (u8 (bit_and res 0xff))) c) =
      ground arith in
    (
      run ∙ products-run opcode_muls res c bound,
      int16-int_to_u16 product (
          product-is_int16 (int8 (c.gpwr d)) (int8 (c.gpwr r))
            (int8-IsSmall 128 (c.gpwr d) (omega arith) hx)
            (int8-IsSmall 256 (c.gpwr r) (omega arith) hy)),
      product_status-IsProductStatus res c.sreg bound,
    )

-- MULSU Rd,Rr, on registers that hold bytes, returns and leaves the product of the signed register
-- Rd and the unsigned Rr in R1:R0 as a 16-bit two's complement number, with Z and C set by it and
-- the other flags kept; it goes on one word in two clocks and changes nothing else.
pub avr_op_mulsu-product :
    (d r : ℕ) (c : AvrCore)
    → d < 32
    → r < 32
    → c.gpwr d < 256
    → c.gpwr r < 256
    → let product = int8 (c.gpwr d) *ℤ pos (c.gpwr r) in
      let res = int_to_u16 product in
      (avr_op_mulsu (pos d) (pos r) c ≡ ok (executed opcode_mulsu, with_product res c))
      × (int16 res ≡ product)
      × IsProductStatus res c.sreg (product_status res c.sreg)
unfolding avr_op_mulsu product_status
avr_op_mulsu-product d r c hd hr hx hy =
    let product = int8 (c.gpwr d) *ℤ pos (c.gpwr r) in
    let res = int_to_u16 product in
    let bound : res < 2 ^ 16 = int_to_u16-lt product in
    let run : avr_op_mulsu (pos d) (pos r) c
        ≡ returned opcode_mulsu
            (products res (u8 (u8 (res >>> 8))) (u8 (u8 (bit_and res 0xff))) c) =
      ground arith in
    (
      run ∙ products-run opcode_mulsu res c bound,
      int16-int_to_u16 product (
          product-is_int16 (int8 (c.gpwr d)) (pos (c.gpwr r))
            (int8-IsSmall 128 (c.gpwr d) (omega arith) hx) hy),
      product_status-IsProductStatus res c.sreg bound,
    )
