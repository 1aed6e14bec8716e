-- ===== src/Bits.antt =====
-- Laws of the bit operations at variables, from the lowest digit up.
mod Step
mod Digit
mod Byte
pub use Step.{bit_or_step, bit_and_step, bit_xor_step}
pub use Digit.{digit-bit_and, digit-bit_or, digit-bit_xor, digit-lt, Digits, digits_lem}
pub use Byte.{
  digit-u8, digit-mask, digit-complement, digit-complement_byte, bit_and-zero, bit_and-one,
  bit_and-3, bit_and-7, bit_and-0xf, bit_and-0x3f, bit_and-0x7f, bit_and-pow, bit_and-0xff,
  bit_and-0x3ff, bit_and-0xffff, bit_xor_bits, bit_or-join, bit_and-le,
}
unfoldable pub use Digit.{digit}
