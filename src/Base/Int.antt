-- ===== src/Base/Int.antt =====
-- The `int`s of the sources that can be negative: program counters, addresses and operands.
use Prim.Native.Nat.{ℕ, suc, ◌+◌, ◌-◌, ◌*◌, ◌%◌, ◌^◌}
use mathlib.Core.Bool.{Bool, true, false}
use mathlib.Core.Option.{Option, none, some}
use oseid_simulavr.Base.Tests.{ltb, leb, ◌==◌, if◌then◌else◌}

-- `negsuc n` is -(n + 1).
pub data ℤ : Type 0 where
  pos : ℕ → ℤ
  negsuc : ℕ → ℤ

abbrev pub sub_ℕ : ℕ → ℕ → ℤ
sub_ℕ a b = if leb b a then pos (a - b) else negsuc (b - a - 1)

infixl 65 ◌+ℤ◌
abbrev pub ◌+ℤ◌ : ℤ → ℤ → ℤ
pos a +ℤ pos b = pos (a + b)
pos a +ℤ negsuc b = sub_ℕ a (suc b)
negsuc a +ℤ pos b = sub_ℕ b (suc a)
negsuc a +ℤ negsuc b = negsuc (suc (a + b))

abbrev pub is_int : ℤ → ℕ → Bool
is_int (pos m) n = m == n
is_int (negsuc m) n = false

-- The right operand of a shift of an `int`: C leaves a negative one, and one of 31 or more for
-- `1 << n`, undefined.
abbrev pub shift_count : ℤ → Option ℕ
shift_count (pos n) = if ltb n 31 then some n else none
shift_count (negsuc n) = none

infixl 70 ◌*ℤ◌
abbrev pub ◌*ℤ◌ : ℤ → ℤ → ℤ
pos a *ℤ pos b = pos (a * b)
pos a *ℤ negsuc b = sub_ℕ 0 (a * suc b)
negsuc a *ℤ pos b = sub_ℕ 0 (suc a * b)
negsuc a *ℤ negsuc b = pos (suc a * suc b)

-- The conversion of a byte to `int8_t`.
abbrev pub int8 : ℕ → ℤ
int8 n = if ltb n 128 then pos n else negsuc (255 - n)

-- The conversion of an `int` to `uint8_t` and `uint16_t`.
abbrev pub int_to_u8 : ℤ → ℕ
int_to_u8 (pos n) = n % 2 ^ 8
int_to_u8 (negsuc n) = 2 ^ 8 - 1 - n % 2 ^ 8

abbrev pub int_to_u16 : ℤ → ℕ
int_to_u16 (pos n) = n % 2 ^ 16
int_to_u16 (negsuc n) = 2 ^ 16 - 1 - n % 2 ^ 16

abbrev pub int_to_u32 : ℤ → ℕ
int_to_u32 (pos n) = n % 2 ^ 32
int_to_u32 (negsuc n) = 2 ^ 32 - 1 - n % 2 ^ 32

-- The conversion of a `uint32_t` to `int`.
abbrev pub u32_to_int : ℕ → ℤ
u32_to_int n = if ltb n (2 ^ 31) then pos n else negsuc (2 ^ 32 - 1 - n)

-- The value of an `int` that is shifted to the left, which C leaves undefined for a negative one.
abbrev pub not_negative : ℤ → Option ℕ
not_negative (pos n) = some n
not_negative (negsuc n) = none

infixl 65 ◌-ℤ◌
abbrev pub ◌-ℤ◌ : ℤ → ℤ → ℤ
pos a -ℤ pos b = sub_ℕ a b
pos a -ℤ negsuc b = pos (a + suc b)
negsuc a -ℤ pos b = negsuc (a + b)
negsuc a -ℤ negsuc b = sub_ℕ (suc b) (suc a)

-- The integer is one of the values of an `int8_t`, or of an `int16_t`.
abbrev pub is_int8 : ℤ → Bool
is_int8 (pos n) = ltb n 128
is_int8 (negsuc n) = ltb n 128

abbrev pub is_int16 : ℤ → Bool
is_int16 (pos n) = ltb n 32768
is_int16 (negsuc n) = ltb n 32768

abbrev pub is_negative : ℤ → Bool
is_negative (pos n) = false
is_negative (negsuc n) = true

abbrev pub int16 : ℕ → ℤ
int16 n = if ltb n 32768 then pos n else negsuc (65535 - n)
