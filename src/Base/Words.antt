-- ===== src/Base/Words.antt =====
-- C's unsigned conversions, shifts and the complement of an `int`, over native numbers.
use Prim.Native.Nat.{ℕ, ◌-◌, ◌*◌, ◌/◌, ◌%◌, ◌^◌}
use mathlib.Core.Bool.{Bool, true, false}

abbrev pub u8 : ℕ → ℕ
u8 n = n % 2 ^ 8

abbrev pub u16 : ℕ → ℕ
u16 n = n % 2 ^ 16

abbrev pub u32 : ℕ → ℕ
u32 n = n % 2 ^ 32

abbrev pub u64 : ℕ → ℕ
u64 n = n % 2 ^ 64

infixl 75 ◌<<<◌ ◌>>>◌
abbrev pub ◌<<<◌ : ℕ → ℕ → ℕ
x <<< k = x * 2 ^ k

abbrev pub ◌>>>◌ : ℕ → ℕ → ℕ
x >>> k = x / 2 ^ k

-- `~x` of an `int`, as its 32-bit pattern.
abbrev pub complement : ℕ → ℕ
complement x = 2 ^ 32 - 1 - x

-- The value of a comparison, 1 or 0.
abbrev pub truth : Bool → ℕ
truth true = 1
truth false = 0
