-- ===== src/Instructions/Flags/Laws.antt =====
-- The flag helpers against arithmetic.
use oseid_simulavr.Base.{
  ℕ, ◌+◌, ◌-◌, ◌*◌, ◌/◌, ◌%◌, ◌^◌, ◌<◌, bit_and, bit_or, ◌≡◌, refl, arith, complement, u8, ltb,
  truth, true, ◌==◌, not, all_below, all_below_sound, eq_of_==, pos, ◌+ℤ◌, ◌-ℤ◌, int8, is_int8,
}
use oseid_simulavr.Bits.{bit_and-one}
use package.oseid_simulavr.Instructions.Flags.{
  bit_at, get_add_carry, get_add_overflow, get_sub_carry, get_sub_overflow,
}

-- A check of all triples of bits.
triples :
    (p q : ℕ → ℕ → ℕ → ℕ) (x y z : ℕ)
    → all_below 2 (λ x. all_below 2 (λ y. all_below 2 (λ z. p x y z == q x y z))) ≡ true
    → x < 2
    → y < 2
    → z < 2
    → p x y z ≡ q x y z
triples p q x y z h hx hy hz = eq_of_== (p x y z) (q x y z) (
    all_below_sound 2 (λ z. p x y z == q x y z) z
      (all_below_sound 2 (λ y. all_below 2 (λ z. p x y z == q x y z)) y
        (all_below_sound 2 (λ x. all_below 2 (λ y. all_below 2 (λ z. p x y z == q x y z))) x h hx)
        hy)
      hz)

abbrev add_carry_bits : ℕ → ℕ → ℕ → ℕ
add_carry_bits r d s =
    bit_or (bit_or (bit_and d s) (bit_and s (complement r))) (bit_and (complement r) d)

abbrev sub_carry_bits : ℕ → ℕ → ℕ → ℕ
sub_carry_bits r d s =
    bit_or (bit_or (bit_and (complement d) s) (bit_and s r)) (bit_and r (complement d))

abbrev add_overflow_bits : ℕ → ℕ → ℕ → ℕ
add_overflow_bits r d s =
    bit_or (bit_and (bit_and d s) (complement r))
      (bit_and (bit_and (complement d) (complement s)) r)

abbrev sub_overflow_bits : ℕ → ℕ → ℕ → ℕ
sub_overflow_bits r d s =
    bit_or (bit_and (bit_and d (complement s)) (complement r))
      (bit_and (bit_and (complement d) s) r)

add_carry_bits_lem :
    (r d s : ℕ) → r < 2 → d < 2 → s < 2 → add_carry_bits r d s ≡ (d + s + (1 - r)) / 2
unfolding all_below
add_carry_bits_lem r d s = triples add_carry_bits (λ r d s. (d + s + (1 - r)) / 2) r d s refl

sub_carry_bits_lem :
    (r d s : ℕ) → r < 2 → d < 2 → s < 2 → sub_carry_bits r d s ≡ ((1 - d) + s + r) / 2
unfolding all_below
sub_carry_bits_lem r d s = triples sub_carry_bits (λ r d s. ((1 - d) + s + r) / 2) r d s refl

add_overflow_bits_lem :
    (r d s : ℕ)
    → r < 2
    → d < 2
    → s < 2
    → add_overflow_bits r d s ≡ truth (d == s) * truth (not (d == r))
unfolding all_below
add_overflow_bits_lem r d s =
    triples add_overflow_bits (λ r d s. truth (d == s) * truth (not (d == r))) r d s refl

sub_overflow_bits_lem :
    (r d s : ℕ)
    → r < 2
    → d < 2
    → s < 2
    → sub_overflow_bits r d s ≡ truth (not (d == s)) * truth (not (d == r))
unfolding all_below
sub_overflow_bits_lem r d s =
    triples sub_overflow_bits (λ r d s. truth (not (d == s)) * truth (not (d == r))) r d s refl

bit_at-eq-div : (x b : ℕ) → bit_at x b ≡ x / 2 ^ b % 2
bit_at-eq-div x b = bit_and-one (x / 2 ^ b)

pub bit_at-lt : (x b : ℕ) → bit_at x b < 2
bit_at-lt x b = omega (arith, bit_at-eq-div x b)

-- The carry out of bit 7 of a sum of two bytes and a carry.
pub get_add_carry-eq-div :
    (x y c : ℕ)
    → x < 256
    → y < 256
    → c < 2
    → get_add_carry (u8 (x + y + c)) x y 7 ≡ (x + y + c) / 256
unfolding get_add_carry
get_add_carry-eq-div x y c hx hy hc =
    let r = u8 (x + y + c) in
    omega (
      arith,
      bit_at-eq-div r 7,
      bit_at-eq-div x 7,
      bit_at-eq-div y 7,
      add_carry_bits_lem (bit_at r 7) (bit_at x 7) (bit_at y 7) (bit_at-lt r 7) (bit_at-lt x 7)
          (bit_at-lt y 7),
    )

-- The carry out of the low four bits.
pub get_add_carry_half :
    (x y c : ℕ) → c < 2 → get_add_carry (u8 (x + y + c)) x y 3 ≡ (x % 16 + y % 16 + c) / 16
unfolding get_add_carry
get_add_carry_half x y c hc =
    let r = u8 (x + y + c) in
    omega (
      arith,
      bit_at-eq-div r 3,
      bit_at-eq-div x 3,
      bit_at-eq-div y 3,
      add_carry_bits_lem (bit_at r 3) (bit_at x 3) (bit_at y 3) (bit_at-lt r 3) (bit_at-lt x 3)
          (bit_at-lt y 3),
    )

-- The difference as the handlers form it, at any width of the minuend.
pub get_sub_carry-eq-lt :
    (x y c : ℕ)
    → x < 256
    → y < 256
    → c < 2
    → get_sub_carry (u8 (x + 512 - y - c)) x y 7 ≡ truth (ltb x (y + c))
unfolding get_sub_carry
get_sub_carry-eq-lt x y c hx hy hc =
    let r = u8 (x + 512 - y - c) in
    ground (
      arith,
      bit_at-eq-div r 7,
      bit_at-eq-div x 7,
      bit_at-eq-div y 7,
      sub_carry_bits_lem (bit_at r 7) (bit_at x 7) (bit_at y 7) (bit_at-lt r 7) (bit_at-lt x 7)
          (bit_at-lt y 7),
    )

pub get_sub_carry_half :
    (x y c : ℕ)
    → y < 256
    → c < 2
    → get_sub_carry (u8 (x + 512 - y - c)) x y 3 ≡ truth (ltb (x % 16) (y % 16 + c))
unfolding get_sub_carry
get_sub_carry_half x y c hy hc =
    let r = u8 (x + 512 - y - c) in
    ground (
      arith,
      bit_at-eq-div r 3,
      bit_at-eq-div x 3,
      bit_at-eq-div y 3,
      sub_carry_bits_lem (bit_at r 3) (bit_at x 3) (bit_at y 3) (bit_at-lt r 3) (bit_at-lt x 3)
          (bit_at-lt y 3),
    )

-- The overflow is that of the sum of the signed values.
pub get_add_overflow-eq-out_of_range :
    (x y c : ℕ)
    → x < 256
    → y < 256
    → c < 2
    → get_add_overflow (u8 (x + y + c)) x y ≡ truth (not (is_int8 (int8 x +ℤ int8 y +ℤ pos c)))
unfolding get_add_overflow
get_add_overflow-eq-out_of_range x y c hx hy hc =
    let r = u8 (x + y + c) in
    ground (
      arith,
      bit_at-eq-div r 7,
      bit_at-eq-div x 7,
      bit_at-eq-div y 7,
      add_overflow_bits_lem (bit_at r 7) (bit_at x 7) (bit_at y 7) (bit_at-lt r 7) (bit_at-lt x 7)
          (bit_at-lt y 7),
    )

pub get_sub_overflow-eq-out_of_range :
    (x y c : ℕ)
    → x < 256
    → y < 256
    → c < 2
    → get_sub_overflow (u8 (x + 512 - y - c)) x y
      ≡ truth (not (is_int8 (int8 x -ℤ int8 y -ℤ pos c)))
unfolding get_sub_overflow
get_sub_overflow-eq-out_of_range x y c hx hy hc =
    let r = u8 (x + 512 - y - c) in
    ground (
      arith,
      bit_at-eq-div r 7,
      bit_at-eq-div x 7,
      bit_at-eq-div y 7,
      sub_overflow_bits_lem (bit_at r 7) (bit_at x 7) (bit_at y 7) (bit_at-lt r 7) (bit_at-lt x 7)
          (bit_at-lt y 7),
    )
