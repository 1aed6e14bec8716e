-- ===== src/Bits/Byte.antt =====
-- Digits of the eight bits of a byte: narrowing, single-bit masks and their complements.
use native.Mathlib.Nat.{pow-suc}
use Prim.Native.Nat.{bit_and-bitwise}
use oseid_simulavr.Base.{
  ◌≤◌, ℕ, zero, suc, ◌+◌, ◌-◌, ◌*◌, ◌/◌, ◌%◌, ◌^◌, ◌<◌, bit_and, bit_or, bit_xor, ◌≡◌, refl, ap,
  ◌∙◌, arith, u8, complement, ◌==◌, if◌then◌else◌, all_below, all_below_sound, eq_of_==, truth,
  Bool, true, false,
}
use oseid_simulavr.Bits.Step.{bit_and_step, bit_or_step}
use oseid_simulavr.Bits.Digit.{digit, digits_lem}

pub digit-u8 : (j x : ℕ) → j < 8 → digit (u8 x) j ≡ digit x j
digit-u8 zero x h = omega (arith, digits_lem x, digits_lem (u8 x))
digit-u8 (suc zero) x h = omega (arith, digits_lem x, digits_lem (u8 x))
digit-u8 (suc (suc zero)) x h = omega (arith, digits_lem x, digits_lem (u8 x))
digit-u8 (suc (suc (suc zero))) x h = omega (arith, digits_lem x, digits_lem (u8 x))
digit-u8 (suc (suc (suc (suc zero)))) x h = omega (arith, digits_lem x, digits_lem (u8 x))
digit-u8 (suc (suc (suc (suc (suc zero))))) x h = omega (arith, digits_lem x, digits_lem (u8 x))
digit-u8 (suc (suc (suc (suc (suc (suc zero)))))) x h =
    omega (arith, digits_lem x, digits_lem (u8 x))
digit-u8 (suc (suc (suc (suc (suc (suc (suc zero))))))) x h =
    omega (arith, digits_lem x, digits_lem (u8 x))
digit-u8 (suc (suc (suc (suc (suc (suc (suc (suc j)))))))) x h = absurd (omega arith)

-- A check of every pair of bit numbers.
pairs :
    (p : ℕ → ℕ → ℕ) (q : ℕ → ℕ → ℕ) (b j : ℕ)
    → all_below 8 (λ b. all_below 8 (λ j. p b j == q b j)) ≡ true
    → b < 8
    → j < 8
    → p b j ≡ q b j
pairs p q b j h hb hj = eq_of_== (p b j) (q b j) (
    all_below_sound 8 (λ j. p b j == q b j) j
      (all_below_sound 8 (λ b. all_below 8 (λ j. p b j == q b j)) b h hb) hj)

pub digit-mask :
    (t : Bool) (b j : ℕ)
    → b < 8
    → j < 8
    → digit (truth t * 2 ^ b) j ≡ (if b == j then truth t else 0)
unfolding all_below digit
digit-mask true b j hb hj =
    pairs (λ b j. digit (1 * 2 ^ b) j) (λ b j. if b == j then 1 else 0) b j refl hb hj
digit-mask false b j hb hj =
    pairs (λ b j. digit (0 * 2 ^ b) j) (λ b j. if b == j then 0 else 0) b j refl hb hj

pub digit-complement :
    (b j : ℕ) → b < 8 → j < 8 → digit (complement (1 * 2 ^ b)) j ≡ (if b == j then 0 else 1)
unfolding all_below digit
digit-complement b j hb hj =
    pairs (λ b j. digit (complement (1 * 2 ^ b)) j) (λ b j. if b == j then 0 else 1) b j refl hb hj

pub bit_and-zero : (n a : ℕ) → a < n → bit_and a 0 ≡ 0
bit_and-zero zero a h = absurd (omega arith)
bit_and-zero (suc n) zero h = refl
bit_and-zero (suc n) (suc a) h =
    omega (arith, bit_and_step (suc a) 0, bit_and-zero n (suc a / 2) (omega arith))

pub bit_and-one : (a : ℕ) → bit_and a 1 ≡ a % 2
bit_and-one a = omega (arith, bit_and_step a 1, bit_and-zero (suc (a / 2)) (a / 2) (omega arith))

-- A mask of one bit picks that digit.
pub bit_and-pow : (b a : ℕ) → bit_and a (2 ^ b) ≡ digit a b * 2 ^ b
unfolding digit
bit_and-pow zero a = omega (arith, bit_and-one a)
bit_and-pow (suc b) a =
    let doubled : 2 ^ suc b ≡ 2 ^ b + 2 ^ b = omega (arith, pow-suc 2 b) in
    let half : 2 ^ suc b / 2 ≡ 2 ^ b = omega arith in
    omega (
      arith,
      bit_and_step a (2 ^ suc b),
      ap (λ (t : ℕ). bit_and (a / 2) t) half,
      bit_and-pow b (a / 2),
      ap (λ (t : ℕ). digit (a / 2) b * t) doubled,
    )

-- A mask of the low digits is a remainder.
pub bit_and-3 : (a : ℕ) → bit_and a 3 ≡ a % 4
bit_and-3 a = omega (arith, bit_and_step a 3, bit_and-one (a / 2))

pub bit_and-7 : (a : ℕ) → bit_and a 7 ≡ a % 8
bit_and-7 a = omega (arith, bit_and_step a 7, bit_and-3 (a / 2))

pub bit_and-0xf : (a : ℕ) → bit_and a 0xf ≡ a % 16
bit_and-0xf a = omega (arith, bit_and_step a 0xf, bit_and_step (a / 2) 7, bit_and-3 (a / 2 / 2))

pub bit_and-0x3f : (a : ℕ) → bit_and a 0x3f ≡ a % 64
bit_and-0x3f a =
    omega (arith, bit_and_step a 0x3f, bit_and_step (a / 2) 0x1f, bit_and-0xf (a / 2 / 2))

pub bit_and-0x7f : (a : ℕ) → bit_and a 0x7f ≡ a % 128
bit_and-0x7f a = omega (
  arith,
  bit_and_step a 0x7f,
  bit_and_step (a / 2) 0x3f,
  bit_and_step (a / 2 / 2) 0x1f,
  bit_and-0xf (a / 2 / 2 / 2),
)

pub bit_and-0xff : (a : ℕ) → bit_and a 0xff ≡ a % 256
bit_and-0xff a =
    omega (arith, bit_and_step a 0xff, bit_and_step (a / 2) 0x7f, bit_and-0x3f (a / 2 / 2))

pub bit_and-0x3ff : (a : ℕ) → bit_and a 0x3ff ≡ a % 2 ^ 10
bit_and-0x3ff a =
    omega (arith, bit_and_step a 0x3ff, bit_and_step (a / 2) 0x1ff, bit_and-0xff (a / 2 / 2))

ones_6 : (a : ℕ) → bit_and a 0xfff ≡ a % 2 ^ 12
ones_6 a =
    omega (arith, bit_and_step a 0xfff, bit_and_step (a / 2) 0x7ff, bit_and-0x3ff (a / 2 / 2))

ones_7 : (a : ℕ) → bit_and a 0x3fff ≡ a % 2 ^ 14
ones_7 a = omega (arith, bit_and_step a 0x3fff, bit_and_step (a / 2) 0x1fff, ones_6 (a / 2 / 2))

pub bit_and-0xffff : (a : ℕ) → bit_and a 0xffff ≡ a % 2 ^ 16
bit_and-0xffff a =
    omega (arith, bit_and_step a 0xffff, bit_and_step (a / 2) 0x7fff, ones_7 (a / 2 / 2))

pub bit_xor_bits : (x y : ℕ) → x < 2 → y < 2 → bit_xor x y ≡ (x + y) % 2
unfolding all_below
bit_xor_bits x y hx hy = eq_of_== (bit_xor x y) ((x + y) % 2) (
    all_below_sound 2 (λ y. bit_xor x y == (x + y) % 2) y
      (all_below_sound 2 (λ x. all_below 2 (λ y. bit_xor x y == (x + y) % 2)) x refl hx) hy)

bit_or-zero : (n a : ℕ) → a < n → bit_or a 0 ≡ a
bit_or-zero zero a h = absurd (omega arith)
bit_or-zero (suc n) zero h = refl
bit_or-zero (suc n) (suc a) h =
    omega (arith, bit_or_step (suc a) 0, bit_or-zero n (suc a / 2) (omega arith))

double : (h l : ℕ) → bit_or (h * 2) l ≡ bit_or h (l / 2) * 2 + l % 2
double h l =
    let half : h * 2 / 2 ≡ h = omega arith in
    omega (arith, bit_or_step (h * 2) l, ap (λ (t : ℕ). bit_or t (l / 2)) half)

-- Digits below those of a multiple of `2 ^ k`.
pub bit_or-join : (k h l : ℕ) → l < 2 ^ k → bit_or (h * 2 ^ k) l ≡ h * 2 ^ k + l
bit_or-join zero h l hl =
    let none_ : l ≡ 0 = omega arith in
    let one : h * 2 ^ 0 ≡ h = omega arith in
    ap (λ (t : ℕ). bit_or (h * 2 ^ 0) t) none_
    ∙ ap (λ (t : ℕ). bit_or t 0) one
    ∙ omega (arith, bit_or-zero (suc h) h (omega arith))
bit_or-join (suc k) h l hl =
    let doubled : 2 ^ suc k ≡ 2 ^ k + 2 ^ k = omega (arith, pow-suc 2 k) in
    let factored : h * 2 ^ suc k ≡ h * 2 ^ k * 2 =
      ap (λ (t : ℕ). h * t) (pow-suc 2 k) ∙ grind arith in
    ap (λ (t : ℕ). bit_or t l) factored
    ∙ omega (arith, double (h * 2 ^ k) l, bit_or-join k h (l / 2) (omega arith))

pub bit_and-le : (x m : ℕ) → bit_and x m ≤ x
bit_and-le x m = below (suc x) x m (omega arith)
  where
    below : (n x m : ℕ) → x < n → bit_and x m ≤ x
    below zero x m h = absurd (omega arith)
    below (suc n) zero m h = let none_ : bit_and 0 m ≡ 0 = bit_and-bitwise 0 m in omega arith
    below (suc n) (suc x) m h =
        omega (arith, bit_and_step (suc x) m, below n (suc x / 2) (m / 2) (omega arith))

pub digit-complement_byte : (m j : ℕ) → m < 256 → j < 8 → digit (complement m) j ≡ 1 - digit m j
unfolding all_below digit
digit-complement_byte m j hm hj = eq_of_== _ _ (
    all_below_sound 8 (λ j. digit (complement m) j == 1 - digit m j) j
      (all_below_sound 256 (λ m. all_below 8 (λ j. digit (complement m) j == 1 - digit m j)) m refl
        hm)
      hj)
