-- ===== src/Timers/Multiples.antt =====
-- The multiples of the divisors of the prescaler, and the overflow of a counter of eight bits.
use oseid_simulavr.Base.{
  ℕ, suc, ◌+◌, ◌-◌, ◌/◌, ◌%◌, ◌<◌, ◌≤◌, ◌≡◌, ◌⊎◌, inl, inr, refl, ap, arith, Bool, true, false,
  ◌==◌, ltb, if◌then◌else◌, bit_or, truth, u8, not, ◌&&◌, all_below, all_below_sound, eq_of_==,
  some, Bool-cases,
}
use oseid_simulavr.Bits.{
  bit_and-zero, bit_and-3, bit_and-7, bit_and-0xf, bit_and-0x3f, bit_and-0x7f, bit_and-0xff,
  bit_and-0x3ff,
}
use package.oseid_simulavr.Timers.{mask_tov0, divisor_of}
use package.oseid_simulavr.Timers.Eight.{counted}

-- How many multiples of `d` are below `n`.
abbrev pub multiples : ℕ → ℕ → ℕ
multiples d n = (n + d - 1) / d

-- The divisors that a clock select of the timers or of the SPI sets.
abbrev pub IsDivisor : ℕ → Type 0
IsDivisor d =
    (d ≡ 1)
    ⊎ ((d ≡ 8) ⊎ ((d ≡ 64) ⊎ ((d ≡ 256) ⊎ ((d ≡ 1024) ⊎ ((d ≡ 4) ⊎ ((d ≡ 16) ⊎ (d ≡ 128)))))))

-- Every clock select of a timer sets such a divisor.
pub divisor_of-IsDivisor : (cs d : ℕ) → divisor_of cs ≡ some d → IsDivisor d
divisor_of-IsDivisor cs d h = elim (Bool-cases (cs == 1)) [
  | inl e ↦ inl (ground arith)
  | inr e ↦ elim (Bool-cases (cs == 2)) [
    | inl e2 ↦ inr (inl (ground arith))
    | inr e2 ↦ elim (Bool-cases (cs == 3)) [
      | inl e3 ↦ inr (inr (inl (ground arith)))
      | inr e3 ↦ elim (Bool-cases (cs == 4)) [
        | inl e4 ↦ inr (inr (inr (inl (ground arith))))
        | inr e4 ↦ inr (inr (inr (inr (inl (ground arith)))))
      ]
    ]
  ]
]

counted_step : (ck d : ℕ) → IsDivisor d → multiples d ck + counted ck d ≡ multiples d (suc ck)
counted_step ck d (inl h) = rw h (ground (arith, bit_and-zero (suc ck) ck))
counted_step ck d (inr (inl h)) = rw h (ground (arith, bit_and-7 ck))
counted_step ck d (inr (inr (inl h))) = rw h (ground (arith, bit_and-0x3f ck))
counted_step ck d (inr (inr (inr (inl h)))) = rw h (ground (arith, bit_and-0xff ck))
counted_step ck d (inr (inr (inr (inr (inl h))))) = rw h (ground (arith, bit_and-0x3ff ck))
counted_step ck d (inr (inr (inr (inr (inr (inl h)))))) = rw h (ground (arith, bit_and-3 ck))
counted_step ck d (inr (inr (inr (inr (inr (inr (inl h))))))) =
    rw h (ground (arith, bit_and-0xf ck))
counted_step ck d (inr (inr (inr (inr (inr (inr (inr h))))))) =
    rw h (ground (arith, bit_and-0x7f ck))

pub multiples_mono : (d ck n : ℕ) → IsDivisor d → multiples d ck ≤ multiples d (ck + n)
multiples_mono d ck n (inl h) = rw h (omega arith)
multiples_mono d ck n (inr (inl h)) = rw h (omega arith)
multiples_mono d ck n (inr (inr (inl h))) = rw h (omega arith)
multiples_mono d ck n (inr (inr (inr (inl h)))) = rw h (omega arith)
multiples_mono d ck n (inr (inr (inr (inr (inl h))))) = rw h (omega arith)
multiples_mono d ck n (inr (inr (inr (inr (inr (inl h)))))) = rw h (omega arith)
multiples_mono d ck n (inr (inr (inr (inr (inr (inr (inl h))))))) = rw h (omega arith)
multiples_mono d ck n (inr (inr (inr (inr (inr (inr (inr h))))))) = rw h (omega arith)

pub overflowed_twice :
    (t : ℕ) → t < 256 → bit_or (bit_or t mask_tov0) mask_tov0 ≡ bit_or t mask_tov0
unfolding all_below
overflowed_twice t h =
    eq_of_== _ _ (all_below_sound 256 (λ t. bit_or (bit_or t 2) 2 == bit_or t 2) t refl h)

-- TIFR after `ticks` counts from `tcnt`.
abbrev pub flagged : ℕ → ℕ → ℕ → ℕ
flagged tcnt tifr ticks = if ltb (tcnt + ticks) 256 then tifr else bit_or tifr mask_tov0

pub flagged_then :
    (tcnt tifr up t : ℕ)
    → tcnt < 256
    → tifr < 256
    → up ≤ 1
    → flagged ((tcnt + up) % 256) (flagged tcnt tifr up) t ≡ flagged tcnt tifr (up + t)
flagged_then tcnt tifr up t h k small = ground (arith, overflowed_twice tifr)

pub flagged-lt : (tcnt tifr up : ℕ) → tifr < 256 → flagged tcnt tifr up < 256
flagged-lt tcnt tifr up h =
    let table = λ (t : ℕ). ltb (bit_or t 2) 256 in
    let row : table tifr ≡ true = unfold all_below in all_below_sound 256 table tifr refl h in
    ground (arith, row)

pub divisor_positive : (d : ℕ) → IsDivisor d → (d == 0) ≡ false
divisor_positive d (inl h) = ground arith
divisor_positive d (inr (inl h)) = ground arith
divisor_positive d (inr (inr (inl h))) = ground arith
divisor_positive d (inr (inr (inr (inl h)))) = ground arith
divisor_positive d (inr (inr (inr (inr (inl h))))) = ground arith
divisor_positive d (inr (inr (inr (inr (inr (inl h)))))) = ground arith
divisor_positive d (inr (inr (inr (inr (inr (inr (inl h))))))) = ground arith
divisor_positive d (inr (inr (inr (inr (inr (inr (inr h))))))) = ground arith

pub truth_small : (t : Bool) → truth t ≤ 1
truth_small true = omega arith
truth_small false = omega arith

-- The timer rolls over exactly if it reaches 0 by counting.
pub rolls :
    (tcnt up : ℕ)
    → tcnt < 256
    → up ≤ 1
    → (u8 (tcnt + up) == 0 && not (u8 (tcnt + up) == tcnt)) ≡ not (ltb (tcnt + up) 256)
rolls tcnt up h k = ground arith

abbrev pub ticks_in : ℕ → ℕ → ℕ → ℕ
ticks_in d ck clocks = multiples d (ck + clocks) - multiples d ck

pub ticks_suc :
    (d ck ck' n : ℕ)
    → IsDivisor d
    → ck' ≡ suc ck
    → counted ck d + ticks_in d ck' n ≡ ticks_in d ck (suc n)
ticks_suc d ck ck' n h e =
    let same : ck' + n ≡ ck + suc n = omega arith in
    omega (
      arith,
      counted_step ck d h,
      multiples_mono d ck' n h,
      ap (multiples d) e,
      ap (multiples d) same,
    )
