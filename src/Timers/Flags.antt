-- ===== src/Timers/Flags.antt =====
-- The order in which the flags of the timers raise their interrupts, and how a flag is cleared.
use oseid_simulavr.Base.{
  ℕ, ◌*◌, ◌^◌, ◌<◌, ◌≡◌, ◌≢◌, arith, Bool, true, false, ◌==◌, if◌then◌else◌, bit_and, complement,
  ◌∙◌, ap, refl, Bool-cases, inl, inr, eq_of_==, ◌&&◌,
}
use oseid_simulavr.Exec.{ok}
use oseid_simulavr.Exec.Returns.{Returns, Returns-ok}
use oseid_simulavr.Bits.{
  digit, digit-bit_and, digit-complement, digit-complement_byte, bit_and-pow, bit_and-le, digit-lt,
}
use oseid_simulavr.Board.{TimerIntr, Board, retain}
use oseid_simulavr.Irq.{irq_list_add}
use package.oseid_simulavr.Timers.Interrupt.{
  timer0_ovf, timer1_capt, timer1_compa, timer1_compb, timer1_ovf, timer_intr_cb, timer_intr_write,
}

-- The interrupts of the timers, by the bit of their flag.
pub data Source : Type 0 where
  tov0 icf1 ocf1b ocf1a tov1 : Source

abbrev pub flag_bit : Source → ℕ
flag_bit tov0 = 1
flag_bit icf1 = 3
flag_bit ocf1b = 5
flag_bit ocf1a = 6
flag_bit tov1 = 7

abbrev pub vector_of : Source → ℕ
vector_of tov0 = timer0_ovf
vector_of icf1 = timer1_capt
vector_of ocf1b = timer1_compb
vector_of ocf1a = timer1_compa
vector_of tov1 = timer1_ovf

-- The flags that are set, enabled and present.
abbrev pub intrs : TimerIntr → ℕ
intrs ti = bit_and (bit_and ti.timsk ti.tifr) ti.func_mask

-- The source is flagged, and no source with a lower bit is.
abbrev pub IsFirst : Source → ℕ → Type 0
IsFirst s flags =
    (digit flags (flag_bit s) ≡ 1)
    × ((other : Source) → flag_bit other < flag_bit s → digit flags (flag_bit other) ≡ 0)

abbrev pub raised : Source → Board → Board
raised s b = record b {
  core = record b.core {
    irq_pending = irq_list_add (b.core.irq_vtable (vector_of s)) b.core.irq_pending;
  };
  timer_intr = record b.timer_intr {
    tifr = bit_and b.timer_intr.tifr (complement (1 * 2 ^ flag_bit s));
  };
}

mask_of :
    (s : Source) (flags : ℕ)
    → bit_and flags (1 * 2 ^ flag_bit s) ≡ digit flags (flag_bit s) * 2 ^ flag_bit s
mask_of tov0 flags = bit_and-pow 1 flags
mask_of icf1 flags = bit_and-pow 3 flags
mask_of ocf1b flags = bit_and-pow 5 flags
mask_of ocf1a flags = bit_and-pow 6 flags
mask_of tov1 flags = bit_and-pow 7 flags

-- The test of the flag of a source.
abbrev clear : Source → ℕ → Bool
clear s flags = bit_and flags (1 * 2 ^ flag_bit s) == 0

none_flagged : (s : Source) → clear s 0 ≡ true
none_flagged tov0 = refl
none_flagged icf1 = refl
none_flagged ocf1b = refl
none_flagged ocf1a = refl
none_flagged tov1 = refl

module _ (s : Source) (flags : ℕ) where
  is_clear : digit flags (flag_bit s) ≡ 0 → clear s flags ≡ true
  is_clear h =
      let none_ : bit_and flags (1 * 2 ^ flag_bit s) ≡ 0 =
        mask_of s flags ∙ ap (λ (t : ℕ). t * 2 ^ flag_bit s) h ∙ omega arith in
      ground arith

  is_set : digit flags (flag_bit s) ≡ 1 → clear s flags ≡ false
  is_set h = set_lem s flags (mask_of s flags ∙ ap (λ (t : ℕ). t * 2 ^ flag_bit s) h)
    where
      set_lem :
          (s : Source) (flags : ℕ)
          → bit_and flags (1 * 2 ^ flag_bit s) ≡ 1 * 2 ^ flag_bit s
          → clear s flags ≡ false
      set_lem tov0 flags h = ground arith
      set_lem icf1 flags h = ground arith
      set_lem ocf1b flags h = ground arith
      set_lem ocf1a flags h = ground arith
      set_lem tov1 flags h = ground arith

  some_flag : digit flags (flag_bit s) ≡ 1 → (flags == 0) ≡ false
  some_flag h = elim (Bool-cases (flags == 0)) [
    | inl e ↦ cc (ap (clear s) (eq_of_== flags 0 e), none_flagged s, is_set h)
    | inr e ↦ e
  ]

pub timer_intr_cb_lem :
    (s : Source) (b : Board)
    → b.timer_intr.intr_cb ≡ true
    → IsFirst s (intrs b.timer_intr)
    → timer_intr_cb b ≡ ok (retain, raised s b)
unfolding timer_intr_cb
timer_intr_cb_lem tov0 b on h =
    let i = intrs b.timer_intr in rw (on, some_flag tov0 i h.0, is_set tov0 i h.0) refl
timer_intr_cb_lem icf1 b on h =
    let i = intrs b.timer_intr in
    rw (on, some_flag icf1 i h.0, is_clear tov0 i (h.1 tov0 (omega arith)), is_set icf1 i h.0) refl
timer_intr_cb_lem ocf1b b on h =
    let i = intrs b.timer_intr in
    rw
      (
        on,
        some_flag ocf1b i h.0,
        is_clear tov0 i (h.1 tov0 (omega arith)),
        is_clear icf1 i (h.1 icf1 (omega arith)),
        is_set ocf1b i h.0,
      )
      refl
timer_intr_cb_lem ocf1a b on h =
    let i = intrs b.timer_intr in
    rw
      (
        on,
        some_flag ocf1a i h.0,
        is_clear tov0 i (h.1 tov0 (omega arith)),
        is_clear icf1 i (h.1 icf1 (omega arith)),
        is_clear ocf1b i (h.1 ocf1b (omega arith)),
        is_set ocf1a i h.0,
      )
      refl
timer_intr_cb_lem tov1 b on h =
    let i = intrs b.timer_intr in
    rw
      (
        on,
        some_flag tov1 i h.0,
        is_clear tov0 i (h.1 tov0 (omega arith)),
        is_clear icf1 i (h.1 icf1 (omega arith)),
        is_clear ocf1b i (h.1 ocf1b (omega arith)),
        is_clear ocf1a i (h.1 ocf1a (omega arith)),
        is_set tov1 i h.0,
      )
      refl

flag_bit-lt : (s : Source) → flag_bit s < 8
flag_bit-lt tov0 = omega arith
flag_bit-lt icf1 = omega arith
flag_bit-lt ocf1b = omega arith
flag_bit-lt ocf1a = omega arith
flag_bit-lt tov1 = omega arith

-- While the timer interrupts are enabled, the call back raises the interrupt of the lowest flag
-- that is set, enabled and present, and clears that flag and no other; it stays registered.
pub timer_intr_cb-first :
    (s : Source) (b : Board)
    → b.timer_intr.intr_cb ≡ true
    → IsFirst s (intrs b.timer_intr)
    → Returns (timer_intr_cb b) (λ r.
      (r.0 ≡ retain)
      × (r.1.core.irq_pending ≡ irq_list_add (b.core.irq_vtable (vector_of s)) b.core.irq_pending)
      × ((j : ℕ)
          → j < 8
          → digit r.1.timer_intr.tifr j
            ≡ (if flag_bit s == j then 0 else digit b.timer_intr.tifr j)))
timer_intr_cb-first s b on h =
    let cleared : (j : ℕ)
        → j < 8
        → digit (raised s b).timer_intr.tifr j
          ≡ (if flag_bit s == j then 0 else digit b.timer_intr.tifr j) =
      λ j hj. ground (
        arith,
        digit-bit_and j b.timer_intr.tifr (complement (1 * 2 ^ flag_bit s)),
        digit-complement (flag_bit s) j (flag_bit-lt s) hj,
        digit-lt j b.timer_intr.tifr,
      ) in
    Returns-ok (timer_intr_cb b) (retain, raised s b) _ (timer_intr_cb_lem s b on h)
      (refl, refl, cleared)

-- A write to TIFR clears exactly the flags that are written as ones and are present, and changes
-- nothing else, at a device whose two registers have different addresses.
pub timer_intr_write-tifr :
    (val : ℕ) (b : Board)
    → b.timer_intr.tifr_addr ≢ b.timer_intr.timsk_addr
    → val < 256
    → Returns (timer_intr_write b.timer_intr.tifr_addr val b) (λ r.
      ((j : ℕ)
        → j < 8
        → digit r.1.timer_intr.tifr j ≡ (
            if digit val j == 1 && digit b.timer_intr.func_mask j == 1
            then 0
            else digit b.timer_intr.tifr j))
      × (r.1 ≡ record b { timer_intr = record b.timer_intr { tifr = r.1.timer_intr.tifr } }))
unfolding timer_intr_write
timer_intr_write-tifr val b h hv =
    let ti = b.timer_intr in
    let m = bit_and val ti.func_mask in
    let small : m < 256 = omega (arith, bit_and-le val ti.func_mask) in
    let after = record b { timer_intr = record ti { tifr = bit_and ti.tifr (complement m) } } in
    let run : timer_intr_write ti.tifr_addr val b ≡ ok (tt, after) = ground arith in
    let cleared : (j : ℕ)
        → j < 8
        → digit (bit_and ti.tifr (complement m)) j
          ≡ (if digit val j == 1 && digit ti.func_mask j == 1 then 0 else digit ti.tifr j) =
      λ j hj. ground (
        arith,
        digit-bit_and j ti.tifr (complement m),
        digit-bit_and j val ti.func_mask,
        digit-complement_byte m j small hj,
        digit-lt j ti.tifr,
        digit-lt j val,
        digit-lt j ti.func_mask,
      ) in
    Returns-ok (timer_intr_write ti.tifr_addr val b) (tt, after) _ run (cleared, refl)
