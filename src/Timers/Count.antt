-- ===== src/Timers/Count.antt =====
-- The prescaler of timer/counter 0 counts the clocks that are multiples of its divisor.
use oseid_simulavr.Base.{
  ℕ, zero, suc, ◌+◌, ◌-◌, ◌%◌, ◌^◌, ◌<◌, ◌≤◌, ◌≡◌, refl, ap, ◌∙◌, arith, Bool, true, false, [], ◌∷◌,
  ◌==◌, ltb, if◌then◌else◌, bit_or, u8, u64, sym, not, ◌&&◌,
}
use oseid_simulavr.Exec.{Outcome, ok, pure, fault, modify, then_with, ◌>>◌}
use oseid_simulavr.Core.Counter.{ck_incr, inst_cks_set}
use oseid_simulavr.Board.{on_core, timer0_clk_incr, Board, on_timer0, on_timer_intr, CbRet, retain}
use oseid_simulavr.Callback.{
  callback_list_execute_all, keep, avr_core_clk_cb_exec, board_clock_loop,
}
use package.oseid_simulavr.Timers.{mask_tov0}
use package.oseid_simulavr.Timers.Eight.{counted, is_related, timer0_clk_incr_cb}
use package.oseid_simulavr.Timers.Multiples.{
  multiples, IsDivisor, flagged, flagged_then, flagged-lt, divisor_positive, truth_small, rolls,
  ticks_in, ticks_suc,
}

-- Timer/counter 0 is the only device with a clock call back, and has its interrupt registers.
pub record IsCounting (b : Board) : Type 0 where
  pub registered : b.clk_cb ≡ timer0_clk_incr ∷ []
  pub started : b.timer0.clk_cb ≡ true
  pub divides : IsDivisor b.timer0.divisor
  pub related : is_related b.timer0.related_addr b.timer_intr ≡ true
  pub tcnt_byte : b.timer0.tcnt < 256
  pub tifr_byte : b.timer_intr.tifr < 256

-- The board after `clocks` clocks in which the timer has counted `ticks`.
abbrev pub after_ticks : Board → ℕ → ℕ → Board
after_ticks b clocks ticks = record b {
  core = record b.core {
    ck = b.core.ck + clocks;
    inst_cks = if clocks == 0 then b.core.inst_cks else 0;
  };
  timer0 = record b.timer0 { tcnt = (b.timer0.tcnt + ticks) % 256 };
  timer_intr = record b.timer_intr { tifr = flagged b.timer0.tcnt b.timer_intr.tifr ticks };
}

-- One clock.
abbrev tick : Board → Board
tick b = record (after_ticks b 0 (counted b.core.ck b.timer0.divisor)) {
  clk_cb = timer0_clk_incr ∷ [];
}

abbrev counts : Board → ℕ → Bool → Outcome (CbRet × Board)
counts b up rolled =
    (on_timer0 (modify (λ t. record t { tcnt = u8 (b.timer0.tcnt + up) }))
        >> ((if rolled
              then (if is_related b.timer0.related_addr b.timer_intr
                  then on_timer_intr (modify (λ ti. record ti { tifr = bit_or ti.tifr mask_tov0 }))
                  else fault)
              else pure tt)
            >> pure retain))
      b

counts_lem :
    (b : Board) (up : ℕ) (below : Bool)
    → ltb (b.timer0.tcnt + up) 256 ≡ below
    → is_related b.timer0.related_addr b.timer_intr ≡ true
    → counts b up (not below) ≡ ok (retain, after_ticks b 0 up)
counts_lem b up true h r = rw h (ground arith)
counts_lem b up false h r = rw (h, r) (ground arith)

cb_lem :
    (b : Board)
    → IsCounting b
    → timer0_clk_incr_cb b.core.ck b
      ≡ ok (retain, after_ticks b 0 (counted b.core.ck b.timer0.divisor))
unfolding timer0_clk_incr_cb
cb_lem b c =
    let up = counted b.core.ck b.timer0.divisor in
    let rolled = u8 (b.timer0.tcnt + up) == 0 && not (u8 (b.timer0.tcnt + up) == b.timer0.tcnt) in
    let run : timer0_clk_incr_cb b.core.ck b ≡ counts b up rolled =
      rw (c.started, divisor_positive b.timer0.divisor c.divides) refl in
    run
    ∙ ap (counts b up) (rolls b.timer0.tcnt up c.tcnt_byte (truth_small _))
    ∙ counts_lem b up (ltb (b.timer0.tcnt + up) 256) refl c.related

tick_lem : (b : Board) → IsCounting b → avr_core_clk_cb_exec b ≡ ok (tt, tick b)
unfolding avr_core_clk_cb_exec callback_list_execute_all
tick_lem b c =
    ap
      (λ l.
        then_with (callback_list_execute_all l b.core.ck b)
          (λ kept. modify (λ b. record b { clk_cb = kept })))
      c.registered
    ∙ ap
        (λ o.
          then_with (then_with o (λ ret. pure (keep timer0_clk_incr ret [])))
            (λ kept. modify (λ b. record b { clk_cb = kept })))
        (cb_lem b c)

-- The clock after the call backs.
abbrev clocked : Board → ℕ → Board
clocked b left = record b { core = record b.core { ck = u64 (b.core.ck + 1); inst_cks = left } }

tick-IsCounting : (b : Board) (left : ℕ) → IsCounting b → IsCounting (clocked (tick b) left)
tick-IsCounting b left c = record {
  registered = refl;
  started = c.started;
  divides = c.divides;
  related = c.related;
  tcnt_byte = omega arith;
  tifr_byte = flagged-lt b.timer0.tcnt b.timer_intr.tifr _ c.tifr_byte;
}

tick_next :
    (b : Board) (n t : ℕ)
    → IsCounting b
    → b.core.ck + suc n < 2 ^ 64
    → after_ticks (clocked (tick b) n) n t
      ≡ after_ticks b (suc n) (counted b.core.ck b.timer0.divisor + t)
tick_next b n t c h =
    let up = counted b.core.ck b.timer0.divisor in
    let small : up ≤ 1 = truth_small _ in
    let clock : u64 (b.core.ck + 0 + 1) + n ≡ b.core.ck + suc n = omega arith in
    let left : (if n == 0 then n else 0) ≡ (if suc n == 0 then b.core.inst_cks else 0) =
      ground arith in
    let count : ((b.timer0.tcnt + up) % 256 + t) % 256 ≡ (b.timer0.tcnt + (up + t)) % 256 =
      omega arith in
    let flags = flagged_then b.timer0.tcnt b.timer_intr.tifr up t c.tcnt_byte c.tifr_byte small in
    λ i. record b {
      core = record b.core { ck = clock i; inst_cks = left i };
      timer0 = record b.timer0 { tcnt = count i };
      timer_intr = record b.timer_intr { tifr = flags i };
      clk_cb = sym c.registered i;
    }

no_ticks : (b : Board) → b.timer0.tcnt < 256 → after_ticks b 0 0 ≡ b
no_ticks b h =
    let clock : b.core.ck + 0 ≡ b.core.ck = omega arith in
    let count : (b.timer0.tcnt + 0) % 256 ≡ b.timer0.tcnt = omega arith in
    let flags : flagged b.timer0.tcnt b.timer_intr.tifr 0 ≡ b.timer_intr.tifr = ground arith in
    λ i. record b {
      core = record b.core { ck = clock i };
      timer0 = record b.timer0 { tcnt = count i };
      timer_intr = record b.timer_intr { tifr = flags i };
    }

-- While timer/counter 0 runs with a divisor that a clock select can set, as the only device with a
-- clock call back, `clocks` clocks count it up by the number of multiples of the divisor among the
-- clock values of that time, modulo 256, and set its overflow flag exactly if it passes 255. The
-- clock must not pass 2 ^ 64.
pub board_clock_loop-count :
    (clocks : ℕ) (b : Board)
    → IsCounting b
    → b.core.ck + clocks < 2 ^ 64
    → board_clock_loop clocks b
      ≡ ok (
        tt,
        after_ticks b clocks (
            multiples b.timer0.divisor (b.core.ck + clocks) - multiples b.timer0.divisor b.core.ck),
      )
unfolding board_clock_loop ck_incr inst_cks_set
board_clock_loop-count zero b c h =
    let same : b.core.ck + 0 ≡ b.core.ck = omega arith in
    let none_ : 0 ≡ ticks_in b.timer0.divisor b.core.ck 0 =
      omega (arith, ap (multiples b.timer0.divisor) same) in
    ap (λ b. ok (tt, b)) (sym (no_ticks b c.tcnt_byte))
    ∙ ap (λ (t : ℕ). ok (tt, after_ticks b 0 t)) none_
board_clock_loop-count (suc n) b c h =
    let b' = clocked (tick b) n in
    ap
      (λ o.
        then_with o
          (λ (t : Unit). on_core ck_incr >> (on_core (inst_cks_set n) >> board_clock_loop n)))
      (tick_lem b c)
    ∙ board_clock_loop-count n b' (tick-IsCounting b n c) (omega arith)
    ∙ ap (λ b. ok (tt, b)) (tick_next b n (ticks_in b.timer0.divisor b'.core.ck n) c h)
    ∙ ap (λ (t : ℕ). ok (tt, after_ticks b (suc n) t))
        (ticks_suc b.timer0.divisor b.core.ck b'.core.ck n c.divides (omega arith))
