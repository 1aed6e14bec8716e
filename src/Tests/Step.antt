-- ===== src/Tests/Step.antt =====
-- A step of the board at the addition in its flash, with and without a timer interrupt, and a
-- run into a break point.
use oseid_simulavr.Base.{◌<◌, ◌≡◌, refl, arith, inl, inr, [], ◌∷◌}
use oseid_simulavr.Exec.{ok}
use oseid_simulavr.Bits.{digit}
use oseid_simulavr.Core.Sreg.{bit_number, set_bit_in_byte}
use oseid_simulavr.Core.Counter.{adjust_pc_to_max}
use oseid_simulavr.Decoder.Op.{executed, opcode_add}
use oseid_simulavr.Decoder.Lookup.Encoding.{encode}
use oseid_simulavr.Instructions.Flags.{set_flags, get_add_carry, get_add_overflow}
use oseid_simulavr.Instructions.Flags.Status.{flag}
use oseid_simulavr.Instructions.Flags.Spec.{IsSumStatus}
use oseid_simulavr.Instructions.Arithmetic.Add.Sum.{sum_status}
use oseid_simulavr.Board.{Board, timer_intr, timer0_clk_incr}
use oseid_simulavr.Timers.Count.{IsCounting}
use oseid_simulavr.Timers.Flags.{
  Source, icf1, tov0, ocf1b, ocf1a, tov1, intrs, IsFirst, raised, flag_bit,
}
use oseid_simulavr.Timers.Delivery.{interrupted}
use oseid_simulavr.Run.Interrupt.{CanInterrupt, delivered}
use oseid_simulavr.Step.{avr_core_step}
use oseid_simulavr.Step.Add.{RunsAdd, counted_on, avr_core_step-add, avr_core_step-timer_intr}
use package.oseid_simulavr.Tests.Device.{timer}
use package.oseid_simulavr.Tests.Board.{board}

-- Timer 0 is at its last value, and the clock at a multiple of its divisor.
abbrev full : Board
full = record board { clk_cb = timer0_clk_incr ∷ []; timer0 = record board.timer0 { tcnt = 255 } }

full_lem : IsCounting full
full_lem = record {
  registered = refl;
  started = refl;
  divides = inr (inl refl);
  related = refl;
  tcnt_byte = omega arith;
  tifr_byte = omega arith;
}

adds : RunsAdd 3 4 20 full.core
unfolding encode
adds = record {
  running = refl;
  counter = refl;
  there = record { inside = (omega arith, omega arith); high = refl; low = refl };
  first = omega arith;
  second = omega arith;
  first_byte = omega arith;
  second_byte = omega arith;
}

avr_core_step-add_example :
    (avr_core_step full ≡ ok (executed opcode_add, counted_on 3 4 full))
    × IsSumStatus 211 248 0 0x83 (counted_on 3 4 full).core.sreg
avr_core_step-add_example = avr_core_step-add 3 4 20 full adds full_lem (omega arith) refl refl

abbrev enabled : Board
enabled = record full { async_cb = timer_intr ∷ [] }

enabled_lem : IsCounting enabled
enabled_lem = record {
  registered = refl;
  started = refl;
  divides = inr (inl refl);
  related = refl;
  tcnt_byte = omega arith;
  tifr_byte = omega arith;
}

overflow_IsFirst : IsFirst tov0 (intrs (counted_on 3 4 enabled).timer_intr)
unfolding digit
overflow_IsFirst = (refl, λ other h. absurd (below other h))
  where
    below : (other : Source) → flag_bit other < 1 → ⊥
    below tov0 h = absurd (omega arith)
    below icf1 h = absurd (omega arith)
    below ocf1b h = absurd (omega arith)
    below ocf1a h = absurd (omega arith)
    below tov1 h = absurd (omega arith)

can : CanInterrupt timer [] 21 (interrupted tov0 (counted_on 3 4 enabled))
unfolding flag digit bit_number sum_status adjust_pc_to_max set_flags set_bit_in_byte get_add_carry
    get_add_overflow
can = record {
  running = refl;
  pending = refl;
  named = refl;
  not_reset = refl;
  enabled = refl;
  room = record {
    in_memory = refl;
    spl_byte = omega arith;
    sph_byte = omega arith;
    two = omega arith;
    top = record {
      in_memory = omega arith;
      attached = refl;
      above = omega arith;
      below = omega arith;
    };
    next = record {
      in_memory = omega arith;
      attached = refl;
      above = omega arith;
      below = omega arith;
    };
  };
  counter = refl;
  size = refl;
  word = omega arith;
}

avr_core_step-timer_intr_example :
    avr_core_step enabled
    ≡ ok (
      executed opcode_add,
      record (raised tov0 (counted_on 3 4 enabled)) {
        core = delivered timer [] 21 (interrupted tov0 (counted_on 3 4 enabled));
      },
    )
avr_core_step-timer_intr_example =
    avr_core_step-timer_intr 3 4 20 enabled adds enabled_lem (omega arith) tov0 21 refl refl refl
      overflow_IsFirst can
