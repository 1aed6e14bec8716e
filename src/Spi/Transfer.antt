-- ===== src/Spi/Transfer.antt =====
-- A transfer of a byte from the write to SPDR to the end of its eight clocks.
use oseid_simulavr.Base.{
  ℕ, zero, suc, ◌+◌, ◌-◌, ◌^◌, ◌<◌, ◌≤◌, ◌≡◌, refl, ap, ◌∙◌, sym, arith, Bool, true, false, inl,
  inr, List, [], ◌∷◌, ◌++◌, ◌==◌, ltb, ◌&&◌, not, if◌then◌else◌, bit_and, bit_or, u8, u64,
  Bool-cases, eq_of_==, complement,
}
use oseid_simulavr.Exec.{Outcome, ok, Exec, pure, modify, then_with, ◌>>◌}
use oseid_simulavr.Board.{
  SpiIntr, Board, spi_clk_incr, on_core, avr_core_clk_cb_add, CbRet, retain, remove,
}
use oseid_simulavr.DList.{dlist_append}
use oseid_simulavr.Core.Counter.{ck_incr, inst_cks_set}
use oseid_simulavr.Callback.{
  callback_execute, callback_list_execute_all, keep, avr_core_clk_cb_exec, board_clock_loop,
}
use oseid_simulavr.Timers.Eight.{counted}
use oseid_simulavr.Timers.Multiples.{
  IsDivisor, ticks_in, ticks_suc, truth_small, divisor_positive, multiples,
}
use package.oseid_simulavr.Spi.{
  mask_spif, is_interface, finish_spi, spi_clk_incr_cb, spi_port_wr, spi_port_rd, spi_divisor,
  start_spi, spi_write, clear_read,
}

-- The SPI transfers a byte, as the only device with a clock call back, and has its interrupt register.
pub record IsSending (b : Board) : Type 0 where
  pub registered : b.clk_cb ≡ spi_clk_incr ∷ []
  pub started : b.spi.clk_cb ≡ true
  pub divides : IsDivisor b.spi.divisor
  pub related : is_interface b.spi.rel_addr b.spi_intr ≡ true
  pub left : 0 < b.spi.tcnt
  pub tcnt_byte : b.spi.tcnt < 256

-- The board after `clocks` clocks.
abbrev pub later : Board → ℕ → Board
later b clocks = record b {
  core = record b.core {
    ck = b.core.ck + clocks;
    inst_cks = if clocks == 0 then b.core.inst_cks else 0;
  };
}

-- After `ticks` of the eight clocks of a transfer.
abbrev pub sending : Board → ℕ → Board
sending b ticks = record b { spi = record b.spi { tcnt = b.spi.tcnt - ticks } }

-- After the last of them.
abbrev pub sent : Board → Board
sent b = record b {
  spi = record b.spi { tcnt = 0; spdr = b.spi.spdr_in; clk_cb = false };
  spi_intr = record b.spi_intr { spsr = bit_or b.spi_intr.spsr mask_spif };
  console = record b.console { wrote = b.console.wrote ++ (b.spi.spdr ∷ []) };
  clk_cb = [];
}

abbrev pub progress : Board → ℕ → Board
progress b ticks = if ltb ticks b.spi.tcnt then sending b ticks else sent b

goes_on :
    (tcnt up : ℕ)
    → 0 < tcnt
    → tcnt < 256
    → up ≤ 1
    → ltb up tcnt ≡ true
    → (u8 (tcnt + 256 - up) ≡ tcnt - up) × ((u8 (tcnt + 256 - up) == 0) ≡ false)
goes_on tcnt up h k small e = (ground arith, ground arith)

ends : (tcnt up : ℕ) → 0 < tcnt → up ≤ 1 → ltb up tcnt ≡ false → (tcnt ≡ 1) × (up ≡ 1)
ends tcnt up h small e = (ground arith, ground arith)

abbrev counts : Board → ℕ → Outcome (CbRet × Board)
counts b up =
    (let next = u8 (b.spi.tcnt + 256 - up) in
        (modify (λ b. record b { spi = record b.spi { tcnt = next } })
          >> (if next == 0 && not (next == b.spi.tcnt) then finish_spi else pure retain)))
      b

counts_lem :
    (b : Board) (up : ℕ)
    → IsSending b
    → up ≤ 1
    → counts b up ≡ (
        if ltb up b.spi.tcnt
        then ok (retain, sending b up)
        else ok (remove, record (sent b) { clk_cb = b.clk_cb }))
unfolding finish_spi spi_port_wr
counts_lem b up c small = elim (Bool-cases (ltb up b.spi.tcnt)) [
  | inl e ↦
      let g = goes_on b.spi.tcnt up c.left c.tcnt_byte small e in
      rw (e, g.1) (ap (λ (t : ℕ). ok (retain, record b { spi = record b.spi { tcnt = t } })) g.0)
  | inr e ↦ (let g = ends b.spi.tcnt up c.left small e in rw (e, g.0, g.1, c.related) refl)
]

cb_lem :
    (b : Board)
    → IsSending b
    → spi_clk_incr_cb b.core.ck b ≡ counts b (counted b.core.ck b.spi.divisor)
unfolding spi_clk_incr_cb finish_spi
cb_lem b c = rw (c.started, divisor_positive b.spi.divisor c.divides) refl

-- The call backs of one clock.
exec_lem :
    (b : Board)
    → IsSending b
    → avr_core_clk_cb_exec b
      ≡ ok (
        tt,
        record (progress b (counted b.core.ck b.spi.divisor)) {
          clk_cb =
              if ltb (counted b.core.ck b.spi.divisor) b.spi.tcnt then spi_clk_incr ∷ [] else [];
        },
      )
unfolding avr_core_clk_cb_exec callback_list_execute_all callback_execute
exec_lem b c =
    let up = counted b.core.ck b.spi.divisor in
    let store : List _ → Exec Board Unit = λ kept. modify (λ b. record b { clk_cb = kept }) in
    let executed = cb_lem b c ∙ counts_lem b up c (truth_small _) in
    ap (λ l. then_with (callback_list_execute_all l b.core.ck b) store) c.registered
    ∙ ap (λ o. then_with (then_with o (λ ret. pure (keep spi_clk_incr ret []))) store) executed
    ∙ elim (Bool-cases (ltb up b.spi.tcnt)) [ inl e ↦ rw e refl | inr e ↦ rw e refl ]

-- The clock after the call backs.
abbrev clocked : Board → ℕ → Board
clocked b left = record b { core = record b.core { ck = u64 (b.core.ck + 1); inst_cks = left } }

later_next :
    (b c : Board) (n : ℕ)
    → c.core ≡ b.core
    → b.core.ck + suc n < 2 ^ 64
    → later (clocked c n) n ≡ record c { core = (later b (suc n)).core }
later_next b c n e h =
    let clock : u64 (b.core.ck + 1) + n ≡ b.core.ck + suc n = omega arith in
    let left : (if n == 0 then n else 0) ≡ (if suc n == 0 then b.core.inst_cks else 0) =
      ground arith in
    rw e (λ i. record c { core = record b.core { ck = clock i; inst_cks = left i } })

idle_loop :
    (n : ℕ) (b : Board)
    → b.clk_cb ≡ []
    → b.core.ck + n < 2 ^ 64
    → board_clock_loop n b ≡ ok (tt, later b n)
unfolding board_clock_loop avr_core_clk_cb_exec callback_list_execute_all ck_incr inst_cks_set
idle_loop zero b q h =
    ap (λ (t : ℕ). ok (tt, record b { core = record b.core { ck = t } })) (omega arith)
idle_loop (suc n) b q h =
    ap
      (λ l.
        then_with
          (then_with (callback_list_execute_all l b.core.ck b)
            (λ kept. modify (λ b. record b { clk_cb = kept })))
          (λ (t : Unit). on_core ck_incr >> (on_core (inst_cks_set n) >> board_clock_loop n)))
      q
    ∙ idle_loop n (clocked (record b { clk_cb = [] }) n) refl (omega arith)
    ∙ ap (λ b. ok (tt, b)) (later_next b (record b { clk_cb = [] }) n refl h)
    ∙ λ i. ok (tt, record b { core = (later b (suc n)).core; clk_cb = sym q i })

-- One clock on which the transfer goes on.
busy : Board → ℕ → Board
busy b n =
    clocked (record (sending b (counted b.core.ck b.spi.divisor)) { clk_cb = spi_clk_incr ∷ [] }) n

busy-IsSending :
    (b : Board) (n : ℕ)
    → IsSending b
    → ltb (counted b.core.ck b.spi.divisor) b.spi.tcnt ≡ true
    → IsSending (busy b n)
unfolding busy
busy-IsSending b n c e = record {
  registered = refl;
  started = c.started;
  divides = c.divides;
  related = c.related;
  left = ground arith;
  tcnt_byte = omega (arith, c.tcnt_byte);
}

abbrev with_core : Board → Board → Board
with_core b c = record b { core = c.core }

busy-progress :
    (b : Board) (n ticks : ℕ) (c : Board)
    → b.clk_cb ≡ spi_clk_incr ∷ []
    → ltb (counted b.core.ck b.spi.divisor) b.spi.tcnt ≡ true
    → with_core (progress (busy b n) ticks) c
      ≡ with_core (progress b (counted b.core.ck b.spi.divisor + ticks)) c
unfolding busy
busy-progress b n ticks c r e =
    let up = counted b.core.ck b.spi.divisor in
    let test : ltb ticks (b.spi.tcnt - up) ≡ ltb (up + ticks) b.spi.tcnt = ground arith in
    let count : b.spi.tcnt - up - ticks ≡ b.spi.tcnt - (up + ticks) = omega arith in
    ap (λ (t : Bool). with_core (if t then sending (busy b n) ticks else sent (busy b n)) c) test
    ∙ elim (Bool-cases (ltb (up + ticks) b.spi.tcnt)) [
      | inl e ↦
          rw e (λ i.
            with_core (record b { spi = record b.spi { tcnt = count i }; clk_cb = sym r i }) c)
      | inr e ↦ rw e refl
    ]

-- While the SPI sends, as the only device with a clock call back, `clocks` clocks make as much
-- progress as there are multiples of the divisor among the clock values of that time.
pub board_clock_loop-progress :
    (clocks : ℕ) (b : Board)
    → IsSending b
    → b.core.ck + clocks < 2 ^ 64
    → board_clock_loop clocks b
      ≡ ok (
        tt,
        record (progress b (ticks_in b.spi.divisor b.core.ck clocks)) {
          core = (later b clocks).core;
        },
      )
unfolding board_clock_loop ck_incr inst_cks_set busy
board_clock_loop-progress zero b c h =
    let same : b.core.ck + 0 ≡ b.core.ck = omega arith in
    let none_ : 0 ≡ ticks_in b.spi.divisor b.core.ck 0 =
      omega (arith, ap (multiples b.spi.divisor) same) in
    let all : ltb 0 b.spi.tcnt ≡ true = ground (arith, c.left) in
    let full : b.spi.tcnt ≡ b.spi.tcnt - 0 = omega arith in
    (λ i. ok (
      tt,
      record b { core = record b.core { ck = sym same i }; spi = record b.spi { tcnt = full i } },
    ))
    ∙ ap
        (λ (t : Bool).
          ok (tt, record (if t then sending b 0 else sent b) { core = (later b 0).core }))
        (sym all)
    ∙ ap (λ (t : ℕ). ok (tt, record (progress b t) { core = (later b 0).core })) none_
board_clock_loop-progress (suc n) b c h =
    let up = counted b.core.ck b.spi.divisor in
    let rest : Unit {0} → Exec Board Unit =
      λ t. on_core ck_incr >> (on_core (inst_cks_set n) >> board_clock_loop n) in
    let ticks = ticks_in b.spi.divisor (u64 (b.core.ck + 1)) n in
    let sum : up + ticks ≡ ticks_in b.spi.divisor b.core.ck (suc n) =
      ticks_suc b.spi.divisor b.core.ck (u64 (b.core.ck + 1)) n c.divides (omega arith) in
    let total = ticks_in b.spi.divisor b.core.ck (suc n) in
    ap (λ o. then_with o rest) (exec_lem b c) ∙ elim (Bool-cases (ltb up b.spi.tcnt)) [
      | inl e ↦ rw e (
          board_clock_loop-progress n (busy b n) (busy-IsSending b n c e) (omega arith)
          ∙ ap (λ b. ok (tt, b))
              (busy-progress b n ticks (later (busy b n) n) c.registered e
                ∙ ap (with_core (progress b (up + ticks))) (later_next b b n refl h)
                ∙ ap (λ (t : ℕ). with_core (progress b t) (later b (suc n))) sum))
      | inr e ↦
          let over : false ≡ ltb total b.spi.tcnt = ground (arith, sum) in
          rw e (
            idle_loop n (clocked (sent b) n) refl (omega arith)
            ∙ ap (λ b. ok (tt, b))
                (later_next b (sent b) n refl h
                  ∙ ap
                      (λ (t : Bool).
                        with_core (if t then sending b total else sent b) (later b (suc n)))
                      over))
    ]

spi_divisor-IsDivisor : (cs : ℕ) → IsDivisor (spi_divisor cs)
spi_divisor-IsDivisor cs = elim (Bool-cases (cs == 0)) [
  | inl e ↦ inr (inr (inr (inr (inr (inl (ground arith))))))
  | inr e ↦ elim (Bool-cases (cs == 1)) [
    | inl e1 ↦ inr (inr (inr (inr (inr (inr (inl (ground arith)))))))
    | inr e1 ↦ elim (Bool-cases (cs == 2)) [
      | inl e2 ↦ inr (inr (inl (ground arith)))
      | inr e2 ↦ inr (inr (inr (inr (inr (inr (inr (ground arith)))))))
    ]
  ]
]

-- No transfer is in progress, and no device has a clock call back.
pub record IsFree (b : Board) : Type 0 where
  pub unregistered : b.clk_cb ≡ []
  pub stopped : b.spi.clk_cb ≡ false
  pub counted_down : b.spi.tcnt ≡ 0
  pub related : is_interface b.spi.rel_addr b.spi_intr ≡ true

-- SPSR without the bits that were read.
abbrev pub unread : SpiIntr → SpiIntr
unread s = record s {
  spsr = if s.spsr_read == 0 then s.spsr else bit_and s.spsr (complement s.spsr_read);
  spsr_read = 0;
}

-- The board with a byte to send.
abbrev pub loaded : Board → ℕ → Board
loaded b val = record b {
  spi = record b.spi {
    spdr = val;
    spdr_in = bit_and (b.console.typed b.console.taken) 0xff;
    tcnt = 8;
    divisor = spi_divisor (bit_and b.spi_intr.spcr 3);
    clk_cb = true;
  };
  spi_intr = unread b.spi_intr;
  console = record b.console { taken = b.console.taken + 1 };
  clk_cb = spi_clk_incr ∷ [];
}

clear_read_lem : (s : SpiIntr) → clear_read s ≡ ok (tt, unread s)
unfolding clear_read
clear_read_lem s = elim (Bool-cases (s.spsr_read == 0)) [
  | inl e ↦ rw e (λ i. ok (tt, record s { spsr_read = eq_of_== s.spsr_read 0 e i }))
  | inr e ↦ rw e refl
]

spi_write_lem :
    (val : ℕ) (b : Board) → IsFree b → spi_write b.spi.spdr_addr val b ≡ ok (tt, loaded b val)
unfolding spi_write start_spi avr_core_clk_cb_add dlist_append spi_port_rd
spi_write_lem val b f =
    let mine : (b.spi.spdr_addr == b.spi.spdr_addr) ≡ true = ground arith in
    rw (mine, f.related, f.counted_down, f.stopped, clear_read_lem b.spi_intr, f.unregistered) refl

-- A byte that is written to SPDR while no transfer is in progress and no device has a clock call back
-- is transferred by the clocks that follow, on which the multiples of the divisor of SPCR count:
-- before the eighth of them the transfer goes on, with the byte in SPDR; from the eighth on the byte
-- is shown, SPDR holds the byte that was typed, SPIF is set, and the call back is gone. The clock must
-- not pass 2 ^ 64.
pub board_clock_loop-spi_write :
    (val clocks : ℕ) (b : Board)
    → IsFree b
    → b.core.ck + clocks < 2 ^ 64
    → (spi_write b.spi.spdr_addr val >> board_clock_loop clocks) b
      ≡ ok (
        tt,
        record (if ltb (ticks_in (spi_divisor (bit_and b.spi_intr.spcr 3)) b.core.ck clocks) 8
            then sending
                (loaded b val)
                (ticks_in (spi_divisor (bit_and b.spi_intr.spcr 3)) b.core.ck clocks)
            else sent (loaded b val)) { core = (later b clocks).core },
      )
board_clock_loop-spi_write val clocks b f h =
    ap (λ o. then_with o (λ t. board_clock_loop clocks)) (spi_write_lem val b f)
    ∙ board_clock_loop-progress clocks (loaded b val)
        (record {
          registered = refl;
          started = refl;
          divides = spi_divisor-IsDivisor (bit_and b.spi_intr.spcr 3);
          related = f.related;
          left = omega arith;
          tcnt_byte = omega arith;
        })
        h
