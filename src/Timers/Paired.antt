-- ===== src/Timers/Paired.antt =====
-- The byte pairs of the 16-bit timers: the counter is written and read whole.
use oseid_simulavr.Base.{
  ℕ, ◌*◌, ◌^◌, ◌/◌, ◌%◌, ◌<◌, ◌≡◌, ◌≢◌, arith, ◌==◌, bit_and, bit_or, u8, all_below,
  all_below_sound, eq_of_==, ◌<<<◌, ◌>>>◌, ◌∙◌, ap, refl,
}
use oseid_simulavr.Exec.{Outcome, ok, Exec, pure, gets, then_with, ◌>>=◌, ◌>>◌}
use oseid_simulavr.Bits.{bit_or-join, bit_and-0xff}
use oseid_simulavr.Board.{Timer16, OcReg16, Board, zoomed, on_timer16}
use package.oseid_simulavr.Timers.Sixteen.{timer16_read, timer16_write, ocreg16_read, ocreg16_write}

-- The high byte is written first, and the low byte is read first.
abbrev pub write_counter : ℕ → Exec Board Unit
unfolding timer16_write
write_counter v = do
  timer ← gets (λ b. b.timer16)
  timer16_write timer.tcnth_addr (v / 256)
  timer16_write timer.tcntl_addr (v % 256)

abbrev pub read_counter : Exec Timer16 (ℕ × ℕ)
unfolding timer16_read
read_counter = do
  timer ← gets (λ t. t)
  low ← timer16_read timer.tcntl_addr
  high ← timer16_read timer.tcnth_addr
  pure (high, low)

high_byte : (h : ℕ) → h < 256 → bit_and (h <<< 8) 0xff00 ≡ h <<< 8
unfolding all_below
high_byte h hh =
    eq_of_== _ _ (all_below_sound 256 (λ h. bit_and (h * 256) 0xff00 == h * 256) h refl hh)

joined : (v : ℕ) → v < 2 ^ 16 → bit_or (bit_and ((v / 256) <<< 8) 0xff00) (v % 256) ≡ v
joined v h =
    ap (λ (t : ℕ). bit_or t (v % 256)) (high_byte (v / 256) (omega arith))
    ∙ omega (arith, bit_or-join 8 (v / 256) (v % 256) (omega arith))

write_lem :
    (v : ℕ) (b : Board)
    → b.timer16.tcnth_addr ≢ b.timer16.tcntl_addr
    → v < 2 ^ 16
    → write_counter v b
      ≡ ok (tt, record b { timer16 = record b.timer16 { tcnt = v; temp = v / 256 } })
unfolding write_counter
write_lem v b h hv =
    let after : ℕ → Outcome (Unit {0} × Board) =
      λ w. ok (tt, record b { timer16 = record b.timer16 { tcnt = w; temp = v / 256 } }) in
    let run : write_counter v b ≡ after (bit_or (bit_and ((v / 256) <<< 8) 0xff00) (v % 256)) =
      ground arith in
    run ∙ ap after (joined v hv)

read_lem :
    (t : Timer16)
    → t.tcnth_addr ≢ t.tcntl_addr
    → t.tcnt < 2 ^ 16
    → read_counter t ≡ ok ((t.tcnt / 256, t.tcnt % 256), record t { temp = t.tcnt / 256 })
unfolding read_counter
read_lem t h ht =
    let after : ℕ → ℕ → Outcome ((ℕ × ℕ) × Timer16) =
      λ high low. ok ((high, low), record t { temp = high }) in
    let run : read_counter t ≡ after (u8 (t.tcnt >>> 8)) (bit_and t.tcnt 0xff) = ground arith in
    run
    ∙ ap (λ high. after high (bit_and t.tcnt 0xff)) (omega arith)
    ∙ ap (after (t.tcnt / 256)) (bit_and-0xff t.tcnt)

-- A 16-bit value that is written to the counter, high byte first, is read back, low byte first; the
-- shared register TEMP holds the high byte, and nothing else changes.
pub read_counter-write_counter :
    (v : ℕ) (b : Board)
    → b.timer16.tcnth_addr ≢ b.timer16.tcntl_addr
    → v < 2 ^ 16
    → (write_counter v >> on_timer16 read_counter) b
      ≡ ok
          ((v / 256, v % 256), record b { timer16 = record b.timer16 { tcnt = v; temp = v / 256 } })
read_counter-write_counter v b h hv =
    let t = record b.timer16 { tcnt = v; temp = v / 256 } in
    ap (λ o. then_with o (λ (u : Unit). on_timer16 read_counter)) (write_lem v b h hv)
    ∙ ap (zoomed (λ t b. record b { timer16 = t }) (record b { timer16 = t })) (read_lem t h hv)

abbrev pub write_ocr : ℕ → Exec OcReg16 Unit
unfolding ocreg16_write
write_ocr v = do
  reg ← gets (λ r. r)
  ocreg16_write reg.ocrh_addr (v / 256)
  ocreg16_write reg.ocrl_addr (v % 256)

abbrev pub read_ocr : Exec OcReg16 (ℕ × ℕ)
unfolding ocreg16_read
read_ocr = do
  reg ← gets (λ r. r)
  low ← ocreg16_read reg.ocrl_addr
  high ← ocreg16_read reg.ocrh_addr
  pure (high, low)

-- A 16-bit value that is written to an output compare register, high byte first, is read back, and
-- until the low byte is written the register keeps its value.
pub read_ocr-write_ocr :
    (v : ℕ) (reg : OcReg16)
    → reg.ocrh_addr ≢ reg.ocrl_addr
    → v < 2 ^ 16
    → ((write_ocr v >> read_ocr) reg
        ≡ ok ((v / 256, v % 256), record reg { ocr = v; temp = v / 256 }))
      × (ocreg16_write reg.ocrh_addr (v / 256) reg ≡ ok (tt, record reg { temp = v / 256 }))
unfolding write_ocr read_ocr ocreg16_write
read_ocr-write_ocr v reg h hv =
    let after : ℕ → Outcome ((ℕ × ℕ) × OcReg16) =
      λ w. ok ((u8 (w >>> 8), bit_and w 0xff), record reg { ocr = w; temp = v / 256 }) in
    let run : (write_ocr v >> read_ocr) reg
        ≡ after (bit_or (bit_and ((v / 256) <<< 8) 0xff00) (v % 256)) =
      ground arith in
    let shown : after v ≡ ok ((v / 256, v % 256), record reg { ocr = v; temp = v / 256 }) =
      ap (λ high. ok ((high, bit_and v 0xff), record reg { ocr = v; temp = v / 256 })) (omega arith)
      ∙ ap (λ low. ok ((v / 256, low), record reg { ocr = v; temp = v / 256 })) (bit_and-0xff v) in
    (run ∙ ap after (joined v hv) ∙ shown, ground arith)
