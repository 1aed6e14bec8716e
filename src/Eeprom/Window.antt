-- ===== src/Eeprom/Window.antt =====
-- The window that the master write enable bit of the EEPROM opens.
use oseid_simulavr.Base.{
  ℕ, zero, suc, ◌-◌, ◌<◌, ◌≡◌, refl, ap, ◌∙◌, arith, true, false, [], ◌∷◌, ◌==◌, ◌&&◌, leb,
  if◌then◌else◌, bit_and, bit_or, all_below, all_below_sound,
}
use oseid_simulavr.Exec.{ok, Exec, pure, then_with, ◌>>◌}
use oseid_simulavr.Board.{EeProm, eeprom_wr_op, eeprom_mwe_clr, Board}
use oseid_simulavr.Callback.{avr_core_clk_cb_exec}
use package.oseid_simulavr.Eeprom.{eecr_addr, mask_eewe, mask_eemwe, eeprom_reg_write}

-- `rounds` executions of the clock call backs.
unfoldable pub clk_rounds : ℕ → Exec Board Unit
unfolding avr_core_clk_cb_exec
clk_rounds zero = pure tt
clk_rounds (suc rounds) = do avr_core_clk_cb_exec; clk_rounds rounds

-- The device has both write enable bits; no operation is in progress and the window is closed.
abbrev pub IsIdle : EeProm → Type 0
IsIdle e =
    (bit_and mask_eewe e.eecr_mask ≡ mask_eewe)
    × (bit_and mask_eemwe e.eecr_mask ≡ mask_eemwe)
    × (e.eecr_mask < 8)
    × (e.eecr ≡ 0)
    × (e.wr_op_cb ≡ false)
    × (e.mwe_clr_cb ≡ false)

swapped :
    (m : ℕ)
    → m < 8
    → bit_and mask_eemwe m ≡ mask_eemwe
    → (bit_and m mask_eemwe ≡ mask_eemwe) × (bit_and 0 m ≡ 0)
swapped m hm h =
    let table =
      λ (m : ℕ). if bit_and 4 m == 4 then bit_and m 4 == 4 && bit_and 0 m == 0 else true in
    let row : table m ≡ true = unfold all_below in all_below_sound 8 table m refl hm in
    ground (arith, row)

-- The window is open for `left` more clocks.
abbrev pub open_for : Board → ℕ → Board
open_for b left = record b {
  eeprom = record b.eeprom { eecr = mask_eemwe; mwe_clr_cb = true; mwe_clk = left };
  clk_cb = eeprom_mwe_clr ∷ [];
}

abbrev pub closed : Board → Board
closed b = record b { eeprom = record b.eeprom { mwe_clk = 0 } }

-- A write operation that has just begun.
abbrev pub begun : Board → Board
begun b = record b {
  eeprom = record b.eeprom {
    eecr = bit_or b.eeprom.eecr mask_eewe;
    wr_op_cb = true;
    wr_op_clk = 2500;
  };
  async_cb = eeprom_wr_op ∷ [];
}

module _ (b : Board) (h : IsIdle b.eeprom) (alone : b.clk_cb ≡ []) where
  opened : eeprom_reg_write eecr_addr mask_eemwe b ≡ ok (tt, open_for b 4)
  unfolding eeprom_reg_write
  opened = ground arith

  tick : (left : ℕ) → avr_core_clk_cb_exec (open_for b (suc left)) ≡ ok (tt, open_for b left)
  unfolding avr_core_clk_cb_exec
  tick left = ground arith

  last : avr_core_clk_cb_exec (open_for b 0) ≡ ok (tt, closed b)
  unfolding avr_core_clk_cb_exec
  last = ground arith

  idle_rounds : (rounds : ℕ) → clk_rounds rounds (closed b) ≡ ok (tt, closed b)
  unfolding clk_rounds avr_core_clk_cb_exec
  idle_rounds zero = refl
  idle_rounds (suc rounds) =
      let idle : avr_core_clk_cb_exec (closed b) ≡ ok (tt, closed b) = ground arith in
      ap (λ o. then_with o (λ (t : Unit). clk_rounds rounds)) idle ∙ idle_rounds rounds

  rounds_lem :
      (rounds left : ℕ)
      → clk_rounds rounds (open_for b left)
        ≡ ok (tt, if leb rounds left then open_for b (left - rounds) else closed b)
  unfolding clk_rounds
  rounds_lem zero left = ground arith
  rounds_lem (suc rounds) zero =
      ap (λ o. then_with o (λ (t : Unit). clk_rounds rounds)) last
      ∙ idle_rounds rounds
      ∙ ground arith
  rounds_lem (suc rounds) (suc left) =
      ap (λ o. then_with o (λ (t : Unit). clk_rounds rounds)) (tick left)
      ∙ rounds_lem rounds left
      ∙ ground arith

  in_time :
      (left : ℕ)
      → b.async_cb ≡ []
      → eeprom_reg_write eecr_addr mask_eewe (open_for b left) ≡ ok (tt, begun (open_for b left))
  unfolding eeprom_reg_write
  in_time left e = ground (arith, swapped b.eeprom.eecr_mask)

  too_late : eeprom_reg_write eecr_addr mask_eewe (closed b) ≡ ok (tt, closed b)
  unfolding eeprom_reg_write
  too_late = ground (arith, swapped b.eeprom.eecr_mask)

  -- On an idle device that has both write enable bits, and with no other clock call back and no
  -- asynchronous one, a write enable after a master write enable starts a write operation exactly if
  -- at most four executions of the clock call backs lie between them; later it is ignored and the
  -- master write enable bit is clear.
  pub eeprom_reg_write-clk_rounds :
      (rounds : ℕ)
      → b.async_cb ≡ []
      → ((eeprom_reg_write eecr_addr mask_eemwe >> clk_rounds rounds)
            >> eeprom_reg_write eecr_addr mask_eewe)
          b
        ≡ ok (tt, if leb rounds 4 then begun (open_for b (4 - rounds)) else closed b)
  eeprom_reg_write-clk_rounds rounds e =
      ap
        (λ o.
          then_with (then_with o (λ (t : Unit). clk_rounds rounds))
            (λ (t : Unit). eeprom_reg_write eecr_addr mask_eewe))
        opened
      ∙ ap (λ o. then_with o (λ (t : Unit). eeprom_reg_write eecr_addr mask_eewe))
          (rounds_lem rounds 4)
      ∙ ground (arith, in_time (4 - rounds), too_late)
