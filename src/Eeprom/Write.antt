-- ===== src/Eeprom/Write.antt =====
-- The write operation of the EEPROM ends after its clocks, and stores the byte.
use oseid_simulavr.Base.{
  ℕ, zero, suc, ◌-◌, ◌<◌, ◌≤◌, ◌≡◌, refl, ap, ◌∙◌, arith, true, false, ◌||◌, [], ◌∷◌, ◌==◌, leb,
  if◌then◌else◌, bit_and, bit_or, complement, update, all_below, all_below_sound,
}
use oseid_simulavr.Exec.{ok, Exec, pure, then_with, ◌>>◌}
use oseid_simulavr.Board.{EeProm, eeprom_wr_op, Board, on_eeprom}
use oseid_simulavr.Callback.{avr_core_async_cb_exec}
use package.oseid_simulavr.Eeprom.{
  eecr_addr, eedr_addr, mask_eere, mask_eewe, mask_eemwe, eear, bit_is_set, eeprom_reg_read,
  eeprom_reg_write,
}

-- `rounds` executions of the asynchronous call backs.
unfoldable pub async_rounds : ℕ → Exec Board Unit
unfolding avr_core_async_cb_exec
async_rounds zero = pure tt
async_rounds (suc rounds) = do avr_core_async_cb_exec; async_rounds rounds

abbrev pub MayWrite : EeProm → Type 0
MayWrite e =
    (bit_and mask_eewe e.eecr_mask ≡ mask_eewe)
    × ((bit_and e.eecr_mask mask_eemwe == 0 || bit_is_set (bit_and e.eecr e.eecr_mask) mask_eemwe)
        ≡ true)
    × (bit_and e.eecr mask_eewe ≡ 0)
    × (e.eecr < 256)
    × (e.wr_op_cb ≡ false)

-- The address register is inside the array.
abbrev pub HasByte : EeProm → Type 0
HasByte e = (e.stor.base ≤ eear e) × (eear e - e.stor.base < e.stor.size)

-- Writes another byte to the data register, and then reads the byte at the address.
abbrev pub read_back : ℕ → Exec Board ℕ
unfolding eeprom_reg_write eeprom_reg_read
read_back other = do
  eeprom_reg_write eedr_addr other
  eeprom_reg_write eecr_addr mask_eere
  on_eeprom (eeprom_reg_read eedr_addr)

-- A write operation with `left` more clocks.
abbrev pub writing : Board → ℕ → Board
writing b left =
    let e = b.eeprom in
    record b {
      eeprom = record e { eecr = bit_or e.eecr mask_eewe; wr_op_cb = true; wr_op_clk = left };
      async_cb = eeprom_wr_op ∷ [];
    }

abbrev pub written : Board → Board
written b =
    let e = b.eeprom in
    record b {
      eeprom = record e {
        stor = record e.stor { bytes = update e.stor.bytes (eear e - e.stor.base) e.eedr };
        wr_op_clk = 0;
      };
    }

cleared : (x : ℕ) → x < 256 → bit_and x 2 ≡ 0 → bit_and (bit_or x 2) (complement 2) ≡ x
cleared x hx h =
    let table =
      λ (x : ℕ). if bit_and x 2 == 0 then bit_and (bit_or x 2) (complement 2) == x else true in
    let row : table x ≡ true = unfold all_below in all_below_sound 256 table x refl hx in
    ground (arith, row)

start :
    (b : Board)
    → MayWrite b.eeprom
    → b.async_cb ≡ []
    → eeprom_reg_write eecr_addr mask_eewe b ≡ ok (tt, writing b 2500)
unfolding eeprom_reg_write
start b h none_ = ground arith

tick :
    (b : Board) (left : ℕ) → avr_core_async_cb_exec (writing b (suc left)) ≡ ok (tt, writing b left)
unfolding avr_core_async_cb_exec
tick b left = ground arith

finish :
    (b : Board)
    → HasByte b.eeprom
    → MayWrite b.eeprom
    → b.async_cb ≡ []
    → avr_core_async_cb_exec (writing b 0) ≡ ok (tt, written b)
unfolding avr_core_async_cb_exec
finish b present h none_ = ground (arith, cleared b.eeprom.eecr)

idle_rounds : (rounds : ℕ) (b : Board) → b.async_cb ≡ [] → async_rounds rounds b ≡ ok (tt, b)
unfolding async_rounds avr_core_async_cb_exec
idle_rounds zero b h = refl
idle_rounds (suc rounds) b h =
    let idle : avr_core_async_cb_exec b ≡ ok (tt, b) = ground arith in
    ap (λ o. then_with o (λ (t : Unit). async_rounds rounds)) idle ∙ idle_rounds rounds b h

module _ (b : Board) (h : MayWrite b.eeprom) (present : HasByte b.eeprom)
    (alone : b.async_cb ≡ []) where
  rounds_lem :
      (rounds left : ℕ)
      → async_rounds rounds (writing b left)
        ≡ ok (tt, if leb rounds left then writing b (left - rounds) else written b)
  unfolding async_rounds
  rounds_lem zero left = ground arith
  rounds_lem (suc rounds) zero =
      ap (λ o. then_with o (λ (t : Unit). async_rounds rounds)) (finish b present h alone)
      ∙ idle_rounds rounds (written b) alone
      ∙ ground arith
  rounds_lem (suc rounds) (suc left) =
      ap (λ o. then_with o (λ (t : Unit). async_rounds rounds)) (tick b left)
      ∙ rounds_lem rounds left
      ∙ ground arith

  -- A write operation that is allowed, at an address inside the EEPROM and with no other
  -- asynchronous call back, stays in progress for 2500 executions of the call backs and stores
  -- nothing; the next one stores the data register at the address and ends it, with every other
  -- register as it was before, and the later ones change nothing.
  pub async_rounds-eeprom_reg_write :
      (rounds : ℕ)
      → (eeprom_reg_write eecr_addr mask_eewe >> async_rounds rounds) b
        ≡ ok (tt, if leb rounds 2500 then writing b (2500 - rounds) else written b)
  async_rounds-eeprom_reg_write rounds =
      ap (λ o. then_with o (λ (t : Unit). async_rounds rounds)) (start b h alone)
      ∙ rounds_lem rounds 2500

  -- After a write operation that is allowed, at an address inside the EEPROM and with no other
  -- asynchronous call back, whatever byte then stands in the data register, a read operation puts
  -- the written byte there, on a device that has the read enable bit.
  pub eeprom_reg_read-eeprom_reg_write :
      (other : ℕ)
      → bit_and mask_eere b.eeprom.eecr_mask ≡ mask_eere
      → (eeprom_reg_write eecr_addr mask_eewe >> async_rounds 2501 >> read_back other) b
        ≡ ok (b.eeprom.eedr, written b)
  unfolding read_back
  eeprom_reg_read-eeprom_reg_write other readable =
      ap (λ o. then_with o (λ (t : Unit). read_back other)) (async_rounds-eeprom_reg_write 2501)
      ∙ ground arith
