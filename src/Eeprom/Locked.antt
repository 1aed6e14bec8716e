-- ===== src/Eeprom/Locked.antt =====
-- Without the master write enable bit the EEPROM keeps its bytes, whatever else the program does.
use oseid_simulavr.Base.{
  ℕ, ◌≡◌, arith, false, List, [], ◌∷◌, ◌==◌, bit_and, Bool-cases, eq_of_==, inl, inr, ◌/◌, ◌%◌,
}
use oseid_simulavr.Exec.{Outcome, ok, avr_error, undefined, then_with}
use oseid_simulavr.Exec.Keeps.{After}
use oseid_simulavr.Bits.{digit, digit-bit_and}
use oseid_simulavr.Storage.{Storage}
use oseid_simulavr.Board.{Board}
use oseid_simulavr.Callback.{
  callback_list_execute_all, avr_core_clk_cb_exec, avr_core_async_cb_exec,
}
use Prim.Native.Nat.{bit_and-bitwise}
use package.oseid_simulavr.Eeprom.{
  eecr_addr, mask_eewe, mask_eemwe, bit_is_set, read_byte, start_write, wr_eecr_loop,
  eeprom_wr_eecr, eeprom_reg_write, eeprom_reg_reset,
}
use package.oseid_simulavr.Eeprom.Events.{
  Event, reg_write, reset, clk, async, event, events, NeverEnables, IsLocked,
}
use package.oseid_simulavr.Eeprom.Others.{execute-Others, set_clk, set_async}

read-IsLocked : (s : Storage) (b : Board) → IsLocked s b → After (IsLocked s) (read_byte b)
unfolding read_byte
read-IsLocked s b l = ground arith

start-IsLocked : (s : Storage) (b : Board) → IsLocked s b → After (IsLocked s) (start_write b)
unfolding start_write
start-IsLocked s b l =
    let none_ : bit_and (bit_and b.eeprom.eecr b.eeprom.eecr_mask) mask_eemwe ≡ 0 =
      cc (l.idle, bit_and-bitwise 0 b.eeprom.eecr_mask) in
    ground arith

wr_eecr-IsLocked :
    (s : Storage) (val : ℕ) (b : Board)
    → digit val 2 ≡ 0
    → IsLocked s b
    → After (IsLocked s) (eeprom_wr_eecr val b)
unfolding wr_eecr_loop eeprom_wr_eecr digit
wr_eecr-IsLocked s val b h l =
    let bits = bit_and val b.eeprom.eecr_mask in
    let low : bits / 2 / 2 % 2 ≡ 0 = omega (arith, digit-bit_and 2 val b.eeprom.eecr_mask) in
    let open_ : (bits == 4) ≡ false = ground arith in
    let both : (bits == 6) ≡ false = ground arith in
    elim (Bool-cases (bits == 1)) [
      | inl e ↦ rw e (read-IsLocked s b l)
      | inr e ↦ elim (Bool-cases (bits == 2)) [
        | inl e2 ↦ rw (e, e2) (start-IsLocked s b l)
        | inr e2 ↦ rw (e, e2, open_, both) tt
      ]
    ]

write-IsLocked :
    (s : Storage) (addr val : ℕ) (b : Board)
    → (addr ≡ eecr_addr → digit val 2 ≡ 0)
    → IsLocked s b
    → After (IsLocked s) (eeprom_reg_write addr val b)
unfolding eeprom_reg_write
write-IsLocked s addr val b h l =
    let clear : bit_is_set b.eeprom.eecr mask_eewe ≡ false = ground arith in
    elim (Bool-cases (addr == eecr_addr)) [
      | inl e ↦ rw (clear, e) (wr_eecr-IsLocked s val b (h (eq_of_== addr eecr_addr e)) l)
      | inr e ↦ rw (clear, e) (ground arith)
    ]

event-IsLocked :
    (s : Storage) (e : Event) (rest : List Event) (b : Board)
    → NeverEnables (e ∷ rest)
    → IsLocked s b
    → After (IsLocked s) (event e b)
unfolding event avr_core_clk_cb_exec avr_core_async_cb_exec eeprom_reg_reset
event-IsLocked s (reg_write addr val) rest b h l = write-IsLocked s addr val b h.0 l
event-IsLocked s reset rest b h l = ground arith
event-IsLocked s clk rest b h l =
    set_clk s (callback_list_execute_all b.clk_cb b.core.ck b)
      (execute-Others s b.core.ck b.clk_cb b l.clk_others l)
event-IsLocked s async rest b h l =
    set_async s (callback_list_execute_all b.async_cb 0 b)
      (execute-Others s 0 b.async_cb b l.async_others l)

tail_never : (e : Event) (rest : List Event) → NeverEnables (e ∷ rest) → NeverEnables rest
tail_never (reg_write addr val) rest h = h.1
tail_never reset rest h = h
tail_never clk rest h = h
tail_never async rest h = h

rest-IsLocked :
    (s : Storage) (rest : List Event) (o : Outcome (Unit {0} × Board))
    → ((b : Board) → IsLocked s b → After (IsLocked s) (events rest b))
    → After (IsLocked s) o
    → After (IsLocked s) (then_with o (λ t. events rest))
rest-IsLocked s rest (ok (t, b)) ih h = ih b h
rest-IsLocked s rest avr_error ih h = tt
rest-IsLocked s rest undefined ih h = tt

-- On a device with a master write enable bit, with no EEPROM operation in progress, any sequence of
-- register writes, resets and executions of the call backs, of other devices too, in which no write
-- to the control register sets the master write enable bit leaves every byte of the EEPROM as it
-- was, if the program does not end with an error.
pub events-IsLocked :
    (list : List Event) (s : Storage) (b : Board)
    → NeverEnables list
    → IsLocked s b
    → After (IsLocked s) (events list b)
unfolding events
events-IsLocked [] s b h l = l
events-IsLocked (e ∷ rest) s b h l =
    rest-IsLocked s rest (event e b) (λ b l. events-IsLocked rest s b (tail_never e rest h) l)
      (event-IsLocked s e rest b h l)
