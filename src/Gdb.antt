-- ===== src/Gdb.antt =====
-- gdbserver.c and gdb.h: the server for gdb's remote protocol, over a record of the target's
-- functions. Texts are lists of characters; a character past the end of a packet is the NUL that ends it.
pub mod Text
pub mod Packet
pub mod Registers
pub mod Memory
pub mod Query
pub mod Session
pub mod Target
pub mod Frame
pub mod Reading
pub mod Framing
pub mod Numbers
pub mod Transfer
pub mod Restore
pub mod Bytes
use oseid_simulavr.Base.{
  ℕ, zero, suc, ◌+◌, ◌-◌, ℤ, Bool, true, false, Option, none, some, List, [], ◌∷◌, ◌++◌, ◌==◌,
  if◌then◌else◌,
}
use oseid_simulavr.Exec.{
  Outcome, ok, avr_error, undefined, Exec, pure, stop, gets, modify, ◌>>=◌, ◌>>◌,
}
use oseid_simulavr.Board.{zoom}

-- The functions that a target supplies. A pointer that may be NULL is an `Option`.
pub record GdbComm (S : Type 0) : Type 0 where
  pub read_reg : ℕ → Exec S ℕ
  pub write_reg : ℕ → ℕ → Exec S Unit
  pub read_sreg : Exec S ℕ
  pub write_sreg : ℕ → Exec S Unit
  pub read_pc : Exec S ℤ
  pub write_pc : ℤ → Exec S Unit
  pub max_pc : Option (Exec S ℤ)
  pub read_sram : ℕ → Exec S ℕ
  pub write_sram : ℕ → ℕ → Exec S Unit
  pub read_flash : ℕ → Exec S ℕ
  pub write_flash : Option (ℕ → ℕ → Exec S Unit)
  pub write_flash_lo8 : Option (ℕ → ℕ → Exec S Unit)
  pub write_flash_hi8 : Option (ℕ → ℕ → Exec S Unit)
  pub insert_break : ℕ → Exec S Unit
  pub remove_break : ℕ → Exec S Unit
  pub disable_breakpts : Option (Exec S Unit)
  -- Whether the step stopped at a break point.
  pub step : Exec S Bool
  pub reset : Exec S Unit
  -- The value and the name of an io register.
  pub io_fetch : Option (ℕ → Exec S (ℕ × List ℕ))
  pub irq_raise : Option (ℕ → Exec S Unit)
  -- `gdb_ee_read` and `gdb_ee_write` of OsEID.c.
  pub ee_read : ℕ → Exec S ℕ
  pub ee_write : ℕ → ℕ → Exec S Unit

-- What `read` gives for one byte.
pub data ReadResult : Type 0 where
  byte : ℕ → ReadResult
  nothing again failed : ReadResult

-- The static variables of the server, its target and its connection: `input` is what the calls of
-- `read` give, from call `taken` on, and `sent` is what has been written.
pub record Server (S : Type 0) : Type 0 where
  pub target : S
  pub last_reply : Option (List ℕ)
  pub sent : List ℕ
  pub input : ℕ → ReadResult
  pub taken : ℕ
  pub is_running : Bool
  pub global_server_quit : Bool

-- The return values of the parsers.
pub data GdbRet : Type 0 where
  ret_ctrl_c ret_kill_request ret_ok : GdbRet

module _ {S : Type 0} where
  abbrev pub on_target : {A : Type 0} → Exec S A → Exec (Server S) A
  on_target m = zoom (λ t s. record s { target = t }) (λ s. s.target) m

  -- `write` takes all bytes.
  unfoldable pub gdb_write : List ℕ → Exec (Server S) Unit
  gdb_write bytes = modify (λ s. record s { sent = s.sent ++ bytes })

  unfoldable pub gdb_send_ack : Exec (Server S) Unit
  unfolding gdb_write
  gdb_send_ack = gdb_write (b'+' ∷ [])

  abbrev next_read : Exec (Server S) ReadResult
  next_read s = ok (s.input s.taken, record s { taken = s.taken + 1 })

  -- The loop of `gdb_read_byte`, for the tries that are left; `none` stands for -1.
  unfoldable pub read_byte_loop : ℕ → Exec (Server S) (Option ℕ)
  read_byte_loop zero = stop
  read_byte_loop (suc tries) = do
    res ← next_read
    let more = read_byte_loop tries
    elim res [ byte c ↦ pure (some c) | nothing ↦ more | again ↦ pure none | failed ↦ stop ]

  unfoldable pub gdb_read_byte : Exec (Server S) (Option ℕ)
  unfolding read_byte_loop
  gdb_read_byte = read_byte_loop 10
