-- ===== src/Gdb/Query.antt =====
-- gdbserver.c: the queries of gdb.
use oseid_simulavr.Base.{
  ℕ, zero, suc, ◌+◌, Option, none, some, List, [], ◌∷◌, ◌++◌, ◌==◌, ltb, if◌then◌else◌,
}
use oseid_simulavr.Exec.{Exec, pure, fault, ◌>>=◌}
use package.oseid_simulavr.Gdb.{GdbComm, Server, on_target}
use package.oseid_simulavr.Gdb.Text.{hex_digit, hex_byte, char_at, skip, gdb_send_reply, reply_e01}
use package.oseid_simulavr.Gdb.Memory.{gdb_get_addr_len}

-- The packet without the text, if it begins with it.
abbrev pub after_prefix : List ℕ → List ℕ → Option (List ℕ)
after_prefix [] pkt = some pkt
after_prefix (c ∷ text) [] = none
after_prefix (c ∷ text) (d ∷ pkt) = if c == d then after_prefix text pkt else none

-- "avr.io_reg"
abbrev pub io_reg_text : List ℕ
io_reg_text = b'a' ∷ b'v' ∷ b'r' ∷ b'.' ∷ b'i' ∷ b'o' ∷ b'_' ∷ b'r' ∷ b'e' ∷ b'g' ∷ []

abbrev pub take : List ℕ → ℕ → List ℕ
take [] n = []
take (c ∷ rest) zero = []
take (c ∷ rest) (suc n) = c ∷ take rest n

abbrev pub length : List ℕ → ℕ
length [] = 0
length (c ∷ rest) = suc (length rest)

-- "%x" of a byte.
abbrev pub hex_short : ℕ → List ℕ
unfolding hex_digit hex_byte
hex_short val = if ltb val 16 then hex_digit val ∷ [] else hex_byte val

module _ {S : Type 0} where
  -- `snprintf` cuts the text at the end of the buffer of 400, and a position beyond it has no room.
  unfoldable pub io_regs_loop : (ℕ → Exec S (ℕ × List ℕ)) → ℕ → ℕ → List ℕ → Exec S (List ℕ)
  io_regs_loop fetch addr zero reply = pure (take reply 399)
  io_regs_loop fetch addr (suc left) reply = if ltb 400 (length reply) then fault else do
    (val, name) ← fetch addr
    io_regs_loop fetch (addr + 1) left (reply ++ (name ++ (b',' ∷ (hex_short val ++ (b';' ∷ [])))))

  unfoldable pub fetch_with : Option (ℕ → Exec S (ℕ × List ℕ)) → List ℕ → Exec (Server S) Unit
  unfolding io_regs_loop gdb_get_addr_len gdb_send_reply
  fetch_with none pkt = gdb_send_reply []
  fetch_with (some fetch) pkt =
      if char_at pkt == 0
      then gdb_send_reply (b'4' ∷ b'0' ∷ [])
      else if char_at pkt == b':'
      then (do
        (addr, len, rest) ← gdb_get_addr_len b',' 0 (skip pkt)
        reply ← on_target (io_regs_loop fetch addr len [])
        gdb_send_reply reply)
      else gdb_send_reply reply_e01

  unfoldable pub gdb_fetch_io_registers : GdbComm S → List ℕ → Exec (Server S) Unit
  unfolding fetch_with
  gdb_fetch_io_registers comm pkt = fetch_with comm.io_fetch pkt

  unfoldable pub gdb_query_request : GdbComm S → List ℕ → Exec (Server S) Unit
  unfolding gdb_fetch_io_registers gdb_send_reply
  gdb_query_request comm pkt =
      if char_at pkt == b'R'
      then elim (after_prefix io_reg_text (skip pkt)) [
        | none ↦ gdb_send_reply []
        | some rest ↦ gdb_fetch_io_registers comm rest
      ]
      else gdb_send_reply []
