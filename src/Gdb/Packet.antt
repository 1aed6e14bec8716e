-- ===== src/Gdb/Packet.antt =====
-- gdbserver.c: the reading of a packet by gdb_pre_parse_packet.
use oseid_simulavr.Base.{
  ℕ, zero, suc, ◌+◌, Option, none, some, List, [], ◌∷◌, ◌==◌, if◌then◌else◌, bit_and, bit_or, ◌<<<◌,
}
use oseid_simulavr.Exec.{Exec, pure, stop, ◌>>=◌}
use package.oseid_simulavr.Gdb.{Server, gdb_read_byte}
use package.oseid_simulavr.Gdb.Text.{max_buf, hex2nib}

module _ {S : Type 0} where
  -- -1 is no digit.
  abbrev pub read_nib : Option ℕ → Exec (Server S) ℕ
  unfolding hex2nib
  read_nib none = stop
  read_nib (some c) = hex2nib c

  -- The loop that reads a packet up to `#`, for the room that is left: the packet and its sum. On a
  -- blocking socket there is always a byte; -1 would be stored as 255.
  unfoldable pub packet_loop : ℕ → ℕ → Option ℕ → Exec (Server S) (List ℕ × ℕ)
  unfolding gdb_read_byte
  packet_loop zero sum c = pure ([], sum)
  packet_loop (suc room) sum none = do
    next ← gdb_read_byte
    (rest, total) ← packet_loop room (sum + 255) next
    pure (255 ∷ rest, total)
  packet_loop (suc room) sum (some c) = if c == b'#' then pure ([], sum) else do
    next ← gdb_read_byte
    (rest, total) ← packet_loop room (sum + c) next
    pure (c ∷ rest, total)

  -- The packet that follows a `$`.
  unfoldable pub read_packet : Exec (Server S) (List ℕ)
  unfolding gdb_read_byte packet_loop
  read_packet = do
    first ← gdb_read_byte
    (pkt, total) ← packet_loop max_buf 0 first
    c ← gdb_read_byte
    high ← read_nib c
    d ← gdb_read_byte
    low ← read_nib d
    if bit_and total 0xff == bit_or (high <<< 4) low then pure pkt else stop
