-- ===== src/Gdb/Text.antt =====
-- gdbserver.c: hexadecimal digits and the framing of a reply.
use oseid_simulavr.Base.{
  ℕ, some, ◌+◌, ◌-◌, Bool, true, false, ◌&&◌, List, [], ◌∷◌, ◌++◌, ◌==◌, leb, ltb, if◌then◌else◌,
  bit_and, ◌>>>◌, ◌<<<◌, u8,
}
use oseid_simulavr.Exec.{Exec, pure, stop, modify, ◌>>=◌, ◌>>◌}
use package.oseid_simulavr.Gdb.{Server, gdb_write}

abbrev pub max_buf : ℕ
max_buf = 400

unfoldable pub hex2nib : {T : Type 0} → ℕ → Exec T ℕ
hex2nib hex =
    if leb b'A' hex && leb hex b'F'
    then pure (10 + (hex - b'A'))
    else if leb b'a' hex && leb hex b'f'
    then pure (10 + (hex - b'a'))
    else if leb b'0' hex && leb hex b'9'
    then pure (hex - b'0')
    else stop

-- `HEX_DIGIT[nib]`, for a nibble.
unfoldable pub hex_digit : ℕ → ℕ
hex_digit nib = if ltb nib 10 then b'0' + nib else b'a' + (nib - 10)

-- The two digits of the low byte.
unfoldable pub hex_byte : ℕ → List ℕ
unfolding hex_digit
hex_byte val = hex_digit (bit_and (val >>> 4) 0xf) ∷ hex_digit (bit_and val 0xf) ∷ []

-- `*pkt` and `pkt + 1`.
abbrev pub char_at : List ℕ → ℕ
char_at [] = 0
char_at (c ∷ rest) = c

abbrev pub skip : List ℕ → List ℕ
skip [] = []
skip (c ∷ rest) = rest

-- `bval = hex2nib (*pkt++) << 4; bval += hex2nib (*pkt++);`, with what is left of the packet.
unfoldable pub take_byte : {T : Type 0} → List ℕ → Exec T (ℕ × List ℕ)
unfolding hex2nib
take_byte pkt = do
  high ← hex2nib (char_at pkt)
  low ← hex2nib (char_at (skip pkt))
  pure (u8 (high <<< 4) + low, skip (skip pkt))

abbrev is_empty : List ℕ → Bool
is_empty [] = true
is_empty (c ∷ rest) = false

module _ {S : Type 0} where
  -- The loop of `gdb_send_reply`, for the rest of the reply: the checksum, if there is room.
  unfoldable pub reply_loop : ℕ → ℕ → List ℕ → Exec (Server S) ℕ
  reply_loop bytes cksum [] = pure cksum
  reply_loop bytes cksum (c ∷ rest) =
      if bytes + 1 == max_buf - 3 then stop else reply_loop (bytes + 1) (cksum + c) rest

  unfoldable pub gdb_last_reply : List ℕ → Exec (Server S) Unit
  gdb_last_reply reply = modify (λ s. record s { last_reply = some reply })

  unfoldable pub gdb_send_reply : List ℕ → Exec (Server S) Unit
  unfolding gdb_last_reply reply_loop hex_digit gdb_write
  gdb_send_reply reply = do
    gdb_last_reply reply
    if is_empty reply then gdb_write (b'$' ∷ b'#' ∷ b'0' ∷ b'0' ∷ []) else do
      cksum ← reply_loop 1 0 reply
      gdb_write (
          b'$'
          ∷ (reply
              ++ (b'#'
                  ∷ hex_digit (bit_and (cksum >>> 4) 0xf)
                  ∷ hex_digit (bit_and cksum 0xf)
                  ∷ [])))

abbrev pub reply_ok : List ℕ
reply_ok = b'O' ∷ b'K' ∷ []

abbrev pub reply_e00 : List ℕ
reply_e00 = b'E' ∷ b'0' ∷ b'0' ∷ []

abbrev pub reply_e01 : List ℕ
reply_e01 = b'E' ∷ b'0' ∷ b'1' ∷ []

-- "E%02x" with EIO.
abbrev pub reply_eio : List ℕ
reply_eio = b'E' ∷ b'0' ∷ b'5' ∷ []
