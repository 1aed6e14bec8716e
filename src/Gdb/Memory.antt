-- ===== src/Gdb/Memory.antt =====
-- gdbserver.c: the packets that read and write memory, set break points and read io registers.
use oseid_simulavr.Base.{
  ℕ, zero, suc, ◌+◌, ◌-◌, ◌/◌, ◌%◌, ◌^◌, ℤ, pos, negsuc, Bool, true, false, ◌&&◌, Option, none,
  some, List, [], ◌∷◌, ◌++◌, ◌==◌, leb, ltb, if◌then◌else◌, bit_and, ◌>>>◌, ◌<<<◌,
}
use oseid_simulavr.Exec.{Exec, pure, stop, fault, ◌>>=◌, ◌>>◌}
use package.oseid_simulavr.Gdb.{GdbComm, Server, on_target}
use package.oseid_simulavr.Gdb.Text.{
  hex2nib, hex_byte, char_at, skip, take_byte, gdb_send_reply, reply_ok, reply_e01, reply_eio,
}

abbrev pub sram_offset : ℕ
sram_offset = 0x800000

abbrev pub eeprom_offset : ℕ
eeprom_offset = 0x810000

-- One number of `gdb_get_addr_len`: up to the character `last`, which is skipped. A shift of an `int` that
-- overflows has no meaning in C; a NUL is no digit.
unfoldable pub number_until : {T : Type 0} → ℕ → ℕ → List ℕ → Exec T (ℕ × List ℕ)
unfolding hex2nib
number_until last num [] = if last == 0 then pure (num, []) else stop
number_until last num (c ∷ rest) = if c == last then pure (num, rest) else do
  nib ← hex2nib c
  if ltb num (2 ^ 27) then number_until last ((num <<< 4) + nib) rest else fault

unfoldable pub gdb_get_addr_len : {T : Type 0} → ℕ → ℕ → List ℕ → Exec T (ℕ × ℕ × List ℕ)
unfolding number_until
gdb_get_addr_len a_end l_end pkt = do
  (addr, p) ← number_until a_end 0 pkt
  (len, rest) ← number_until l_end 0 p
  pure (addr, len, rest)

-- The loop that reads `left` bytes from address `i` on.
unfoldable pub read_bytes : {S : Type 0} → (ℕ → Exec S ℕ) → ℕ → ℕ → Exec S (List ℕ)
unfolding hex_byte
read_bytes read i zero = pure []
read_bytes read i (suc left) = do
  bval ← read i
  rest ← read_bytes read (i + 1) left
  pure (hex_byte bval ++ rest)

-- The loop that writes `left` bytes of the packet.
unfoldable pub write_bytes : {S : Type 0} → (ℕ → ℕ → Exec S Unit) → ℕ → ℕ → List ℕ → Exec S Unit
unfolding take_byte
write_bytes write i zero pkt = pure tt
write_bytes write i (suc left) pkt = do
  (bval, rest) ← take_byte pkt
  write i bval
  write_bytes write (i + 1) left rest

module _ {S : Type 0} (comm : GdbComm S) where
  -- From an even address; a word has its low byte first.
  unfoldable pub read_words : ℕ → ℕ → Exec S (List ℕ)
  unfolding hex_byte
  read_words addr zero = pure []
  read_words addr (suc zero) = do
    wval ← comm.read_flash (addr / 2)
    pure (hex_byte (bit_and wval 0xff))
  read_words addr (suc (suc len)) = do
    wval ← comm.read_flash (addr / 2)
    rest ← read_words (addr + 2) len
    pure (hex_byte (bit_and wval 0xff) ++ (hex_byte (wval >>> 8) ++ rest))

  -- An odd address with length 0 writes two characters into a buffer of one.
  unfoldable pub read_flash_text : ℕ → ℕ → Exec S (List ℕ)
  unfolding read_words hex_byte
  read_flash_text addr len =
      if addr % 2 == 0 then read_words addr len else if len == 0 then fault else do
        wval ← comm.read_flash (addr / 2)
        rest ← read_words (addr + 1) (len - 1)
        pure (hex_byte (wval >>> 8) ++ rest)

  unfoldable pub memory_text : ℕ → ℕ → Exec S (List ℕ)
  unfolding read_bytes read_flash_text
  memory_text addr len =
      if leb sram_offset addr && ltb addr eeprom_offset
      then read_bytes comm.read_sram (addr - sram_offset) len
      else if ltb addr sram_offset
      then read_flash_text addr len
      else read_bytes comm.ee_read (addr - eeprom_offset) len

  unfoldable pub gdb_read_memory : List ℕ → Exec (Server S) Unit
  unfolding gdb_get_addr_len memory_text gdb_send_reply
  gdb_read_memory pkt = do
    (addr, len, rest) ← gdb_get_addr_len b',' 0 pkt
    buf ← on_target (memory_text addr len)
    gdb_send_reply buf

-- The functions to write the flash, if the target has them all.
module _ {S : Type 0} (write lo8 hi8 : ℕ → ℕ → Exec S Unit) where
  unfoldable pub write_words : ℕ → ℕ → List ℕ → Exec S Unit
  unfolding take_byte
  write_words addr zero pkt = pure tt
  write_words addr (suc zero) pkt = do (bval, rest) ← take_byte pkt; lo8 (addr / 2) bval
  write_words addr (suc (suc len)) pkt = do
    (low, p) ← take_byte pkt
    (high, p) ← take_byte p
    write (addr / 2) (low + (high <<< 8))
    write_words (addr + 2) len p

  unfoldable pub write_flash_bytes : ℕ → ℕ → List ℕ → Exec S Unit
  unfolding write_words take_byte
  write_flash_bytes addr len pkt = if addr % 2 == 0 then write_words addr len pkt else do
    (bval, rest) ← take_byte pkt
    hi8 (addr / 2) bval
    write_words (addr + 1) (len - 1) rest

module _ {S : Type 0} (comm : GdbComm S) where
  unfoldable pub write_flash_part :
      Option (ℕ → ℕ → Exec S Unit)
      → Option (ℕ → ℕ → Exec S Unit)
      → Option (ℕ → ℕ → Exec S Unit)
      → ℕ
      → ℕ
      → List ℕ
      → Exec S (List ℕ)
  unfolding write_flash_bytes
  write_flash_part (some write) (some lo8) (some hi8) addr len pkt = do
    write_flash_bytes write lo8 hi8 addr len pkt
    pure reply_ok
  write_flash_part none lo8 hi8 addr len pkt = pure reply_eio
  write_flash_part (some write) none hi8 addr len pkt = pure reply_eio
  write_flash_part (some write) (some lo8) none addr len pkt = pure reply_eio

  -- The reply.
  unfoldable pub write_memory : ℕ → ℕ → List ℕ → Exec S (List ℕ)
  unfolding write_bytes write_flash_part
  write_memory addr len pkt =
      if leb sram_offset addr && ltb addr eeprom_offset
      then (do write_bytes comm.write_sram (addr - sram_offset) len pkt; pure reply_ok)
      else if ltb addr sram_offset
      then write_flash_part comm.write_flash comm.write_flash_lo8 comm.write_flash_hi8 addr len pkt
      else (do write_bytes comm.ee_write (addr - eeprom_offset) len pkt; pure reply_ok)

  unfoldable pub gdb_write_memory : List ℕ → Exec (Server S) Unit
  unfolding gdb_get_addr_len write_memory gdb_send_reply
  gdb_write_memory pkt = do
    (addr, len, rest) ← gdb_get_addr_len b',' b':' pkt
    reply ← on_target (write_memory addr len rest)
    gdb_send_reply reply

  -- `comm->max_pc && addr / 2 >= comm->max_pc (...)`
  unfoldable pub is_beyond : ℕ → Option (Exec S ℤ) → Exec S Bool
  is_beyond pc none = pure false
  is_beyond pc (some max_pc) = do m ← max_pc; pure (elim m [ pos n ↦ leb n pc | negsuc n ↦ true ])

  -- The command is the character before the packet, `z` or `Z`.
  unfoldable pub gdb_break_point : ℕ → List ℕ → Exec (Server S) Unit
  unfolding gdb_get_addr_len is_beyond gdb_send_reply
  gdb_break_point z pkt = do
    let t = char_at pkt
    (addr, len, rest) ← gdb_get_addr_len b',' 0 (skip (skip pkt))
    if t == b'0'
        then (do
          beyond ← on_target (is_beyond (addr / 2) comm.max_pc)
          if beyond then gdb_send_reply reply_e01 else do
            on_target
                (if z == b'z' then comm.remove_break (addr / 2) else comm.insert_break (addr / 2))
            gdb_send_reply reply_ok)
        else if leb b'1' t && leb t b'4'
        then gdb_send_reply []
        else gdb_send_reply reply_ok
