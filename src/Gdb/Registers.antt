-- ===== src/Gdb/Registers.antt =====
-- gdbserver.c: the packets that read and write registers.
use oseid_simulavr.Base.{
  ℕ, zero, suc, ◌+◌, ◌/◌, ◌^◌, ℤ, ◌||◌, List, [], ◌∷◌, ◌++◌, ◌==◌, ltb, if◌then◌else◌, bit_or,
  ◌>>>◌, ◌<<<◌, u32, int_to_u32, u32_to_int,
}
use oseid_simulavr.Exec.{Exec, pure, stop, fault, ◌>>=◌, ◌>>◌}
use oseid_simulavr.Storage.{twice}
use package.oseid_simulavr.Gdb.{GdbComm, Server, on_target}
use package.oseid_simulavr.Gdb.Text.{
  hex2nib, hex_byte, skip, take_byte, gdb_send_reply, reply_ok, reply_e00,
}

abbrev pub spl_addr : ℕ
spl_addr = 0x5d

abbrev pub sph_addr : ℕ
sph_addr = 0x5e

-- The four bytes of a program counter, lowest first.
unfoldable pub hex_word : ℕ → List ℕ
unfolding hex_byte
hex_word val =
    hex_byte val ++ (hex_byte (val >>> 8) ++ (hex_byte (val >>> 16) ++ hex_byte (val >>> 24)))

-- `read_pc * 2` as a `uint32_t`.
abbrev pub byte_address : ℤ → ℕ
byte_address pc = int_to_u32 (twice pc)

-- Eight digits of the packet, the bytes lowest first.
unfoldable pub take_word : {T : Type 0} → List ℕ → Exec T (ℕ × List ℕ)
unfolding take_byte
take_word pkt = do
  (b0, p1) ← take_byte pkt
  (b1, p2) ← take_byte p1
  (b2, p3) ← take_byte p2
  (b3, p4) ← take_byte p3
  pure (u32 (b0 + (b1 <<< 8) + (b2 <<< 16) + (b3 <<< 24)), p4)

module _ {S : Type 0} (comm : GdbComm S) where
  -- The loop over the working registers, from `i` on.
  unfoldable pub read_regs_loop : ℕ → ℕ → Exec S (List ℕ)
  unfolding hex_byte
  read_regs_loop i zero = pure []
  read_regs_loop i (suc left) = do
    val ← comm.read_reg i
    rest ← read_regs_loop (i + 1) left
    pure (hex_byte val ++ rest)

  unfoldable pub registers_text : Exec S (List ℕ)
  unfolding read_regs_loop hex_word hex_byte
  registers_text = do
    regs ← read_regs_loop 0 32
    sreg ← comm.read_sreg
    spl ← comm.read_sram spl_addr
    sph ← comm.read_sram sph_addr
    pc ← comm.read_pc
    pure (regs ++ (hex_byte sreg ++ (hex_byte spl ++ (hex_byte sph ++ hex_word (byte_address pc)))))

  unfoldable pub gdb_read_registers : Exec (Server S) Unit
  unfolding registers_text gdb_send_reply
  gdb_read_registers = do buf ← on_target registers_text; gdb_send_reply buf

  unfoldable pub write_regs_loop : ℕ → ℕ → List ℕ → Exec S (List ℕ)
  unfolding take_byte
  write_regs_loop i zero pkt = pure pkt
  write_regs_loop i (suc left) pkt = do
    (bval, rest) ← take_byte pkt
    comm.write_reg i bval
    write_regs_loop (i + 1) left rest

  unfoldable pub write_registers : List ℕ → Exec S Unit
  unfolding write_regs_loop take_byte take_word
  write_registers pkt = do
    p ← write_regs_loop 0 32 pkt
    (sreg, p) ← take_byte p
    comm.write_sreg sreg
    (spl, p) ← take_byte p
    comm.write_sram spl_addr spl
    (sph, p) ← take_byte p
    comm.write_sram sph_addr sph
    (val, p) ← take_word p
    comm.write_pc (u32_to_int (val / 2))

  unfoldable pub gdb_write_registers : List ℕ → Exec (Server S) Unit
  unfolding write_registers gdb_send_reply
  gdb_write_registers pkt = do on_target (write_registers pkt); gdb_send_reply reply_ok

-- The loop of `gdb_extract_hex_num`: the number, and the packet from the stop character on. A shift of
-- an `int` that overflows has no meaning in C.
unfoldable pub hex_num_loop : {T : Type 0} → ℕ → ℕ → ℕ → List ℕ → Exec T (ℕ × List ℕ)
unfolding hex2nib
hex_num_loop stop_char i num [] = pure (num, [])
hex_num_loop stop_char i num (c ∷ rest) =
    if c == stop_char || c == 0 then pure (num, c ∷ rest) else if ltb 7 i then stop else do
      nib ← hex2nib c
      if ltb num (2 ^ 27)
          then hex_num_loop stop_char (i + 1) (bit_or (num <<< 4) nib) rest
          else fault

unfoldable pub gdb_extract_hex_num : {T : Type 0} → ℕ → List ℕ → Exec T (ℕ × List ℕ)
unfolding hex_num_loop
gdb_extract_hex_num stop_char pkt = hex_num_loop stop_char 0 0 pkt

module _ {S : Type 0} (comm : GdbComm S) where
  unfoldable pub register_text : ℕ → Exec S (List ℕ)
  unfolding hex_byte hex_word
  register_text reg =
      if ltb reg 32
      then (do val ← comm.read_reg reg; pure (hex_byte val))
      else if reg == 32
      then (do val ← comm.read_sreg; pure (hex_byte val))
      else if reg == 33
      then (do
        spl ← comm.read_sram spl_addr
        sph ← comm.read_sram sph_addr
        pure (hex_byte spl ++ hex_byte sph))
      else if reg == 34
      then (do pc ← comm.read_pc; pure (hex_word (byte_address pc)))
      else pure reply_e00

  unfoldable pub gdb_read_register : List ℕ → Exec (Server S) Unit
  unfolding gdb_extract_hex_num register_text gdb_send_reply
  gdb_read_register pkt = do
    (reg, rest) ← gdb_extract_hex_num 0 pkt
    reply ← on_target (register_text reg)
    gdb_send_reply reply

  -- After the `=`; the value's low byte is taken first, whatever the register.
  unfoldable pub write_register : ℕ → List ℕ → Exec S (List ℕ)
  unfolding take_byte
  write_register reg pkt = do
    (low, p) ← take_byte pkt
    if reg == 32
        then (do comm.write_sreg low; pure reply_ok)
        else if ltb reg 32
        then (do comm.write_reg reg low; pure reply_ok)
        else if reg == 33
        then (do
          (high, p) ← take_byte p
          comm.write_sram spl_addr low
          comm.write_sram sph_addr high
          pure reply_ok)
        else if reg == 34
        then (do
          (b1, p) ← take_byte p
          (b2, p) ← take_byte p
          (b3, p) ← take_byte p
          comm.write_pc (u32_to_int (u32 (low + (b1 <<< 8) + (b2 <<< 16) + (b3 <<< 24)) / 2))
          pure reply_ok)
        else pure reply_e00

  unfoldable pub gdb_write_register : List ℕ → Exec (Server S) Unit
  unfolding gdb_extract_hex_num write_register gdb_send_reply
  gdb_write_register pkt = do
    (reg, rest) ← gdb_extract_hex_num b'=' pkt
    reply ← on_target (write_register reg (skip rest))
    gdb_send_reply reply
