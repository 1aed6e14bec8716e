-- ===== src/Tests/Server.antt =====
-- The theorems of the gdb server at the small device.
use oseid_simulavr.Base.{
  ℕ, none, some, ◌≡◌, refl, arith, false, List, [], ◌∷◌, ◌++◌, ◌==◌, if◌then◌else◌,
}
use oseid_simulavr.Exec.{ok, Exec, pure, ◌>>=◌, ◌>>◌}
use oseid_simulavr.Gdb.{Server, byte, ReadResult, gdb_send_ack}
use oseid_simulavr.Gdb.Text.{hex_byte, gdb_send_reply, reply_ok}
use oseid_simulavr.Gdb.Registers.{registers_text, write_registers}
use oseid_simulavr.Gdb.Memory.{gdb_read_memory, gdb_write_memory}
use oseid_simulavr.Gdb.Session.{already_running, gdb_parse_packet, gdb_pre_parse_packet}
use oseid_simulavr.Gdb.Frame.{Delivers, frame, total}
use oseid_simulavr.Gdb.Framing.{gdb_pre_parse_packet-frame, gdb_pre_parse_packet-gdb_send_reply}
use oseid_simulavr.Gdb.Target.{Target, global_gdb_comm}
use oseid_simulavr.Gdb.Numbers.{digits_text}
use oseid_simulavr.Gdb.Bytes.{bytes_text, put_all, ee_put, gdb_read_memory-gdb_write_memory}
use oseid_simulavr.Gdb.Restore.{CanRestore, write_registers-registers_text-core}
use package.oseid_simulavr.Tests.Board.{board}

abbrev io : ℕ → Exec Target (ℕ × List ℕ)
io a = pure (0, [])

abbrev target : Target
target = record {
  board = board;
  ee = some (record { addr = 0x3f; eedr = 0; eearl = 0; eearh = 0; mem = λ i. 0xff });
}

-- "$g#67", and then nothing.
abbrev stream : ℕ → ReadResult
stream i =
    if i == 0
    then byte b'$'
    else if i == 1
    then byte b'g'
    else if i == 2
    then byte b'#'
    else if i == 3
    then byte b'6'
    else if i == 4
    then byte b'7'
    else ReadResult.again

abbrev server : Server Target
server = record {
  target = target;
  last_reply = none;
  sent = [];
  input = stream;
  taken = 0;
  is_running = false;
  global_server_quit = false;
}

delivered : Delivers stream 0 (frame (b'g' ∷ []) 0x67)
unfolding hex_byte
delivered = (refl, (refl, (refl, (refl, (refl, tt)))))

frame_example :
    gdb_pre_parse_packet (global_gdb_comm io) (already_running (global_gdb_comm io)) server
    ≡ (gdb_send_ack
          >> gdb_parse_packet
              (global_gdb_comm io)
              (already_running (global_gdb_comm io))
              (b'g' ∷ []))
        (record server { taken = 5 })
frame_example =
    gdb_pre_parse_packet-frame (global_gdb_comm io) (already_running (global_gdb_comm io))
      (b'g' ∷ []) 0x67 server (omega arith) (λ e. absurd (omega (arith, e)), tt) (omega arith)
      (delivered)

send_example :
    (gdb_send_reply (b'g' ∷ []) server
      ≡ ok (tt, record server { last_reply = some (b'g' ∷ []); sent = frame (b'g' ∷ []) 0x67 }))
    × (gdb_pre_parse_packet (global_gdb_comm io) (already_running (global_gdb_comm io)) server
        ≡ (gdb_send_ack
              >> gdb_parse_packet
                  (global_gdb_comm io)
                  (already_running (global_gdb_comm io))
                  (b'g' ∷ []))
            (record server { taken = 5 }))
send_example =
    gdb_pre_parse_packet-gdb_send_reply (global_gdb_comm io) (already_running (global_gdb_comm io))
      (b'g' ∷ []) server server (omega arith) (λ e. absurd (omega (arith, e)), tt) delivered

restorable : CanRestore 20 board.core
restorable = record {
  regs = λ i h. omega arith;
  sreg_byte = omega arith;
  spl_byte = omega arith;
  sph_byte = omega arith;
  at = refl;
  in_memory = omega arith;
  low = (refl, refl, refl);
  high = (refl, refl, refl);
  counter = refl;
  in_program = omega arith;
  short = omega arith;
}

restore_example :
    (registers_text (global_gdb_comm io) >>= write_registers (global_gdb_comm io)) target
    ≡ ok (tt, target)
restore_example = write_registers-registers_text-core io target 20 restorable

-- Two bytes at address 0x810003.
abbrev address : List ℕ
address = 8 ∷ 1 ∷ 0 ∷ 0 ∷ 0 ∷ 3 ∷ []

abbrev bytes : List ℕ
bytes = 0xab ∷ 0x12 ∷ []

memory_example :
    (gdb_write_memory
          (global_gdb_comm io)
          (digits_text address ++ (b',' ∷ (digits_text (2 ∷ []) ++ (b':' ∷ bytes_text bytes))))
        >> gdb_read_memory
            (global_gdb_comm io)
            (digits_text address ++ (b',' ∷ digits_text (2 ∷ []))))
      server
    ≡ ok (
      tt,
      record server {
        target = put_all ee_put 3 bytes target;
        last_reply = some (bytes_text bytes);
        sent =
            frame reply_ok (total reply_ok) ++ frame (bytes_text bytes) (total (bytes_text bytes));
      },
    )
memory_example =
    gdb_read_memory-gdb_write_memory io address (2 ∷ []) bytes 3 server (omega arith) (omega arith)
      (omega arith) refl refl (omega arith) (omega arith) tt
