-- ===== src/Gdb/Session.antt =====
-- gdbserver.c: continuing the target, the dispatch of a packet, and the reading of packets.
use oseid_simulavr.Base.{
  ℕ, zero, suc, ◌+◌, ◌-◌, true, false, ◌||◌, Option, none, some, List, [], ◌∷◌, ◌++◌, ◌==◌, leb,
  if◌then◌else◌, bit_and, ◌<<<◌,
}
use oseid_simulavr.Exec.{fault, Exec, pure, stop, gets, modify, ◌>>=◌, ◌>>◌}
use package.oseid_simulavr.Gdb.{
  GdbComm, Server, GdbRet, ret_ctrl_c, ret_kill_request, ret_ok, on_target, gdb_read_byte,
  gdb_send_ack,
}
use package.oseid_simulavr.Gdb.Text.{hex2nib, hex_byte, char_at, skip, gdb_send_reply, reply_ok}
use package.oseid_simulavr.Gdb.Packet.{read_packet}
use package.oseid_simulavr.Gdb.Registers.{
  spl_addr, sph_addr, hex_word, byte_address, gdb_read_registers, gdb_write_registers,
  gdb_read_register, gdb_write_register,
}
use package.oseid_simulavr.Gdb.Memory.{gdb_read_memory, gdb_write_memory, gdb_break_point}
use package.oseid_simulavr.Gdb.Query.{gdb_query_request}

-- The value that `T%02x` or `S%02x` shows.
abbrev pub sigint : ℕ
sigint = 2

abbrev pub sigtrap : ℕ
sigtrap = 5

module _ {S : Type 0} (comm : GdbComm S) where
  -- The reply "T%02x20:%02x;21:%02x%02x;22:%02x%02x%02x%02x;".
  unfoldable pub stop_text : ℕ → Exec S (List ℕ)
  unfolding hex_byte hex_word
  stop_text signo = do
    pc ← comm.read_pc
    sreg ← comm.read_sreg
    spl ← comm.read_sram spl_addr
    sph ← comm.read_sram sph_addr
    let counter = b';' ∷ b'2' ∷ b'2' ∷ b':' ∷ (hex_word (byte_address pc) ++ (b';' ∷ []))
    let pointer = b';' ∷ b'2' ∷ b'1' ∷ b':' ∷ (hex_byte spl ++ (hex_byte sph ++ counter))
    let status = b'2' ∷ b'0' ∷ b':' ∷ (hex_byte sreg ++ pointer)
    pure (b'T' ∷ (hex_byte signo ++ status))

  abbrev pub run_option : Option (Exec S Unit) → Exec S Unit
  run_option none = pure tt
  run_option (some m) = m

  module _ (continue : ℕ → List ℕ → Exec (Server S) Unit) where
    abbrev pub raise_option : Option (ℕ → Exec S Unit) → ℕ → Exec S Unit
    raise_option none irq = pure tt
    raise_option (some raise) irq = raise irq

    -- The character before the packet is the command, `C` or `S`; SIGHUP is 1.
    unfoldable pub gdb_continue_with_signal : ℕ → List ℕ → Exec (Server S) Unit
    unfolding hex2nib gdb_send_reply
    gdb_continue_with_signal command pkt = do
      high ← hex2nib (char_at pkt)
      low ← hex2nib (char_at (skip pkt))
      let signo = (high <<< 4) + bit_and low 0xf
      let p = skip (skip pkt)
      if signo == 1 then (do on_target comm.reset; gdb_send_reply (b'S' ∷ b'0' ∷ b'5' ∷ [])) else do
        on_target (if leb 94 signo then raise_option comm.irq_raise (signo - 94) else pure tt)
        if char_at p == 0
            then continue command p
            else if char_at p == b';'
            then continue (char_at (skip pkt)) p
            else gdb_send_reply []

    unfoldable pub gdb_parse_packet : List ℕ → Exec (Server S) GdbRet
    unfolding gdb_read_registers gdb_write_registers gdb_read_register gdb_write_register
        gdb_read_memory gdb_write_memory gdb_continue_with_signal gdb_break_point gdb_query_request
        gdb_send_reply
    gdb_parse_packet pkt =
        let c = char_at pkt in
        let p = skip pkt in
        if c == b'?'
        then (do gdb_send_reply (b'S' ∷ b'0' ∷ b'5' ∷ []); pure ret_ok)
        else if c == b'g'
        then (do gdb_read_registers comm; pure ret_ok)
        else if c == b'G'
        then (do gdb_write_registers comm p; pure ret_ok)
        else if c == b'p'
        then (do gdb_read_register comm p; pure ret_ok)
        else if c == b'P'
        then (do gdb_write_register comm p; pure ret_ok)
        else if c == b'm'
        then (do gdb_read_memory comm p; pure ret_ok)
        else if c == b'M'
        then (do gdb_write_memory comm p; pure ret_ok)
        else if c == b'k' || c == b'D'
        then (do on_target comm.reset; gdb_send_reply reply_ok; pure ret_kill_request)
        else if c == b'C' || c == b'S'
        then (do gdb_continue_with_signal c p; pure ret_ok)
        else if c == b'c' || c == b's'
        then (do continue c p; pure ret_ok)
        else if c == b'z' || c == b'Z'
        then (do gdb_break_point comm c p; pure ret_ok)
        else if c == b'q'
        then (do gdb_query_request comm p; pure ret_ok)
        else (do gdb_send_reply []; pure ret_ok)

  -- A `continue` while the target runs returns at once.
  abbrev pub already_running : ℕ → List ℕ → Exec (Server S) Unit
  already_running command pkt = pure tt

  -- `gdb_send_reply` frees the last reply, which it is given here, before it copies it.
  unfoldable pub resend : Option (List ℕ) → Exec (Server S) GdbRet
  unfolding gdb_send_reply
  resend none = do gdb_send_reply []; pure ret_ok
  resend (some reply) = fault

  module _ (continue : ℕ → List ℕ → Exec (Server S) Unit) where
    unfoldable pub answer : Option ℕ → Exec (Server S) GdbRet
    unfolding read_packet gdb_send_ack gdb_parse_packet resend
    answer none = pure ret_ok
    answer (some c) =
        if c == b'$'
        then (do pkt ← read_packet; gdb_send_ack; gdb_parse_packet continue pkt)
        else if c == b'-'
        then (do reply ← gets (λ s. s.last_reply); resend reply)
        else if c == 3
        then pure ret_ctrl_c
        else pure ret_ok

    unfoldable pub gdb_pre_parse_packet : Exec (Server S) GdbRet
    unfolding gdb_read_byte answer
    gdb_pre_parse_packet = do c ← gdb_read_byte; answer c

  -- The loop of `gdb_continue`, which gives the signal of the reply; SIGINT arrives after `rounds`
  -- rounds. A kill request, too, only ends the loop.
  unfoldable pub continue_loop : ℕ → ℕ → Exec (Server S) ℕ
  unfolding gdb_pre_parse_packet
  continue_loop zero command = do modify (λ s. record s { global_server_quit = true }); pure sigtrap
  continue_loop (suc rounds) command = do
    at_break ← on_target comm.step
    if at_break then (do on_target (run_option comm.disable_breakpts); pure sigtrap) else do
      ret ← gdb_pre_parse_packet already_running
      elim ret [
        | ret_ctrl_c ↦ pure sigint
        | ret_kill_request ↦ pure sigtrap
        | ret_ok ↦
            if command == b's' || command == b'S'
            then pure sigtrap
            else continue_loop rounds command
      ]

  unfoldable pub gdb_continue : ℕ → ℕ → List ℕ → Exec (Server S) Unit
  unfolding continue_loop stop_text gdb_send_reply
  gdb_continue rounds command pkt = do
    running ← gets (λ s. s.is_running)
    if running then pure tt else do
      modify (λ s. record s { is_running = true })
      if char_at pkt == 0
          then (do
            signo ← continue_loop rounds command
            reply ← on_target (stop_text signo)
            gdb_send_reply reply
            modify (λ s. record s { is_running = false }))
          else stop

  -- The loop of `gdb_main_loop`, for the messages until gdb ends the session; `rounds` bounds each run.
  unfoldable pub gdb_main_loop : ℕ → ℕ → Exec (Server S) Unit
  unfolding gdb_pre_parse_packet gdb_continue gdb_send_ack gdb_send_reply
  gdb_main_loop rounds zero = pure tt
  gdb_main_loop rounds (suc messages) = do
    ret ← gdb_pre_parse_packet (gdb_continue rounds)
    elim ret [
      | ret_kill_request ↦ pure tt
      | ret_ctrl_c ↦ (do
        gdb_send_ack
        gdb_send_reply (b'S' ∷ hex_byte sigint)
        gdb_main_loop rounds messages)
      | ret_ok ↦ gdb_main_loop rounds messages
    ]
