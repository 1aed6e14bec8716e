-- ===== src/Gdb/Framing.antt =====
-- The packets of gdb: a frame is read back as its text.
use oseid_simulavr.Base.{
  some, ℕ, ◌+◌, ◌%◌, ◌<◌, ◌≤◌, ◌≡◌, refl, sym, ap, ◌∙◌, arith, Bool, true, false, List, ◌∷◌, ◌++◌,
  ◌==◌, if◌then◌else◌,
}
use oseid_simulavr.Exec.{ok, avr_error, Exec, then_with, ◌>>◌}
use package.oseid_simulavr.Gdb.{Server, GdbComm, gdb_send_ack}
use package.oseid_simulavr.Gdb.Text.{gdb_send_reply}
use package.oseid_simulavr.Gdb.Query.{length}
use package.oseid_simulavr.Gdb.Session.{answer, gdb_parse_packet, gdb_pre_parse_packet}
use package.oseid_simulavr.Gdb.Frame.{
  total, frame, Delivers, NoHash, gdb_send_reply-frame, hex_byte_low,
}
use package.oseid_simulavr.Gdb.Reading.{took, read_byte, read_packet_lem}

if_parsed :
    {S : Type 0} {A B : Type 0} (good : Bool) (a : A) (s : S) (m : Exec S B) (f : A → Exec S B)
    → m ≡ f a
    → then_with (if good then ok (a, s) else avr_error) f ≡ (if good then m s else avr_error)
if_parsed true a s m f e = ap (λ (m : Exec _ _). m s) (sym e)
if_parsed false a s m f e = refl

-- A packet of at most 400 characters other than `#`, between `$` and `#` and with two digits for a
-- checksum, is acknowledged and parsed if the digits are the sum of its characters modulo 256, with
-- every byte of the frame consumed; otherwise the program ends with an error.
pub gdb_pre_parse_packet-frame :
    {S : Type 0} (comm : GdbComm S) (continue : ℕ → List ℕ → Exec (Server S) Unit) (text : List ℕ)
    (k : ℕ) (s : Server S)
    → length text ≤ 400
    → NoHash text
    → k < 256
    → Delivers s.input s.taken (frame text k)
    → gdb_pre_parse_packet comm continue s ≡ (
        if total text % 256 == k
        then (gdb_send_ack >> gdb_parse_packet comm continue text)
            (record s { taken = s.taken + (length text + 4) })
        else avr_error)
unfolding gdb_pre_parse_packet answer
gdb_pre_parse_packet-frame comm continue text k s h n hk d =
    ap (λ o. then_with o (answer comm continue)) (read_byte b'$' s d.0)
    ∙ ap (λ o. then_with o (λ pkt. gdb_send_ack >> gdb_parse_packet comm continue pkt))
        (read_packet_lem text k (took s 1) h n hk d.1)
    ∙ if_parsed (total text % 256 == k) text (record s { taken = s.taken + 1 + (length text + 3) })
        (gdb_send_ack >> gdb_parse_packet comm continue text)
        (λ pkt. gdb_send_ack >> gdb_parse_packet comm continue pkt) refl
    ∙ ap
        (λ (t : ℕ).
          if total text % 256 == k
          then (gdb_send_ack >> gdb_parse_packet comm continue text) (record s { taken = t })
          else avr_error)
        (omega arith)

-- What the server sends for a reply of at most 395 characters other than `#`, it accepts when it is
-- delivered to it, as the packet with that text: it is read whole, acknowledged and parsed.
pub gdb_pre_parse_packet-gdb_send_reply :
    {S : Type 0} (comm : GdbComm S) (continue : ℕ → List ℕ → Exec (Server S) Unit) (text : List ℕ)
    (s r : Server S)
    → length text < 396
    → NoHash text
    → Delivers r.input r.taken (frame text (total text % 256))
    → (gdb_send_reply text s
        ≡ ok (
          tt,
          record s { last_reply = some text; sent = s.sent ++ frame text (total text % 256) },
        ))
      × (gdb_pre_parse_packet comm continue r
          ≡ (gdb_send_ack >> gdb_parse_packet comm continue text)
              (record r { taken = r.taken + (length text + 4) }))
gdb_pre_parse_packet-gdb_send_reply comm continue text s r h n d =
    let same : (total text % 256 == total text % 256) ≡ true = ground arith in
    (
      gdb_send_reply-frame text s h
          ∙ ap
              (λ t. ok (
                tt,
                record s { last_reply = some text; sent = s.sent ++ (b'$' ∷ (text ++ (b'#' ∷ t))) },
              ))
              (hex_byte_low (total text)),
      gdb_pre_parse_packet-frame comm continue text (total text % 256) r (omega arith) n
            (omega arith) d
          ∙ ap
              (λ (t : Bool).
                if t
                then (gdb_send_ack >> gdb_parse_packet comm continue text)
                    (record r { taken = r.taken + (length text + 4) })
                else avr_error)
              same,
    )
