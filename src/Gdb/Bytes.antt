-- ===== src/Gdb/Bytes.antt =====
-- The memory packets: bytes that gdb writes are the bytes that it reads.
use oseid_simulavr.Base.{
  ℕ, ◌+◌, ◌-◌, ◌<◌, ◌≤◌, ◌≡◌, refl, ap, ◌∙◌, arith, false, ◌&&◌, Option, none, some, List, [], ◌∷◌,
  ◌++◌, ◌==◌, leb, ltb, if◌then◌else◌,
}
use oseid_simulavr.Exec.{Outcome, ok, Exec, pure, then_with, ◌>>=◌, ◌>>◌}
use oseid_simulavr.Board.{zoomed}
use oseid_simulavr.OsEid.{EEprom, mem_at, mem_put, gdb_ee_read, gdb_ee_write}
use package.oseid_simulavr.Gdb.{GdbComm, Server, on_target}
use package.oseid_simulavr.Gdb.Text.{hex_byte, gdb_send_reply, reply_ok}
use package.oseid_simulavr.Gdb.Query.{length}
use package.oseid_simulavr.Gdb.Frame.{take_byte-hex_byte, gdb_send_reply-frame, frame, total}
use package.oseid_simulavr.Gdb.Numbers.{
  AreNibbles, value_from, digits_text, gdb_get_addr_len-digits,
}
use package.oseid_simulavr.Gdb.Memory.{
  read_bytes, write_bytes, memory_text, write_memory, gdb_read_memory, gdb_write_memory,
  eeprom_offset, sram_offset,
}
use package.oseid_simulavr.Gdb.Target.{Target, global_gdb_comm}

abbrev pub AreBytes : List ℕ → Type 0
AreBytes [] = Unit
AreBytes (v ∷ vs) = (v < 256) × AreBytes vs

abbrev pub bytes_text : List ℕ → List ℕ
unfolding hex_byte
bytes_text [] = []
bytes_text (v ∷ vs) = hex_byte v ++ bytes_text vs

-- The laws of bytes at the addresses below `limit`.
pub record IsMemory {S : Type 0} (read : ℕ → Exec S ℕ) (write : ℕ → ℕ → Exec S Unit) (limit : ℕ)
    (at : S → ℕ → ℕ) (put : ℕ → ℕ → S → S) (There : S → Type 0) : Type 0 where
  pub reads : (i : ℕ) (s : S) → i < limit → read i s ≡ ok (at s i, s)
  pub writes : (i v : ℕ) (s : S) → i < limit → write i v s ≡ ok (tt, put i v s)
  pub stays : (i v : ℕ) (s : S) → There s → There (put i v s)
  pub at_put :
      (i v j : ℕ) (s : S)
      → i < limit
      → j < limit
      → There s
      → at (put i v s) j ≡ (if j == i then v else at s j)

module _ {S : Type 0} (put : ℕ → ℕ → S → S) where
  abbrev pub put_all : ℕ → List ℕ → S → S
  put_all i [] s = s
  put_all i (v ∷ vs) s = put_all (i + 1) vs (put i v s)

module _ {S : Type 0} {read : ℕ → Exec S ℕ} {write : ℕ → ℕ → Exec S Unit} {limit : ℕ}
    {at : S → ℕ → ℕ} {put : ℕ → ℕ → S → S} {There : S → Type 0}
    (m : IsMemory read write limit at put There) where
  abbrev Holds : S → ℕ → List ℕ → Type 0
  Holds s i [] = Unit
  Holds s i (v ∷ vs) = (at s i ≡ v) × Holds s (i + 1) vs

  write_lem :
      (vs : List ℕ) (i : ℕ) (s : S)
      → AreBytes vs
      → i + length vs ≤ limit
      → write_bytes write i (length vs) (bytes_text vs) s ≡ ok (tt, put_all put i vs s)
  unfolding write_bytes bytes_text
  write_lem [] i s b h = refl
  write_lem (v ∷ vs) i s b h =
      ap (λ o. then_with o (λ r. write i r.0 >> write_bytes write (i + 1) (length vs) r.1))
        (take_byte-hex_byte v (bytes_text vs) s)
      ∙ ap (λ (t : ℕ). (write i t >> write_bytes write (i + 1) (length vs) (bytes_text vs)) s)
          (omega (arith, b.0))
      ∙ ap (λ o. then_with o (λ (t : Unit). write_bytes write (i + 1) (length vs) (bytes_text vs)))
          (m.writes i v s (omega arith))
      ∙ write_lem vs (i + 1) (put i v s) b.1 (omega arith)

  below :
      (vs : List ℕ) (i j : ℕ) (s : S)
      → There s
      → i + length vs ≤ limit
      → j < i
      → at (put_all put i vs s) j ≡ at s j
  below [] i j s t b h = refl
  below (v ∷ vs) i j s t b h =
      let rest = below vs (i + 1) j (put i v s) (m.stays i v s t) (omega arith) (omega arith) in
      let here = m.at_put i v j s (omega arith) (omega arith) t in ground (arith, rest, here)

  held :
      (vs : List ℕ) (i : ℕ) (s : S)
      → There s
      → i + length vs ≤ limit
      → Holds (put_all put i vs s) i vs
  held [] i s t b = tt
  held (v ∷ vs) i s t b =
      let rest = below vs (i + 1) i (put i v s) (m.stays i v s t) (omega arith) (omega arith) in
      let here = m.at_put i v i s (omega arith) (omega arith) t in
      (ground (arith, rest, here), held vs (i + 1) (put i v s) (m.stays i v s t) (omega arith))

  read_lem :
      (vs : List ℕ) (i : ℕ) (s : S)
      → Holds s i vs
      → i + length vs ≤ limit
      → read_bytes read i (length vs) s ≡ ok (bytes_text vs, s)
  unfolding read_bytes bytes_text
  read_lem [] i s h b = refl
  read_lem (v ∷ vs) i s h b =
      ap
        (λ o.
          then_with o
            (λ v. read_bytes read (i + 1) (length vs) >>= λ rest. pure (hex_byte v ++ rest)))
        (m.reads i s (omega arith))
      ∙ ap
          (λ (v : ℕ). (read_bytes read (i + 1) (length vs) >>= λ rest. pure (hex_byte v ++ rest)) s)
          h.0
      ∙ ap (λ o. then_with o (λ rest. pure (hex_byte v ++ rest)))
          (read_lem vs (i + 1) s h.1 (omega arith))

length_bytes : (vs : List ℕ) → length (bytes_text vs) ≡ length vs + length vs
unfolding bytes_text hex_byte
length_bytes [] = refl
length_bytes (v ∷ vs) = omega (arith, length_bytes vs)

-- The EEPROM of the target.
abbrev pub ee_at : Target → ℕ → ℕ
ee_at t i = mem_at i t.ee

abbrev pub ee_put : ℕ → ℕ → Target → Target
ee_put i v t = record t { ee = mem_put i v t.ee }

abbrev pub IsPresent : Option EEprom → Type 0
IsPresent none = ⊥
IsPresent (some e) = Unit

put_IsPresent : (i v : ℕ) (e : Option EEprom) → IsPresent e → IsPresent (mem_put i v e)
put_IsPresent i v none h = h
put_IsPresent i v (some e) h = tt

mem_at-mem_put :
    (i v j : ℕ) (e : Option EEprom)
    → i < 4096
    → j < 4096
    → IsPresent e
    → mem_at j (mem_put i v e) ≡ (if j == i then v else mem_at j e)
mem_at-mem_put i v j none hi hj h = absurd h
mem_at-mem_put i v j (some e) hi hj h = ground arith

module _ (io : ℕ → Exec Target (ℕ × List ℕ)) where
  abbrev comm : GdbComm Target
  comm = global_gdb_comm io

  ee-IsMemory : IsMemory comm.ee_read comm.ee_write 4096 ee_at ee_put (λ t. IsPresent t.ee)
  unfolding global_gdb_comm gdb_ee_read gdb_ee_write
  ee-IsMemory = record {
    reads = λ i s h. refl;
    writes = λ i v s h. refl;
    stays = λ i v s. put_IsPresent i v s.ee;
    at_put = λ i v j s. mem_at-mem_put i v j s.ee;
  }

  module _ (addr len vs : List ℕ) (a : ℕ) (s : Server Target) (na : AreNibbles addr)
      (nl : AreNibbles len) (bytes : AreBytes vs) (va : value_from 0 addr ≡ eeprom_offset + a)
      (vl : value_from 0 len ≡ length vs) (inside : a + length vs ≤ 4096) (short : length vs < 198)
      (present : IsPresent s.target.ee) where
    there : Server Target
    there = record s { target = put_all ee_put a vs s.target }

    in_sram : (leb sram_offset (eeprom_offset + a) && ltb (eeprom_offset + a) eeprom_offset) ≡ false
    in_sram = ground arith

    in_flash : ltb (eeprom_offset + a) sram_offset ≡ false
    in_flash = ground arith

    offset : eeprom_offset + a - eeprom_offset ≡ a
    offset = omega arith

    written :
        write_memory comm (eeprom_offset + a) (length vs) (bytes_text vs) s.target
        ≡ ok (reply_ok, there.target)
    unfolding write_memory there
    written =
        let after : ℕ → Outcome (List ℕ × Target) = λ i.
          (write_bytes comm.ee_write i (length vs) (bytes_text vs) >> pure reply_ok) s.target in
        rw (in_sram, in_flash)
          (ap after offset
            ∙ ap (λ o. then_with o (λ (t : Unit). pure reply_ok))
                (write_lem ee-IsMemory vs a s.target bytes inside))

    reread :
        memory_text comm (eeprom_offset + a) (length vs) there.target
        ≡ ok (bytes_text vs, there.target)
    unfolding memory_text there
    reread =
        rw (in_sram, in_flash)
          (ap (λ (i : ℕ). read_bytes comm.ee_read i (length vs) there.target) offset
            ∙ read_lem ee-IsMemory vs a there.target (held ee-IsMemory vs a s.target present inside)
                inside)

    write_packet :
        gdb_write_memory comm
          (digits_text addr ++ (b',' ∷ (digits_text len ++ (b':' ∷ bytes_text vs))))
          s
        ≡ gdb_send_reply reply_ok there
    unfolding gdb_write_memory there
    write_packet =
        let parse =
          (gdb_get_addr_len-digits addr len (bytes_text vs) s na nl (omega arith)
            (omega arith)).1 in
        let after : ℕ → ℕ → List ℕ → Exec (Server Target) Unit =
          λ addr len rest. on_target (write_memory comm addr len rest) >>= gdb_send_reply in
        ap (λ o. then_with o (λ r. after r.0 r.1 r.2)) parse
        ∙ ap (λ addr. after addr (value_from 0 len) (bytes_text vs) s) va
        ∙ ap (λ len. after (eeprom_offset + a) len (bytes_text vs) s) vl
        ∙ ap (λ o. then_with (zoomed (λ t s. record s { target = t }) s o) gdb_send_reply) written

    replied : Server Target
    replied = record there {
      last_reply = some reply_ok;
      sent = s.sent ++ frame reply_ok (total reply_ok);
    }

    read_packet :
        gdb_read_memory comm (digits_text addr ++ (b',' ∷ digits_text len)) replied
        ≡ gdb_send_reply (bytes_text vs) replied
    unfolding gdb_read_memory there replied
    read_packet =
        let parse =
          (gdb_get_addr_len-digits addr len [] replied na nl (omega arith) (omega arith)).0 in
        let after : ℕ → ℕ → Exec (Server Target) Unit =
          λ addr len. on_target (memory_text comm addr len) >>= gdb_send_reply in
        ap (λ o. then_with o (λ r. after r.0 r.1)) parse
        ∙ ap (λ addr. after addr (value_from 0 len) replied) va
        ∙ ap (λ len. after (eeprom_offset + a) len replied) vl
        ∙ ap (λ o. then_with (zoomed (λ t s. record s { target = t }) replied o) gdb_send_reply)
            reread

    -- On a device with the EEPROM of OsEID.c, when gdb writes bytes to it and then reads the same addresses, the server answers OK and
    -- then the bytes that were written; they are in the EEPROM and nothing else of the target has
    -- changed. The addresses are below 4096, and the answer fits into the buffer.
    pub gdb_read_memory-gdb_write_memory :
        (gdb_write_memory comm
              (digits_text addr ++ (b',' ∷ (digits_text len ++ (b':' ∷ bytes_text vs))))
            >> gdb_read_memory comm (digits_text addr ++ (b',' ∷ digits_text len)))
          s
        ≡ ok (
          tt,
          record s {
            target = put_all ee_put a vs s.target;
            last_reply = some (bytes_text vs);
            sent =
                (s.sent ++ frame reply_ok (total reply_ok))
                ++ frame (bytes_text vs) (total (bytes_text vs));
          },
        )
    unfolding there replied
    gdb_read_memory-gdb_write_memory =
        let next =
          λ (t : Unit {0}). gdb_read_memory comm (digits_text addr ++ (b',' ∷ digits_text len)) in
        ap (λ o. then_with o next)
          (write_packet ∙ gdb_send_reply-frame reply_ok there (omega arith))
        ∙ read_packet
        ∙ gdb_send_reply-frame (bytes_text vs) replied (omega (arith, length_bytes vs))
