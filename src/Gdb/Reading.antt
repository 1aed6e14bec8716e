-- ===== src/Gdb/Reading.antt =====
-- How the server reads the text and the checksum of a packet.
use oseid_simulavr.Base.{
  ℕ, zero, suc, ◌+◌, ◌/◌, ◌%◌, ◌<◌, ◌≤◌, ◌≡◌, refl, subst, ap, ◌∙◌, arith, false, Option, some,
  List, [], ◌∷◌, ◌++◌, ◌==◌, if◌then◌else◌, bit_and, bit_or, ◌<<<◌, ◌>>>◌,
}
use oseid_simulavr.Exec.{ok, avr_error, Exec, pure, stop, then_with, ◌>>=◌}
use oseid_simulavr.Bits.{bit_and-0xf, bit_and-0xff, bit_or-join}
use package.oseid_simulavr.Gdb.{Server, ReadResult, byte, gdb_read_byte}
use package.oseid_simulavr.Gdb.Text.{max_buf, hex2nib, hex_digit, hex_byte, char_at, skip}
use package.oseid_simulavr.Gdb.Packet.{packet_loop, read_packet, read_nib}
use package.oseid_simulavr.Gdb.Query.{length}
use package.oseid_simulavr.Gdb.Frame.{hex2nib-hex_digit, total, Delivers, NoHash}

front :
    (input : ℕ → ReadResult) (n : ℕ) (text rest : List ℕ)
    → Delivers input n (text ++ (b'#' ∷ rest))
    → (input n ≡ byte (char_at (text ++ (b'#' ∷ rest))))
      × Delivers input (n + 1) (skip (text ++ (b'#' ∷ rest)))
front input n [] rest d = d
front input n (c ∷ text) rest d = d

deliver_rest :
    (input : ℕ → ReadResult) (n : ℕ) (text rest : List ℕ)
    → Delivers input n (text ++ rest)
    → Delivers input (n + length text) rest
deliver_rest input n [] rest d = subst (λ n. Delivers input n rest) (omega arith) d
deliver_rest input n (c ∷ text) rest d =
    subst (λ n. Delivers input n rest) (omega arith) (deliver_rest input (n + 1) text rest d.1)

sum_step : (a b c : ℕ) → a + b + c ≡ a + (b + c)
sum_step a b c = omega arith

module _ {S : Type 0} where
  abbrev pub took : Server S → ℕ → Server S
  took s n = record s { taken = s.taken + n }

  pub read_byte :
      (c : ℕ) (s : Server S) → s.input s.taken ≡ byte c → gdb_read_byte s ≡ ok (some c, took s 1)
  unfolding gdb_read_byte
  read_byte c s h = rw h refl

  packet_loop_lem :
      (text rest : List ℕ) (room sum : ℕ) (s : Server S)
      → length text ≤ room
      → NoHash text
      → Delivers s.input s.taken (skip (text ++ (b'#' ∷ rest)))
      → packet_loop room sum (some (char_at (text ++ (b'#' ∷ rest)))) s
        ≡ ok ((text, sum + total text), took s (length text))
  unfolding packet_loop
  packet_loop_lem [] rest zero sum s h n d = ground arith
  packet_loop_lem [] rest (suc room) sum s h n d = ground arith
  packet_loop_lem (c ∷ text) rest zero sum s h n d = absurd (omega arith)
  packet_loop_lem (c ∷ text) rest (suc room) sum s h n d =
      let ne : (c == b'#') ≡ false = ground (arith, n.0) in
      let moved : s.taken + 1 + length text ≡ s.taken + suc (length text) = omega arith in
      let (now, later) = front s.input s.taken text rest d in
      rw ne (
        ap (λ o. then_with o (λ next. packet_loop room (sum + c) next >>= λ r. pure (c ∷ r.0, r.1)))
          (read_byte (char_at (text ++ (b'#' ∷ rest))) s now)
        ∙ ap (λ o. then_with o (λ r. pure (c ∷ r.0, r.1)))
            (packet_loop_lem text rest room (sum + c) (took s 1) (omega arith) n.1 later)
        ∙ λ i. ok ((c ∷ text, sum_step sum c (total text) i), record s { taken = moved i }))

  checked : List ℕ → ℕ → ℕ → ℕ → Exec (Server S) (List ℕ)
  checked text sum high low =
      if bit_and sum 0xff == bit_or (high <<< 4) low then pure text else stop

  read_checksum : (ℕ → ℕ → Exec (Server S) (List ℕ)) → Exec (Server S) (List ℕ)
  read_checksum f = do
    c ← gdb_read_byte
    high ← read_nib c
    d ← gdb_read_byte
    low ← read_nib d
    f high low

  checksum_lem :
      (f : ℕ → ℕ → Exec (Server S) (List ℕ)) (k : ℕ) (s : Server S)
      → Delivers s.input s.taken (hex_byte k)
      → read_checksum f s ≡ f (k / 16 % 16) (k % 16) (took s 2)
  unfolding read_checksum hex_byte hex2nib
  checksum_lem f k s d =
      let high = bit_and (k >>> 4) 0xf in
      let low = bit_and k 0xf in
      let h : high ≡ k / 16 % 16 = bit_and-0xf (k / 16) in
      let l : low ≡ k % 16 = bit_and-0xf k in
      let last : ℕ → Option ℕ → Exec (Server S) (List ℕ) = λ high d. read_nib d >>= f high in
      ap (λ o. then_with o (λ c. read_nib c >>= λ high. gdb_read_byte >>= last high))
        (read_byte (hex_digit high) s d.0)
      ∙ ap (λ o. then_with o (λ high. gdb_read_byte >>= last high))
          (hex2nib-hex_digit high (took s 1) (omega arith))
      ∙ ap (λ o. then_with o (last high)) (read_byte (hex_digit low) (took s 1) d.1.0)
      ∙ ap (λ o. then_with o (f high)) (hex2nib-hex_digit low (took (took s 1) 1) (omega arith))
      ∙ ap (λ (t : ℕ). f high low (record s { taken = t })) (omega arith)
      ∙ ap (λ (t : ℕ). f t low (took s 2)) h
      ∙ ap (λ (t : ℕ). f (k / 16 % 16) t (took s 2)) l

  checked_lem :
      (text : List ℕ) (k : ℕ) (s : Server S)
      → k < 256
      → checked text (0 + total text) (k / 16 % 16) (k % 16) s
        ≡ (if total text % 256 == k then ok (text, s) else avr_error)
  unfolding checked
  checked_lem text k s h =
      let sum : bit_and (0 + total text) 0xff ≡ total text % 256 =
        bit_and-0xff (0 + total text) ∙ omega arith in
      let sent : bit_or ((k / 16 % 16) <<< 4) (k % 16) ≡ k =
        omega (arith, bit_or-join 4 (k / 16 % 16) (k % 16) (omega arith)) in
      ground (arith, sum, sent)

  pub read_packet_lem :
      (text : List ℕ) (k : ℕ) (s : Server S)
      → length text ≤ 400
      → NoHash text
      → k < 256
      → Delivers s.input s.taken (text ++ (b'#' ∷ hex_byte k))
      → read_packet s
        ≡ (if total text % 256 == k then ok (text, took s (length text + 3)) else avr_error)
  unfolding read_packet checked read_checksum hex2nib
  read_packet_lem text k s h n hk d =
      let first = front s.input s.taken text (hex_byte k) d in
      let s2 = took (took s 1) (length text) in
      let moved : s.taken + length text + 1 ≡ s.taken + 1 + length text = omega arith in
      let count : s.taken + 1 + length text + 2 ≡ s.taken + (length text + 3) = omega arith in
      let left : Delivers s.input s2.taken (hex_byte k) =
        subst (λ n. Delivers s.input n (hex_byte k)) moved
          (deliver_rest s.input s.taken text (b'#' ∷ hex_byte k) d).1 in
      ap (λ o. then_with o (λ c. packet_loop max_buf 0 c >>= λ r. read_checksum (checked r.0 r.1)))
        (read_byte (char_at (text ++ (b'#' ∷ hex_byte k))) s first.0)
      ∙ ap (λ o. then_with o (λ r. read_checksum (checked r.0 r.1)))
          (packet_loop_lem text (hex_byte k) 400 0 (took s 1) h n first.1)
      ∙ checksum_lem (checked text (0 + total text)) k s2 left
      ∙ checked_lem text k (took s2 2) hk
      ∙ ap
          (λ (t : ℕ).
            if total text % 256 == k then ok (text, record s { taken = t }) else avr_error)
          count
