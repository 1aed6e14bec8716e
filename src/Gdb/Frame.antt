-- ===== src/Gdb/Frame.antt =====
-- What the server sends for a reply, and the hexadecimal digits of a byte.
use oseid_simulavr.Base.{
  some, ℕ, ◌+◌, ◌-◌, ◌/◌, ◌%◌, ◌<◌, ◌≡◌, ◌≢◌, refl, ap, ◌∙◌, arith, List, [], ◌∷◌, ◌++◌, bit_and,
  ◌<<<◌, ◌>>>◌, u8,
}
use oseid_simulavr.Exec.{ok, pure, then_with, ◌>>=◌}
use oseid_simulavr.Bits.{bit_and-0xf}
use package.oseid_simulavr.Gdb.{Server, ReadResult, byte, gdb_write}
use package.oseid_simulavr.Gdb.Text.{
  max_buf, hex2nib, hex_digit, hex_byte, take_byte, reply_loop, gdb_send_reply,
}
use package.oseid_simulavr.Gdb.Query.{length}

pub hex2nib-hex_digit : {T : Type 0} (n : ℕ) (s : T) → n < 16 → hex2nib (hex_digit n) s ≡ ok (n, s)
unfolding hex2nib hex_digit
hex2nib-hex_digit n s h = ground arith

pub take_byte-hex_byte :
    {T : Type 0} (v : ℕ) (rest : List ℕ) (s : T)
    → take_byte (hex_byte v ++ rest) s ≡ ok ((v % 256, rest), s)
unfolding take_byte hex_byte
take_byte-hex_byte v rest s =
    let high = bit_and (v >>> 4) 0xf in
    let low = bit_and v 0xf in
    let h : high ≡ v / 16 % 16 = bit_and-0xf (v / 16) in
    let l : low ≡ v % 16 = bit_and-0xf v in
    ap
      (λ o.
        then_with o (λ high. hex2nib (hex_digit low) >>= λ low. pure (u8 (high <<< 4) + low, rest)))
      (hex2nib-hex_digit high s (omega arith))
    ∙ ap (λ o. then_with o (λ low. pure (u8 (high <<< 4) + low, rest)))
        (hex2nib-hex_digit low s (omega arith))
    ∙ ap (λ (t : ℕ). ok ((t, rest), s)) (omega arith)

-- The sum of the characters.
abbrev pub total : List ℕ → ℕ
total [] = 0
total (c ∷ text) = c + total text

abbrev pub frame : List ℕ → ℕ → List ℕ
frame text cksum = b'$' ∷ (text ++ (b'#' ∷ hex_byte cksum))

-- The socket gives these bytes, from call `n` of `read` on.
abbrev pub Delivers : (ℕ → ReadResult) → ℕ → List ℕ → Type 0
Delivers input n [] = Unit
Delivers input n (c ∷ rest) = (input n ≡ byte c) × Delivers input (n + 1) rest

abbrev pub NoHash : List ℕ → Type 0
NoHash [] = Unit
NoHash (c ∷ text) = (c ≢ b'#') × NoHash text

module _ {S : Type 0} where
  reply_loop_lem :
      (text : List ℕ) (bytes cksum : ℕ) (s : Server S)
      → bytes + length text < max_buf - 3
      → reply_loop bytes cksum text s ≡ ok (cksum + total text, s)
  unfolding reply_loop
  reply_loop_lem [] bytes cksum s h = ground arith
  reply_loop_lem (c ∷ text) bytes cksum s h =
      ground (arith, reply_loop_lem text (bytes + 1) (cksum + c) s)

  pub gdb_send_reply-frame :
      (text : List ℕ) (s : Server S)
      → length text < 396
      → gdb_send_reply text s
        ≡ ok (tt, record s { last_reply = some text; sent = s.sent ++ frame text (total text) })
  unfolding gdb_send_reply gdb_write hex_byte
  gdb_send_reply-frame [] s h = refl
  gdb_send_reply-frame (c ∷ text) s h =
      ap (λ o. then_with o (λ cksum. gdb_write (b'$' ∷ ((c ∷ text) ++ (b'#' ∷ hex_byte cksum)))))
        (reply_loop_lem (c ∷ text) 1 0 (record s { last_reply = some (c ∷ text) }) (omega arith))
      ∙ ap
          (λ (t : ℕ).
            ok (tt, record s { last_reply = some (c ∷ text); sent = s.sent ++ frame (c ∷ text) t }))
          (omega arith)

-- The digits show the low byte.
pub hex_byte_low : (v : ℕ) → hex_byte v ≡ hex_byte (v % 256)
unfolding hex_byte
hex_byte_low v =
    let high : bit_and (v >>> 4) 0xf ≡ bit_and ((v % 256) >>> 4) 0xf =
      omega (arith, bit_and-0xf (v / 16), bit_and-0xf (v % 256 / 16)) in
    let low : bit_and v 0xf ≡ bit_and (v % 256) 0xf =
      omega (arith, bit_and-0xf v, bit_and-0xf (v % 256)) in
    λ i. hex_digit (high i) ∷ hex_digit (low i) ∷ []
