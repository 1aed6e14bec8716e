-- ===== src/Storage/Words.antt =====
-- A word that is written to the flash is read back.
use oseid_simulavr.Base.{
  ℕ, ◌+◌, ◌-◌, ◌*◌, ◌/◌, ◌%◌, ◌^◌, ◌<◌, ◌≤◌, ◌≡◌, arith, ap, ◌∙◌, fun_ext, pos, u8, u16, ◌<<<◌,
  ◌>>>◌, bit_and, bit_or, update,
}
use oseid_simulavr.Exec.{Outcome, ok, then_with, ◌>>◌}
use oseid_simulavr.Bits.{bit_or-join, bit_and-0xff}
use package.oseid_simulavr.Storage.{Storage, flash_read, flash_write}

-- Both bytes of word `addr` are in the array.
abbrev pub HasWord : ℕ → Storage → Type 0
HasWord addr s = (s.base ≤ addr + addr) × (addr + addr - s.base + 1 < s.size)

-- The array after the word at `addr` is `v`, its high byte first.
abbrev pub with_word : ℕ → ℕ → Storage → Storage
with_word addr v s =
    let i = addr + addr - s.base in
    record s { bytes = update (update s.bytes i (v / 256)) (i + 1) (v % 256) }

pub flash_write-run :
    (addr v : ℕ) (s : Storage)
    → HasWord addr s
    → v < 2 ^ 16
    → flash_write (pos addr) v s ≡ ok (tt, with_word addr v s)
unfolding flash_write
flash_write-run addr v s h hv =
    let hi : u8 (bit_and (v >>> 8) 0xff) ≡ v / 256 = omega (arith, bit_and-0xff (v / 2 ^ 8)) in
    let lo : u8 (bit_and v 0xff) ≡ v % 256 = omega (arith, bit_and-0xff v) in
    let i = addr + addr - s.base in
    let after : ℕ → ℕ → Outcome (Unit × Storage) =
      λ h l. ok (tt, record s { bytes = update (update s.bytes i h) (i + 1) l }) in
    let run : flash_write (pos addr) v s
        ≡ after (u8 (bit_and (v >>> 8) 0xff)) (u8 (bit_and v 0xff)) =
      ground arith in
    run ∙ ap (λ h. after h (u8 (bit_and v 0xff))) hi ∙ ap (after (v / 256)) lo

pub flash_read-run :
    (addr : ℕ) (s : Storage)
    → HasWord addr s
    → flash_read (pos addr) s
      ≡ ok (
        u16 (bit_or (s.bytes (addr + addr - s.base) <<< 8) (s.bytes (addr + addr - s.base + 1))),
        s,
      )
unfolding flash_read
flash_read-run addr s h = ground arith

-- A word of 16 bits that is written to the flash at an address whose two bytes are in the array is
-- read back, and no other byte has changed.
pub flash_read-flash_write :
    (addr v : ℕ) (s : Storage)
    → HasWord addr s
    → v < 2 ^ 16
    → (flash_write (pos addr) v >> flash_read (pos addr)) s ≡ ok (v, with_word addr v s)
unfolding flash_write flash_read
flash_read-flash_write addr v s h hv =
    let word : u16 (bit_or ((v / 256) <<< 8) (v % 256)) ≡ v =
      omega (arith, bit_or-join 8 (v / 256) (v % 256) (omega arith)) in
    let i = addr + addr - s.base in
    let s' = with_word addr v s in
    let high : s'.bytes i ≡ v / 256 = ground arith in
    let low : s'.bytes (i + 1) ≡ v % 256 = ground arith in
    ap (λ o. then_with o (λ (t : Unit). flash_read (pos addr))) (flash_write-run addr v s h hv)
    ∙ flash_read-run addr s' h
    ∙ ap (λ h. ok (u16 (bit_or (h <<< 8) (s'.bytes (i + 1))), s')) high
    ∙ ap (λ l. ok (u16 (bit_or ((v / 256) <<< 8) l), s')) low
    ∙ ap (λ w. ok (w, s')) word

abbrev pub word_at : ℕ → Storage → ℕ
word_at addr s = s.bytes (addr + addr - s.base) * 256 + s.bytes (addr + addr - s.base + 1)

abbrev pub IsByteStorage : Storage → Type 0
IsByteStorage s = (i : ℕ) → s.bytes i < 256

pub flash_read-word_at :
    (addr : ℕ) (s : Storage)
    → HasWord addr s
    → IsByteStorage s
    → flash_read (pos addr) s ≡ ok (word_at addr s, s)
flash_read-word_at addr s h hb =
    let i = addr + addr - s.base in
    let word : u16 (bit_or (s.bytes i <<< 8) (s.bytes (i + 1))) ≡ word_at addr s =
      omega (arith, bit_or-join 8 (s.bytes i) (s.bytes (i + 1)) (hb (i + 1)), hb i, hb (i + 1)) in
    flash_read-run addr s h ∙ ap (λ w. ok (w, s)) word

-- To write back the word that was there undoes a write.
pub with_word-word_at :
    (addr v : ℕ) (s : Storage)
    → IsByteStorage s
    → with_word addr (word_at addr s) (with_word addr v s) ≡ s
with_word-word_at addr v s hb =
    let i = addr + addr - s.base in
    let high : word_at addr s / 256 ≡ s.bytes i = omega (arith, hb i, hb (i + 1)) in
    let low : word_at addr s % 256 ≡ s.bytes (i + 1) = omega (arith, hb i, hb (i + 1)) in
    ap (λ (f : ℕ → ℕ). record s { bytes = f }) (fun_ext (λ j. ground (arith, high, low)))
