-- ===== src/Gdb/Numbers.antt =====
-- The hexadecimal numbers of the packets.
use oseid_simulavr.Base.{
  ℕ, ◌+◌, ◌*◌, ◌^◌, ◌<◌, ◌≤◌, ◌≡◌, ◌≢◌, refl, sym, ap, ◌∙◌, arith, true, false, List, [], ◌∷◌, ◌++◌,
  ◌==◌, ltb, if◌then◌else◌, ◌<<<◌,
}
use mathlib.Core.List.{append-nil}
use oseid_simulavr.Exec.{ok, Exec, pure, fault, then_with, ◌>>=◌}
use package.oseid_simulavr.Gdb.Text.{hex_digit}
use package.oseid_simulavr.Gdb.Frame.{hex2nib-hex_digit}
use package.oseid_simulavr.Gdb.Memory.{number_until, gdb_get_addr_len}

abbrev pub AreNibbles : List ℕ → Type 0
AreNibbles [] = Unit
AreNibbles (d ∷ ds) = (d < 16) × AreNibbles ds

-- The number that the digits stand for, after `num`.
abbrev pub value_from : ℕ → List ℕ → ℕ
value_from num [] = num
value_from num (d ∷ ds) = value_from (num * 16 + d) ds

abbrev pub digits_text : List ℕ → List ℕ
unfolding hex_digit
digits_text [] = []
digits_text (d ∷ ds) = hex_digit d ∷ digits_text ds

value_from_mono : (num : ℕ) (ds : List ℕ) → num ≤ value_from num ds
value_from_mono num [] = omega arith
value_from_mono num (d ∷ ds) = omega (arith, value_from_mono (num * 16 + d) ds)

-- A digit is not one of the characters that end a number.
digit_char :
    (d : ℕ)
    → d < 16
    → (hex_digit d ≢ 0) × (hex_digit d ≢ b',') × (hex_digit d ≢ b':') × (hex_digit d ≢ b'=')
unfolding hex_digit
digit_char d h = (ground arith, ground arith, ground arith, ground arith)

-- The characters that end a number in the packets.
abbrev pub EndsNumber : ℕ → Type 0
EndsNumber c = (d : ℕ) → d < 16 → hex_digit d ≢ c

module _ {T : Type 0} (s : T) (last : ℕ) (tail rest : List ℕ) (e : EndsNumber last)
    (stops : (num : ℕ) → number_until last num tail s ≡ ok ((num, rest), s)) where
  number_lem :
      (ds : List ℕ) (num : ℕ)
      → AreNibbles ds
      → value_from num ds < 2 ^ 31
      → number_until last num (digits_text ds ++ tail) s ≡ ok ((value_from num ds, rest), s)
  unfolding number_until digits_text
  number_lem [] num n v = stops num
  number_lem (d ∷ ds) num n v =
      let other : (hex_digit d == last) ≡ false = ground (arith, e d n.0) in
      let small : ltb num (2 ^ 27) ≡ true = ground (arith, value_from_mono (num * 16 + d) ds) in
      let next : ℕ → Exec T (ℕ × List ℕ) = λ nib.
        if ltb num (2 ^ 27)
        then number_until last ((num <<< 4) + nib) (digits_text ds ++ tail)
        else fault in
      rw other (
        ap (λ o. then_with o next) (hex2nib-hex_digit d s n.0)
        ∙ ap
            (λ t.
              (if t then number_until last ((num <<< 4) + d) (digits_text ds ++ tail) else fault) s)
            small
        ∙ number_lem ds (num * 16 + d) n.1 v)

char_ends :
    (last : ℕ) (rest : List ℕ) {T : Type 0} (s : T) (num : ℕ)
    → number_until last num (last ∷ rest) s ≡ ok ((num, rest), s)
unfolding number_until
char_ends last rest s num = ground arith

nul_ends : {T : Type 0} (s : T) (num : ℕ) → number_until 0 num [] s ≡ ok ((num, []), s)
unfolding number_until
nul_ends s num = refl

pair_lem :
    {T : Type 0} (addr len : List ℕ) (l_end : ℕ) (tail rest : List ℕ) (s : T)
    → AreNibbles addr
    → AreNibbles len
    → value_from 0 addr < 2 ^ 31
    → value_from 0 len < 2 ^ 31
    → EndsNumber l_end
    → ((num : ℕ) → number_until l_end num tail s ≡ ok ((num, rest), s))
    → gdb_get_addr_len b',' l_end (digits_text addr ++ (b',' ∷ (digits_text len ++ tail))) s
      ≡ ok ((value_from 0 addr, value_from 0 len, rest), s)
unfolding gdb_get_addr_len
pair_lem {T} addr len l_end tail rest s na nl va vl e stops =
    let after : ℕ → ℕ × List ℕ → Exec T (ℕ × ℕ × List ℕ) = λ addr r. pure (addr, r.0, r.1) in
    ap (λ o. then_with o (λ r. number_until l_end 0 r.1 >>= after r.0))
      (number_lem s b',' (b',' ∷ (digits_text len ++ tail)) (digits_text len ++ tail)
        (λ d h. (digit_char d h).1) (char_ends b',' (digits_text len ++ tail) s) addr 0 na va)
    ∙ ap (λ o. then_with o (after (value_from 0 addr)))
        (number_lem s l_end tail rest e stops len 0 nl vl)

-- An address and a length in hexadecimal, below 2 ^ 31 and with a comma between them, are read as
-- the numbers they stand for, at the end of a packet and before a colon and data, which are left.
pub gdb_get_addr_len-digits :
    {T : Type 0} (addr len text : List ℕ) (s : T)
    → AreNibbles addr
    → AreNibbles len
    → value_from 0 addr < 2 ^ 31
    → value_from 0 len < 2 ^ 31
    → (gdb_get_addr_len b',' 0 (digits_text addr ++ (b',' ∷ digits_text len)) s
        ≡ ok ((value_from 0 addr, value_from 0 len, []), s))
      × (gdb_get_addr_len b',' b':'
            (digits_text addr ++ (b',' ∷ (digits_text len ++ (b':' ∷ text))))
            s
          ≡ ok ((value_from 0 addr, value_from 0 len, text), s))
gdb_get_addr_len-digits addr len text s na nl va vl = (
  ap (λ l. gdb_get_addr_len b',' 0 (digits_text addr ++ (b',' ∷ l)) s)
        (sym (append-nil (digits_text len)))
      ∙ pair_lem addr len 0 [] [] s na nl va vl (λ d h. (digit_char d h).0) (nul_ends s),
  pair_lem addr len b':' (b':' ∷ text) text s na nl va vl (λ d h. (digit_char d h).2)
      (char_ends b':' text s),
)
