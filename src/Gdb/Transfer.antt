-- ===== src/Gdb/Transfer.antt =====
-- The registers that the server reads for gdb, written back.
use oseid_simulavr.Base.{
  ℕ, zero, suc, ◌+◌, ◌/◌, ◌%◌, ◌^◌, ◌<◌, ◌≤◌, ◌≡◌, refl, ap, ◌∙◌, arith, ℤ, pos, List, [], ◌++◌,
  ◌<<<◌, ◌>>>◌, u32, u32_to_int,
}
use oseid_simulavr.Exec.{Outcome, ok, Exec, pure, then_with, ◌>>=◌, ◌>>◌}
use package.oseid_simulavr.Gdb.{GdbComm}
use package.oseid_simulavr.Gdb.Text.{hex_byte, take_byte}
use package.oseid_simulavr.Gdb.Frame.{take_byte-hex_byte}
use package.oseid_simulavr.Gdb.Registers.{
  spl_addr, sph_addr, hex_word, byte_address, take_word, read_regs_loop, registers_text,
  write_regs_loop, write_registers,
}

-- A byte that can be read, and written back, with no effect.
pub record IsCell {S : Type 0} (read : Exec S ℕ) (write : ℕ → Exec S Unit) (v : ℕ) (s : S)
    : Type 0 where
  pub reads : read s ≡ ok (v, s)
  pub writes : write v s ≡ ok (tt, s)
  pub is_byte : v < 256

-- The laws of the target in a state with these registers.
pub record HasRegisters {S : Type 0} (comm : GdbComm S) (reg : ℕ → ℕ) (sreg spl sph pc : ℕ) (s : S)
    : Type 0 where
  pub regs : (i : ℕ) → i < 32 → IsCell (comm.read_reg i) (comm.write_reg i) (reg i) s
  pub status : IsCell comm.read_sreg comm.write_sreg sreg s
  pub low : IsCell (comm.read_sram spl_addr) (comm.write_sram spl_addr) spl s
  pub high : IsCell (comm.read_sram sph_addr) (comm.write_sram sph_addr) sph s
  pub reads_pc : comm.read_pc s ≡ ok (pos pc, s)
  pub writes_pc : comm.write_pc (pos pc) s ≡ ok (tt, s)
  pub pc_range : pc < 2 ^ 31

take_cell :
    {T : Type 0} (v : ℕ) (rest : List ℕ) (s : T)
    → v < 256
    → take_byte (hex_byte v ++ rest) s ≡ ok ((v, rest), s)
take_cell v rest s h = take_byte-hex_byte v rest s ∙ ap (λ (t : ℕ). ok ((t, rest), s)) (omega arith)

take_word-hex_word :
    {T : Type 0} (v : ℕ) (s : T) → v < 2 ^ 32 → take_word (hex_word v) s ≡ ok ((v, []), s)
unfolding take_word hex_word hex_byte
take_word-hex_word v s h =
    let b1 = v >>> 8 in
    let b2 = v >>> 16 in
    let b3 = v >>> 24 in
    let value : u32 (v % 256 + ((b1 % 256) <<< 8) + ((b2 % 256) <<< 16) + ((b3 % 256) <<< 24)) ≡ v =
      omega arith in
    let after : (ℕ × List ℕ) → (ℕ × List ℕ) → (ℕ × List ℕ) → (ℕ × List ℕ) → Exec _ (ℕ × List ℕ) =
      λ r0 r1 r2 r3. pure (u32 (r0.0 + (r1.0 <<< 8) + (r2.0 <<< 16) + (r3.0 <<< 24)), r3.1) in
    let p1 = hex_byte b1 ++ (hex_byte b2 ++ hex_byte b3) in
    let p2 = hex_byte b2 ++ hex_byte b3 in
    ap
      (λ o.
        then_with o (λ r0.
          take_byte r0.1 >>= λ r1. take_byte r1.1 >>= λ r2. take_byte r2.1 >>= after r0 r1 r2))
      (take_byte-hex_byte v p1 s)
    ∙ ap
        (λ o.
          then_with o (λ r1. take_byte r1.1 >>= λ r2. take_byte r2.1 >>= after (v % 256, p1) r1 r2))
        (take_byte-hex_byte b1 p2 s)
    ∙ ap (λ o. then_with o (λ r2. take_byte r2.1 >>= after (v % 256, p1) (b1 % 256, p2) r2))
        (take_byte-hex_byte b2 (hex_byte b3) s)
    ∙ ap (λ o. then_with o (after (v % 256, p1) (b1 % 256, p2) (b2 % 256, hex_byte b3)))
        (take_byte-hex_byte b3 [] s)
    ∙ ap (λ (t : ℕ). ok ((t, []), s)) value

regs_text : (ℕ → ℕ) → ℕ → ℕ → List ℕ
regs_text reg i zero = []
regs_text reg i (suc left) = hex_byte (reg i) ++ regs_text reg (i + 1) left

module _ {S A B : Type 0} (s : S) where
  then_run :
      {a : A} {r : Outcome (B × S)} (m : Exec S A) (k : A → Exec S B)
      → m s ≡ ok (a, s)
      → k a s ≡ r
      → (m >>= k) s ≡ r
  then_run m k e f = ap (λ o. then_with o k) e ∙ f

module _ {S : Type 0} (comm : GdbComm S) (reg : ℕ → ℕ) (s : S)
    (cells : (i : ℕ) → i < 32 → IsCell (comm.read_reg i) (comm.write_reg i) (reg i) s) where
  read_loop_lem :
      (i left : ℕ) → i + left ≤ 32 → read_regs_loop comm i left s ≡ ok (regs_text reg i left, s)
  unfolding read_regs_loop regs_text
  read_loop_lem i zero h = refl
  read_loop_lem i (suc left) h =
      ap
        (λ o.
          then_with o
            (λ val. read_regs_loop comm (i + 1) left >>= λ rest. pure (hex_byte val ++ rest)))
        (cells i (omega arith)).reads
      ∙ ap (λ o. then_with o (λ rest. pure (hex_byte (reg i) ++ rest)))
          (read_loop_lem (i + 1) left (omega arith))

  write_loop_lem :
      (i left : ℕ) (rest : List ℕ)
      → i + left ≤ 32
      → write_regs_loop comm i left (regs_text reg i left ++ rest) s ≡ ok (rest, s)
  unfolding write_regs_loop hex_byte regs_text
  write_loop_lem i zero rest h = refl
  write_loop_lem i (suc left) rest h =
      let cell = cells i (omega arith) in
      ap (λ o. then_with o (λ r. comm.write_reg i r.0 >> write_regs_loop comm (i + 1) left r.1))
        (take_cell (reg i) (regs_text reg (i + 1) left ++ rest) s cell.is_byte)
      ∙ ap
          (λ o.
            then_with o (λ (t : Unit).
              write_regs_loop comm (i + 1) left (regs_text reg (i + 1) left ++ rest)))
          cell.writes
      ∙ write_loop_lem (i + 1) left rest (omega arith)

module _ {S : Type 0} (comm : GdbComm S) (reg : ℕ → ℕ) (sreg spl sph pc : ℕ) (s : S)
    (h : HasRegisters comm reg sreg spl sph pc s) where
  abbrev last_text : List ℕ
  last_text = hex_word (byte_address (pos pc))

  abbrev text_of : List ℕ → ℕ → ℕ → ℕ → ℤ → List ℕ
  text_of regs sreg spl sph pc =
      regs ++ (hex_byte sreg ++ (hex_byte spl ++ (hex_byte sph ++ hex_word (byte_address pc))))

  text_lem : registers_text comm s ≡ ok (text_of (regs_text reg 0 32) sreg spl sph (pos pc), s)
  unfolding registers_text
  text_lem =
      let regs = regs_text reg 0 32 in
      let after_sph : ℕ → ℕ → ℕ → Exec S (List ℕ) =
        λ sreg spl sph. comm.read_pc >>= λ pc. pure (text_of regs sreg spl sph pc) in
      let after_spl : ℕ → ℕ → Exec S (List ℕ) =
        λ sreg spl. comm.read_sram sph_addr >>= after_sph sreg spl in
      let after_sreg : ℕ → Exec S (List ℕ) = λ sreg. comm.read_sram spl_addr >>= after_spl sreg in
      let start : List ℕ → Exec S (List ℕ) = λ regs. comm.read_sreg >>= λ sreg.
      comm.read_sram spl_addr >>= λ spl. comm.read_sram sph_addr >>= λ sph.
      comm.read_pc >>= λ pc. pure (text_of regs sreg spl sph pc) in
      then_run s (read_regs_loop comm 0 32) start
        (read_loop_lem comm reg s h.regs 0 32 (omega arith))
        (then_run s comm.read_sreg after_sreg h.status.reads (
          then_run s (comm.read_sram spl_addr) (after_spl sreg) h.low.reads (
            then_run s (comm.read_sram sph_addr) (after_sph sreg spl) h.high.reads (
              then_run s comm.read_pc (λ pc. pure (text_of regs sreg spl sph pc)) h.reads_pc
                refl))))

  pc_lem : u32_to_int (byte_address (pos pc) / 2) ≡ pos pc
  pc_lem = ground (arith, h.pc_range)

  word_lem : byte_address (pos pc) < 2 ^ 32
  word_lem = omega arith

  -- Registers that the target reads and takes back without effect, with a program counter below
  -- 2 ^ 31: when gdb reads all registers and writes the same text back, the target is as it was, and
  -- no digit of the text is refused.
  pub write_registers-registers_text : (registers_text comm >>= write_registers comm) s ≡ ok (tt, s)
  unfolding write_registers
  write_registers-registers_text =
      let rest2 = hex_byte sph ++ last_text in
      let rest1 = hex_byte spl ++ rest2 in
      let rest0 = hex_byte sreg ++ rest1 in
      let set_pc : ℕ × List ℕ → Exec S Unit = λ r. comm.write_pc (u32_to_int (r.0 / 2)) in
      let set_sph : ℕ × List ℕ → Exec S Unit =
        λ r. comm.write_sram sph_addr r.0 >> (take_word r.1 >>= set_pc) in
      let set_spl : ℕ × List ℕ → Exec S Unit =
        λ r. comm.write_sram spl_addr r.0 >> (take_byte r.1 >>= set_sph) in
      let set_sreg : ℕ × List ℕ → Exec S Unit =
        λ r. comm.write_sreg r.0 >> (take_byte r.1 >>= set_spl) in
      then_run s (registers_text comm) (write_registers comm) text_lem (
        then_run s (write_regs_loop comm 0 32 (regs_text reg 0 32 ++ rest0))
          (λ p. take_byte p >>= set_sreg)
          (write_loop_lem comm reg s h.regs 0 32 rest0 (omega arith))
          (then_run s (take_byte rest0) set_sreg (take_cell sreg rest1 s h.status.is_byte) (
            then_run s (comm.write_sreg sreg) (λ t. take_byte rest1 >>= set_spl) h.status.writes
              (then_run s (take_byte rest1) set_spl (take_cell spl rest2 s h.low.is_byte) (
                then_run s (comm.write_sram spl_addr spl) (λ t. take_byte rest2 >>= set_sph)
                  h.low.writes
                  (then_run s (take_byte rest2) set_sph (take_cell sph last_text s h.high.is_byte) (
                    then_run s (comm.write_sram sph_addr sph) (λ t. take_word last_text >>= set_pc)
                      h.high.writes
                      (then_run s (take_word last_text) set_pc
                        (take_word-hex_word (byte_address (pos pc)) s word_lem)
                        (ap (λ pc. comm.write_pc pc s) pc_lem ∙ h.writes_pc)))))))))
