-- ===== src/Core/Stack/RoundTrip.antt =====
-- What is pushed on the stack in memory is popped again.
use oseid_simulavr.Base.{
  ℕ, ◌+◌, ◌-◌, ◌*◌, ◌/◌, ◌%◌, ◌^◌, ◌<◌, ◌≤◌, ◌≡◌, ap, ◌∙◌, arith, ℤ, List, pos, u8, u16, u32,
  bit_and, bit_or, ◌<<<◌, ◌>>>◌,
}
use oseid_simulavr.Exec.{Outcome, ok, ◌>>◌, then_with}
use oseid_simulavr.Bits.{bit_and-0xff, bit_or-join}
use oseid_simulavr.Core.State.{AvrCore, mem, IntVect}
use oseid_simulavr.Core.Memory.{mem_read, mem_write}
use oseid_simulavr.Core.Memory.Ram.{IsRamOf, with_ram, ram_at, mem_write-run, mem_read-run}
use package.oseid_simulavr.Core.Stack.{
  stack_push, stack_pop, mem_push_loop, mem_pop_loop, sp_set, push_to, pop_from,
}

abbrev pub sp_of : AvrCore → ℕ
sp_of c = c.sp.sph * 256 + c.sp.spl

abbrev pub with_sp : ℕ → AvrCore → AvrCore
with_sp sp c = record c { sp = record c.sp { spl = sp % 256; sph = sp / 256 } }

-- The stack is in memory, its pointer is a word and has room for two bytes at addresses of SRAM.
pub record HasRoom (c : AvrCore) : Type 0 where
  pub in_memory : c.stack ≡ mem
  pub spl_byte : c.sp.spl < 256
  pub sph_byte : c.sp.sph < 256
  pub two : 2 ≤ sp_of c
  pub top : IsRamOf c (sp_of c)
  pub next : IsRamOf c (sp_of c - 1)

-- The core after the push of the word `v`.
abbrev pub pushed : ℕ → AvrCore → AvrCore
pushed v c =
    with_sp (sp_of c - 2) (with_ram (sp_of c - 1) (v / 256) (with_ram (sp_of c) (v % 256) c))

sp_set-run : (sp : ℕ) (c : AvrCore) → sp < 2 ^ 16 → sp_set sp c ≡ ok (tt, with_sp sp c)
unfolding sp_set
sp_set-run sp c h =
    let low : u8 (bit_and sp 0xff) ≡ sp % 256 = omega (arith, bit_and-0xff sp) in
    let high : u8 (sp >>> 8) ≡ sp / 256 = omega arith in
    let after : ℕ → ℕ → Outcome (Unit {0} × AvrCore) =
      λ l h. ok (tt, record c { sp = record c.sp { spl = l; sph = h } }) in
    ap (λ l. after l (u8 (sp >>> 8))) low ∙ ap (after (sp % 256)) high

write_byte :
    (a b v : ℕ) (c : AvrCore)
    → IsRamOf c a
    → v ≡ b
    → b < 256
    → mem_write (pos a) v c ≡ ok (tt, with_ram a b c)
write_byte a b v c h e hb =
    let byte : u8 v ≡ b = omega arith in
    mem_write-run a v c h ∙ ap (λ b. ok (tt, with_ram a b c)) byte

mem_push_loop-run :
    (sp v : ℕ) (c : AvrCore)
    → 2 ≤ sp
    → sp < 2 ^ 16
    → v < 2 ^ 16
    → IsRamOf c sp
    → IsRamOf c (sp - 1)
    → mem_push_loop 2 sp v c ≡ ok (sp - 2, with_ram (sp - 1) (v / 256) (with_ram sp (v % 256) c))
unfolding mem_push_loop
mem_push_loop-run sp v c h2 hs hv h h' =
    let low : bit_and v 0xff ≡ v % 256 = bit_and-0xff v in
    let high : bit_and (v >>> 8) 0xff ≡ v / 256 = omega (arith, bit_and-0xff (v / 2 ^ 8)) in
    let first : u16 (sp + 2 ^ 16 - 1) ≡ sp - 1 = omega arith in
    let second : u16 (sp - 1 + 2 ^ 16 - 1) ≡ sp - 2 = omega arith in
    let c1 = with_ram sp (v % 256) c in
    let c2 = with_ram (sp - 1) (v / 256) c1 in
    let last : ℕ → AvrCore → Outcome (ℕ × AvrCore) = λ a c.
      then_with (mem_write (pos a) (bit_and (v >>> 8) 0xff) c)
        (λ (t : Unit) c. ok (u16 (a + 2 ^ 16 - 1), c)) in
    ap (λ o. then_with o (λ (t : Unit) c. last (u16 (sp + 2 ^ 16 - 1)) c))
      (write_byte sp (v % 256) (bit_and v 0xff) c h low (omega arith))
    ∙ ap (λ a. last a c1) first
    ∙ ap (λ o. then_with o (λ (t : Unit) c. ok (u16 (sp - 1 + 2 ^ 16 - 1), c)))
        (write_byte (sp - 1) (v / 256) (bit_and (v >>> 8) 0xff) c1 (record h' {}) high
          (omega arith))
    ∙ ap (λ sp. ok (sp, c2)) second

joined :
    (b b' : ℕ)
    → b < 256
    → b' < 256
    → u32 (bit_or (u32 (bit_or 0 (b <<< 8))) (b' <<< 0)) ≡ b * 256 + b'
joined b b' h h' =
    let high : u32 (bit_or 0 (b <<< 8)) ≡ b * 2 ^ 8 =
      omega (arith, bit_or-join 16 0 (b <<< 8) (omega arith)) in
    let low : b' <<< 0 ≡ b' = omega arith in
    ap (λ (t : ℕ). u32 (bit_or t (b' <<< 0))) high
    ∙ ap (λ (t : ℕ). u32 (bit_or (b * 2 ^ 8) t)) low
    ∙ omega (arith, bit_or-join 8 b b' h')

-- The loop of the pop from sp - 2 of the two bytes at sp - 1 and sp.
mem_pop_loop-run :
    (sp : ℕ) (c : AvrCore)
    → 2 ≤ sp
    → sp < 2 ^ 16
    → IsRamOf c sp
    → IsRamOf c (sp - 1)
    → mem_pop_loop 2 (sp - 2) 0 c ≡ ok ((sp, u8 (ram_at (sp - 1) c) * 256 + u8 (ram_at sp c)), c)
unfolding mem_pop_loop
mem_pop_loop-run sp c h2 hs h h' =
    let b = u8 (ram_at (sp - 1) c) in
    let b' = u8 (ram_at sp c) in
    let first : u16 (sp - 2 + 1) ≡ sp - 1 = omega arith in
    let second : u16 (sp - 1 + 1) ≡ sp = omega arith in
    let last : ℕ → ℕ → ℕ → ℕ × ℕ =
      λ a b b'. (a, u32 (bit_or (u32 (bit_or 0 (b <<< 8))) (b' <<< 0))) in
    let continue : ℕ → Outcome (ℕ × AvrCore) → Outcome ((ℕ × ℕ) × AvrCore) = λ a o.
      then_with o (λ b c.
        then_with (mem_read (pos (u16 (a + 1))) c) (λ b' c. ok (last (u16 (a + 1)) b b', c))) in
    let join : u32 (bit_or (u32 (bit_or 0 (b <<< 8))) (b' <<< 0)) ≡ b * 256 + b' =
      joined b b' (omega arith) (omega arith) in
    ap (λ a. continue a (mem_read (pos a) c)) first
    ∙ ap (continue (sp - 1)) (mem_read-run (sp - 1) c h')
    ∙ ap (λ a. then_with (mem_read (pos a) c) (λ b' c. ok (last a b b', c))) second
    ∙ ap (λ o. then_with o (λ b' c. ok (last sp b b', c))) (mem_read-run sp c h)
    ∙ ap (λ v. ok ((sp, v), c)) join

sp_get-run :
    (c : AvrCore) → c.sp.spl < 256 → c.sp.sph < 256 → u16 (c.sp.sph <<< 8 + c.sp.spl) ≡ sp_of c
sp_get-run c hl hh = omega arith

pub stack_push-run :
    (v : ℕ) (c : AvrCore) → HasRoom c → v < 2 ^ 16 → stack_push 2 v c ≡ ok (tt, pushed v c)
unfolding stack_push
stack_push-run v c h hv =
    let sp = sp_of c in
    let word : u32 v ≡ v = omega arith in
    let after : ℕ → Outcome (ℕ × AvrCore) → Outcome (Unit {0} × AvrCore) =
      λ sp o. then_with o (λ sp c. sp_set sp c) in
    ap (λ st. push_to 2 (u32 v) st c) h.in_memory
    ∙ ap (λ v. push_to 2 v mem c) word
    ∙ ap (λ sp. then_with (mem_push_loop 2 sp v c) sp_set) (sp_get-run c h.spl_byte h.sph_byte)
    ∙ ap (λ o. then_with o sp_set)
        (mem_push_loop-run sp v c h.two (omega (arith, h.spl_byte, h.sph_byte)) hv h.top h.next)
    ∙ sp_set-run (sp - 2) (with_ram (sp - 1) (v / 256) (with_ram sp (v % 256) c))
        (omega (arith, h.spl_byte, h.sph_byte))

pub stack_pop-run :
    (sp : ℕ) (c : AvrCore)
    → c.stack ≡ mem
    → c.sp.spl < 256
    → c.sp.sph < 256
    → sp_of c ≡ sp - 2
    → 2 ≤ sp
    → sp < 2 ^ 16
    → IsRamOf c sp
    → IsRamOf c (sp - 1)
    → stack_pop 2 c ≡ ok (u8 (ram_at (sp - 1) c) * 256 + u8 (ram_at sp c), with_sp sp c)
unfolding stack_pop
stack_pop-run sp c hm hl hh e h2 hs h h' =
    let v = u8 (ram_at (sp - 1) c) * 256 + u8 (ram_at sp c) in
    let after : Outcome ((ℕ × ℕ) × AvrCore) → Outcome (ℕ × AvrCore) =
      λ o. then_with o (λ r c. then_with (sp_set r.0 c) (λ (t : Unit {0}) c. ok (r.1, c))) in
    ap (λ st. pop_from 2 st c) hm
    ∙ ap (λ sp. after (mem_pop_loop 2 sp 0 c)) (sp_get-run c hl hh ∙ e)
    ∙ ap after (mem_pop_loop-run sp c h2 hs h h')
    ∙ ap (λ o. then_with o (λ (t : Unit {0}) c. ok (v, c))) (sp_set-run sp c hs)

-- The core with another counter, status byte, clock count and list of interrupts.
abbrev pub elsewhere : ℤ → ℕ → ℕ → List IntVect → AvrCore → AvrCore
elsewhere pc sreg cks irqs c = record c { pc = pc; sreg = sreg; inst_cks = cks; irq_pending = irqs }

-- The core whose SRAM holds the word `v` where a push puts it.
abbrev pub with_return : ℕ → AvrCore → AvrCore
with_return v c = with_ram (sp_of c - 1) (v / 256) (with_ram (sp_of c) (v % 256) c)

pub stack_pop-pushed :
    (v : ℕ) (c : AvrCore) (pc : ℤ) (sreg cks : ℕ) (irqs : List IntVect)
    → HasRoom c
    → v < 2 ^ 16
    → stack_pop 2 (elsewhere pc sreg cks irqs (pushed v c))
      ≡ ok (v, elsewhere pc sreg cks irqs (with_return v c))
stack_pop-pushed v c pc sreg cks irqs h hv =
    let sp = sp_of c in
    let c' = elsewhere pc sreg cks irqs (pushed v c) in
    let c2 = elsewhere pc sreg cks irqs (with_return v c) in
    let bound : sp < 2 ^ 16 = omega (arith, h.spl_byte, h.sph_byte) in
    let value : u8 (ram_at (sp - 1) c') * 256 + u8 (ram_at sp c') ≡ v =
      ground (arith, h.next.above, h.two) in
    let low : sp % 256 ≡ c.sp.spl = omega (arith, h.spl_byte, h.sph_byte) in
    let high : sp / 256 ≡ c.sp.sph = omega (arith, h.spl_byte, h.sph_byte) in
    stack_pop-run sp c' h.in_memory (omega arith) (omega arith) (omega arith) h.two bound
      (record h.top {}) (record h.next {})
    ∙ ap (λ v. ok (v, with_sp sp c')) value
    ∙ ap (λ l. ok (v, record c2 { sp = record c2.sp { spl = l; sph = sp / 256 } })) low
    ∙ ap (λ h. ok (v, record c2 { sp = record c2.sp { spl = c.sp.spl; sph = h } })) high

-- A word of 16 bits that is pushed on a stack in memory with room for it is popped again, the
-- pointer comes back to where it was, and nothing but the two bytes of SRAM has changed.
pub stack_pop-stack_push :
    (v : ℕ) (c : AvrCore)
    → HasRoom c
    → v < 2 ^ 16
    → (stack_push 2 v >> stack_pop 2) c ≡ ok (v, with_return v c)
stack_pop-stack_push v c h hv =
    ap (λ o. then_with o (λ (t : Unit {0}). stack_pop 2)) (stack_push-run v c h hv)
    ∙ stack_pop-pushed v c c.pc c.sreg c.inst_cks c.irq_pending h hv
