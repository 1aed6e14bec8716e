-- ===== src/Core/Memory/Ram.antt =====
-- Accesses to the addresses that SRAM is attached to.
use oseid_simulavr.Base.{
  ℕ, ◌-◌, ◌<◌, ◌≤◌, ◌≡◌, ap, ◌∙◌, arith, some, pos, u8, bit_and, update, ◌==◌, if◌then◌else◌,
}
use oseid_simulavr.Exec.{Outcome, ok, then_with, ◌>>◌}
use oseid_simulavr.Bits.{bit_and-0xff}
use oseid_simulavr.Core.State.{AvrCore, Memory, MemoryCell, sram}
use package.oseid_simulavr.Core.Memory.{
  mem_read, mem_write, cell_read, cell_write, vdev_read, vdev_write,
}

abbrev pub ram_cell : MemoryCell
ram_cell = record { vdev = some sram; rd_mask = 0xff; wr_mask = 0xff }

-- Address `a` is attached to the SRAM that `stor` holds.
pub record IsRam (m : Memory) (base size a : ℕ) : Type 0 where
  pub in_memory : a ≤ m.xram_end
  pub attached : m.cell a ≡ ram_cell
  pub above : base ≤ a
  pub below : a - base < size

abbrev pub IsRamOf : AvrCore → ℕ → Type 0
IsRamOf c a = IsRam c.mem c.sram.base c.sram.size a

abbrev pub with_ram : ℕ → ℕ → AvrCore → AvrCore
with_ram a v c = record c {
  sram = record c.sram { bytes = update c.sram.bytes (a - c.sram.base) v };
}

abbrev pub ram_at : ℕ → AvrCore → ℕ
ram_at a c = c.sram.bytes (a - c.sram.base)

pub mem_write-run :
    (a v : ℕ) (c : AvrCore) → IsRamOf c a → mem_write (pos a) v c ≡ ok (tt, with_ram a (u8 v) c)
unfolding mem_write vdev_write
mem_write-run a v c h =
    let masked : bit_and (u8 v) 0xff ≡ u8 v = omega (arith, bit_and-0xff (u8 v)) in
    let after : ℕ → Outcome (Unit {0} × AvrCore) = λ b. ok (tt, with_ram a b c) in
    let find : mem_write (pos a) v c ≡ cell_write a (u8 v) (c.mem.cell a) c =
      ground (arith, h.in_memory) in
    let run : cell_write a (u8 v) ram_cell c ≡ after (bit_and (u8 v) 0xff) =
      ground (arith, h.above, h.below) in
    find ∙ ap (λ cell. cell_write a (u8 v) cell c) h.attached ∙ run ∙ ap after masked

pub mem_read-run :
    (a : ℕ) (c : AvrCore) → IsRamOf c a → mem_read (pos a) c ≡ ok (u8 (ram_at a c), c)
unfolding mem_read vdev_read
mem_read-run a c h =
    let after : ℕ → Outcome (ℕ × AvrCore) = λ b. ok (b, c) in
    let find : mem_read (pos a) c ≡ cell_read a (c.mem.cell a) c = ground (arith, h.in_memory) in
    let run : cell_read a ram_cell c ≡ after (bit_and (ram_at a c) 0xff) =
      ground (arith, h.above, h.below) in
    find ∙ ap (λ cell. cell_read a cell c) h.attached ∙ run ∙ ap after (bit_and-0xff (ram_at a c))

-- A byte that is written to an address of SRAM is read back there, and an access to another address
-- of SRAM still reads the byte that it read before.
pub mem_read-mem_write :
    (a b v : ℕ) (c : AvrCore)
    → IsRamOf c a
    → IsRamOf c b
    → (mem_write (pos a) v >> mem_read (pos b)) c
      ≡ ok (if b == a then u8 v else u8 (ram_at b c), with_ram a (u8 v) c)
mem_read-mem_write a b v c h h' =
    let c1 = with_ram a (u8 v) c in
    let value : u8 (ram_at b c1) ≡ (if b == a then u8 v else u8 (ram_at b c)) =
      ground (arith, h.above, h'.above) in
    ap (λ o. then_with o (λ (t : Unit {0}). mem_read (pos b))) (mem_write-run a v c h)
    ∙ mem_read-run b c1 (record {
      in_memory = h'.in_memory;
      attached = h'.attached;
      above = h'.above;
      below = h'.below;
    })
    ∙ ap (λ x. ok (x, c1)) value
