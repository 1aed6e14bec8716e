-- ===== src/Gdb/Restore.antt =====
-- The core satisfies the laws of a target whose registers gdb can restore.
use oseid_simulavr.Base.{
  ℕ, ◌^◌, ◌<◌, ◌≤◌, ◌≡◌, refl, ap, ◌∙◌, arith, fun_ext, pos, true, Option, none, some, leb, List,
  update, u8, bit_and,
}
use oseid_simulavr.Exec.{ok, Exec, pure, then_with, ◌>>=◌}
use oseid_simulavr.Bits.{bit_and-0xff}
use oseid_simulavr.Core.State.{AvrCore, MemoryCell, VDevice, stack_pointer}
use oseid_simulavr.Core.Counter.{adjust_pc_to_max}
use oseid_simulavr.Core.Memory.{mem_read, mem_write, sp_read, sp_write, vdev_read, vdev_write}
use oseid_simulavr.Board.{zoomed}
use package.oseid_simulavr.Gdb.{GdbComm}
use package.oseid_simulavr.Gdb.Target.{Target, global_gdb_comm}
use package.oseid_simulavr.Gdb.Transfer.{IsCell, HasRegisters, write_registers-registers_text}
use package.oseid_simulavr.Gdb.Registers.{registers_text, write_registers}

abbrev HoldsPointer : MemoryCell → Type 0
HoldsPointer m = (m.vdev ≡ some stack_pointer) × (m.rd_mask ≡ 0xff) × (m.wr_mask ≡ 0xff)

-- The registers are bytes, the stack pointer is at 0x5d and 0x5e, and the counter is in the program.
pub record CanRestore (pc : ℕ) (c : AvrCore) : Type 0 where
  pub regs : (i : ℕ) → i < 32 → c.gpwr i < 256
  pub sreg_byte : c.sreg < 256
  pub spl_byte : c.sp.spl < 256
  pub sph_byte : c.sp.sph < 256
  pub at : c.sp.spl_addr ≡ 0x5d
  pub in_memory : 0x5e ≤ c.mem.xram_end
  pub low : HoldsPointer (c.mem.cell 0x5d)
  pub high : HoldsPointer (c.mem.cell 0x5e)
  pub counter : c.pc ≡ pos pc
  pub in_program : pc < c.pc_max
  pub short : pc < 2 ^ 31

update_same : (f : ℕ → ℕ) (i : ℕ) → f i < 256 → update f i (u8 (f i)) ≡ f
update_same f i h = fun_ext (λ j. ground arith)

-- A byte of the stack pointer through the memory map.
module _ (a v : ℕ) (c : AvrCore) (inside : a ≤ c.mem.xram_end) (cell : HoldsPointer (c.mem.cell a))
    (byte : v < 256) where
  map_read : sp_read a c ≡ ok (v, c) → mem_read (pos a) c ≡ ok (v, c)
  unfolding mem_read vdev_read
  map_read e =
      let present : leb a c.mem.xram_end ≡ true = ground arith in
      let through : Option VDevice → ℕ → Exec AvrCore ℕ =
        λ d mask. elim d [ none ↦ pure 0 | some d ↦ do v ← vdev_read d a; pure (bit_and v mask) ] in
      rw present (
        ap (λ d. through d (c.mem.cell a).rd_mask c) cell.0
        ∙ ap (λ mask. through (some stack_pointer) mask c) cell.1
        ∙ ap (λ o. then_with o (λ v. pure (bit_and v 0xff))) e
        ∙ ap (λ (v : ℕ). ok (v, c)) (omega (arith, bit_and-0xff v)))

  map_write : sp_write a v c ≡ ok (tt, c) → mem_write (pos a) v c ≡ ok (tt, c)
  unfolding mem_write vdev_write
  map_write e =
      let present : leb a c.mem.xram_end ≡ true = ground arith in
      let through : Option VDevice → ℕ → Exec AvrCore Unit =
        λ d mask. elim d [ none ↦ pure tt | some d ↦ vdev_write d a (bit_and (u8 v) mask) ] in
      rw present (
        ap (λ d. through d (c.mem.cell a).wr_mask c) cell.0
        ∙ ap (λ mask. through (some stack_pointer) mask c) cell.2
        ∙ ap (λ (v : ℕ). sp_write a v c) (omega (arith, bit_and-0xff (u8 v)))
        ∙ e)

module _ (io : ℕ → Exec Target (ℕ × List ℕ)) (t : Target) (pc : ℕ)
    (h : CanRestore pc t.board.core) where
  abbrev back : AvrCore → Target → Target
  back c t = record t { board = record t.board { core = c } }

  abbrev comm : GdbComm Target
  comm = global_gdb_comm io

  reg-IsCell :
      (i : ℕ) → i < 32 → IsCell (comm.read_reg i) (comm.write_reg i) (t.board.core.gpwr i) t
  unfolding global_gdb_comm
  reg-IsCell i hi = record {
    reads = ground arith;
    writes = ground (arith, update_same t.board.core.gpwr i (h.regs i hi));
    is_byte = h.regs i hi;
  }

  low-IsCell : IsCell (comm.read_sram 0x5d) (comm.write_sram 0x5d) t.board.core.sp.spl t
  unfolding global_gdb_comm sp_read sp_write
  low-IsCell = record {
    reads = ap (zoomed back t) (
        map_read 0x5d t.board.core.sp.spl t.board.core (omega (arith, h.in_memory)) h.low h.spl_byte
          (ground (arith, h.at)));
    writes = ap (zoomed back t) (
        map_write 0x5d t.board.core.sp.spl t.board.core (omega (arith, h.in_memory)) h.low
          h.spl_byte (ground (arith, h.at)));
    is_byte = h.spl_byte;
  }

  high-IsCell : IsCell (comm.read_sram 0x5e) (comm.write_sram 0x5e) t.board.core.sp.sph t
  unfolding global_gdb_comm sp_read sp_write
  high-IsCell = record {
    reads = ap (zoomed back t) (
        map_read 0x5e t.board.core.sp.sph t.board.core h.in_memory h.high h.sph_byte
          (ground (arith, h.at)));
    writes = ap (zoomed back t) (
        map_write 0x5e t.board.core.sp.sph t.board.core h.in_memory h.high h.sph_byte
          (ground (arith, h.at)));
    is_byte = h.sph_byte;
  }

  same_pc : adjust_pc_to_max t.board.core.pc_max (pos pc) ≡ pos pc
  unfolding adjust_pc_to_max
  same_pc = ground (arith, h.in_program)

  registers :
      HasRegisters comm t.board.core.gpwr t.board.core.sreg t.board.core.sp.spl t.board.core.sp.sph
        pc t
  unfolding global_gdb_comm
  registers = record {
    regs = reg-IsCell;
    status = record { reads = refl; writes = refl; is_byte = h.sreg_byte };
    low = low-IsCell;
    high = high-IsCell;
    reads_pc = ground (arith, h.counter);
    writes_pc = ground (arith, h.counter, same_pc);
    pc_range = h.short;
  }

  -- On a core whose registers are bytes, whose stack pointer is mapped at 0x5d and 0x5e and whose
  -- counter is in the program, reading all registers for gdb and writing the same text back leaves
  -- the core, and the EEPROM, as they were.
  pub write_registers-registers_text-core :
      (registers_text (global_gdb_comm io) >>= write_registers (global_gdb_comm io)) t ≡ ok (tt, t)
  write_registers-registers_text-core =
      write_registers-registers_text comm t.board.core.gpwr t.board.core.sreg t.board.core.sp.spl
        t.board.core.sp.sph pc t registers
