-- ===== src/Tests/Device.antt =====
-- A small device: 32 registers, 256 words of flash and 512 bytes of SRAM from address 96;
-- every word of the flash is `add r3, r4`.
use oseid_simulavr.Base.{
  ℕ, ◌+◌, ◌*◌, ◌%◌, pos, none, some, [], ◌∷◌, true, u8, ltb, leb, ◌&&◌, ◌||◌, ◌==◌, if◌then◌else◌,
}
use oseid_simulavr.Core.State.{
  AvrCore, state_running, MemoryCell, sram, stack_pointer, gpwr, sreg, mem, IntVect, HwStack,
}

abbrev cell : ℕ → MemoryCell
cell a =
    if ltb a 32
    then record { vdev = some gpwr; rd_mask = 0xff; wr_mask = 0xff }
    else if a == 0x5f
    then record { vdev = some sreg; rd_mask = 0xff; wr_mask = 0xff }
    else if a == 0x5d || a == 0x5e
    then record { vdev = some stack_pointer; rd_mask = 0xff; wr_mask = 0xff }
    else if leb 96 a && ltb a 608
    then record { vdev = some sram; rd_mask = 0xff; wr_mask = 0xff }
    else record { vdev = none; rd_mask = 0; wr_mask = 0 }

abbrev pub timer : IntVect
timer = record { has_name = true; addr = 9; can_wake = 0 }

abbrev pub device : AvrCore
device = record {
  state = state_running;
  sleep_mode = 1;
  pc = pos 20;
  pc_size = 2;
  pc_max = 256;
  sreg = 0x83;
  gpwr = λ r. u8 (r * 37 + 100);
  flash = record { base = 0; size = 512; bytes = λ i. if i % 2 == 0 then 12 else 52 };
  sram = record { base = 96; size = 512; bytes = λ i. 0 };
  mem = record { gpwr_end = 31; io_reg_end = 95; sram_end = 607; xram_end = 607; cell = cell };
  stack = mem;
  sp = record { spl_addr = 0x5d; spl = 0x5f; sph = 2 };
  spmhelper = record { spmcsr = 0; spmcsr_addr = 0x57; page_buffer = λ i. 0xff };
  breakpoints = [];
  irq_pending = timer ∷ [];
  irq_vtable = λ i. timer;
  irq_offset = 0;
  ck = 1000;
  inst_cks = 1;
  rampz = none;
  eind = 0;
}

abbrev pub three_deep : HwStack
three_deep = record { depth = 3; stack = λ i. i + 70 }
