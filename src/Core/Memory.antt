-- ===== src/Core/Memory.antt =====
-- memory.c and the virtual devices behind it (device.c, register.c, sram.c, stack.c, spm_helper.c).
pub mod Ram
use oseid_simulavr.Base.{
  ℕ, zero, suc, ◌+◌, bit_and, ℤ, pos, negsuc, ◌+ℤ◌, Bool, none, some, leb, ◌==◌, ◌||◌,
  if◌then◌else◌, update, u8,
}
use oseid_simulavr.Exec.{ok, avr_error, undefined, Exec, pure, gets, modify, ◌>>=◌, ◌>>◌}
use oseid_simulavr.Storage.{storage_readb, storage_writeb}
use oseid_simulavr.Core.State.{
  VDevice, gpwr, sreg, stack_pointer, rampz, sram, spm, MemoryCell, AvrCore, on_sram,
}
use oseid_simulavr.Core.Sreg.{sreg_get, sreg_set, gpwr_get, gpwr_set}

-- `sp_read`, `sp_write` and `sp_reset` of the stack pointer.
unfoldable pub sp_read : ℕ → Exec AvrCore ℕ
sp_read addr c =
    if addr == c.sp.spl_addr
    then ok (c.sp.spl, c)
    else if addr == c.sp.spl_addr + 1
    then ok (c.sp.sph, c)
    else avr_error

unfoldable pub sp_write : ℕ → ℕ → Exec AvrCore Unit
sp_write addr val c =
    if addr == c.sp.spl_addr
    then ok (tt, record c { sp = record c.sp { spl = val } })
    else if addr == c.sp.spl_addr + 1
    then ok (tt, record c { sp = record c.sp { sph = val } })
    else avr_error

unfoldable pub sp_reset : Exec AvrCore Unit
sp_reset = modify (λ c. record c { sp = record c.sp { spl = 0; sph = 0 } })

unfoldable pub spm_read : ℕ → Exec AvrCore ℕ
spm_read addr c = if addr == c.spmhelper.spmcsr_addr then ok (c.spmhelper.spmcsr, c) else avr_error

-- The values that `spm_write` lets through.
unfoldable pub is_spm_operation : ℕ → Bool
is_spm_operation val = val == 0x01 || val == 0x11 || val == 0x09 || val == 0x05 || val == 0x03

unfoldable pub spm_write : ℕ → ℕ → Exec AvrCore Unit
unfolding is_spm_operation
spm_write addr val c =
    if bit_and val 0x80 == 0
    then if bit_and val 0x20 == 0
      then if bit_and val 0x08 == 0
        then if is_spm_operation val
          then if addr == c.spmhelper.spmcsr_addr
            then ok (tt, record c { spmhelper = record c.spmhelper { spmcsr = val } })
            else avr_error
          else avr_error
        else avr_error
      else avr_error
    else avr_error

-- A device of no `rampz` register has no such cell.
unfoldable pub rampz_read : Exec AvrCore ℕ
rampz_read c = elim c.rampz [ none ↦ undefined | some v ↦ ok (v, c) ]

unfoldable pub rampz_write : ℕ → Exec AvrCore Unit
rampz_write val c = elim c.rampz [
  | none ↦ undefined
  | some v ↦ ok (tt, record c { rampz = some val })
]

unfoldable pub vdev_read : VDevice → ℕ → Exec AvrCore ℕ
unfolding sp_read spm_read rampz_read gpwr_get sreg_get storage_readb
vdev_read gpwr addr = gpwr_get (pos addr)
vdev_read sreg addr = sreg_get
vdev_read stack_pointer addr = sp_read addr
vdev_read rampz addr = rampz_read
vdev_read sram addr = on_sram (storage_readb (pos addr))
vdev_read spm addr = spm_read addr

unfoldable pub vdev_write : VDevice → ℕ → ℕ → Exec AvrCore Unit
unfolding sp_write spm_write rampz_write gpwr_set sreg_set storage_writeb
vdev_write gpwr addr val = gpwr_set (pos addr) val
vdev_write sreg addr val = sreg_set val
vdev_write stack_pointer addr val = sp_write addr val
vdev_write rampz addr val = rampz_write val
vdev_write sram addr val = on_sram (storage_writeb (pos addr) val)
vdev_write spm addr val = spm_write addr val

-- `gpwr_reset`: a loop over the 32 registers.
unfoldable pub gpwr_reset : ℕ → (ℕ → ℕ) → ℕ → ℕ
gpwr_reset zero reg = reg
gpwr_reset (suc left) reg = gpwr_reset left (update reg left 0)

unfoldable pub vdev_reset : VDevice → Exec AvrCore Unit
unfolding sp_reset gpwr_reset
vdev_reset gpwr = modify (λ c. record c { gpwr = gpwr_reset 32 c.gpwr })
vdev_reset sreg = modify (λ c. record c { sreg = 0 })
vdev_reset stack_pointer = sp_reset
vdev_reset rampz = modify (λ c. record c { rampz = some 0 })
vdev_reset sram = pure tt
vdev_reset spm = pure tt

-- `mem->cell` has `xram_end + 1` elements.
unfoldable pub mem_get_cell : ℤ → Exec AvrCore (ℕ × MemoryCell)
mem_get_cell (pos addr) c =
    if leb addr c.mem.xram_end then ok ((addr, c.mem.cell addr), c) else undefined
mem_get_cell (negsuc addr) c = undefined

abbrev pub cell_read : ℕ → MemoryCell → Exec AvrCore ℕ
cell_read addr cell = elim cell.vdev [
  | none ↦ pure 0
  | some d ↦ do v ← vdev_read d addr; pure (bit_and v cell.rd_mask)
]

abbrev pub cell_write : ℕ → ℕ → MemoryCell → Exec AvrCore Unit
cell_write addr val cell = elim cell.vdev [
  | none ↦ pure tt
  | some d ↦ vdev_write d addr (bit_and val cell.wr_mask)
]

unfoldable pub mem_read : ℤ → Exec AvrCore ℕ
unfolding mem_get_cell
mem_read addr = do (a, cell) ← mem_get_cell addr; cell_read a cell

unfoldable pub mem_write : ℤ → ℕ → Exec AvrCore Unit
unfolding mem_get_cell
mem_write addr val = do (a, cell) ← mem_get_cell addr; cell_write a (u8 val) cell

-- `mem_attach` with the device that the cell is to hold; name, flags and reset value are not read
-- by the accesses.
unfoldable pub mem_attach : ℤ → VDevice → ℕ → ℕ → Exec AvrCore Unit
mem_attach (negsuc addr) vdev rd_mask wr_mask c = avr_error
mem_attach (pos addr) vdev rd_mask wr_mask c =
    if leb c.mem.xram_end addr
    then avr_error
    else ok (
      tt,
      record c {
        mem = record c.mem {
          cell =
              update c.mem.cell addr
                (record { vdev = some vdev; rd_mask = rd_mask; wr_mask = wr_mask });
        };
      },
    )

-- The loop of `mem_reset` from address `i`, with `left` rounds to go.
unfoldable pub mem_reset_loop : ℕ → ℕ → Exec AvrCore Unit
unfolding vdev_reset
mem_reset_loop zero i = pure tt
mem_reset_loop (suc left) i = do
  cell ← gets (λ c. c.mem.cell i)
  elim cell.vdev [ none ↦ pure tt | some d ↦ vdev_reset d ]
  mem_reset_loop left (i + 1)

unfoldable pub mem_reset : Exec AvrCore Unit
unfolding mem_reset_loop
mem_reset c = mem_reset_loop c.mem.xram_end 0 c

unfoldable pub io_read : ℤ → Exec AvrCore ℕ
unfolding mem_read
io_read reg = mem_read (reg +ℤ pos 0x20)

unfoldable pub io_write : ℤ → ℕ → Exec AvrCore Unit
unfolding mem_write
io_write reg val = mem_write (reg +ℤ pos 0x20) val
