-- ===== src/Core/State.antt =====
-- The state of the simulated processor: `struct _AvrCore` and the devices that it points to.
use oseid_simulavr.Base.{ℕ, ℤ, Option, Bool, List}
use oseid_simulavr.Exec.{Outcome, ok, avr_error, undefined, Exec}
use oseid_simulavr.Storage.{Storage}

pub data StateType : Type 0 where
  state_running state_stopped state_break_pt state_sleep : StateType

-- The virtual devices, by class. An address that has no device of these classes holds none.
pub data VDevice : Type 0 where
  gpwr sreg stack_pointer rampz sram spm : VDevice

pub record MemoryCell : Type 0 where
  pub vdev : Option VDevice
  pub rd_mask : ℕ
  pub wr_mask : ℕ

pub record Memory : Type 0 where
  pub gpwr_end : ℕ
  pub io_reg_end : ℕ
  pub sram_end : ℕ
  pub xram_end : ℕ
  pub cell : ℕ → MemoryCell

pub record StackPointer : Type 0 where
  pub spl_addr : ℕ
  pub spl : ℕ
  pub sph : ℕ

pub record HwStack : Type 0 where
  pub depth : ℕ
  pub stack : ℕ → ℕ

-- `hwstack_new` for a device with no SRAM, else `memstack_new`.
pub data Stack : Type 0 where
  hw : HwStack → Stack
  mem : Stack

pub record SpmHelper : Type 0 where
  pub spmcsr : ℕ
  pub spmcsr_addr : ℕ
  pub page_buffer : ℕ → ℕ

pub record IntVect : Type 0 where
  pub has_name : Bool
  pub addr : ℕ
  pub can_wake : ℕ

pub record BreakPt : Type 0 where
  pub pc : ℤ
  pub opcode : ℕ

pub record AvrCore : Type 0 where
  pub state : StateType
  pub sleep_mode : ℕ
  pub pc : ℤ
  pub pc_size : ℕ
  pub pc_max : ℕ
  pub sreg : ℕ
  pub gpwr : ℕ → ℕ
  pub flash : Storage
  pub sram : Storage
  pub mem : Memory
  pub stack : Stack
  pub sp : StackPointer
  pub spmhelper : SpmHelper
  pub breakpoints : List BreakPt
  pub irq_pending : List IntVect
  pub irq_vtable : ℕ → IntVect
  pub irq_offset : ℕ
  pub ck : ℕ
  pub inst_cks : ℕ
  pub rampz : Option ℕ
  pub eind : ℕ

module _ {A : Type 0} where
  abbrev pub flash_result : AvrCore → Outcome (A × Storage) → Outcome (A × AvrCore)
  flash_result c (ok (a, s)) = ok (a, record c { flash = s })
  flash_result c avr_error = avr_error
  flash_result c undefined = undefined

  -- An action on the storage that is `core->flash`.
  abbrev pub on_flash : Exec Storage A → Exec AvrCore A
  on_flash m c = flash_result c (m c.flash)

  abbrev pub sram_result : AvrCore → Outcome (A × Storage) → Outcome (A × AvrCore)
  sram_result c (ok (a, s)) = ok (a, record c { sram = s })
  sram_result c avr_error = avr_error
  sram_result c undefined = undefined

  -- An action on the storage that is `core->sram->stor`.
  abbrev pub on_sram : Exec Storage A → Exec AvrCore A
  on_sram m c = sram_result c (m c.sram)
