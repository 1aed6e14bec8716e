-- ===== src/Gdb/Target.antt =====
-- main.c: the board, and the EEPROM of OsEID.c, as the target of the server.
use oseid_simulavr.Base.{ℕ, pos, Option, some, List}
use oseid_simulavr.Exec.{Exec, pure, gets, ◌>>=◌}
use oseid_simulavr.Storage.{flash_read, flash_write, flash_write_lo8, flash_write_hi8}
use oseid_simulavr.Core.State.{AvrCore, on_flash}
use oseid_simulavr.Core.Sreg.{gpwr_get, gpwr_set, sreg_get, sreg_set}
use oseid_simulavr.Core.Counter.{pc_get, pc_set}
use oseid_simulavr.Core.Memory.{mem_read, mem_write}
use oseid_simulavr.Breakpoints.{
  avr_core_insert_breakpoint, avr_core_remove_breakpoint, avr_core_disable_breakpoints,
}
use oseid_simulavr.Irq.{avr_core_irq_raise}
use oseid_simulavr.Run.{avr_core_reset, is_break_point}
use oseid_simulavr.Step.{avr_core_step}
use oseid_simulavr.OsEid.{EEprom, gdb_ee_read, gdb_ee_write}
use oseid_simulavr.Board.{Board, zoom}
use package.oseid_simulavr.Gdb.{GdbComm}

pub record Target : Type 0 where
  pub board : Board
  pub ee : Option EEprom

module _ {A : Type 0} where
  abbrev pub in_board : Exec Board A → Exec Target A
  in_board m = zoom (λ b t. record t { board = b }) (λ t. t.board) m

  abbrev pub in_core : Exec AvrCore A → Exec Target A
  in_core m = zoom (λ c t. record t { board = record t.board { core = c } }) (λ t. t.board.core) m

  abbrev pub in_ee : Exec (Option EEprom) A → Exec Target A
  in_ee m = zoom (λ e t. record t { ee = e }) (λ t. t.ee) m

-- `global_gdb_comm`. The names of the io registers come with `io_fetch`, which memory.c looks up.
unfoldable pub global_gdb_comm : (ℕ → Exec Target (ℕ × List ℕ)) → GdbComm Target
unfolding gpwr_get gpwr_set sreg_get sreg_set pc_get pc_set mem_read mem_write flash_read
    flash_write flash_write_lo8 flash_write_hi8 avr_core_insert_breakpoint
    avr_core_remove_breakpoint avr_core_disable_breakpoints avr_core_step avr_core_reset
    avr_core_irq_raise gdb_ee_read gdb_ee_write
global_gdb_comm io_fetch = record {
  read_reg = λ r. in_core (gpwr_get (pos r));
  write_reg = λ r v. in_core (gpwr_set (pos r) v);
  read_sreg = in_core sreg_get;
  write_sreg = λ v. in_core (sreg_set v);
  read_pc = in_core pc_get;
  write_pc = λ pc. in_core (pc_set pc);
  max_pc = some (gets (λ t. pos t.board.core.pc_max));
  read_sram = λ a. in_core (mem_read (pos a));
  write_sram = λ a v. in_core (mem_write (pos a) v);
  read_flash = λ a. in_core (on_flash (flash_read (pos a)));
  write_flash = some (λ a v. in_core (on_flash (flash_write (pos a) v)));
  write_flash_lo8 = some (λ a v. in_core (on_flash (flash_write_lo8 (pos a) v)));
  write_flash_hi8 = some (λ a v. in_core (on_flash (flash_write_hi8 (pos a) v)));
  insert_break = λ pc. in_core (avr_core_insert_breakpoint (pos pc));
  remove_break = λ pc. in_core (avr_core_remove_breakpoint (pos pc));
  disable_breakpts = some (in_core avr_core_disable_breakpoints);
  step = (do res ← in_board avr_core_step; pure (is_break_point res));
  reset = in_core avr_core_reset;
  io_fetch = some io_fetch;
  irq_raise = some (λ irq. in_core (avr_core_irq_raise irq));
  ee_read = λ a. in_ee (gdb_ee_read a);
  ee_write = λ a v. in_ee (gdb_ee_write a v);
}
