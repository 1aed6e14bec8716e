-- ===== src/Step/Break.antt =====
-- The run loop at a break point that gdb has put into the flash.
use oseid_simulavr.Base.{ℕ}
use oseid_simulavr.Exec.{Exec, ◌>>=◌}
use oseid_simulavr.Storage.{Storage}
use oseid_simulavr.Core.State.{AvrCore}
use oseid_simulavr.Breakpoints.Restore.{with_breakpoint}
use oseid_simulavr.Board.{Board}

-- The core stopped at the break point.
abbrev pub halted : ℕ → AvrCore → AvrCore
halted pc c = record (with_breakpoint pc c) { inst_cks = 0 }
