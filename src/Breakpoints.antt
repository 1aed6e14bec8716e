-- ===== src/Breakpoints.antt =====
-- avrcore.c: break points, kept in a list and written into the flash.
pub mod Restore
use oseid_simulavr.Base.{
  ℕ, ℤ, pos, negsuc, Bool, true, false, Option, none, some, List, [], ◌∷◌, ◌==◌, if◌then◌else◌, u16,
}
use oseid_simulavr.Exec.{Exec, pure, gets, modify, ◌>>=◌, ◌>>◌}
use oseid_simulavr.Storage.{flash_read, flash_write}
use oseid_simulavr.Core.State.{BreakPt, AvrCore, on_flash}
use oseid_simulavr.DList.{dlist_add, dlist_delete, dlist_lookup}

abbrev pub int_eq : ℤ → ℤ → Bool
int_eq (pos a) (pos b) = a == b
int_eq (pos a) (negsuc b) = false
int_eq (negsuc a) (pos b) = false
int_eq (negsuc a) (negsuc b) = a == b

-- `brk_pt_cmp` is 0.
abbrev pub same_pc : BreakPt → BreakPt → Bool
same_pc d x = int_eq d.pc x.pc

abbrev pub break_at : ℤ → ℕ → BreakPt
break_at pc opcode = record { pc = pc; opcode = opcode }

unfoldable pub brk_pt_list_add : ℤ → ℕ → List BreakPt → List BreakPt
unfolding dlist_add
brk_pt_list_add pc opcode head = dlist_add same_pc (break_at pc opcode) head

unfoldable pub brk_pt_list_delete : ℤ → List BreakPt → List BreakPt
unfolding dlist_delete
brk_pt_list_delete pc head = dlist_delete same_pc (break_at pc 0) head

unfoldable pub brk_pt_list_lookup : ℤ → List BreakPt → Option BreakPt
unfolding dlist_lookup
brk_pt_list_lookup pc head = dlist_lookup same_pc (break_at pc 0) head

abbrev pub break_opcode : ℕ
break_opcode = 0x9598

abbrev pub set_breakpoints : List BreakPt → AvrCore → AvrCore
set_breakpoints bs c = record c { breakpoints = bs }

unfoldable pub avr_core_insert_breakpoint : ℤ → Exec AvrCore Unit
unfolding brk_pt_list_add flash_read flash_write
avr_core_insert_breakpoint pc = do
  insn ← on_flash (flash_read pc)
  modify (λ c. set_breakpoints (brk_pt_list_add pc insn c.breakpoints) c)
  on_flash (flash_write pc break_opcode)

abbrev pub remove_found : ℤ → Option BreakPt → Exec AvrCore Unit
remove_found pc none = pure tt
remove_found pc (some bp) = do
  modify (λ c. set_breakpoints (brk_pt_list_delete pc c.breakpoints) c)
  on_flash (flash_write pc bp.opcode)

unfoldable pub avr_core_remove_breakpoint : ℤ → Exec AvrCore Unit
unfolding brk_pt_list_delete brk_pt_list_lookup flash_write
avr_core_remove_breakpoint pc = do
  found ← gets (λ c. brk_pt_list_lookup pc c.breakpoints)
  remove_found pc found

-- `iter_enable_breakpoint` on one break point, which comes back with its saved opcode.
unfoldable pub iter_enable_breakpoint : Bool → BreakPt → Exec AvrCore BreakPt
unfolding flash_read flash_write
iter_enable_breakpoint true bp = do
  insn ← on_flash (flash_read bp.pc)
  if insn == break_opcode
      then pure bp
      else do on_flash (flash_write bp.pc break_opcode); pure (record bp { opcode = insn })
iter_enable_breakpoint false bp = do on_flash (flash_write bp.pc bp.opcode); pure bp

-- `dlist_iterator` with `iter_enable_breakpoint`, which deletes no node.
unfoldable pub iterate_breakpoints : Bool → List BreakPt → Exec AvrCore (List BreakPt)
unfolding iter_enable_breakpoint
iterate_breakpoints enable [] = pure []
iterate_breakpoints enable (bp ∷ rest) = do
  bp' ← iter_enable_breakpoint enable bp
  rest' ← iterate_breakpoints enable rest
  pure (bp' ∷ rest')

unfoldable pub avr_core_disable_breakpoints : Exec AvrCore Unit
unfolding iterate_breakpoints
avr_core_disable_breakpoints = do
  bs ← gets (λ c. c.breakpoints)
  bs' ← iterate_breakpoints false bs
  modify (set_breakpoints bs')

unfoldable pub avr_core_enable_breakpoints : Exec AvrCore Unit
unfolding iterate_breakpoints
avr_core_enable_breakpoints = do
  bs ← gets (λ c. c.breakpoints)
  bs' ← iterate_breakpoints true bs
  modify (set_breakpoints bs')
