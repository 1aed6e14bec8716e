-- ===== src/Core/Counter.antt =====
-- The program counter and the clock count of avrcore.h.
pub mod Wrap
use oseid_simulavr.Base.{ℕ, suc, ◌-◌, ◌+◌, ℤ, pos, negsuc, ◌+ℤ◌, sub_ℕ, leb, u64, if◌then◌else◌}
use oseid_simulavr.Exec.{Exec, gets, modify}
use oseid_simulavr.Core.State.{AvrCore}

-- `if (core->PC < 0) core->PC = core->PC_max + core->PC;`
abbrev pub wrap_below : ℕ → ℤ → ℤ
wrap_below pc_max (pos p) = pos p
wrap_below pc_max (negsuc n) = sub_ℕ pc_max (suc n)

-- `if (core->PC >= core->PC_max) core->PC -= core->PC_max;`
abbrev pub wrap_above : ℕ → ℤ → ℤ
wrap_above pc_max (pos p) = if leb pc_max p then pos (p - pc_max) else pos p
wrap_above pc_max (negsuc n) = negsuc n

unfoldable pub adjust_pc_to_max : ℕ → ℤ → ℤ
adjust_pc_to_max pc_max p = wrap_above pc_max (wrap_below pc_max p)

unfoldable pub pc_get : Exec AvrCore ℤ
pc_get = gets (λ c. c.pc)

unfoldable pub pc_set : ℤ → Exec AvrCore Unit
unfolding adjust_pc_to_max
pc_set val = modify (λ c. record c { pc = adjust_pc_to_max c.pc_max val })

unfoldable pub pc_incr : ℤ → Exec AvrCore Unit
unfolding adjust_pc_to_max
pc_incr val = modify (λ c. record c { pc = adjust_pc_to_max c.pc_max (c.pc +ℤ val) })

unfoldable pub pc_size_get : Exec AvrCore ℕ
pc_size_get = gets (λ c. c.pc_size)

unfoldable pub inst_cks_set : ℕ → Exec AvrCore Unit
inst_cks_set val = modify (λ c. record c { inst_cks = val })

unfoldable pub ck_incr : Exec AvrCore Unit
ck_incr = modify (λ c. record c { ck = u64 (c.ck + 1) })
