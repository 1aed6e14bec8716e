-- ===== src/Core/Counter/Wrap.antt =====
-- Where `_adjust_PC_to_max` leaves a program counter.
use mathlib.Core.Logic.{◌↔◌}
use native.Mathlib.Nat.{mod-eq_of_lt, mod-eq-sub-mod}
use oseid_simulavr.Base.{ℕ, suc, ◌<◌, ◌≤◌, ◌+◌, ◌-◌, ◌%◌, ℤ, pos, negsuc, ◌≡◌, arith}
use package.oseid_simulavr.Core.Counter.{adjust_pc_to_max}

-- From -PC_max up to, and not including, 2 * PC_max.
abbrev pub IsNearProgram : ℕ → ℤ → Type 0
IsNearProgram pc_max (pos p) = p < pc_max + pc_max
IsNearProgram pc_max (negsuc n) = suc n ≤ pc_max

abbrev pub IsInProgram : ℕ → ℤ → Type 0
IsInProgram pc_max (pos p) = p < pc_max
IsInProgram pc_max (negsuc n) = ⊥

-- The address of the program memory that a counter stands for, modulo its size.
abbrev pub residue : ℕ → ℤ → ℕ
residue pc_max (pos p) = p % pc_max
residue pc_max (negsuc n) = (pc_max - suc n % pc_max) % pc_max

-- The adjusted counter addresses the program memory exactly if the counter was from -PC_max up
-- to, and not including, twice PC_max; then it is the counter modulo PC_max.
pub adjust_pc_to_max-IsInProgram :
    (pc_max : ℕ) (p : ℤ)
    → 0 < pc_max
    → (IsInProgram pc_max (adjust_pc_to_max pc_max p) ↔ IsNearProgram pc_max p)
      × (IsNearProgram pc_max p → adjust_pc_to_max pc_max p ≡ pos (residue pc_max p))
unfolding adjust_pc_to_max
adjust_pc_to_max-IsInProgram pc_max (pos p) h =
    ((λ q. ground arith, λ q. ground arith), λ q. grind (arith, mod-eq_of_lt, mod-eq-sub-mod))
adjust_pc_to_max-IsInProgram pc_max (negsuc n) h =
    ((λ q. ground arith, λ q. ground arith), λ q. grind arith)
