-- ===== src/Irq.antt =====
-- avrcore.c: the list of pending interrupts.
use oseid_simulavr.Base.{
  ℕ, bit_and, Bool, true, not, Option, none, some, List, [], ◌∷◌, ◌==◌, if◌then◌else◌,
}
use oseid_simulavr.Exec.{ok, undefined, Exec, modify}
use oseid_simulavr.Core.State.{
  StateType, state_running, state_stopped, state_break_pt, state_sleep, IntVect, AvrCore,
}
use oseid_simulavr.DList.{dlist_add, dlist_delete}

-- `irq_cmp_addr` is 0.
abbrev pub same_addr : IntVect → IntVect → Bool
same_addr d x = d.addr == x.addr

unfoldable pub irq_list_add : IntVect → List IntVect → List IntVect
unfolding dlist_add
irq_list_add vector head = dlist_add same_addr vector head

unfoldable pub irq_list_delete : IntVect → List IntVect → List IntVect
unfolding dlist_delete
irq_list_delete vector head = dlist_delete same_addr vector head

-- `irq_cmp_pending` is 0.
unfoldable pub is_ready : StateType → ℕ → IntVect → Bool
is_ready state_sleep sleep_mode vector = not (bit_and sleep_mode vector.can_wake == 0)
is_ready state_running sleep_mode vector = true
is_ready state_stopped sleep_mode vector = true
is_ready state_break_pt sleep_mode vector = true

-- The lookup of `irq_get_pending_vector`.
unfoldable pub first_ready : StateType → ℕ → List IntVect → Option IntVect
unfolding is_ready
first_ready state sleep_mode [] = none
first_ready state sleep_mode (d ∷ rest) =
    if is_ready state sleep_mode d then some d else first_ready state sleep_mode rest

-- `irq_get_pending_vector` reads `found->vector` also where nothing is found.
unfoldable pub irq_get_pending : Exec AvrCore IntVect
unfolding first_ready
irq_get_pending c = elim (first_ready c.state c.sleep_mode c.irq_pending) [
  | none ↦ undefined
  | some v ↦ ok (v, c)
]

unfoldable pub avr_core_irq_raise : ℕ → Exec AvrCore Unit
unfolding irq_list_add
avr_core_irq_raise irq =
    modify (λ c. record c { irq_pending = irq_list_add (c.irq_vtable irq) c.irq_pending })

unfoldable pub avr_core_irq_clear : IntVect → Exec AvrCore Unit
unfolding irq_list_delete
avr_core_irq_clear irq = modify (λ c. record c { irq_pending = irq_list_delete irq c.irq_pending })

unfoldable pub avr_core_irq_clear_all : Exec AvrCore Unit
avr_core_irq_clear_all = modify (λ c. record c { irq_pending = [] })
