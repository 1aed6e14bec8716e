-- ===== src/Step.antt =====
-- avrcore.c: `avr_core_step` with the call backs of the devices, and `avr_core_run`.
pub mod Add
pub mod Break
use oseid_simulavr.Base.{ℕ, zero, suc, if◌then◌else◌}
use oseid_simulavr.Exec.{Exec, pure, gets, modify, ◌>>=◌, ◌>>◌}
use oseid_simulavr.Core.State.{state_running}
use oseid_simulavr.Decoder.Op.{Result, executed, opcode_break}
use oseid_simulavr.Board.{Board, on_core}
use oseid_simulavr.Callback.{avr_core_async_cb_exec, board_clock_loop}
use oseid_simulavr.Run.{
  exec_next_instruction, avr_core_check_interrupts, avr_core_reset, is_sleeping, is_reti,
  is_running, is_break_point,
}

-- A sleeping device returns 0, which is the value of `opcode_BREAK`.
unfoldable pub avr_core_step : Exec Board Result
unfolding exec_next_instruction board_clock_loop avr_core_async_cb_exec avr_core_check_interrupts
avr_core_step = do
  state ← gets (λ b. b.core.state)
  res ← (if is_sleeping state then pure (executed opcode_break) else on_core exec_next_instruction)
  clocks ← gets (λ b. b.core.inst_cks)
  board_clock_loop clocks
  avr_core_async_cb_exec
  if is_reti res then pure tt else on_core avr_core_check_interrupts
  pure res

-- The loop of `avr_core_run`; SIGINT arrives after `steps` steps.
unfoldable pub run_loop : ℕ → Exec Board Unit
unfolding avr_core_step
run_loop zero = pure tt
run_loop (suc steps) = do
  state ← gets (λ b. b.core.state)
  let rest = run_loop steps
  if is_running state
      then (do res ← avr_core_step; if is_break_point res then pure tt else rest)
      else pure tt

unfoldable pub avr_core_run : ℕ → Exec Board Unit
unfolding avr_core_reset run_loop
avr_core_run steps = do
  on_core avr_core_reset
  on_core (modify (λ c. record c { state = state_running }))
  run_loop steps
