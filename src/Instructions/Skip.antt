-- ===== src/Instructions/Skip.antt =====
-- The handlers that may skip the next instruction: CPSE, SBIC, SBIS, SBRC, SBRS.
use oseid_simulavr.Base.{
  ℕ, bit_and, ℤ, pos, ◌+ℤ◌, Bool, true, false, ◌<<<◌, not, ◌==◌, if◌then◌else◌, shift_count,
}
use oseid_simulavr.Exec.{Exec, pure, defined, ◌>>=◌, ◌>>◌}
use oseid_simulavr.Storage.{flash_read}
use oseid_simulavr.Core.State.{AvrCore, on_flash}
use oseid_simulavr.Core.Sreg.{gpwr_get}
use oseid_simulavr.Core.Counter.{pc_get, pc_incr, inst_cks_set}
use oseid_simulavr.Core.Memory.{io_read}
use oseid_simulavr.Decoder.Op.{
  Result, executed, opcode_call, opcode_cpse, opcode_jmp, opcode_lds, opcode_sbic, opcode_sbis,
  opcode_sbrc, opcode_sbrs, opcode_sts,
}
use oseid_simulavr.Instructions.Flags.{bit_at, finish}
use oseid_simulavr.Decoder.Op.{Op}
use oseid_simulavr.Decoder.Lookup.{OpcodeInfo, lookup_opcode}

-- `decode_opcode` reads the table that `decode_init_lookup_table` fills by `lookup_opcode`.
abbrev pub decode_opcode : ℕ → OpcodeInfo
decode_opcode opcode = lookup_opcode opcode

-- `opi->func == avr_op_CALL` and so on.
unfoldable pub is_two_words : Op → Bool
is_two_words opcode_call = true
is_two_words opcode_jmp = true
is_two_words opcode_lds = true
is_two_words opcode_sts = true
is_two_words _ = false

unfoldable pub is_next_inst_2_words : Exec AvrCore Bool
unfolding pc_get flash_read is_two_words
is_next_inst_2_words = do
  pc ← pc_get
  next ← on_flash (flash_read (pc +ℤ pos 1))
  pure (is_two_words (decode_opcode next).func)

-- Skip the next instruction if `test` holds.
unfoldable pub skip_if : Bool → Bool → Op → Exec AvrCore Result
unfolding pc_incr inst_cks_set finish
skip_if test two_words op =
    let skip : ℕ = if two_words then 3 else 2 in
    if test then (do pc_incr (pos skip); inst_cks_set skip; pure (executed op)) else finish 1 op

unfoldable pub avr_op_cpse : ℤ → ℤ → Exec AvrCore Result
unfolding gpwr_get is_next_inst_2_words skip_if
avr_op_cpse rd_arg rr_arg = do
  rd ← gpwr_get rd_arg
  rr ← gpwr_get rr_arg
  two_words ← is_next_inst_2_words
  skip_if (rd == rr) two_words opcode_cpse

unfoldable pub avr_op_sbic : ℤ → ℤ → Exec AvrCore Result
unfolding io_read is_next_inst_2_words skip_if
avr_op_sbic a_arg b_arg = do
  two_words ← is_next_inst_2_words
  val ← io_read a_arg
  b ← defined (shift_count b_arg)
  skip_if (bit_and val (1 <<< b) == 0) two_words opcode_sbic

unfoldable pub avr_op_sbis : ℤ → ℤ → Exec AvrCore Result
unfolding io_read is_next_inst_2_words skip_if
avr_op_sbis a_arg b_arg = do
  two_words ← is_next_inst_2_words
  val ← io_read a_arg
  b ← defined (shift_count b_arg)
  skip_if (not (bit_and val (1 <<< b) == 0)) two_words opcode_sbis

unfoldable pub avr_op_sbrc : ℤ → ℤ → Exec AvrCore Result
unfolding gpwr_get is_next_inst_2_words skip_if
avr_op_sbrc rd_arg b_arg = do
  two_words ← is_next_inst_2_words
  rd ← gpwr_get rd_arg
  b ← defined (shift_count b_arg)
  skip_if (bit_at rd b == 0) two_words opcode_sbrc

unfoldable pub avr_op_sbrs : ℤ → ℤ → Exec AvrCore Result
unfolding gpwr_get is_next_inst_2_words skip_if
avr_op_sbrs rd_arg b_arg = do
  two_words ← is_next_inst_2_words
  rd ← gpwr_get rd_arg
  b ← defined (shift_count b_arg)
  skip_if (not (bit_at rd b == 0)) two_words opcode_sbrs
