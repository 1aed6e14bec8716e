-- ===== src/Run/Call.antt =====
-- The call through `opi->func`: the handler that an entry of the lookup table points to.
use oseid_simulavr.Base.{ℤ}
use oseid_simulavr.Exec.{Exec}
use oseid_simulavr.Core.State.{AvrCore}
use oseid_simulavr.Decoder.Op.{
  Op, Result, opcode_break, opcode_eicall, opcode_eijmp, opcode_elpm, opcode_espm, opcode_icall,
  opcode_ijmp, opcode_lpm, opcode_nop, opcode_ret, opcode_reti, opcode_sleep, opcode_spm,
  opcode_wdr, opcode_adc, opcode_add, opcode_and, opcode_cp, opcode_cpc, opcode_cpse, opcode_eor,
  opcode_mov, opcode_mul, opcode_or, opcode_sbc, opcode_sub, opcode_asr, opcode_com, opcode_dec,
  opcode_elpm_z, opcode_elpm_z_incr, opcode_inc, opcode_lds, opcode_ld_x, opcode_ld_x_decr,
  opcode_ld_x_incr, opcode_ld_y_decr, opcode_ld_y_incr, opcode_ld_z_decr, opcode_ld_z_incr,
  opcode_lpm_z, opcode_lpm_z_incr, opcode_lsr, opcode_neg, opcode_pop, opcode_push, opcode_ror,
  opcode_sts, opcode_st_x, opcode_st_x_decr, opcode_st_x_incr, opcode_st_y_decr, opcode_st_y_incr,
  opcode_st_z_decr, opcode_st_z_incr, opcode_swap, opcode_andi, opcode_cpi, opcode_ldi, opcode_ori,
  opcode_sbci, opcode_subi, opcode_bld, opcode_bst, opcode_sbrc, opcode_sbrs, opcode_brbc,
  opcode_brbs, opcode_ldd_y, opcode_ldd_z, opcode_std_y, opcode_std_z, opcode_call, opcode_jmp,
  opcode_bclr, opcode_bset, opcode_adiw, opcode_sbiw, opcode_cbi, opcode_sbi, opcode_sbic,
  opcode_sbis, opcode_in, opcode_out, opcode_rcall, opcode_rjmp, opcode_movw, opcode_muls,
  opcode_mulsu, opcode_fmul, opcode_fmuls, opcode_fmulsu, opcode_unknown,
}
use oseid_simulavr.Instructions.System.{
  avr_op_break, avr_op_nop, avr_op_sleep, avr_op_wdr, avr_op_unknown,
}
use oseid_simulavr.Instructions.Jump.{
  avr_op_eicall, avr_op_eijmp, avr_op_icall, avr_op_ijmp, avr_op_ret, avr_op_reti, avr_op_brbc,
  avr_op_brbs, avr_op_call, avr_op_jmp, avr_op_rcall, avr_op_rjmp,
}
use oseid_simulavr.Instructions.Program.{
  avr_op_elpm, avr_op_espm, avr_op_lpm, avr_op_spm, avr_op_elpm_z, avr_op_elpm_z_incr, avr_op_lpm_z,
  avr_op_lpm_z_incr,
}
use oseid_simulavr.Instructions.Arithmetic.Add.{avr_op_adc, avr_op_add, avr_op_inc, avr_op_adiw}
use oseid_simulavr.Instructions.Logic.Bitwise.{
  avr_op_and, avr_op_eor, avr_op_or, avr_op_andi, avr_op_ori,
}
use oseid_simulavr.Instructions.Arithmetic.Compare.{
  avr_op_cp, avr_op_cpc, avr_op_com, avr_op_dec, avr_op_neg, avr_op_cpi,
}
use oseid_simulavr.Instructions.Skip.{
  avr_op_cpse, avr_op_sbrc, avr_op_sbrs, avr_op_sbic, avr_op_sbis,
}
use oseid_simulavr.Instructions.Transfer.{
  avr_op_mov, avr_op_pop, avr_op_push, avr_op_ldi, avr_op_in, avr_op_out, avr_op_movw,
}
use oseid_simulavr.Instructions.Multiply.{
  avr_op_mul, avr_op_muls, avr_op_mulsu, avr_op_fmul, avr_op_fmuls, avr_op_fmulsu,
}
use oseid_simulavr.Instructions.Arithmetic.Subtract.{
  avr_op_sbc, avr_op_sub, avr_op_sbci, avr_op_subi, avr_op_sbiw,
}
use oseid_simulavr.Instructions.Logic.Shift.{avr_op_asr, avr_op_lsr, avr_op_ror, avr_op_swap}
use oseid_simulavr.Instructions.Load.{
  avr_op_lds, avr_op_ld_x, avr_op_ld_x_decr, avr_op_ld_x_incr, avr_op_ld_y_decr, avr_op_ld_y_incr,
  avr_op_ld_z_decr, avr_op_ld_z_incr, avr_op_ldd_y, avr_op_ldd_z,
}
use oseid_simulavr.Instructions.Store.{
  avr_op_sts, avr_op_st_x, avr_op_st_x_decr, avr_op_st_x_incr, avr_op_st_y_decr, avr_op_st_y_incr,
  avr_op_st_z_decr, avr_op_st_z_incr, avr_op_std_y, avr_op_std_z,
}
use oseid_simulavr.Instructions.Logic.Bit.{
  avr_op_bld, avr_op_bst, avr_op_bclr, avr_op_bset, avr_op_cbi, avr_op_sbi,
}

unfoldable pub call : Op → ℤ → ℤ → Exec AvrCore Result
call opcode_break arg1 arg2 = avr_op_break arg1 arg2
call opcode_eicall arg1 arg2 = avr_op_eicall arg1 arg2
call opcode_eijmp arg1 arg2 = avr_op_eijmp arg1 arg2
call opcode_elpm arg1 arg2 = avr_op_elpm arg1 arg2
call opcode_espm arg1 arg2 = avr_op_espm arg1 arg2
call opcode_icall arg1 arg2 = avr_op_icall arg1 arg2
call opcode_ijmp arg1 arg2 = avr_op_ijmp arg1 arg2
call opcode_lpm arg1 arg2 = avr_op_lpm arg1 arg2
call opcode_nop arg1 arg2 = avr_op_nop arg1 arg2
call opcode_ret arg1 arg2 = avr_op_ret arg1 arg2
call opcode_reti arg1 arg2 = avr_op_reti arg1 arg2
call opcode_sleep arg1 arg2 = avr_op_sleep arg1 arg2
call opcode_spm arg1 arg2 = avr_op_spm arg1 arg2
call opcode_wdr arg1 arg2 = avr_op_wdr arg1 arg2
call opcode_adc arg1 arg2 = avr_op_adc arg1 arg2
call opcode_add arg1 arg2 = avr_op_add arg1 arg2
call opcode_and arg1 arg2 = avr_op_and arg1 arg2
call opcode_cp arg1 arg2 = avr_op_cp arg1 arg2
call opcode_cpc arg1 arg2 = avr_op_cpc arg1 arg2
call opcode_cpse arg1 arg2 = avr_op_cpse arg1 arg2
call opcode_eor arg1 arg2 = avr_op_eor arg1 arg2
call opcode_mov arg1 arg2 = avr_op_mov arg1 arg2
call opcode_mul arg1 arg2 = avr_op_mul arg1 arg2
call opcode_or arg1 arg2 = avr_op_or arg1 arg2
call opcode_sbc arg1 arg2 = avr_op_sbc arg1 arg2
call opcode_sub arg1 arg2 = avr_op_sub arg1 arg2
call opcode_asr arg1 arg2 = avr_op_asr arg1 arg2
call opcode_com arg1 arg2 = avr_op_com arg1 arg2
call opcode_dec arg1 arg2 = avr_op_dec arg1 arg2
call opcode_elpm_z arg1 arg2 = avr_op_elpm_z arg1 arg2
call opcode_elpm_z_incr arg1 arg2 = avr_op_elpm_z_incr arg1 arg2
call opcode_inc arg1 arg2 = avr_op_inc arg1 arg2
call opcode_lds arg1 arg2 = avr_op_lds arg1 arg2
call opcode_ld_x arg1 arg2 = avr_op_ld_x arg1 arg2
call opcode_ld_x_decr arg1 arg2 = avr_op_ld_x_decr arg1 arg2
call opcode_ld_x_incr arg1 arg2 = avr_op_ld_x_incr arg1 arg2
call opcode_ld_y_decr arg1 arg2 = avr_op_ld_y_decr arg1 arg2
call opcode_ld_y_incr arg1 arg2 = avr_op_ld_y_incr arg1 arg2
call opcode_ld_z_decr arg1 arg2 = avr_op_ld_z_decr arg1 arg2
call opcode_ld_z_incr arg1 arg2 = avr_op_ld_z_incr arg1 arg2
call opcode_lpm_z arg1 arg2 = avr_op_lpm_z arg1 arg2
call opcode_lpm_z_incr arg1 arg2 = avr_op_lpm_z_incr arg1 arg2
call opcode_lsr arg1 arg2 = avr_op_lsr arg1 arg2
call opcode_neg arg1 arg2 = avr_op_neg arg1 arg2
call opcode_pop arg1 arg2 = avr_op_pop arg1 arg2
call opcode_push arg1 arg2 = avr_op_push arg1 arg2
call opcode_ror arg1 arg2 = avr_op_ror arg1 arg2
call opcode_sts arg1 arg2 = avr_op_sts arg1 arg2
call opcode_st_x arg1 arg2 = avr_op_st_x arg1 arg2
call opcode_st_x_decr arg1 arg2 = avr_op_st_x_decr arg1 arg2
call opcode_st_x_incr arg1 arg2 = avr_op_st_x_incr arg1 arg2
call opcode_st_y_decr arg1 arg2 = avr_op_st_y_decr arg1 arg2
call opcode_st_y_incr arg1 arg2 = avr_op_st_y_incr arg1 arg2
call opcode_st_z_decr arg1 arg2 = avr_op_st_z_decr arg1 arg2
call opcode_st_z_incr arg1 arg2 = avr_op_st_z_incr arg1 arg2
call opcode_swap arg1 arg2 = avr_op_swap arg1 arg2
call opcode_andi arg1 arg2 = avr_op_andi arg1 arg2
call opcode_cpi arg1 arg2 = avr_op_cpi arg1 arg2
call opcode_ldi arg1 arg2 = avr_op_ldi arg1 arg2
call opcode_ori arg1 arg2 = avr_op_ori arg1 arg2
call opcode_sbci arg1 arg2 = avr_op_sbci arg1 arg2
call opcode_subi arg1 arg2 = avr_op_subi arg1 arg2
call opcode_bld arg1 arg2 = avr_op_bld arg1 arg2
call opcode_bst arg1 arg2 = avr_op_bst arg1 arg2
call opcode_sbrc arg1 arg2 = avr_op_sbrc arg1 arg2
call opcode_sbrs arg1 arg2 = avr_op_sbrs arg1 arg2
call opcode_brbc arg1 arg2 = avr_op_brbc arg1 arg2
call opcode_brbs arg1 arg2 = avr_op_brbs arg1 arg2
call opcode_ldd_y arg1 arg2 = avr_op_ldd_y arg1 arg2
call opcode_ldd_z arg1 arg2 = avr_op_ldd_z arg1 arg2
call opcode_std_y arg1 arg2 = avr_op_std_y arg1 arg2
call opcode_std_z arg1 arg2 = avr_op_std_z arg1 arg2
call opcode_call arg1 arg2 = avr_op_call arg1 arg2
call opcode_jmp arg1 arg2 = avr_op_jmp arg1 arg2
call opcode_bclr arg1 arg2 = avr_op_bclr arg1 arg2
call opcode_bset arg1 arg2 = avr_op_bset arg1 arg2
call opcode_adiw arg1 arg2 = avr_op_adiw arg1 arg2
call opcode_sbiw arg1 arg2 = avr_op_sbiw arg1 arg2
call opcode_cbi arg1 arg2 = avr_op_cbi arg1 arg2
call opcode_sbi arg1 arg2 = avr_op_sbi arg1 arg2
call opcode_sbic arg1 arg2 = avr_op_sbic arg1 arg2
call opcode_sbis arg1 arg2 = avr_op_sbis arg1 arg2
call opcode_in arg1 arg2 = avr_op_in arg1 arg2
call opcode_out arg1 arg2 = avr_op_out arg1 arg2
call opcode_rcall arg1 arg2 = avr_op_rcall arg1 arg2
call opcode_rjmp arg1 arg2 = avr_op_rjmp arg1 arg2
call opcode_movw arg1 arg2 = avr_op_movw arg1 arg2
call opcode_muls arg1 arg2 = avr_op_muls arg1 arg2
call opcode_mulsu arg1 arg2 = avr_op_mulsu arg1 arg2
call opcode_fmul arg1 arg2 = avr_op_fmul arg1 arg2
call opcode_fmuls arg1 arg2 = avr_op_fmuls arg1 arg2
call opcode_fmulsu arg1 arg2 = avr_op_fmulsu arg1 arg2
call opcode_unknown arg1 arg2 = avr_op_unknown arg1 arg2
