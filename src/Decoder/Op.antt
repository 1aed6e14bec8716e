-- ===== src/Decoder/Op.antt =====
-- The handlers that an entry of the lookup table can point to, by the value that op_names.h gives
-- to each; a handler returns one of these values, or BREAK_POINT.
pub data Op : Type 0 where
  opcode_break opcode_eicall opcode_eijmp opcode_elpm opcode_espm opcode_icall opcode_ijmp : Op
  opcode_lpm opcode_nop opcode_ret opcode_reti opcode_sleep opcode_spm opcode_wdr : Op
  opcode_adc opcode_add opcode_and opcode_cp opcode_cpc opcode_cpse opcode_eor opcode_mov : Op
  opcode_mul opcode_or opcode_sbc opcode_sub : Op
  opcode_asr opcode_com opcode_dec opcode_elpm_z opcode_elpm_z_incr opcode_inc opcode_lds : Op
  opcode_ld_x opcode_ld_x_decr opcode_ld_x_incr opcode_ld_y_decr opcode_ld_y_incr : Op
  opcode_ld_z_decr opcode_ld_z_incr opcode_lpm_z opcode_lpm_z_incr opcode_lsr opcode_neg : Op
  opcode_pop opcode_push opcode_ror opcode_sts opcode_st_x opcode_st_x_decr : Op
  opcode_st_x_incr opcode_st_y_decr opcode_st_y_incr opcode_st_z_decr opcode_st_z_incr : Op
  opcode_swap : Op
  opcode_andi opcode_cpi opcode_ldi opcode_ori opcode_sbci opcode_subi : Op
  opcode_bld opcode_bst opcode_sbrc opcode_sbrs opcode_brbc opcode_brbs : Op
  opcode_ldd_y opcode_ldd_z opcode_std_y opcode_std_z opcode_call opcode_jmp : Op
  opcode_bclr opcode_bset opcode_adiw opcode_sbiw opcode_cbi opcode_sbi opcode_sbic : Op
  opcode_sbis opcode_in opcode_out opcode_rcall opcode_rjmp opcode_movw opcode_muls : Op
  opcode_mulsu opcode_fmul opcode_fmuls opcode_fmulsu : Op
  opcode_unknown : Op

-- What a handler returns.
pub data Result : Type 0 where
  executed : Op → Result
  break_point : Result
