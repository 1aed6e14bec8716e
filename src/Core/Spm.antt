-- ===== src/Core/Spm.antt =====
-- spm_helper.c: the operations of the SPM instruction on the page buffer and the flash.
use oseid_simulavr.Base.{
  ℕ, zero, suc, ◌+◌, ◌*◌, bit_and, bit_or, pos, ltb, ◌==◌, if◌then◌else◌, update, u8, ◌<<<◌, ◌>>>◌,
}
use oseid_simulavr.Exec.{Exec, pure, stop, gets, modify, ◌>>=◌, ◌>>◌}
use oseid_simulavr.Storage.{flash_read, flash_write}
use oseid_simulavr.Core.State.{AvrCore, on_flash}

-- `for (i = 0; i < 128; i++) flash_write (flash, Z + i, 0xffff)`, from `i` with `left` rounds to go.
unfoldable pub erase_loop : ℕ → ℕ → ℕ → Exec AvrCore Unit
erase_loop zero z i = pure tt
erase_loop (suc left) z i = do
  on_flash (flash_write (pos (z + i)) 0xffff)
  erase_loop left z (i + 1)

-- The loop of the page write.
unfoldable pub page_write_loop : ℕ → ℕ → ℕ → Exec AvrCore Unit
page_write_loop zero z i = pure tt
page_write_loop (suc left) z i = do
  f ← on_flash (flash_read (pos (z + i)))
  buffer ← gets (λ c. c.spmhelper.page_buffer)
  let lo = bit_and (u8 (bit_and f 0xff)) (buffer (i * 2))
  let hi = bit_and (u8 (f >>> 8)) (buffer (i * 2 + 1))
  on_flash (flash_write (pos (z + i)) (bit_or (hi <<< 8) lo))
  page_write_loop left z (i + 1)

-- `memset (page_buffer, 0xff, 256)`
abbrev pub filled : (ℕ → ℕ) → ℕ → ℕ
filled buffer i = if ltb i 256 then 0xff else buffer i

unfoldable pub set_spmcsr : ℕ → Exec AvrCore Unit
set_spmcsr v = modify (λ c. record c { spmhelper = record c.spmhelper { spmcsr = v } })

unfoldable pub set_page_buffer : (ℕ → ℕ) → Exec AvrCore Unit
set_page_buffer b = modify (λ c. record c { spmhelper = record c.spmhelper { page_buffer = b } })

-- The word address of a page, `(Z >> 1) & 0xff80`.
abbrev pub page_address : ℕ → ℕ
page_address z = bit_and (z >>> 1) 0xff80

unfoldable pub spm_run : ℕ → ℕ → ℕ → Exec AvrCore Unit
unfolding set_spmcsr set_page_buffer
spm_run reg0 reg1 z = do
  helper ← gets (λ c. c.spmhelper)
  if helper.spmcsr == 0x11
      then (do set_page_buffer (filled helper.page_buffer); set_spmcsr 0)
      else if helper.spmcsr == 0x01
      then (do
        let z' = bit_and z 0xfe
        set_page_buffer (update (update helper.page_buffer z' (u8 reg0)) (z' + 1) (u8 reg1))
        set_spmcsr 0)
      else if helper.spmcsr == 0x03
      then (do erase_loop 128 (page_address z) 0; set_spmcsr 0)
      else if helper.spmcsr == 0x05
      then (do page_write_loop 128 (page_address z) 0; set_spmcsr 0)
      else stop
