-- ===== src/Core/Stack.antt =====
-- stack.c: the hardware stack of devices with no SRAM, and the stack in memory.
pub mod RoundTrip
pub mod Hardware
use oseid_simulavr.Base.{
  ℕ, zero, suc, ◌+◌, ◌-◌, ◌*◌, ◌^◌, bit_and, bit_or, pos, leb, if◌then◌else◌, update, u8, u16, u32,
  ◌<<<◌, ◌>>>◌,
}
use oseid_simulavr.Exec.{ok, Exec, pure, stop, gets, modify, ◌>>=◌, ◌>>◌}
use oseid_simulavr.Core.State.{Stack, hw, mem, HwStack, AvrCore}
use oseid_simulavr.Core.Memory.{mem_read, mem_write}

-- `for (i = 0; i < depth - 1; i++) stack[i] = stack[i + 1]`, from `i` with `left` rounds to go.
unfoldable pub pop_loop : ℕ → ℕ → (ℕ → ℕ) → ℕ → ℕ
pop_loop zero i stack = stack
pop_loop (suc left) i stack = pop_loop left (i + 1) (update stack i (stack (i + 1)))

unfoldable pub hw_pop : HwStack → HwStack × ℕ
unfolding pop_loop
hw_pop st = (record st { stack = pop_loop (st.depth - 1) 0 st.stack }, st.stack 0)

-- `for (i = depth - 1; i; i--) stack[i - 1] = stack[i]`
unfoldable pub push_loop : ℕ → (ℕ → ℕ) → ℕ → ℕ
push_loop zero stack = stack
push_loop (suc i) stack = push_loop i (update stack i (stack (suc i)))

unfoldable pub hw_push : ℕ → HwStack → HwStack
unfolding push_loop
hw_push val st = record st { stack = update (push_loop (st.depth - 1) st.stack) 0 val }

unfoldable pub sp_get : Exec AvrCore ℕ
sp_get = gets (λ c. u16 (c.sp.sph <<< 8 + c.sp.spl))

unfoldable pub sp_set : ℕ → Exec AvrCore Unit
sp_set val =
    modify
      (λ c. record c { sp = record c.sp { spl = u8 (bit_and val 0xff); sph = u8 (val >>> 8) } })

-- The loop of `mem_pop` for `i` from `left - 1` down to 0, over `sp` and `val`.
unfoldable pub mem_pop_loop : ℕ → ℕ → ℕ → Exec AvrCore (ℕ × ℕ)
mem_pop_loop zero sp val = pure (sp, val)
mem_pop_loop (suc i) sp val = do
  b ← mem_read (pos (u16 (sp + 1)))
  mem_pop_loop i (u16 (sp + 1)) (u32 (bit_or val (b <<< (i * 8))))

unfoldable pub mem_pop : ℕ → Exec AvrCore ℕ
unfolding mem_pop_loop sp_get sp_set
mem_pop bytes = do
  sp ← sp_get
  if leb 4 bytes then stop else do (sp', val) ← mem_pop_loop bytes sp 0; sp_set sp'; pure val

-- The loop of `mem_push` with `left` rounds to go.
unfoldable pub mem_push_loop : ℕ → ℕ → ℕ → Exec AvrCore ℕ
mem_push_loop zero sp val = pure sp
mem_push_loop (suc left) sp val = do
  mem_write (pos sp) (bit_and val 0xff)
  mem_push_loop left (u16 (sp + 2 ^ 16 - 1)) (val >>> 8)

unfoldable pub mem_push : ℕ → ℕ → Exec AvrCore Unit
unfolding mem_push_loop sp_get sp_set
mem_push bytes val = do
  sp ← sp_get
  if leb 4 bytes then stop else do sp' ← mem_push_loop bytes sp val; sp_set sp'

abbrev pub pop_from : ℕ → Stack → Exec AvrCore ℕ
pop_from bytes (hw st) = λ c. ok ((hw_pop st).1, record c { stack = hw (hw_pop st).0 })
pop_from bytes mem = mem_pop bytes

abbrev pub push_to : ℕ → ℕ → Stack → Exec AvrCore Unit
push_to bytes val (hw st) = λ c. ok (tt, record c { stack = hw (hw_push val st) })
push_to bytes val mem = mem_push bytes val

unfoldable pub stack_pop : ℕ → Exec AvrCore ℕ
unfolding hw_pop mem_pop
stack_pop bytes c = pop_from bytes c.stack c

unfoldable pub stack_push : ℕ → ℕ → Exec AvrCore Unit
unfolding hw_push mem_push
stack_push bytes val c = push_to bytes (u32 val) c.stack c
