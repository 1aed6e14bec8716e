-- ===== src/Core/Stack/Hardware.antt =====
-- The hardware stack: what its two loops leave in the array.
use oseid_simulavr.Base.{
  ℕ, zero, suc, ◌+◌, ◌-◌, ◌<◌, ◌≡◌, arith, ◌==◌, if◌then◌else◌, ltb, leb, ◌&&◌, update,
}
use oseid_simulavr.Core.State.{HwStack}
use package.oseid_simulavr.Core.Stack.{push_loop, pop_loop, hw_push, hw_pop}

push_loop-lookup :
    (n i : ℕ) (stack : ℕ → ℕ) → push_loop n stack i ≡ (if leb i n then stack n else stack i)
unfolding push_loop
push_loop-lookup zero i stack = ground arith
push_loop-lookup (suc n) i stack =
    ground (arith, push_loop-lookup n i (update stack n (stack (suc n))))

pop_loop-lookup :
    (n i j : ℕ) (stack : ℕ → ℕ)
    → pop_loop n i stack j ≡ (if leb i j && ltb j (i + n) then stack (j + 1) else stack j)
unfolding pop_loop
pop_loop-lookup zero i j stack = ground arith
pop_loop-lookup (suc n) i j stack =
    ground (arith, pop_loop-lookup n (i + 1) j (update stack i (stack (i + 1))))

-- At an entry within its depth, a push on the hardware stack leaves the new value at the top and a
-- copy of what the last entry was at every other: the other entries are lost. A pop gives the top
-- and moves the others up, the last one staying.
pub hw_push-hw_pop :
    (val i : ℕ) (st : HwStack)
    → i < st.depth
    → ((hw_push val st).stack i ≡ (if i == 0 then val else st.stack (st.depth - 1)))
      × ((hw_pop st).1 ≡ st.stack 0)
      × ((hw_pop st).0.stack i ≡ (if i + 1 == st.depth then st.stack i else st.stack (i + 1)))
unfolding hw_push hw_pop
hw_push-hw_pop val i st h = (
  ground (arith, push_loop-lookup (st.depth - 1) i st.stack),
  ground arith,
  ground (arith, pop_loop-lookup (st.depth - 1) 0 i st.stack),
)
