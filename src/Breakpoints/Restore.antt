-- ===== src/Breakpoints/Restore.antt =====
-- A break point is in the way of nothing once it is removed.
use oseid_simulavr.Base.{ℕ, ◌+◌, ◌-◌, ◌≡◌, refl, ap, ◌∙◌, arith, pos, true, none, some}
use oseid_simulavr.Exec.{ok, then_with, ◌>>◌}
use oseid_simulavr.Storage.{flash_write}
use oseid_simulavr.Storage.Words.{
  HasWord, with_word, word_at, IsByteStorage, flash_write-run, flash_read-word_at,
  with_word-word_at,
}
use oseid_simulavr.Core.State.{AvrCore, BreakPt, flash_result}
use oseid_simulavr.DList.Laws.{dlist_lookup-dlist_add, dlist_delete-dlist_add}
use package.oseid_simulavr.Breakpoints.{
  same_pc, break_at, brk_pt_list_add, brk_pt_list_delete, brk_pt_list_lookup, break_opcode,
  avr_core_insert_breakpoint, avr_core_remove_breakpoint, remove_found, set_breakpoints,
}

-- The core with a break point at `pc`.
abbrev pub with_breakpoint : ℕ → AvrCore → AvrCore
with_breakpoint pc c = record c {
  breakpoints = brk_pt_list_add (pos pc) (word_at pc c.flash) c.breakpoints;
  flash = with_word pc break_opcode c.flash;
}

pub avr_core_insert_breakpoint-run :
    (pc : ℕ) (c : AvrCore)
    → HasWord pc c.flash
    → IsByteStorage c.flash
    → avr_core_insert_breakpoint (pos pc) c ≡ ok (tt, with_breakpoint pc c)
unfolding avr_core_insert_breakpoint
avr_core_insert_breakpoint-run pc c h hb =
    let insn = word_at pc c.flash in
    let c' = set_breakpoints (brk_pt_list_add (pos pc) insn c.breakpoints) c in
    ap
      (λ o. then_with (flash_result c o) (λ insn s.
        flash_result (set_breakpoints (brk_pt_list_add (pos pc) insn s.breakpoints) s)
          (flash_write (pos pc) break_opcode s.flash)))
      (flash_read-word_at pc c.flash h hb)
    ∙ ap (flash_result c') (flash_write-run pc break_opcode c.flash h (omega arith))

-- A break point is inserted at a word of a flash of bytes, in its bounds, where the list has none;
-- removing it then brings back the core: the flash, the list and all else.
pub avr_core_remove_breakpoint-avr_core_insert_breakpoint :
    (pc : ℕ) (c : AvrCore)
    → HasWord pc c.flash
    → IsByteStorage c.flash
    → brk_pt_list_lookup (pos pc) c.breakpoints ≡ none
    → (avr_core_insert_breakpoint (pos pc) >> avr_core_remove_breakpoint (pos pc)) c ≡ ok (tt, c)
unfolding avr_core_remove_breakpoint brk_pt_list_lookup brk_pt_list_delete brk_pt_list_add
avr_core_remove_breakpoint-avr_core_insert_breakpoint pc c h hb new =
    let insn = word_at pc c.flash in
    let bp = break_at (pos pc) insn in
    let c' = with_breakpoint pc c in
    let key : (d : BreakPt) → same_pc d (break_at (pos pc) 0) ≡ same_pc d bp = λ d. refl in
    let found : same_pc bp bp ≡ true = ground arith in
    let lookup : brk_pt_list_lookup (pos pc) c'.breakpoints ≡ some bp =
      dlist_lookup-dlist_add same_pc bp (break_at (pos pc) 0) key found c.breakpoints new in
    let delete : brk_pt_list_delete (pos pc) c'.breakpoints ≡ c.breakpoints =
      dlist_delete-dlist_add same_pc bp (break_at (pos pc) 0) key found c.breakpoints new in
    ap (λ o. then_with o (λ (t : Unit). avr_core_remove_breakpoint (pos pc)))
      (avr_core_insert_breakpoint-run pc c h hb)
    ∙ ap (λ found. remove_found (pos pc) found c') lookup
    ∙ ap (λ bs. flash_result (set_breakpoints bs c') (flash_write (pos pc) insn c'.flash)) delete
    ∙ ap (flash_result (set_breakpoints c.breakpoints c')) (
        flash_write-run pc insn c'.flash h
          (omega (arith, hb (pc + pc - c.flash.base), hb (pc + pc - c.flash.base + 1))))
    ∙ ap (λ s. ok (tt, record c { flash = s })) (with_word-word_at pc break_opcode c.flash hb)
