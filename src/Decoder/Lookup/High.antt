-- ===== src/Decoder/Lookup/High.antt =====
-- A part of the check of the lookup table over all opcodes, by the high byte of the opcode.
use oseid_simulavr.Base.{◌+◌, ◌*◌, true, ◌≡◌, refl, all_below}
use package.oseid_simulavr.Decoder.Lookup.Encoding.{entry_agrees}

pub block_8 : all_below 16 (λ h. all_below 256 (λ l. entry_agrees ((128 + h) * 256 + l))) ≡ true
unfolding all_below entry_agrees
block_8 = refl

pub block_9 : all_below 16 (λ h. all_below 256 (λ l. entry_agrees ((144 + h) * 256 + l))) ≡ true
unfolding all_below entry_agrees
block_9 = refl

pub block_10 : all_below 16 (λ h. all_below 256 (λ l. entry_agrees ((160 + h) * 256 + l))) ≡ true
unfolding all_below entry_agrees
block_10 = refl

pub block_11 : all_below 16 (λ h. all_below 256 (λ l. entry_agrees ((176 + h) * 256 + l))) ≡ true
unfolding all_below entry_agrees
block_11 = refl

pub block_12 : all_below 16 (λ h. all_below 256 (λ l. entry_agrees ((192 + h) * 256 + l))) ≡ true
unfolding all_below entry_agrees
block_12 = refl

pub block_13 : all_below 16 (λ h. all_below 256 (λ l. entry_agrees ((208 + h) * 256 + l))) ≡ true
unfolding all_below entry_agrees
block_13 = refl

pub block_14 : all_below 16 (λ h. all_below 256 (λ l. entry_agrees ((224 + h) * 256 + l))) ≡ true
unfolding all_below entry_agrees
block_14 = refl

pub block_15 : all_below 16 (λ h. all_below 256 (λ l. entry_agrees ((240 + h) * 256 + l))) ≡ true
unfolding all_below entry_agrees
block_15 = refl
