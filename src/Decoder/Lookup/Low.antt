-- ===== src/Decoder/Lookup/Low.antt =====
-- A part of the check of the lookup table over all opcodes, by the high byte of the opcode.
use oseid_simulavr.Base.{◌+◌, ◌*◌, true, ◌≡◌, refl, all_below}
use package.oseid_simulavr.Decoder.Lookup.Encoding.{entry_agrees}

pub block_0 : all_below 16 (λ h. all_below 256 (λ l. entry_agrees ((0 + h) * 256 + l))) ≡ true
unfolding all_below entry_agrees
block_0 = refl

pub block_1 : all_below 16 (λ h. all_below 256 (λ l. entry_agrees ((16 + h) * 256 + l))) ≡ true
unfolding all_below entry_agrees
block_1 = refl

pub block_2 : all_below 16 (λ h. all_below 256 (λ l. entry_agrees ((32 + h) * 256 + l))) ≡ true
unfolding all_below entry_agrees
block_2 = refl

pub block_3 : all_below 16 (λ h. all_below 256 (λ l. entry_agrees ((48 + h) * 256 + l))) ≡ true
unfolding all_below entry_agrees
block_3 = refl

pub block_4 : all_below 16 (λ h. all_below 256 (λ l. entry_agrees ((64 + h) * 256 + l))) ≡ true
unfolding all_below entry_agrees
block_4 = refl

pub block_5 : all_below 16 (λ h. all_below 256 (λ l. entry_agrees ((80 + h) * 256 + l))) ≡ true
unfolding all_below entry_agrees
block_5 = refl

pub block_6 : all_below 16 (λ h. all_below 256 (λ l. entry_agrees ((96 + h) * 256 + l))) ≡ true
unfolding all_below entry_agrees
block_6 = refl

pub block_7 : all_below 16 (λ h. all_below 256 (λ l. entry_agrees ((112 + h) * 256 + l))) ≡ true
unfolding all_below entry_agrees
block_7 = refl
