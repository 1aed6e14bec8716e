-- ===== src/Timers.antt =====
-- timers.c: the timer interrupt registers, the 8-bit timer and the 16-bit timers.
pub mod Interrupt
pub mod Eight
pub mod Sixteen
pub mod Multiples
pub mod Count
pub mod Flags
pub mod Paired
pub mod Delivery
use oseid_simulavr.Base.{ℕ, Option, none, some, ◌==◌, if◌then◌else◌}

abbrev pub mask_tov0 : ℕ
mask_tov0 = 0x02

abbrev pub mask_icf1 : ℕ
mask_icf1 = 0x08

abbrev pub mask_ocf1b : ℕ
mask_ocf1b = 0x20

abbrev pub mask_ocf1a : ℕ
mask_ocf1a = 0x40

abbrev pub mask_tov1 : ℕ
mask_tov1 = 0x80

-- The divisor that a clock select sets, from `CS_CK` to `CS_CK_1024`; none for the external sources.
abbrev pub divisor_of : ℕ → Option ℕ
divisor_of cs =
    if cs == 1
    then some 1
    else if cs == 2
    then some 8
    else if cs == 3
    then some 64
    else if cs == 4
    then some 256
    else if cs == 5
    then some 1024
    else none
