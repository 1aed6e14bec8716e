-- ===== src/Instructions/Logic.antt =====
-- The handlers of the operations on bits.
pub mod Bitwise
pub mod Shift
pub mod Bit
