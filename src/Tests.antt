-- ===== src/Tests.antt =====
-- The theorems at concrete inputs.
mod Device
mod Arithmetic
mod Machine
mod Board
mod Peripherals
mod Step
mod Server
