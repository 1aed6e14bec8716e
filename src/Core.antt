-- ===== src/Core.antt =====
-- avrcore.h: the simulated processor with the virtual devices that belong to it (register.h,
-- stack.c, sram.c, spm_helper.h, memory.h) and its accessors.
pub mod State
pub mod Sreg
pub mod Counter
pub mod Memory
pub mod Stack
pub mod Spm
