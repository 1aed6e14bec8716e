-- ===== src/Instructions.antt =====
-- decoder.c: the handlers `avr_op_ADC` to `avr_op_UNKNOWN`.
pub mod Flags
pub mod Arithmetic
pub mod Logic
pub mod Multiply
pub mod Transfer
pub mod Pointer
pub mod Load
pub mod Store
pub mod Program
pub mod Skip
pub mod Jump
pub mod System
