-- ===== src/Decoder.antt =====
-- decoder.c: the operand fields of an opcode and the selection of its handler.
pub mod Op
pub mod Fields
pub mod Lookup
