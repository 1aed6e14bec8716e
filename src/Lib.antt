-- ===== src/Lib.antt =====
-- A model of simulavr (simulavr-0.1.2.2/src): a simulator of AVR microcontrollers that decodes and
-- executes the machine code of a device, with its registers, memories, stack, break points and
-- interrupts, its EEPROM, timers, serial devices and ports, and a server for gdb.
--
-- The parts of the program and how they meet. avr_core_run (avrcore.c) resets the core and steps it.
-- A step fetches a word of the flash (flash.c over storage.c), looks up its handler in the table of
-- decoder.c and calls it. A handler reads and writes the registers (register.h), the data memory
-- (memory.c, which hands each address to the device attached there), the stack (stack.c) and the
-- counter (avrcore.h), and sets the clocks that the instruction takes. The step then counts those
-- clocks, at each of which the call backs of the devices run, and delivers a pending interrupt. The
-- EEPROM (eeprom.c), the timers (timers.c), SPI, UART and ADC (spi.c, uart.c, adc.c) register call
-- backs (callback.c) in the core and raise interrupts. The server (gdbserver.c) reads packets and
-- works on the core through the functions of global_gdb_comm (main.c).
--
-- Where each part is modelled. The state of the core is the record AvrCore of Core/State.antt; a C
-- function that changes it is an action Exec AvrCore A of Exec.antt: a function from the state to
-- its result and the new state, or avr_error where the program exits with an error, or undefined
-- where C gives the code no meaning (an index outside an array, a null pointer, a shift by a negative
-- number). A C function keeps its name; avr_core_PC_set and its kin drop the prefix.
--   Base/          numbers of C: unsigned widths as remainders, int as ℤ, arrays as functions
--   Bits/          laws of bit_and, bit_or and bit_xor by digits
--   Storage.antt   storage.c, storage.h, and the word access of flash.c and flash.h
--   Core/          avrcore.h (Counter), register.h and utils.h (Sreg), memory.c, device.c, sram.c and
--                  register.c (Memory), stack.c (Stack), spm_helper.c (Spm)
--   Decoder/       the table of decoder.c: op_names.h (Op), the operand fields (Fields), lookup_opcode
--                  (Lookup), and the encodings of the data sheet that it is compared with (Encoding)
--   Instructions/  the handlers avr_op_* of decoder.c, by kind
--   DList.antt     the lists of utils.c, as the lists of their data
--   Irq.antt       the pending interrupts of avrcore.c
--   Breakpoints.antt  the break points of avrcore.c
--   Run.antt       fetch, interrupt check and reset of avrcore.c
--   Board.antt     the devices of a part with the lists of their call backs (avrcore.h, eeprom.h,
--                  timers.h, spi.h, uart.h, adc.h)
--   Eeprom.antt    eeprom.c
--   Timers.antt    timers.c: the interrupt registers (Interrupt), the timer of eight bits (Eight), the
--                  timer of sixteen bits with its compare registers (Sixteen)
--   Spi.antt       spi.c, with the terminal of the user
--   Uart.antt      uart.c
--   Adc.antt       adc.c
--   Ports.antt     ports.c, over the functions of the connected hardware
--   Callback.antt  callback.c, and the clocks of a step with the call backs
--   OsEid.antt     the EEPROM device of OsEID.c
--   Gdb.antt       gdbserver.c: bytes and acknowledgements (Gdb), texts and replies (Text), the frame of
--                  a packet (Packet), registers, memory and break points (Registers, Memory), queries
--                  (Query), the commands, the run and the main loop (Session); global_gdb_comm of main.c
--                  (Target)
--   Step.antt      avr_core_step and avr_core_run of avrcore.c, on the board
--   Tests/         a small device and the theorems at it
--
-- Bounds and fuel. Loops of the source with a known number of rounds are recursions on it: the clocks
-- of an instruction, the bytes of a push or pop, the entries of the hardware stack, the 128 words of a
-- page. The loop of avr_core_run ends at a signal, so run_loop takes the number of steps until it
-- arrives; continue_loop does so for the loop of gdb_continue, and gdb_main_loop takes the number of
-- messages. A packet has at most 400 characters and gdb_read_byte tries ten times, as in the source.
-- wr_eecr_loop has two rounds: eeprom_wr_eecr calls itself at most once. The decoder is compared with
-- the data sheet by evaluation of all 65536 opcodes, in sixteen blocks (Decoder/Lookup/Low and High).
--
-- Where the model says more than C. dlist_iterator (utils.c) goes on from a node that it has just
-- freed, whenever a call back ends; C gives that no meaning. callback_list_execute_all goes on with the
-- rest of the list, as if the freed node still held its `next`.
--
-- What is not modelled. The memory map of AvrCore does not lead to the devices of Board: their
-- functions are called directly. USB is left for later. Sockets, the command line, the display,
-- files, messages and allocation are I/O or glue; the bytes that a socket gives and the numbers that
-- the user types are parameters, as are the names of the io registers. ACSR, MCUCR and WDTCR are left
-- out: SLEEP and WDR end the process before they reach them.
pub mod Base
pub mod Board
pub mod Exec
pub mod Bits
pub mod Storage
pub mod Core
pub mod Decoder
pub mod Instructions
pub mod DList
pub mod Eeprom
pub mod Timers
pub mod Spi
pub mod Uart
pub mod Adc
pub mod Ports
pub mod Callback
pub mod Step
pub mod Irq
pub mod OsEid
pub mod Gdb
pub mod Breakpoints
pub mod Run
pub mod Tests
