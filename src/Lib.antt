-- ===== src/Lib.antt =====
-- The bare-metal software of cocoapuffs-fpga: the C++ libraries and programs that run on the soft
-- cores (SERV, rv32, NOEL-V, Muntjac) of its FPGA designs. A program polls a UART, receives an
-- Intel HEX stream over it, writes the decoded bytes to memory and starts what it has received;
-- around that there are a memory test, an SD card driver, a timer, an interrupt-driven UART and an
-- interrupt controller; one program of the host drives a simulation.
--
-- How the parts interact. They reach the hardware by volatile loads and stores, and Pic also by the
-- control registers of the core. The upload programs (Upload) print and read lines with the polling
-- UART driver (Uart), give the lines to the library kk_ihex, which is not part of the repository,
-- and kk_ihex calls the record handler (Ihex) back, which stores bytes and prints with the same
-- driver; the DDR3 loader (Ddr3) has a record handler and a loop of its own, which the loader of
-- the Muntjac board (Muntjac) repeats. The memory test (Memtest) prints with the driver too. The SD
-- card driver (SdCard), the timer (Timer) and the interrupt-driven UART (UartIrq) stand on the
-- registers (Reg), and the interrupt controller (Pic) calls the handlers of these two.
--
-- Files and code:
--   Prelude           shared names: numbers, Booleans, lists, C strings, the digits of bit_and and
--                     bit_or (Prelude.Bits), signed results (Prelude.Int)
--   Machine           the processor as the code sees it: `script` holds the words with which the
--                     hardware answers the loads, in their order (reads of control registers are
--                     among them); `trace` records every access; and the static object uart_buf. A
--                     function is a state transformer M whose outcome is done, waiting (the script
--                     ended at a load), halted (`for (;;);`) or fault (a string without a NUL).
--                     Machine.Loop: busy-wait loops. Machine.Trace: the record read as streams.
--                     Machine.Total: runs that complete. Machine.Frame: what every run keeps,
--                     complete or not
--   Uart              lib/uart/uart.cc: UartBuf::CanWrite is can_write, PutAsync put_async, Put
--                     put, GetAsync get_async, Get get, and the free functions have their own
--                     names. Children: Status (the bits of a status word), Pending (the ring),
--                     Account (the account of received bytes), Write, Read, Print, Line, Correct
--                     (the interface), Ledger (what is taken in lines, and what is lost), Framed
--                     (the frame for callers), Spending (the answers used up), Served (runs on a
--                     port that always has room; children Line, Answered, Halted)
--   Ihex              lib/ihex/ihex.cc: ihex_data_read on a record that carries what the code reads
--                     of the decoder's state. Children: Loaded, Framed, Answered
--   Upload            bin/noelv_serv_upload/main.cc and bin/rv32_ddr3exec/software/main.cc.
--                     Children: Received, Taken (the lines), OneLine, Stream (the memory),
--                     Handoff (percontrol), Framed, Rounds (the bound), Overlong (a line that
--                     does not fit), Lines, Reached (streams that are received to their end),
--                     Whole (noelv_serv_upload on such a stream), Jumps, Exec (the jump of
--                     rv32_ddr3exec)
--   Ddr3              bin/rv32_ddr3/software/main.cc. Children: Sound (the handler), Framed, Stream
--                     (the memory), Entry (the jump), Rounds (the bound), Answered, Reached
--                     (streams that are received to their end)
--   Muntjac           bin/muntjac/software: main.cc and perinput_bits.h. Child: Entry
--   SdCard            lib/sdcard.h: one definition for each method, loops by the retries left.
--                     Children: Exchange, Command, Select, Block, Start, Serve
--   Memtest           lib/memtest/memtest.cc. Children: Verdict (the class), Cells (the functions)
--   Reg, Reg.Mock     lib/reg.cc, on the boards and on the host; Reg.Agreement compares them
--   Timer             lib/timer.cc. Child: Armed
--   UartIrq           lib/uart.cc, class lib::Uart. Children: Handler, Reading, Framed
--   Pic               lib/pic.cc: the interrupt controller, which calls the handlers of the timer
--                     and of lib::Uart. Children: Log (the accesses to the
--                     registers in order), Serviced, Dispatch (to lib::Uart)
--   Arch              lib/arch/rv32/irq.cc: the interrupt entry for other handlers
--   Programs          bin/hello, bin/echo, bin/memerr, bin/rv32_uart. Child: Endless
--   PicTest           bin/pic_test: main up to its loop, and the loop and the interrupts as a step
--                     relation (Step, Reach). Children: Rounds (the loop undisturbed), Ready, Kept,
--                     History (the accesses in order), Safe (the registers under interrupts)
--   Simulation        boards/rv32_uart/main.cc, the driver of a simulation. Child: Waves
-- Each Tests module runs its component on concrete answers.
--
-- State. uart_buf is part of the machine since all programs share it. The globals of lib/ihex are
-- the record Ihex.Globals, handed from call to call. Objects of the other classes are records; an
-- operation that changes one returns it. Buffers that the code fills are results: the bytes
-- written.
--
-- Numbers are natural numbers; addresses and indices wrap where the code's types do (`% 2 ^ 32`, `%
-- buffer_size`). `char` is unsigned on RISC-V. The counters `line` and `dot_count` are `int`; the
-- code resets dot_count at 40, and 2^31 lines are out of reach of a stream.
--
-- Bounds. A busy-wait loop (Machine.Loop.until) loads in every round, so one round more than there
-- are answers is enough. Each round of the upload's loop sends an XOFF, which loads, so the same
-- bound is enough there. The loop of the DDR3 loaders has no flow control: a round takes a saved
-- byte or loads, and a load saves at most one, so twice the answers and the saved bytes are enough.
-- The loop of bin/rv32_uart prints in each round. The loops of the simulation driver count to their
-- limits, which `vluint64_t` holds. The retries of the SD card driver are the code's own. The
-- handler of lib::Uart is bounded by the places of its ring, and its wait by the answers. All other
-- loops are structural.
--
-- Parameters. Vsnprintf is the C library's vsnprintf for a fixed buffer (hypothesis Documented: it
-- behaves as C says); KkIhex is the decoder: a state, what ihex_read_bytes calls back for some
-- bytes, and what ihex_end_read does. No theorem assumes anything of KkIhex but which records it
-- makes of the lines at hand. Simulation.TopLevel is the model that Verilator generates: its state,
-- the clock pin at first, and eval; getcwd and atoll are arguments of its main, and main_handler is
-- one of Arch.default_handler. Where a program jumps, the code that it jumps to is taken to return.
--
-- Not modelled: the startup code of third_party/riscv32_toolchain, and everything that is not
-- C++ of this program (VHDL, Verilog, build rules, assembly, vendored projects). Delay loops
-- touch no hardware and are left out. Interrupts are taken where UartIrq.read_line waits for a
-- character, and in PicTest: there they come between ReadCounter, the tests of the loop and the
-- passes of the wait in Put, so not between the load and the store of one PutAsync. The wait of
-- read_line runs the handler of lib::Uart directly, without Pic::InterruptHandler around it and so
-- without the `!` that this prints. What a stored byte does where it lands is left out: the record
-- handlers store at any address, and a byte at a device's register, or in the program's own memory,
-- is an event of the trace like the others, and changes neither the device nor the program.
pub mod Prelude
pub mod Machine
pub mod Uart
pub mod Reg
pub mod Timer
pub mod UartIrq
pub mod Pic
pub mod Memtest
pub mod SdCard
pub mod Ihex
pub mod Upload
pub mod Ddr3
pub mod Muntjac
pub mod Arch
pub mod Programs
pub mod PicTest
pub mod Simulation
