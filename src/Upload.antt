-- ===== src/Upload.antt =====
-- The programs that receive an Intel HEX stream over the serial port and start what it holds:
-- bin/noelv_serv_upload/main.cc and bin/rv32_ddr3exec/software/main.cc.
pub mod Taken
pub mod Received
pub mod OneLine
pub mod Stream
pub mod Framed
pub mod Handoff
pub mod Rounds
pub mod Overlong
pub mod Lines
pub mod Jumps
pub mod Exec
pub mod Reached
pub mod Whole
mod Tests
use cocoapuffs_fpga.Prelude.{
  ℕ, zero, suc, ◌+◌, Bool, true, false, not, Option, none, some, List, [], ◌∷◌, length, bit_and,
  ◌==◌, if◌then◌else◌, literal,
}
use cocoapuffs_fpga.Machine.{M, waiting, pure, halt, ◌>>=◌, ◌>>◌, load32, store32, jump_to}
use cocoapuffs_fpga.Machine.Loop.{until}
use cocoapuffs_fpga.Uart.{buffer_size, Vsnprintf, uart_putchar, uart_getline, printme, kprintf}
use cocoapuffs_fpga.Ihex.{Record, Globals, ihex_data_read}

-- The library kk_ihex: a decoder, the records that it calls back for the bytes of one call of
-- ihex_read_bytes, and those for ihex_end_read.
pub record KkIhex : Type 1 where
  pub State : Type 0
  pub begin_read : State
  pub read_bytes : State → List ℕ → List Record × State
  pub end_read : State → List Record

abbrev pub xon : ℕ
xon = 0x11

abbrev pub xoff : ℕ
xoff = 0x13

-- The `strlen(buf)` bytes at `buf`.
abbrev pub before_nul : List ℕ → List ℕ
before_nul [] = []
before_nul (c ∷ cs) = if c == 0 then [] else c ∷ before_nul cs

-- kPerctl and its bits.
abbrev pub perctl : ℕ
perctl = 0x4000_0040

abbrev pub mux_to_noelv : ℕ
mux_to_noelv = 0x1

abbrev pub noelv_run : ℕ
noelv_run = 0x2

abbrev pub rec_dump : ℕ
rec_dump = 0x4

-- kServUart and kTxFifoEmpty.
abbrev pub serv_uart : ℕ
serv_uart = 0x4000_0010

abbrev pub tx_fifo_empty : ℕ
tx_fifo_empty = 0x400

-- kMemoryBase, as the BUILD file of rv32_ddr3exec defines LIB_HW_MEMORY_BASE.
abbrev pub memory_base : ℕ
memory_base = 0x0004_0000

-- lib::hw::MemStart and lib::hw::MemStartPtr
abbrev pub mem_start : ℕ
mem_start = memory_base

abbrev pub mem_start_ptr : ℕ
mem_start_ptr = memory_base

abbrev pub start_globals : Globals
start_globals = record { eof = false; line = 1; dot_count = 0 }

module _ (vsnprintf : Vsnprintf) (kk : KkIhex) where
  open kk use {State, read_bytes}

  -- The callbacks of one call of the library.
  unfoldable pub callbacks : List Record → Globals → M Globals
  callbacks [] g = pure g
  callbacks (r ∷ rs) g = ihex_data_read vsnprintf r g >>= λ g'. callbacks rs g'

  -- What follows `uart_getline` in the loop, up to its end.
  unfoldable pub take_line : Bool → List ℕ → State → Globals → M (State × Globals)
  take_line line_ok buf s g =
      if not line_ok then uart_putchar xon >> printme (literal "1 err") >> halt else (do
        g' ← callbacks (read_bytes s (before_nul buf)).0 g
        pure ((read_bytes s (before_nul buf)).1, g'))

  -- One round of the loop.
  unfoldable pub receive_line : Bool → State → Globals → M (State × Globals)
  receive_line first_pass s g = do
    (if first_pass then pure tt else uart_putchar xon)
    l ← uart_getline buffer_size
    uart_putchar xoff
    take_line l.0 l.1 s g

  -- `while (!gEof)`, on fuel.
  unfoldable pub receive_lines : ℕ → Bool → State → Globals → M (State × Globals)
  receive_lines zero first_pass s g m = waiting m
  receive_lines (suc n) first_pass s g m =
      let rest = (receive_line first_pass s g >>= λ x. receive_lines n false x.0 x.1) m in
      if g.eof then pure (s, g) m else rest

  -- From `gEof = false` to the XON after ihex_end_read. Each round loads, so the script bounds them.
  unfoldable pub upload : Globals → M Globals
  upload g m =
      (do
        x ← receive_lines (suc (length m.script)) true kk.begin_read (record g { eof = false })
        g' ← callbacks (kk.end_read x.0) x.1
        uart_putchar xon
        pure g')
        m

  abbrev pub poll_drained : M (Option (Unit {0}))
  poll_drained = do
    v ← load32 serv_uart
    pure (if bit_and v tx_fifo_empty == 0 then none else some tt)

  -- main of noelv_serv_upload; its two delay loops touch no hardware.
  unfoldable pub noelv_main : M (Unit {0})
  noelv_main = do
    printme (literal "32-bit boot\r\n")
    printme (literal "ihex:")
    upload start_globals
    printme (literal "noelv")
    until poll_drained
    store32 perctl (mux_to_noelv + noelv_run)
    store32 perctl (mux_to_noelv + noelv_run + rec_dump)
    halt

  -- What follows the upload in main of rv32_ddr3exec; kMemoryBegin is MemStartPtr().
  unfoldable pub ddr3exec_end : M (Unit {0})
  ddr3exec_end = do
    begin ← load32 mem_start_ptr
    kprintf vsnprintf (literal "b: 0x%08x\n") (begin ∷ [])
    kprintf vsnprintf (literal "m: 0x%08x\n") (mem_start_ptr ∷ [])
    kprintf vsnprintf (literal "j: 0x%08x\n") (mem_start_ptr ∷ [])
    jump_to mem_start_ptr
    printme (literal "halt.")
    halt

  -- main of rv32_ddr3exec.
  unfoldable pub ddr3exec_main : M (Unit {0})
  ddr3exec_main = do printme (literal "ihex:"); upload start_globals; ddr3exec_end
