-- ===== src/Ddr3.antt =====
-- bin/rv32_ddr3/software/main.cc: the first DDR3 loader. Its record handler looks at the checksum
-- before it stores, and loads relative to the start of the memory; its main tests one cell, receives
-- an Intel HEX stream without flow control, and jumps into what it has received.
pub mod Sound
pub mod Framed
pub mod Stream
pub mod Entry
pub mod Rounds
pub mod Answered
pub mod Reached
mod Tests
use cocoapuffs_fpga.Prelude.{
  ℕ, zero, suc, ◌+◌, ◌*◌, ◌%◌, ◌^◌, Bool, true, false, not, List, [], ◌∷◌, length, if◌then◌else◌,
  literal,
}
use cocoapuffs_fpga.Machine.{Machine, M, waiting, pure, halt, ◌>>=◌, ◌>>◌, load32, jump_to}
use cocoapuffs_fpga.Uart.{Vsnprintf, buffer_size, uart_getline, printme, printmef, kprintf}
use cocoapuffs_fpga.Uart.Pending.{pending_count}
use cocoapuffs_fpga.Memtest.{test_one_cell}
use cocoapuffs_fpga.Upload.{KkIhex, before_nul}
use cocoapuffs_fpga.Ihex.{Record, data_record, end_of_file_record, other_record, copy_bytes}

abbrev pub ram_start : ℕ
ram_start = 0x8000_0000

module _ (vsnprintf : Vsnprintf) where
  load_record : Record → M (Unit {0})
  load_record r = do
    kprintf vsnprintf (literal "a: %08x: len=%4d(%4x): line_len=%4d(%4x)")
        (r.offset ∷ length r.bytes ∷ length r.bytes ∷ r.line_length ∷ r.line_length ∷ [])
    copy_bytes ((r.address + ram_start) % 2 ^ 32) r.bytes
    kprintf vsnprintf (literal "\n") []
    pure tt

  -- The part of the handler after the test of the checksum; the value is gEof.
  handle_record : Record → Bool → M Bool
  unfolding load_record
  handle_record r eof = elim r.type [
    | data_record ↦ load_record r >> pure eof
    | end_of_file_record ↦ printme (literal "EOF") >> pure true
    | other_record ↦ pure eof
  ]

  -- ihex_data_read; it returns true if it returns, so the model returns what it left in gEof.
  unfoldable pub ihex_data_read : Record → Bool → M Bool
  unfolding handle_record
  ihex_data_read r eof =
      if r.checksum_error then printme (literal "ihex err") >> halt else handle_record r eof

-- The rounds that the machine can give the loop: each takes a saved byte or loads, and a load saves
-- at most one byte.
abbrev pub budget : Machine → ℕ
budget m = 2 * length m.script + pending_count m.uart_buf

-- jumpfn
abbrev pub jumpfn : ℕ
jumpfn = 0x8000_0004

module _ (vsnprintf : Vsnprintf) (kk : KkIhex) where
  open kk use {State, begin_read, read_bytes, end_read}

  -- The callbacks of one call of the library.
  unfoldable pub handle_records : List Record → Bool → M Bool
  handle_records [] eof = pure eof
  handle_records (r ∷ rs) eof = ihex_data_read vsnprintf r eof >>= λ eof'. handle_records rs eof'

  -- What follows `uart_getline` in the loop, up to its end.
  unfoldable pub use_line : Bool → List ℕ → State → Bool → M (State × Bool)
  use_line line_ok buf s eof = if not line_ok then printme (literal "1 err") >> halt else (do
    eof' ← handle_records (read_bytes s (before_nul buf)).0 eof
    pure ((read_bytes s (before_nul buf)).1, eof'))

  -- One round of the loop.
  unfoldable pub load_line : State → Bool → M (State × Bool)
  load_line s eof = uart_getline buffer_size >>= λ l. use_line l.0 l.1 s eof

  -- `while (!gEof)`, on fuel.
  unfoldable pub load_lines : ℕ → State → Bool → M (State × Bool)
  load_lines zero s eof m = waiting m
  load_lines (suc n) s eof m =
      let rest = (load_line s eof >>= λ x. load_lines n x.0 x.1) m in
      if eof then pure (s, eof) m else rest

  -- From ihex_begin_read to ihex_end_read; the value is gEof.
  unfoldable pub load_stream : M Bool
  load_stream m =
      (load_lines (suc (budget m)) begin_read false >>= λ x. handle_records (end_read x.0) x.1) m

  -- What follows the stream, to the end of main.
  unfoldable pub load_end : M (Unit {0})
  load_end = do
    printme (literal "u")
    begin ← load32 ram_start
    printme (literal "t")
    kprintf vsnprintf (literal "b: 0x%08x\n") (begin ∷ [])
    kprintf vsnprintf (literal "m: %0x\n") (ram_start ∷ [])
    kprintf vsnprintf (literal "m: %0x\n") (jumpfn ∷ [])
    jump_to jumpfn
    printme (literal "completed")
    halt

  -- From "ihex:" to the end of main.
  unfoldable pub load_and_jump : M (Unit {0})
  load_and_jump = do
    printme (literal "ihex:")
    printmef vsnprintf (literal "buf: %d") (buffer_size ∷ [])
    load_stream
    load_end

  -- main
  unfoldable pub ddr3_main : M (Unit {0})
  ddr3_main = do
    test_one_cell vsnprintf 0x1111_1111 0
    printme (literal ">-< memtest")
    load_and_jump
