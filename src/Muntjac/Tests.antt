-- ===== src/Muntjac/Tests.antt =====
-- Runs of the two loaders on a stream of two lines: a decoder that makes a data record of the first
-- line and the end of the stream of any other, and a vsnprintf that formats everything to nothing.
use cocoapuffs_fpga.Prelude.{
  ℕ, zero, suc, ◌≡◌, refl, arith, false, some, List, [], ◌∷◌, ◌++◌, replicate,
}
use cocoapuffs_fpga.Machine.{Machine, load32, store32, store8, jump_to}
use cocoapuffs_fpga.Machine.Loop.{until}
use cocoapuffs_fpga.Machine.Trace.{jumps, bytes_stored}
use cocoapuffs_fpga.Machine.Frame.{final}
use cocoapuffs_fpga.Uart.{
  Vsnprintf, uart_is_empty, uart_is_full, can_write, get_async, put_async, put, get, uart_getchar,
  uart_putchar, uart_print, printme, printmef, kprintf, uart_getline,
}
use cocoapuffs_fpga.Memtest.{test_one_cell}
use cocoapuffs_fpga.Ihex.{Record, data_record, end_of_file_record, copy_bytes}
use cocoapuffs_fpga.Upload.{KkIhex, ddr3exec_main}
use cocoapuffs_fpga.Upload.Exec.{Started}
use cocoapuffs_fpga.Ddr3
use cocoapuffs_fpga.Ddr3.{
  handle_records, use_line, load_line, load_lines, load_stream, load_end, load_and_jump, ddr3_main,
}
use cocoapuffs_fpga.Ddr3.Entry.{Entered}
use cocoapuffs_fpga.Ddr3.Rounds.{load_lines_enough}
use cocoapuffs_fpga.Muntjac.{read_reg, read_mem_a_valid, muntjac_main}
use cocoapuffs_fpga.Muntjac.Entry.{loaders_jump}

abbrev silent : Vsnprintf
silent n format args = record { ret = some 0; buf = replicate 256 0 }

abbrev data_of : List ℕ → Record
data_of bytes = record {
  type = data_record;
  code = 0;
  address = 0x10;
  offset = 0x10;
  bytes = bytes;
  line_length = 32;
  checksum_error = false;
}

abbrev the_end : Record
the_end = record (data_of []) { type = end_of_file_record; code = 1 }

abbrev toy_read : ℕ → List ℕ → List Record × ℕ
toy_read zero line = (data_of line ∷ [], 1)
toy_read (suc s) line = (the_end ∷ [], 1)

abbrev toy : KkIhex
toy = record { State = ℕ; begin_read = 0; read_bytes = toy_read; end_read = λ s. [] }

abbrev boot : List ℕ → Machine
boot script = record {
  script = script;
  trace = [];
  uart_buf = record { buf = replicate 256 0; rd = 0; wr = 0 };
}

-- The end of the run: the stream, "EOF", "u", the first word of the memory, "t" and "completed".
abbrev stream : List ℕ
stream =
    (0x41 ∷ 0x0a ∷ 0x0a ∷ [])
    ++ (replicate 8 0x100 ++ 0x1234 ∷ (replicate 3 0x100 ++ replicate 11 0x100))

abbrev ddr3_boot : Machine
ddr3_boot = boot (0x1111_1111 ∷ (replicate 22 0x100 ++ stream))

abbrev muntjac_boot : Machine
muntjac_boot = boot (0x1111_1111 ∷ (replicate 13 0x100 ++ 0x8000 ∷ (replicate 9 0x100 ++ stream)))

ddr3_jumps :
    (jumps (final (ddr3_main silent toy ddr3_boot)).trace ≡ 0x8000_0004 ∷ [])
    × (bytes_stored (final (ddr3_main silent toy ddr3_boot)).trace
        ≡ (0x8000_0010, 0x41) ∷ (0x8000_0011, 0x0a) ∷ [])
unfolding ddr3_main load_and_jump load_end load_stream load_lines load_line use_line handle_records
    Ddr3.ihex_data_read copy_bytes kprintf printmef printme uart_print uart_putchar uart_getline
    uart_getchar put get put_async get_async can_write until load32 store32 store8 jump_to
    uart_is_empty uart_is_full test_one_cell
ddr3_jumps = (refl, refl)

muntjac_jumps : jumps (final (muntjac_main silent toy muntjac_boot)).trace ≡ 0x8000_0004 ∷ []
unfolding muntjac_main read_mem_a_valid read_reg load_and_jump load_end load_stream load_lines
    load_line use_line handle_records Ddr3.ihex_data_read copy_bytes kprintf printmef printme
    uart_print uart_putchar uart_getline uart_getchar put get put_async get_async can_write until
    load32 store32 store8 jump_to uart_is_empty uart_is_full test_one_cell
muntjac_jumps = refl

loaders_jump_example :
    Started silent toy [] ddr3_boot (ddr3exec_main silent toy ddr3_boot)
    × Entered silent toy [] ddr3_boot (ddr3_main silent toy ddr3_boot)
    × Entered silent toy [] ddr3_boot (muntjac_main silent toy ddr3_boot)
loaders_jump_example = loaders_jump silent toy [] ddr3_boot (record {
  valid = record { size = refl; rd_in = omega arith; wr_in = omega arith };
  all = refl;
})

more_rounds :
    load_lines silent toy 60 0 false (boot stream) ≡ load_lines silent toy 100 0 false (boot stream)
more_rounds =
    load_lines_enough silent toy 60 100 0 false (boot stream) (omega arith, omega arith)
      (omega arith) (omega arith)
