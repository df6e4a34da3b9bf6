-- ===== src/Upload/Tests.antt =====
-- Uploads of two lines, with a decoder that makes a data record of the first line and the end of the
-- stream of any other, and a vsnprintf that formats everything to nothing.
use cocoapuffs_fpga.Prelude.{
  ℕ, zero, suc, ◌≡◌, refl, arith, inl, false, true, false, some, List, [], ◌∷◌, ◌++◌, replicate,
}
use cocoapuffs_fpga.Machine.{Machine, done, load32, store32, store8}
use cocoapuffs_fpga.Machine.Loop.{until}
use cocoapuffs_fpga.Machine.Frame.{final}
use cocoapuffs_fpga.Uart.{
  Vsnprintf, uart_is_empty, uart_is_full, can_write, get_async, put_async, put, get, uart_getchar,
  uart_putchar, uart_print, printme, kprintf, uart_getline,
}
use cocoapuffs_fpga.Ihex.{
  Record, data_record, end_of_file_record, Globals, copy_bytes, ihex_data_read,
}
use cocoapuffs_fpga.Upload.{
  KkIhex, perctl, xon, xoff, callbacks, take_line, receive_line, receive_lines, upload, noelv_main,
  start_globals,
}
use cocoapuffs_fpga.Upload.Received.{Received, images}
use cocoapuffs_fpga.Upload.Stream.{records_of, upload-Received}
use cocoapuffs_fpga.Uart.Account.{Accounted}
use cocoapuffs_fpga.Uart.Ledger.{Fed}
use cocoapuffs_fpga.Upload.Taken.{AllWhole, all_handed}
use cocoapuffs_fpga.Upload.Handoff.{Handed, noelv_main-Handed}
use cocoapuffs_fpga.Uart.Served.{rooms}
use cocoapuffs_fpga.Uart.Served.Answered.{Sensible}
use cocoapuffs_fpga.Uart.Served.Halted.{Halted}
use cocoapuffs_fpga.Uart.Served.{Served}
use cocoapuffs_fpga.Ddr3.{load_line, load_stream}
use cocoapuffs_fpga.Ddr3.Stream.{shifted_images}
use cocoapuffs_fpga.Ddr3.Reached.{load_stream_received}
use cocoapuffs_fpga.Upload.Overlong.{greeting, complaint, overlong_line_stops}
use cocoapuffs_fpga.Upload.Lines.{IsLine}
use cocoapuffs_fpga.Upload.Reached.{concat, Stream, last, more}
use cocoapuffs_fpga.Upload.Whole.{noelv_main_hands_over}
use cocoapuffs_fpga.Upload.Rounds.{receive_lines_enough}

abbrev silent : Vsnprintf
silent n format args = record { ret = some 0; buf = replicate 256 0 }

abbrev data_of : List ℕ → Record
data_of bytes = record {
  type = data_record;
  code = 0;
  address = 0x0004_0000;
  offset = 0;
  bytes = bytes;
  line_length = 32;
  checksum_error = false;
}

abbrev the_end : Record
the_end = record (data_of []) { type = end_of_file_record; code = 1 }

abbrev toy_read : ℕ → List ℕ → List Record × ℕ
toy_read zero line = (data_of line ∷ [], 1)
toy_read (suc s) line = (the_end ∷ [], 1)

abbrev toy : KkIhex
toy = record { State = ℕ; begin_read = 0; read_bytes = toy_read; end_read = λ s. [] }

abbrev boot : List ℕ → Machine
boot script = record {
  script = script;
  trace = [];
  uart_buf = record { buf = replicate 256 0; rd = 0; wr = 0 };
}

abbrev stream : List ℕ
stream = 0x41 ∷ 0x0a ∷ 0x100 ∷ 0x100 ∷ 0x0a ∷ replicate 7 0x100

abbrev ended : Globals
ended = record { eof = true; line = 3; dot_count = 0 }

abbrev uploaded : Machine
uploaded = final (upload silent toy start_globals (boot stream))

upload_runs : upload silent toy start_globals (boot stream) ≡ done ended uploaded
unfolding upload receive_lines receive_line take_line callbacks ihex_data_read copy_bytes kprintf
    printme uart_print uart_putchar uart_getline uart_getchar put get put_async get_async can_write
    until load32 store32 store8 uart_is_empty uart_is_full
upload_runs = refl

fresh : (script : List ℕ) → Accounted [] (boot script)
fresh script = record {
  valid = record { size = refl; rd_in = omega arith; wr_in = omega arith };
  all = refl;
}

upload-Received_example :
    (lines : List (List ℕ)) × (bytes : List ℕ) × AllWhole lines
    × Fed lines bytes
    × Accounted bytes uploaded
    × Received (records_of silent toy (all_handed lines)) start_globals (boot stream) ended uploaded
    × (true ≡ true)
upload-Received_example =
    upload-Received silent toy start_globals [] (boot stream) (omega arith) (fresh stream)
      upload_runs

abbrev whole_run : Machine
whole_run = boot (replicate 22 0x100 ++ (stream ++ (replicate 7 0x100 ++ 0x500 ∷ [])))

noelv_main-Handed_example : Handed silent toy [] whole_run (noelv_main silent toy whole_run)
noelv_main-Handed_example = noelv_main-Handed silent toy [] whole_run (fresh _)

more_rounds :
    receive_lines silent toy 13 true 0 start_globals (boot stream)
    ≡ receive_lines silent toy 100 true 0 start_globals (boot stream)
more_rounds =
    receive_lines_enough silent toy 13 100 true 0 start_globals (boot stream) (omega arith)
      (omega arith)

-- 256 characters without an end of the line, in the second round of an upload, and for a DDR3 loader.
abbrev overlong : List ℕ
overlong = replicate 256 0x41

abbrev flooded : Machine
flooded = boot ((rooms (greeting false) ++ (overlong ++ rooms (xoff ∷ xon ∷ complaint))) ++ [])

abbrev flooded_loader : Machine
flooded_loader = boot ((overlong ++ rooms complaint) ++ [])

overlong_line_stops_example :
    Halted
      (receive_line silent toy false 0 start_globals)
      (record { got = overlong; said = xon ∷ xoff ∷ xon ∷ complaint; stored = []; words = [] })
      []
      flooded
    × Halted
        (load_line silent toy 0 false)
        (record { got = overlong; said = complaint; stored = []; words = [] })
        []
        flooded_loader
overlong_line_stops_example =
    overlong_line_stops silent toy false false 0 start_globals overlong [] [] flooded flooded_loader
      refl refl refl refl refl refl refl

silent-Sensible : Sensible silent
silent-Sensible format args = ([], inl ([], refl, refl, refl))

abbrev line_a : List ℕ
line_a = 0x41 ∷ 0x0a ∷ []

abbrev line_end : List ℕ
line_end = 0x0a ∷ []

line_a-IsLine : IsLine line_a
line_a-IsLine = record {
  body = 0x41 ∷ [];
  split = refl;
  one_line = refl;
  bytes = refl;
  no_nuls = refl;
  fits = omega arith;
}

line_end-IsLine : IsLine line_end
line_end-IsLine = record {
  body = [];
  split = refl;
  one_line = refl;
  bytes = refl;
  no_nuls = refl;
  fits = omega arith;
}

two_lines : Stream toy 0 (line_a ∷ line_end ∷ [])
two_lines =
    more 0 line_a (line_end ∷ []) line_a-IsLine refl refl
      (last 1 line_end line_end-IsLine refl refl)

noelv_main_hands_over_example :
    (answers : List ℕ) × (text : List ℕ) × Halted
      (noelv_main silent toy)
      (record {
        got = concat (line_a ∷ line_end ∷ []);
        said = text;
        stored = images (data_of line_a ∷ the_end ∷ []);
        words = (perctl, 3) ∷ (perctl, 7) ∷ [];
      })
      []
      (boot answers)
noelv_main_hands_over_example =
    noelv_main_hands_over silent toy silent-Sensible (line_a ∷ line_end ∷ []) (boot []) two_lines
      refl refl

-- The same lines for a DDR3 loader.
load_stream_received_example :
    (answers : List ℕ) × (text : List ℕ) × Served
      (load_stream silent toy)
      true
      (record {
        got = concat (line_a ∷ line_end ∷ []);
        said = text;
        stored = shifted_images (data_of line_a ∷ the_end ∷ []);
        words = [];
      })
      []
      (boot answers)
load_stream_received_example =
    load_stream_received silent toy silent-Sensible (line_a ∷ line_end ∷ []) (boot []) two_lines
      refl refl
