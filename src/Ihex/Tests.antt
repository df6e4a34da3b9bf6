-- ===== src/Ihex/Tests.antt =====
-- Records handled at concrete states.
use cocoapuffs_fpga.Prelude.{◌+◌, ◌≡◌, ◌||◌, refl, arith, false, some, [], ◌∷◌, replicate}
use cocoapuffs_fpga.Machine.{Machine, done, store8}
use cocoapuffs_fpga.Machine.Frame.{final}
use cocoapuffs_fpga.Uart.{Vsnprintf, uart_print, kprintf}
use cocoapuffs_fpga.Ihex.{Record, data_record, Globals, copy_bytes, ihex_data_read}
use cocoapuffs_fpga.Ihex.Loaded.{Loaded, image, ends, ihex_data_read-Loaded}

abbrev silent : Vsnprintf
silent n format args = record { ret = some 0; buf = replicate 256 0 }

abbrev two_bytes : Record
two_bytes = record {
  type = data_record;
  code = 0;
  address = 0xffff_ffff;
  offset = 0;
  bytes = 7 ∷ 8 ∷ [];
  line_length = 32;
  checksum_error = false;
}

abbrev before : Globals
before = record { eof = false; line = 4; dot_count = 39 }

abbrev after : Globals
after = record { eof = false; line = 5; dot_count = 0 }

abbrev idle : Machine
idle = record {
  script = [];
  trace = [];
  uart_buf = record { buf = replicate 256 0; rd = 0; wr = 0 };
}

-- The second byte wraps round to address 0, and the fortieth dot ends the line.
wrapped_record :
    ihex_data_read silent two_bytes before idle
    ≡ done after (final (ihex_data_read silent two_bytes before idle))
unfolding ihex_data_read copy_bytes kprintf uart_print store8
wrapped_record = refl

ihex_data_read-Loaded_example :
    Loaded
      (image two_bytes)
      (ends two_bytes || before.eof)
      idle
      after
      (final (ihex_data_read silent two_bytes before idle))
    × (false ≡ false)
    × (after.line ≡ before.line + 1)
ihex_data_read-Loaded_example =
    ihex_data_read-Loaded silent two_bytes before idle (omega arith) wrapped_record
