-- ===== src/Ddr3/Tests.antt =====
-- Records of the DDR3 loader, on a port that always has room.
use cocoapuffs_fpga.Prelude.{◌≡◌, ◌||◌, refl, true, false, some, [], ◌∷◌, ◌++◌, replicate}
use cocoapuffs_fpga.Machine.{Machine, done, store8}
use cocoapuffs_fpga.Machine.Trace.{bytes_stored}
use cocoapuffs_fpga.Machine.Frame.{final}
use cocoapuffs_fpga.Uart.{Vsnprintf, uart_print, kprintf}
use cocoapuffs_fpga.Ihex.{Record, data_record, copy_bytes}
use cocoapuffs_fpga.Ihex.Loaded.{ends}
use cocoapuffs_fpga.Ddr3.{ihex_data_read}
use cocoapuffs_fpga.Ddr3.Sound.{shifted_image, bad_record-stored, ihex_data_read-stored}

abbrev silent : Vsnprintf
silent n format args = record { ret = some 0; buf = replicate 256 0 }

abbrev good_record : Record
good_record = record {
  type = data_record;
  code = 0;
  address = 0x100;
  offset = 0x100;
  bytes = 7 ∷ 8 ∷ [];
  line_length = 32;
  checksum_error = false;
}

abbrev bad_record : Record
bad_record = record good_record { checksum_error = true }

abbrev idle : Machine
idle = record {
  script = replicate 10 0x100;
  trace = [];
  uart_buf = record { buf = replicate 256 0; rd = 0; wr = 0 };
}

good_runs :
    ihex_data_read silent good_record false idle
    ≡ done false (final (ihex_data_read silent good_record false idle))
unfolding ihex_data_read copy_bytes kprintf uart_print store8
good_runs = refl

ihex_data_read-stored_example :
    (false ≡ false)
    × (bytes_stored (final (ihex_data_read silent good_record false idle)).trace
        ≡ [] ++ shifted_image good_record)
    × (false ≡ (ends good_record || false))
ihex_data_read-stored_example = ihex_data_read-stored silent good_record false idle good_runs

bad_record-stored_example :
    bytes_stored (final (ihex_data_read silent bad_record false idle)).trace ≡ []
bad_record-stored_example = bad_record-stored silent bad_record false idle refl
