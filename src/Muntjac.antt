-- ===== src/Muntjac.antt =====
-- bin/muntjac/software/main.cc and bin/muntjac/software/perinput_bits.h: the loader of the Muntjac
-- board, which is the DDR3 loader with a look at one bit of the memory bus before it begins.
pub mod Entry
mod Tests
use cocoapuffs_fpga.Prelude.{ℕ, ◌+◌, ◌/◌, ◌%◌, ◌^◌, bit_and, Bool, [], ◌∷◌, literal}
use cocoapuffs_fpga.Machine.{M, pure, ◌>>=◌, ◌>>◌, load32}
use cocoapuffs_fpga.Uart.{Vsnprintf, printme, kprintf}
use cocoapuffs_fpga.Memtest.{test_one_cell}
use cocoapuffs_fpga.Ihex.{Record}
use cocoapuffs_fpga.Upload.{KkIhex}
use cocoapuffs_fpga.Ddr3
use cocoapuffs_fpga.Ddr3.{load_and_jump}

-- perinput::BASE_ADDRESS, and the fields that have a reader.
abbrev pub perinput_base_address : ℕ
perinput_base_address = 0x4000_0050

abbrev pub reg_4_offset : ℕ
reg_4_offset = 0x10

abbrev pub reg_8_offset : ℕ
reg_8_offset = 0x20

abbrev pub mem_a_valid_shift : ℕ
mem_a_valid_shift = 15

abbrev pub mem_a_valid_mask : ℕ
mem_a_valid_mask = 2 ^ 15

abbrev pub mem_e_o_shift : ℕ
mem_e_o_shift = 23

abbrev pub mem_e_o_mask : ℕ
mem_e_o_mask = 2 ^ 23

-- perinput::read_reg
unfoldable pub read_reg : ℕ → M ℕ
read_reg offset = load32 ((perinput_base_address + offset) % 2 ^ 32)

-- The results are `uint8_t`.
unfoldable pub read_mem_a_valid : M ℕ
read_mem_a_valid = do
  v ← read_reg reg_4_offset
  pure (bit_and v mem_a_valid_mask / 2 ^ mem_a_valid_shift % 256)

unfoldable pub read_mem_e_o : M ℕ
read_mem_e_o = do v ← read_reg reg_8_offset; pure (bit_and v mem_e_o_mask / 2 ^ mem_e_o_shift % 256)

module _ (vsnprintf : Vsnprintf) where
  -- ihex_data_read: the text of the DDR3 loader's.
  unfoldable pub ihex_data_read : Record → Bool → M Bool
  ihex_data_read r eof = Ddr3.ihex_data_read vsnprintf r eof

  -- main; from "ihex:" on it is the text of the DDR3 loader's.
  unfoldable pub muntjac_main : KkIhex → M (Unit {0})
  muntjac_main kk = do
    test_one_cell vsnprintf 0x1111_1111 0
    printme (literal ">-< memtest")
    valid ← read_mem_a_valid
    kprintf vsnprintf (literal "mem_a_valid: %d\n") (valid ∷ [])
    load_and_jump vsnprintf kk
