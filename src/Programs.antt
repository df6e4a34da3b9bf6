-- ===== src/Programs.antt =====
-- The small programs: bin/hello, bin/echo, bin/memerr and bin/rv32_uart/software.
pub mod Endless
mod Tests
use cocoapuffs_fpga.Prelude.{ℕ, Option, none, literal}
use cocoapuffs_fpga.Machine.{M, pure, halt, ◌>>=◌, ◌>>◌, store32}
use cocoapuffs_fpga.Machine.Loop.{until}
use cocoapuffs_fpga.Uart.{Vsnprintf, uart_print, printme, pause_for_spins}
use cocoapuffs_fpga.Memtest.{test_one_cell, test_with_c}

-- main of bin/hello.
unfoldable pub hello_main : M (Unit {0})
hello_main = do printme (literal "Hello world!"); printme (literal "halt."); halt

-- perctl of bin/echo.
abbrev pub echo_perctl : ℕ
echo_perctl = 0x4000_0040

-- main of bin/echo.
unfoldable pub echo_main : M (Unit {0})
echo_main = do
  printme (literal "SERV: Booting. Releasing Muntjac reset and routing UART...\n")
  store32 echo_perctl 0x2
  halt

-- main of bin/memerr.
unfoldable pub memerr_main : Vsnprintf → M (Unit {0})
memerr_main vsnprintf = do
  printme (literal "\r\n\r\n\r\n\r\n\r\n\r\n<->")
  test_with_c vsnprintf 0xaaaa_aaaa 6000
  test_one_cell vsnprintf 0x1111_1111 0
  test_one_cell vsnprintf 0x1111_1111 1
  test_one_cell vsnprintf 0x1111_1111 2
  test_one_cell vsnprintf 0x1111_1111 3
  test_one_cell vsnprintf 0x1111_1111 4
  test_one_cell vsnprintf 0x1111_1111 5
  test_one_cell vsnprintf 0x1111_1111 6
  test_one_cell vsnprintf 0x1111_1111 7
  test_one_cell vsnprintf 0x1111_1111 8
  test_one_cell vsnprintf 0x1111_1111 48
  test_one_cell vsnprintf 0x1111_1111 49
  test_one_cell vsnprintf 0x1111_1111 50
  test_with_c vsnprintf 0xbbbb_bbbb 6000
  test_one_cell vsnprintf 0x2222_2222 50
  test_one_cell vsnprintf 0x1111_1111 48
  test_one_cell vsnprintf 0x1111_1111 49
  test_one_cell vsnprintf 0x1111_1111 50
  test_one_cell vsnprintf 0x1111_1111 51
  test_one_cell vsnprintf 0x1111_1111 52
  test_one_cell vsnprintf 0x1111_1111 53
  printme (literal ">-<")
  printme (literal "ihex:")
  halt

-- One round of the loop of bin/rv32_uart, which never asks for the end.
unfoldable pub greet : M (Option (Unit {0}))
greet = do
  uart_print (literal "\r\n\r\n======================\r\n")
  uart_print (literal "hello from rv32.\r\n")
  uart_print (literal "======================\r\n")
  pause_for_spins 10000
  pure none

-- main of bin/rv32_uart: `while (1)`. Each round prints, so the answers bound the rounds.
unfoldable pub rv32_uart_main : M (Unit {0})
rv32_uart_main = until greet
