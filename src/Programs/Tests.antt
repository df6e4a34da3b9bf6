-- ===== src/Programs/Tests.antt =====
-- Runs of the small programs on a port that always has room.
use cocoapuffs_fpga.Prelude.{ℕ, ◌≡◌, refl, [], ◌∷◌, replicate, codes}
use cocoapuffs_fpga.Machine.{Machine, load32, store32}
use cocoapuffs_fpga.Machine.Loop.{until}
use cocoapuffs_fpga.Machine.Trace.{sent_to}
use cocoapuffs_fpga.Machine.Frame.{final}
use cocoapuffs_fpga.Uart.{
  uart_address, uart_is_empty, uart_is_full, can_write, put_async, put, uart_putchar, uart_print,
  printme,
}
use cocoapuffs_fpga.Programs.{hello_main, echo_main, echo_perctl}

abbrev boot : ℕ → Machine
boot n = record {
  script = replicate n 0x100;
  trace = [];
  uart_buf = record { buf = replicate 256 0; rd = 0; wr = 0 };
}

hello_says :
    sent_to uart_address (final (hello_main (boot 21))).trace ≡ codes "Hello world!\r\nhalt.\r\n"
unfolding hello_main printme uart_print uart_putchar put put_async can_write until load32 store32
    uart_is_empty uart_is_full
hello_says = refl

echo_releases : sent_to echo_perctl (final (echo_main (boot 70))).trace ≡ 2 ∷ []
unfolding echo_main printme uart_print uart_putchar put put_async can_write until load32 store32
    uart_is_empty uart_is_full
echo_releases = refl
