-- ===== src/Uart/Status.antt =====
-- The status bits of the port: bit 8 says that nothing was received, bit 11 that nothing can be
-- sent, and the low byte is the received character.
use cocoapuffs_fpga.Prelude.{ℕ, ◌/◌, ◌%◌, ◌<◌, bit_and, ◌≡◌, ◌↔◌, true, arith}
use cocoapuffs_fpga.Prelude.Bits.{bit_and-bit8, bit_and-bit11, bit_and_low_byte}
use cocoapuffs_fpga.Uart.{uart_is_empty, uart_is_full}

-- The two tests read one bit each, bit 8 and bit 11, whatever the other bits are.
pub status_bits :
    (c : ℕ)
    → ((uart_is_empty c ≡ true) ↔ (c / 256 % 2 ≡ 1))
      × ((uart_is_full c ≡ true) ↔ (c / 2048 % 2 ≡ 1))
unfolding uart_is_empty uart_is_full
status_bits c = ground (arith, bit_and-bit8 c, bit_and-bit11 c)

pub received_byte-lt : (v : ℕ) → bit_and v 0xff < 256
received_byte-lt v = omega (arith, bit_and_low_byte v)
