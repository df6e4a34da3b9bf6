-- ===== src/UartIrq/Tests.antt =====
-- Runs of class lib::Uart.
use cocoapuffs_fpga.Prelude.{ℕ, ◌≡◌, refl, arith, true, false, List, [], ◌∷◌, replicate}
use cocoapuffs_fpga.Prelude.Int.{pos}
use cocoapuffs_fpga.Machine.{Machine, load, done, load32}
use cocoapuffs_fpga.Reg
use cocoapuffs_fpga.Reg.{lib_reg_read}
use cocoapuffs_fpga.Uart.{uart_is_empty}
use cocoapuffs_fpga.Uart.Pending.{IsValid}
use cocoapuffs_fpga.UartIrq.{
  Uart, create, base_address, interrupt_handler, read, is_empty, is_overrun, read_line,
  wait_for_char,
}
use cocoapuffs_fpga.UartIrq.Handler.{ring, contents, Drained, interrupt_drains, interrupt_overruns}
use cocoapuffs_fpga.UartIrq.Reading.{read_repeats, read_line_repeats}

abbrev empty_uart : Uart
empty_uart = record {
  reg = record { address = base_address };
  buffer = replicate 256 0;
  begin = 0;
  end = 0;
  overrun = false;
}

abbrev boot : List ℕ → Machine
boot script = record { script = script; trace = []; uart_buf = record { buf = []; rd = 0; wr = 0 } }

create_runs : create base_address (replicate 256 0) ≡ empty_uart
unfolding create
create_runs = refl

empty_uart-IsValid : IsValid (ring empty_uart)
empty_uart-IsValid = record { size = refl; rd_in = omega arith; wr_in = omega arith }

stores_two :
    (u' : Uart) × (m' : Machine) × (interrupt_handler empty_uart
        (boot (0x68 ∷ 0x69 ∷ 0x100 ∷ 7 ∷ []))
      ≡ done u' m')
    × (m'.script ≡ 7 ∷ [])
    × Drained empty_uart (0x68 ∷ 0x69 ∷ []) u'
unfolding uart_is_empty
stores_two =
    interrupt_drains (0x68 ∷ 0x69 ∷ []) 0x100 (7 ∷ []) empty_uart
      (boot (0x68 ∷ 0x69 ∷ 0x100 ∷ 7 ∷ [])) refl refl refl empty_uart-IsValid (omega arith)

-- 255 characters are stored, and one more comes in.
abbrev nearly_full : Uart
nearly_full = record empty_uart { begin = 255 }

interrupt_overruns_example :
    (u' : Uart) × (m' : Machine) × (interrupt_handler nearly_full (boot (0x41 ∷ 7 ∷ []))
      ≡ done u' m')
    × ((m'.script ≡ 7 ∷ []) × (u'.overrun ≡ true) × (contents u' ≡ []))
unfolding uart_is_empty
interrupt_overruns_example =
    interrupt_overruns (0x41 ∷ []) (7 ∷ []) nearly_full (boot (0x41 ∷ 7 ∷ [])) refl refl
      (record { size = refl; rd_in = omega arith; wr_in = omega arith }) (omega arith)

-- `h` and `i` are in the ring.
abbrev two_chars : Uart
two_chars = record empty_uart { buffer = 0x68 ∷ 0x69 ∷ replicate 254 0; begin = 2 }

two_chars-IsValid : IsValid (ring two_chars)
two_chars-IsValid = record { size = refl; rd_in = omega arith; wr_in = omega arith }

-- Both characters come out as `h`, and stay in.
read_repeats_example : read two_chars 2 ≡ (2, 0x68 ∷ 0x68 ∷ [], two_chars)
read_repeats_example = read_repeats two_chars 2 two_chars-IsValid

read_line_repeats_example :
    read_line two_chars 3 (boot []) ≡ done (pos 0, 0x68 ∷ 0x68 ∷ 0x68 ∷ [], two_chars) (boot [])
unfolding is_empty
read_line_repeats_example = read_line_repeats two_chars 3 (boot []) two_chars-IsValid refl refl

-- On an empty ring ReadLine waits for an interrupt, which brings `\r`.
read_line_waits :
    read_line empty_uart 4 (boot (0x0d ∷ 0x100 ∷ []))
    ≡ done
        (pos 0, 0x0d ∷ [], record empty_uart { buffer = 0x0d ∷ replicate 255 0; begin = 1 })
        (record (boot []) { trace = load base_address 0x100 ∷ load base_address 0x0d ∷ [] })
unfolding read_line wait_for_char interrupt_handler is_empty is_overrun read Reg.read lib_reg_read
    load32 uart_is_empty
read_line_waits = refl
