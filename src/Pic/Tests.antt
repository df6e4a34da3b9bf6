-- ===== src/Pic/Tests.antt =====
-- The controller at its address, with the timer as its only handler.
use cocoapuffs_fpga.Prelude.{
  arith, ℕ, ◌≡◌, refl, true, if◌then◌else◌, Option, false, none, some, List, [], ◌∷◌, replicate,
}
use cocoapuffs_fpga.Machine.{Machine, done, load32, store32, csrr}
use cocoapuffs_fpga.Machine.Loop.{until}
use cocoapuffs_fpga.Machine.Frame.{final}
use cocoapuffs_fpga.Machine.Trace.{last_stored}
use cocoapuffs_fpga.Reg
use cocoapuffs_fpga.Reg.{lib_reg_read, lib_reg_write}
use cocoapuffs_fpga.Uart.{uart_is_empty, uart_is_full, can_write, put_async, put, uart_putchar}
use cocoapuffs_fpga.Timer
use cocoapuffs_fpga.Timer.{Timer}
use cocoapuffs_fpga.Pic.{Pic, read_mask, clear_irq, create, from_pic, interrupt_handler}
use cocoapuffs_fpga.UartIrq
use cocoapuffs_fpga.UartIrq.{Uart}
use cocoapuffs_fpga.UartIrq.Handler.{Drained}
use cocoapuffs_fpga.Uart.Pending.{pending}
use cocoapuffs_fpga.Pic.Dispatch.{interrupt_receives}
use cocoapuffs_fpga.Pic.Log.{log, serviced, register_of, IsApart}
use cocoapuffs_fpga.Pic.Serviced.{
  line_enabled, installed, guarded, create_lem, interrupt_handler-Serviced,
}

abbrev boot : List ℕ → Machine
boot script = record {
  script = script;
  trace = [];
  uart_buf = record { buf = replicate 256 0; rd = 0; wr = 0 };
}

create_lem_example :
    (p : Pic) × (m' : Machine) × (create 0x4000_0030 0x100 none none (boot []) ≡ done p m')
    × (m'.script ≡ [])
    × (line_enabled m'.trace ≡ false)
    × (last_stored p.mask_reg.address m'.trace ≡ some 0)
    × (last_stored p.irq_reg.address m'.trace ≡ some 0)
    × (installed m'.trace ≡ some 0x100)
    × (guarded m'.trace ≡ true)
    × (p.timer_handler ≡ none)
    × (p.uart_handler ≡ none)
create_lem_example = create_lem 0x4000_0030 0x100 none none (boot []) refl

abbrev timer : Timer
timer = record {
  irq = record { address = 0x4000_0020 };
  counter = record { address = 0x4000_0024 };
  default_counter = 1000;
}

abbrev pic : Pic
pic = record {
  mask = 0;
  timer_handler = some timer;
  uart_handler = none;
  mask_reg = record { address = 0x4000_0030 };
  irq_reg = record { address = 0x4000_0034 };
}

-- The timer's interrupt is pending.
abbrev tick : Machine
tick = boot (0x8000_0007 ∷ 0x100 ∷ 1 ∷ 1 ∷ [])

tick_runs : interrupt_handler pic tick ≡ done pic (final (interrupt_handler pic tick))
unfolding interrupt_handler read_mask clear_irq csrr Reg.read Reg.write lib_reg_read lib_reg_write
    load32 store32 uart_putchar put put_async can_write until uart_is_empty uart_is_full
    Timer.interrupt_handler Timer.write_counter Timer.clear_irq
tick_runs = refl

pic-IsApart : IsApart pic
pic-IsApart = record {
  port_load = refl;
  port_store = refl;
  mask_load = refl;
  uart_load = λ a e. cc;
}

interrupt_handler-Serviced_example :
    (cause irqs : ℕ) × (u : Option Uart) × (log pic (final (interrupt_handler pic tick)).trace
      ≡ serviced pic cause irqs)
    × (pic ≡ (if from_pic cause then record pic { uart_handler = u } else pic))
    × (register_of u ≡ none)
interrupt_handler-Serviced_example = interrupt_handler-Serviced pic pic-IsApart tick tick_runs

abbrev receiver : Uart
receiver = record {
  reg = record { address = UartIrq.base_address };
  buffer = replicate 256 0;
  begin = 0;
  end = 0;
  overrun = false;
}

abbrev with_uart : Pic
with_uart = record pic { uart_handler = some receiver }

-- Three characters are at hand: the first is answered to the printing of the `!`.
abbrev typed : Machine
typed = boot (0x8000_0007 ∷ 0x68 ∷ 3 ∷ 2 ∷ 0x65 ∷ 0x79 ∷ 0x100 ∷ 9 ∷ [])

interrupt_receives_example :
    (u' : Uart) × (m' : Machine) × (interrupt_handler with_uart typed
      ≡ done (record with_uart { uart_handler = some u' }) m')
    × (m'.script ≡ 9 ∷ [])
    × Drained receiver (0x65 ∷ 0x79 ∷ []) u'
    × (pending m'.uart_buf ≡ 0x68 ∷ [])
unfolding uart_is_empty uart_is_full
interrupt_receives_example =
    interrupt_receives with_uart receiver 0x8000_0007 0x68 3 2 (0x65 ∷ 0x79 ∷ []) 0x100 (9 ∷ [])
      typed refl refl refl refl refl refl refl
      (record { size = refl; rd_in = omega arith; wr_in = omega arith }) (omega arith)
      (record { size = refl; rd_in = omega arith; wr_in = omega arith }) (omega arith)
