-- ===== src/PicTest/Tests.antt =====
-- Some steps of bin/pic_test: the timer interrupts, and the loop reads the counter.
use cocoapuffs_fpga.Prelude.{◌≡◌, refl, false, none, some, [], ◌∷◌, ◌++◌, replicate, codes}
use cocoapuffs_fpga.Machine.{Machine, done, load32, store32, csrr, csrw, csrrs, csrrc}
use cocoapuffs_fpga.Machine.Loop.{until}
use cocoapuffs_fpga.Machine.Frame.{final}
use cocoapuffs_fpga.Machine.Trace.{sent_to}
use cocoapuffs_fpga.Reg
use cocoapuffs_fpga.Reg.{lib_reg_read, lib_reg_write}
use cocoapuffs_fpga.Uart.{
  Vsnprintf, uart_address, uart_is_empty, uart_is_full, can_write, put_async, put, uart_putchar,
  uart_print, kprintf,
}
use cocoapuffs_fpga.UartIrq
use cocoapuffs_fpga.Timer
use cocoapuffs_fpga.Timer.{Timer}
use cocoapuffs_fpga.Pic
use cocoapuffs_fpga.Pic.{
  Pic, set_uart_handler, set_timer_handler, set_mask, read_mask, clear_irq, call_timer, call_uart,
  service, set_interrupt_handler, disable_interrupts,
}
use cocoapuffs_fpga.PicTest.{
  set_up, after_read, turn, top, PicTest, interrupted, Reach, starts, goes_on,
}
use cocoapuffs_fpga.PicTest.Ready.{the_timer, wired}
use cocoapuffs_fpga.PicTest.Rounds.{turn_reaches}

-- A vsnprintf that writes the same line for every counter.
abbrev ticks : Vsnprintf
ticks n format args = record { ret = some 11; buf = codes "timer: 77\r\n" ++ 0 ∷ [] }

-- The answers: an interrupt of the controller, room for its character, the mask and the timer's bit;
-- then the counter, and room for the line.
abbrev boot : Machine
boot = record {
  script = 0x8000_0007 ∷ 0x100 ∷ 1 ∷ 1 ∷ 77 ∷ replicate 11 0x100;
  trace = [];
  uart_buf = record { buf = replicate 256 0; rd = 0; wr = 0 };
}

abbrev pic : Pic
pic = wired (some (UartIrq.create UartIrq.base_address []))

abbrev after_set_up : Machine
after_set_up = final (set_up 0x100 none none [] boot)

abbrev at_start : PicTest
at_start = record {
  pic = pic;
  timer = the_timer;
  place = top;
  once = false;
  machine = after_set_up;
}

abbrev tick : PicTest
tick = record at_start { machine = final (Pic.default_handler (some pic) after_set_up) }

abbrev has_shown : PicTest
has_shown = record tick { machine = final (turn ticks the_timer false tick.machine) }

start_reached : Reach ticks 0x100 boot at_start
unfolding set_up Pic.create set_interrupt_handler disable_interrupts Reg.write lib_reg_write store32
    csrw csrrs csrrc UartIrq.create Timer.create Timer.write_counter Timer.clear_irq
    set_timer_handler set_uart_handler set_mask Pic.enable_interrupts
start_reached = starts none none [] pic the_timer after_set_up refl

tick_reached : Reach ticks 0x100 boot tick
unfolding set_up Pic.create set_interrupt_handler disable_interrupts Reg.read Reg.write lib_reg_read
    lib_reg_write load32 store32 csrr csrw csrrs csrrc UartIrq.create Timer.create
    Timer.write_counter Timer.clear_irq Timer.interrupt_handler set_timer_handler set_uart_handler
    set_mask Pic.enable_interrupts Pic.default_handler Pic.interrupt_handler service call_timer
    call_uart read_mask clear_irq uart_putchar put put_async can_write until uart_is_empty
    uart_is_full
tick_reached = goes_on at_start tick start_reached (interrupted at_start pic tick.machine refl)

turn_runs : turn ticks the_timer false tick.machine ≡ done false has_shown.machine
unfolding set_up Pic.create set_interrupt_handler disable_interrupts Reg.read Reg.write lib_reg_read
    lib_reg_write load32 store32 csrr csrw csrrs csrrc UartIrq.create Timer.create
    Timer.write_counter Timer.read_counter Timer.clear_irq Timer.interrupt_handler set_timer_handler
    set_uart_handler set_mask Pic.enable_interrupts Pic.default_handler Pic.interrupt_handler
    service call_timer call_uart read_mask clear_irq after_read turn kprintf uart_print uart_putchar
    put put_async can_write until uart_is_empty uart_is_full
turn_runs = refl

said : sent_to uart_address has_shown.machine.trace ≡ codes "!timer: 77\r\n"
unfolding set_up Pic.create set_interrupt_handler disable_interrupts Reg.read Reg.write lib_reg_read
    lib_reg_write load32 store32 csrr csrw csrrs csrrc UartIrq.create Timer.create
    Timer.write_counter Timer.read_counter Timer.clear_irq Timer.interrupt_handler set_timer_handler
    set_uart_handler set_mask Pic.enable_interrupts Pic.default_handler Pic.interrupt_handler
    service call_timer call_uart read_mask clear_irq after_read turn kprintf uart_print uart_putchar
    put put_async can_write until uart_is_empty uart_is_full
said = refl

round_reached : Reach ticks 0x100 boot has_shown
round_reached = turn_reaches ticks 0x100 boot tick false tick.machine tick_reached turn_runs
