-- ===== src/PicTest/Safe.antt =====
-- bin/pic_test under interrupts: every state that its loop and the interrupt handler come through.
use cocoapuffs_fpga.Prelude.{ℕ, none, ◌++◌, ◌≡◌, Bool, true, false, some, List, ◌==◌}
use cocoapuffs_fpga.Machine.{Machine}
use cocoapuffs_fpga.Reg
use cocoapuffs_fpga.Reg.{Reg}
use cocoapuffs_fpga.UartIrq
use cocoapuffs_fpga.UartIrq.{Uart}
use cocoapuffs_fpga.Timer
use cocoapuffs_fpga.Timer.{Timer}
use cocoapuffs_fpga.Pic
use cocoapuffs_fpga.Pic.{
  Pic, timer_irq_bit, uart_irq_bit, call_timer, call_uart, service, from_pic, read_mask,
}
use cocoapuffs_fpga.Pic.Log.{log, register_of}
use cocoapuffs_fpga.PicTest.History.{started, all_serviced}
use cocoapuffs_fpga.PicTest.{Place, top, tested, failed, shown, prints, PicTest}
use cocoapuffs_fpga.PicTest.Ready.{wired, the_timer, IsReady}

-- The place is not on the way of a reading that failed.
abbrev pub read_well : Place → Bool
read_well top = true
read_well (tested status v) = status == 0
read_well (failed v) = false
read_well (shown v) = true
read_well (prints str next) = read_well next

pub record IsSafe (handler : ℕ) (start : Machine) (s : PicTest) : Type 0 where
  pub is_ready : IsReady handler s.machine.trace
  pub is_wired : s.pic ≡ wired s.pic.uart_handler
  pub has_timer : s.timer ≡ the_timer
  pub is_quiet : s.once ≡ false
  pub reads_well : read_well s.place ≡ true
  pub has_register : register_of s.pic.uart_handler ≡ some UartIrq.base_address
  pub history :
      (rounds : List (ℕ × ℕ)) × (log (wired none) s.machine.trace
        ≡ log (wired none) start.trace ++ (started ++ all_serviced rounds))
