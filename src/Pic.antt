-- ===== src/Pic.antt =====
-- lib/pic.cc and lib/pic.h: the interrupt controller, its dispatch to the timer and to lib::Uart,
-- and the control registers of the core. WaitForInterrupt only waits and has no definition.
pub mod Log
pub mod Serviced
pub mod Dispatch
mod Tests
use cocoapuffs_fpga.Prelude.{
  ℕ, ◌+◌, ◌%◌, ◌^◌, bit_and, Bool, true, false, not, ◌&&◌, Option, none, some, ◌==◌, if◌then◌else◌,
}
use cocoapuffs_fpga.Machine.{
  M, pure, ◌>>=◌, ◌>>◌, mie, mstatus, mtvec, mcause, csrr, csrw, csrrs, csrrc,
}
use cocoapuffs_fpga.Reg
use cocoapuffs_fpga.Reg.{Reg}
use cocoapuffs_fpga.Uart.{uart_putchar}
use cocoapuffs_fpga.Timer
use cocoapuffs_fpga.Timer.{Timer}
use cocoapuffs_fpga.UartIrq
use cocoapuffs_fpga.UartIrq.{Uart}

abbrev pub base_address : ℕ
base_address = 0x4000_0030

abbrev pub mask_reg_offset : ℕ
mask_reg_offset = 0

abbrev pub irq_reg_offset : ℕ
irq_reg_offset = 4

abbrev pub timer_irq_bit : ℕ
timer_irq_bit = 0x1

abbrev pub uart_irq_bit : ℕ
uart_irq_bit = 0x2

-- `1 << kExternalTimerIrq`
abbrev pub external_timer_irq : ℕ
external_timer_irq = 2 ^ 7

-- A handler is `none` where the pointer is null; the object of lib::Uart that the pointer names is
-- kept here.
pub record Pic : Type 0 where
  pub mask : ℕ
  pub timer_handler : Option Timer
  pub uart_handler : Option Uart
  pub mask_reg : Reg
  pub irq_reg : Reg

unfoldable pub set_interrupt_handler : ℕ → M (Unit {0})
set_interrupt_handler handler = do csrw mtvec handler; csrrs mstatus 8

unfoldable pub enable_interrupts : M (Unit {0})
enable_interrupts = csrrs mie external_timer_irq

unfoldable pub disable_interrupts : M (Unit {0})
disable_interrupts = csrrc mie external_timer_irq

unfoldable pub clear_irq : Pic → ℕ → M ℕ
clear_irq p mask = Reg.write p.irq_reg 0

unfoldable pub set_mask : Pic → ℕ → M ℕ
set_mask p mask = Reg.write p.mask_reg mask

unfoldable pub read_mask : Pic → M (ℕ × ℕ)
read_mask p = Reg.read p.mask_reg

unfoldable pub set_timer_handler : Pic → Option Timer → Pic
set_timer_handler p handler = record p { timer_handler = handler }

unfoldable pub set_uart_handler : Pic → Option Uart → Pic
set_uart_handler p handler = record p { uart_handler = handler }

-- Pic::Pic. `handler` is the address of default_handler; the constructor leaves the two pointers as
-- it finds them. The result is also what pic::instance points to.
unfoldable pub create : ℕ → ℕ → Option Timer → Option Uart → M Pic
create base_address handler timer_handler uart_handler = do
  let p : Pic = record {
    mask = 0;
    timer_handler = timer_handler;
    uart_handler = uart_handler;
    mask_reg = record { address = (base_address + mask_reg_offset) % 2 ^ 32 };
    irq_reg = record { address = (base_address + irq_reg_offset) % 2 ^ 32 };
  }
  disable_interrupts
  Reg.write p.mask_reg 0
  Reg.write p.irq_reg 0
  set_interrupt_handler handler
  pure p

-- The cause is the interrupt that the controller raises.
abbrev pub from_pic : ℕ → Bool
from_pic cause = not (bit_and cause 0x8000_0000 == 0) && bit_and cause 0x7 == 7

unfoldable pub call_timer : Option Timer → ℕ → M (Unit {0})
call_timer none irqs = pure tt
call_timer (some t) irqs =
    if bit_and irqs timer_irq_bit == 0 then pure tt else Timer.interrupt_handler t

unfoldable pub call_uart : Option Uart → ℕ → M (Option Uart)
call_uart none irqs = pure none
call_uart (some u) irqs =
    if bit_and irqs uart_irq_bit == 0
    then pure (some u)
    else (do u' ← UartIrq.interrupt_handler u; pure (some u'))

-- What InterruptHandler does for a cause of its own.
unfoldable pub service : Pic → M Pic
unfolding call_timer call_uart
service p = do
  uart_putchar b'!'
  read_mask p
  irqs ← Reg.read p.irq_reg
  call_timer p.timer_handler irqs.1
  u ← call_uart p.uart_handler irqs.1
  clear_irq p (timer_irq_bit + uart_irq_bit)
  pure (record p { uart_handler = u })

unfoldable pub interrupt_handler : Pic → M Pic
unfolding service
interrupt_handler p = do cause ← csrr mcause; (if from_pic cause then service p else pure p)

-- default_handler and read_irqs, on what pic::instance points to.
unfoldable pub default_handler : Option Pic → M (Option Pic)
default_handler none = pure none
default_handler (some p) = do p' ← interrupt_handler p; pure (some p')

unfoldable pub read_irqs : Option Pic → M ℕ
read_irqs none = pure 0
read_irqs (some p) = do r ← Reg.read p.irq_reg; pure r.1
