-- ===== src/Timer.antt =====
-- lib/timer.cc and lib/timer.h: the countdown timer, two registers above a base address.
pub mod Armed
mod Tests
use cocoapuffs_fpga.Prelude.{ℕ, ◌+◌, ◌%◌, ◌^◌}
use cocoapuffs_fpga.Machine.{M, pure, ◌>>=◌, ◌>>◌}
use cocoapuffs_fpga.Reg
use cocoapuffs_fpga.Reg.{Reg}

abbrev pub default_base_address : ℕ
default_base_address = 0x4000_0020

abbrev pub irq_reg_offset : ℕ
irq_reg_offset = 0x0

abbrev pub counter_reg_offset : ℕ
counter_reg_offset = 0x4

pub record Timer : Type 0 where
  pub irq : Reg
  pub counter : Reg
  pub default_counter : ℕ

unfoldable pub clear_irq : Timer → M ℕ
clear_irq t = Reg.write t.irq 0

unfoldable pub read_irq : Timer → M (ℕ × ℕ)
read_irq t = Reg.read t.irq

unfoldable pub read_counter : Timer → M (ℕ × ℕ)
read_counter t = Reg.read t.counter

unfoldable pub write_counter : Timer → ℕ → M ℕ
write_counter t value = Reg.write t.counter value

-- Timer::Timer; the addresses are sums of `uint32_t`.
unfoldable pub create : ℕ → ℕ → M Timer
create base_address default_counter = do
  let t : Timer = record {
    irq = record { address = (base_address + irq_reg_offset) % 2 ^ 32 };
    counter = record { address = (base_address + counter_reg_offset) % 2 ^ 32 };
    default_counter = default_counter;
  }
  Reg.write t.counter default_counter
  clear_irq t
  pure t

unfoldable pub interrupt_handler : Timer → M (Unit {0})
interrupt_handler t = do write_counter t t.default_counter; clear_irq t; pure tt
