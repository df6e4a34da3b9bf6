-- ===== src/Timer/Armed.antt =====
-- Timer::Timer and Timer::InterruptHandler: what they leave in the two registers.
use cocoapuffs_fpga.Prelude.{ℕ, ◌+◌, ◌%◌, ◌^◌, ◌∷◌, ◌≡◌, ◌≢◌, refl, arith, some, List}
use cocoapuffs_fpga.Machine.{Event, store, Machine, done, store32}
use cocoapuffs_fpga.Machine.Trace.{last_stored}
use cocoapuffs_fpga.Reg
use cocoapuffs_fpga.Reg.{lib_reg_write}
use cocoapuffs_fpga.Timer.{Timer, create, interrupt_handler, write_counter, clear_irq}

-- The counter was last set to its default, and the interrupt was cleared after that.
abbrev pub IsArmed : Timer → List Event → Type 0
IsArmed t trace =
    (last_stored t.counter.address trace ≡ some t.default_counter)
    × (last_stored t.irq.address trace ≡ some 0)

-- The constructor, of a base address, makes a timer with the registers at it and four above, and
-- does two things: it stores the default at the counter, and after that 0 at the interrupt register.
-- The handler of a timer does the same two things in the same order. Neither loads anything, and
-- where the registers are different, the counter then holds its default and no interrupt is left.
pub armed :
    (base d : ℕ) (t : Timer) (m : Machine)
    → t.counter.address ≢ t.irq.address
    → ((c : Timer) × (m' : Machine) × (create base d m ≡ done c m')
        × (c.default_counter ≡ d)
        × (c.irq.address ≡ base % 2 ^ 32)
        × (c.counter.address ≡ (base + 4) % 2 ^ 32)
        × (m'.trace ≡ store c.irq.address 0 ∷ store c.counter.address d ∷ m.trace)
        × IsArmed c m'.trace
        × (m'.script ≡ m.script))
      × ((m' : Machine) × (interrupt_handler t m ≡ done tt m')
          × (m'.trace ≡ store t.irq.address 0 ∷ store t.counter.address t.default_counter ∷ m.trace)
          × IsArmed t m'.trace
          × (m'.script ≡ m.script))
unfolding create interrupt_handler write_counter clear_irq Reg.write lib_reg_write store32
armed base d t m ne = (
  (_, _, refl, refl, omega arith, refl, refl, (ground arith, ground arith), refl),
  (_, refl, refl, (ground arith, ground arith), refl),
)
