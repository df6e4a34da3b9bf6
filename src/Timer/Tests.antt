-- ===== src/Timer/Tests.antt =====
-- The timer of bin/pic_test.
use cocoapuffs_fpga.Prelude.{◌≡◌, arith, [], ◌∷◌}
use cocoapuffs_fpga.Machine.{store, Machine, done}
use cocoapuffs_fpga.Timer.{Timer, default_base_address, create, interrupt_handler}
use cocoapuffs_fpga.Timer.Armed.{IsArmed, armed}

abbrev test_timer : Timer
test_timer = record {
  irq = record { address = 0x4000_0020 };
  counter = record { address = 0x4000_0024 };
  default_counter = 100_000;
}

abbrev idle : Machine
idle = record { script = []; trace = []; uart_buf = record { buf = []; rd = 0; wr = 0 } }

armed_example :
    ((c : Timer) × (m' : Machine) × (create default_base_address 100_000 idle ≡ done c m')
      × (c.default_counter ≡ 100_000)
      × (c.irq.address ≡ 0x4000_0020)
      × (c.counter.address ≡ 0x4000_0024)
      × (m'.trace ≡ store c.irq.address 0 ∷ store c.counter.address 100_000 ∷ [])
      × IsArmed c m'.trace
      × (m'.script ≡ []))
    × ((m' : Machine) × (interrupt_handler test_timer idle ≡ done tt m')
        × (m'.trace ≡ store 0x4000_0020 0 ∷ store 0x4000_0024 100_000 ∷ [])
        × IsArmed test_timer m'.trace
        × (m'.script ≡ []))
armed_example = armed default_base_address 100_000 test_timer idle (omega arith)
