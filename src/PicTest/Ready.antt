-- ===== src/PicTest/Ready.antt =====
-- What the registers hold while bin/pic_test runs, and that its calls and interrupts keep it.
use cocoapuffs_fpga.Prelude.{ℕ, ◌≡◌, true, Option, some, List, ◌∷◌}
use cocoapuffs_fpga.Machine.{Event, load}
use cocoapuffs_fpga.Machine.Trace.{last_stored}
use cocoapuffs_fpga.Machine.Frame.{Frame}
use cocoapuffs_fpga.Uart.{uart_address}
use cocoapuffs_fpga.Uart.Framed.{PortFrame}
use cocoapuffs_fpga.UartIrq.Framed.{LoadFrame}
use cocoapuffs_fpga.Timer.{Timer}
use cocoapuffs_fpga.Timer.Armed.{IsArmed}
use cocoapuffs_fpga.UartIrq.{Uart}
use cocoapuffs_fpga.Pic.{Pic, timer_irq_bit}
use cocoapuffs_fpga.Pic.Serviced.{line_enabled, installed, guarded}
use cocoapuffs_fpga.PicTest.{period}

-- The timer of the program.
abbrev pub the_timer : Timer
the_timer = record {
  irq = record { address = 0x4000_0020 };
  counter = record { address = 0x4000_0024 };
  default_counter = period;
}

-- The registers of the controller.
abbrev pub mask_address : ℕ
mask_address = 0x4000_0030

abbrev pub irq_address : ℕ
irq_address = 0x4000_0034

-- The object of the controller, whatever its lib::Uart has received.
abbrev pub wired : Option Uart → Pic
wired u = record {
  mask = 0;
  timer_handler = some the_timer;
  uart_handler = u;
  mask_reg = record { address = mask_address };
  irq_reg = record { address = irq_address };
}

-- The handler is installed and was before interrupts were let in, the line and the timer's bit are
-- enabled, what was pending was cleared, and the timer is armed.
pub record IsReady (handler : ℕ) (trace : List Event) : Type 0 where
  pub has_handler : installed trace ≡ some handler
  pub is_guarded : guarded trace ≡ true
  pub has_line : line_enabled trace ≡ true
  pub has_bit : last_stored mask_address trace ≡ some timer_irq_bit
  pub is_cleared : last_stored irq_address trace ≡ some 0
  pub is_armed : IsArmed the_timer trace

module _ (handler : ℕ) where
  abbrev pub ready_frame : Frame
  ready_frame = record {
    Rel = λ m n. IsReady handler m.trace → IsReady handler n.trace;
    same = λ m r. r;
    also = λ p q r. q (p r);
  }

  pub IsReady-load : (a v : ℕ) (t : List Event) → IsReady handler t → IsReady handler (load a v ∷ t)
  IsReady-load a v t r = record {
    has_handler = r.has_handler;
    is_guarded = r.is_guarded;
    has_line = r.has_line;
    has_bit = r.has_bit;
    is_cleared = r.is_cleared;
    is_armed = r.is_armed;
  }

  abbrev pub ready_port : PortFrame
  ready_port = record {
    frame = ready_frame;
    Gets = Unit {0};
    on_heard = λ v rest m e r. IsReady-load uart_address v m.trace r;
    on_load = λ gets v rest m e r. IsReady-load uart_address v m.trace r;
    on_store = λ v m r. record {
      has_handler = r.has_handler;
      is_guarded = r.is_guarded;
      has_line = r.has_line;
      has_bit = r.has_bit;
      is_cleared = r.is_cleared;
      is_armed = r.is_armed;
    };
    on_pop = λ gets m ne r. r;
  }

  abbrev pub ready_loads : LoadFrame
  ready_loads = record {
    frame = ready_frame;
    Allowed = λ a. Unit {0};
    on_load = λ a ok v rest m e r. IsReady-load a v m.trace r;
  }
