-- ===== src/PicTest/Kept.antt =====
-- The passes of the loop of bin/pic_test and the interrupt handler keep the registers ready.
use cocoapuffs_fpga.Prelude.{
  ℕ, ◌+◌, refl, Bool, Option, none, some, List, ◌∷◌, ◌==◌, bit_and, if◌then◌else◌, [],
}
use cocoapuffs_fpga.Machine.{pure, store32, csrr, ◌>>=◌, mcause, csr_answer}
use cocoapuffs_fpga.Machine.Frame.{final, Keeps, Keeps-bind, Keeps-if}
use cocoapuffs_fpga.Reg
use cocoapuffs_fpga.Reg.{Reg, lib_reg_read, lib_reg_write}
use cocoapuffs_fpga.Uart.{Vsnprintf, put_async, uart_putchar}
use cocoapuffs_fpga.Uart.Framed.{put_async-Keeps, uart_putchar-Keeps}
use cocoapuffs_fpga.UartIrq
use cocoapuffs_fpga.UartIrq.{Uart}
use cocoapuffs_fpga.UartIrq.Framed.{read-Keeps, interrupt_handler-Keeps}
use cocoapuffs_fpga.Timer
use cocoapuffs_fpga.Timer.{Timer}
use cocoapuffs_fpga.Pic
use cocoapuffs_fpga.Pic.{
  Pic, timer_irq_bit, uart_irq_bit, set_uart_handler, set_timer_handler, set_mask, call_timer,
  call_uart, service, from_pic, read_mask, clear_irq, set_interrupt_handler, disable_interrupts,
}
use cocoapuffs_fpga.PicTest.{Place, top, tested, failed, shown, prints, advance}
use cocoapuffs_fpga.PicTest.Ready.{wired, the_timer, ready_frame, ready_port, ready_loads}

module _ (handler : ℕ) where
  csrr-Keeps : Keeps (ready_frame handler) (csrr mcause)
  unfolding csrr
  csrr-Keeps m = go m.script
    where
      go : (s : List ℕ) → (ready_frame handler).Rel m (final (csr_answer mcause s m))
      go [] r = r
      go (v ∷ rest) r = record {
        has_handler = r.has_handler;
        is_guarded = r.is_guarded;
        has_line = r.has_line;
        has_bit = r.has_bit;
        is_cleared = r.is_cleared;
        is_armed = r.is_armed;
      }

  call_timer-Keeps : (irqs : ℕ) → Keeps (ready_frame handler) (call_timer (some the_timer) irqs)
  unfolding call_timer Timer.interrupt_handler Timer.write_counter Timer.clear_irq Reg.write
      lib_reg_write store32
  call_timer-Keeps irqs =
      Keeps-if (ready_frame handler) (bit_and irqs timer_irq_bit == 0) (pure tt) _ (λ m r. r)
        λ m r. record {
          has_handler = r.has_handler;
          is_guarded = r.is_guarded;
          has_line = r.has_line;
          has_bit = r.has_bit;
          is_cleared = r.is_cleared;
          is_armed = (refl, refl);
        }

  clear_irq-Keeps :
      (u : Option Uart) (mask : ℕ) → Keeps (ready_frame handler) (clear_irq (wired u) mask)
  unfolding clear_irq Reg.write lib_reg_write store32
  clear_irq-Keeps u mask m r = record {
    has_handler = r.has_handler;
    is_guarded = r.is_guarded;
    has_line = r.has_line;
    has_bit = r.has_bit;
    is_cleared = refl;
    is_armed = r.is_armed;
  }

  pub advance-Keeps :
      (vsnprintf : Vsnprintf) (t : Timer) (place : Place) (once : Bool)
      → Keeps (ready_frame handler) (advance vsnprintf t place once)
  unfolding advance Timer.read_counter
  advance-Keeps vsnprintf t top once =
      Keeps-bind (ready_frame handler) (Reg.read t.counter) _
        (read-Keeps (ready_loads handler) t.counter tt) λ r m x. x
  advance-Keeps vsnprintf t (tested status v) once = λ m x. x
  advance-Keeps vsnprintf t (failed v) once = λ m x. x
  advance-Keeps vsnprintf t (shown v) once = λ m x. x
  advance-Keeps vsnprintf t (prints [] next) once = λ m x. x
  advance-Keeps vsnprintf t (prints (c ∷ str) next) once =
      Keeps-if (ready_frame handler) (c == 0) _ _ (λ m x. x)
        (Keeps-bind (ready_frame handler) (put_async c) _ (put_async-Keeps (ready_port handler) c)
          λ ok m x. x)

  call_uart-Keeps : (u : Option Uart) (irqs : ℕ) → Keeps (ready_frame handler) (call_uart u irqs)
  unfolding call_uart
  call_uart-Keeps none irqs = λ m r. r
  call_uart-Keeps (some u) irqs =
      Keeps-if (ready_frame handler) (bit_and irqs uart_irq_bit == 0) _ _ (λ m r. r)
        (Keeps-bind (ready_frame handler) (UartIrq.interrupt_handler u) _
          (interrupt_handler-Keeps (ready_loads handler) u tt) λ u' m r. r)

  service-Keeps : (u : Option Uart) → Keeps (ready_frame handler) (service (wired u))
  unfolding service read_mask
  service-Keeps u =
      let f = ready_frame handler in
      let p = wired u in
      Keeps-bind f (uart_putchar b'!') _ (uart_putchar-Keeps (ready_port handler) b'!') λ _.
        Keeps-bind f (Reg.read p.mask_reg) _ (read-Keeps (ready_loads handler) p.mask_reg tt) λ _.
          Keeps-bind f (Reg.read p.irq_reg) _ (read-Keeps (ready_loads handler) p.irq_reg tt)
            λ irqs.
              Keeps-bind f (call_timer p.timer_handler irqs.1) _ (call_timer-Keeps irqs.1) λ _.
                Keeps-bind f (call_uart p.uart_handler irqs.1) _ (call_uart-Keeps u irqs.1) λ u'.
                  Keeps-bind f (clear_irq p (timer_irq_bit + uart_irq_bit)) _
                    (clear_irq-Keeps u (timer_irq_bit + uart_irq_bit)) λ _ m r. r

  pub default_handler-Keeps :
      (u : Option Uart) → Keeps (ready_frame handler) (Pic.default_handler (some (wired u)))
  unfolding Pic.default_handler Pic.interrupt_handler
  default_handler-Keeps u =
      let f = ready_frame handler in
      Keeps-bind f
        (csrr mcause >>= λ cause. if from_pic cause then service (wired u) else pure (wired u)) _
        (Keeps-bind f (csrr mcause) _ csrr-Keeps
          λ cause. Keeps-if f (from_pic cause) _ _ (service-Keeps u) λ m r. r)
        λ p m r. r
