-- ===== src/PicTest/History.antt =====
-- What bin/pic_test does with the registers of the timer and with the pending interrupts, in order:
-- its loop leaves them alone, and each interrupt adds what InterruptHandler does.
use cocoapuffs_fpga.Prelude.{
  ℕ, ◌≡◌, refl, sym, ap, ◌∙◌, subst, Bool, Option, none, some, List, [], ◌∷◌, ◌++◌, ◌==◌, inl, inr,
  Bool-cases, if◌then◌else◌,
}
use cocoapuffs_fpga.Machine.{
  Event, load, store, csr_read, Machine, done, bind-eq-done, done-machine,
}
use cocoapuffs_fpga.Machine.Frame.{Keeps, Keeps-bind, Keeps-if, Keeps-done}
use cocoapuffs_fpga.Reg
use cocoapuffs_fpga.Uart.{Vsnprintf, put_async}
use cocoapuffs_fpga.Uart.Framed.{put_async-Keeps}
use cocoapuffs_fpga.UartIrq
use cocoapuffs_fpga.UartIrq.{Uart}
use cocoapuffs_fpga.UartIrq.Framed.{read-Keeps}
use cocoapuffs_fpga.Timer
use cocoapuffs_fpga.Pic
use cocoapuffs_fpga.Pic.{Pic, from_pic}
use cocoapuffs_fpga.Pic.Log.{
  log, watched, serviced, register_of, IsApart, log_frame, log_port, log_loads,
}
use cocoapuffs_fpga.Pic.Serviced.{interrupt_handler-Serviced}
use cocoapuffs_fpga.PicTest.{Place, top, tested, failed, shown, prints, period, advance}
use cocoapuffs_fpga.PicTest.Ready.{wired, the_timer, irq_address}

-- What main does at these registers before its loop: the constructor of Pic, that of Timer, and the
-- call of WriteCounter.
abbrev pub started : List Event
started =
    store irq_address 0
    ∷ store the_timer.counter.address period
    ∷ store the_timer.irq.address 0
    ∷ store the_timer.counter.address period
    ∷ []

-- What InterruptHandler does for each cause and the pending interrupts it has read; latest first.
abbrev pub all_serviced : List (ℕ × ℕ) → List Event
all_serviced [] = []
all_serviced (r ∷ rounds) = all_serviced rounds ++ serviced (wired none) r.0 r.1

-- The object of the controller is none of what the log is about.
same_log : (u : Option Uart) (t : List Event) → log (wired u) t ≡ log (wired none) t
same_log u [] = refl
same_log u (load a v ∷ t) =
    ap (λ l. if a == irq_address then l ++ load a v ∷ [] else l) (same_log u t)
same_log u (store a v ∷ t) =
    ap (λ l. if watched (wired none) a then l ++ store a v ∷ [] else l) (same_log u t)
same_log u (csr_read c v ∷ t) = ap (λ l. l ++ csr_read c v ∷ []) (same_log u t)
same_log u (_ ∷ t) = same_log u t

IsApart-wired : (u : Option Uart) → register_of u ≡ some UartIrq.base_address → IsApart (wired u)
IsApart-wired u e = record {
  port_load = refl;
  port_store = refl;
  mask_load = refl;
  uart_load = λ a r. let same : a ≡ UartIrq.base_address = cc in ap (λ x. x == irq_address) same;
}

-- The calls of the loop leave the log alone.
pub advance-log :
    (vsnprintf : Vsnprintf) (u : Option Uart) (apart : IsApart (wired u)) (place : Place)
    (once : Bool)
    → Keeps (log_frame (wired u) apart) (advance vsnprintf the_timer place once)
unfolding advance Timer.read_counter
advance-log vsnprintf u apart top once =
    let f = log_frame (wired u) apart in
    Keeps-bind f (Reg.read the_timer.counter) _
      (read-Keeps (log_loads (wired u) apart) the_timer.counter refl) λ r m. refl
advance-log vsnprintf u apart (tested status v) once = λ m. refl
advance-log vsnprintf u apart (failed v) once = λ m. refl
advance-log vsnprintf u apart (shown v) once = λ m. refl
advance-log vsnprintf u apart (prints [] next) once = λ m. refl
advance-log vsnprintf u apart (prints (c ∷ str) next) once =
    let f = log_frame (wired u) apart in
    Keeps-if f (c == 0) _ _ (λ m. refl)
      (Keeps-bind f (put_async c) _ (put_async-Keeps (log_port (wired u) apart) c) λ ok m. refl)

pub advance-history :
    (vsnprintf : Vsnprintf) (u : Option Uart) (place : Place) (once : Bool) (m : Machine)
    {x : Place × Bool} {m' : Machine}
    → register_of u ≡ some UartIrq.base_address
    → advance vsnprintf the_timer place once m ≡ done x m'
    → log (wired none) m'.trace ≡ log (wired none) m.trace
advance-history vsnprintf u place once m {x} {m'} r ran =
    let apart = IsApart-wired u r in
    sym (same_log u m'.trace)
    ∙ (Keeps-done (log_frame (wired u) apart) (advance vsnprintf the_timer place once) m
          (advance-log vsnprintf u apart place once) ran
        ∙ same_log u m.trace)

-- An interrupt adds what InterruptHandler does, and changes nothing of the controller's object but
-- what lib::Uart has received.
pub interrupt-history :
    (u : Option Uart) (m : Machine) {p : Pic} {m' : Machine}
    → register_of u ≡ some UartIrq.base_address
    → Pic.default_handler (some (wired u)) m ≡ done (some p) m'
    → (p ≡ wired p.uart_handler)
      × (register_of p.uart_handler ≡ some UartIrq.base_address)
      × (round : ℕ × ℕ) × (log (wired none) m'.trace
          ≡ log (wired none) m.trace ++ serviced (wired none) round.0 round.1)
unfolding Pic.default_handler
interrupt-history u m {p} {m'} r h =
    let (q, k, served, last) = bind-eq-done (Pic.interrupt_handler (wired u) m) _ h in
    let same : q ≡ p = cc in
    let ends : k ≡ m' = done-machine last in
    let (cause, irqs, o, logged, kept, reg) =
      interrupt_handler-Serviced (wired u) (IsApart-wired u r) m served in
    let still : (v : Option Uart)
        → q ≡ wired v
        → register_of v ≡ some UartIrq.base_address
        → (p ≡ wired p.uart_handler) × (register_of p.uart_handler ≡ some UartIrq.base_address) =
      λ v e at_base.
        subst
          (λ (x : Pic).
            (x ≡ wired x.uart_handler) × (register_of x.uart_handler ≡ some UartIrq.base_address))
          (sym e ∙ same) (refl, at_base) in
    let objects : (p ≡ wired p.uart_handler)
        × (register_of p.uart_handler ≡ some UartIrq.base_address) =
      elim (Bool-cases (from_pic cause)) [
        | inl ours ↦ still o (rw ours at kept) (reg ∙ r)
        | inr foreign ↦ still u (rw foreign at kept) r
      ] in
    (
      objects.0,
      objects.1,
      (cause, irqs),
      sym (same_log u m'.trace)
          ∙ (ap (λ (x : Machine). log (wired u) x.trace) (sym ends)
              ∙ (logged ∙ ap (λ l. l ++ serviced (wired none) cause irqs) (same_log u m.trace))),
    )
