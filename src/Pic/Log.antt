-- ===== src/Pic/Log.antt =====
-- What the code of Pic does with its registers and the timer's: the log of a run, and that the calls
-- which do not belong to it leave it alone.
use cocoapuffs_fpga.Prelude.{
  ℕ, ◌≡◌, refl, sym, ap, ◌∙◌, inl, inr, bit_and, Bool, true, false, ◌||◌, Option, none, some, List,
  [], ◌∷◌, ◌++◌, append-nil, append_assoc, arith, ◌==◌, if◌then◌else◌, Bool-cases,
}
use cocoapuffs_fpga.Machine.{
  Event, load, store, load32, csr_read, mcause, Machine, done, bind-eq-done, store32, csrr,
  done-machine, done-result,
}
use cocoapuffs_fpga.Machine.Trace.{load32-done}
use cocoapuffs_fpga.Machine.Frame.{Frame, Keeps-done}
use cocoapuffs_fpga.Reg
use cocoapuffs_fpga.Reg.{Reg, lib_reg_read, lib_reg_write}
use cocoapuffs_fpga.Uart.{uart_address, uart_putchar}
use cocoapuffs_fpga.Uart.Framed.{PortFrame, uart_putchar-Keeps}
use cocoapuffs_fpga.Timer
use cocoapuffs_fpga.Timer.{Timer}
use cocoapuffs_fpga.UartIrq
use cocoapuffs_fpga.UartIrq.{Uart}
use cocoapuffs_fpga.UartIrq.Framed.{
  LoadFrame, read-Keeps, interrupt_handler-Keeps, interrupt_handler_reg,
}
use cocoapuffs_fpga.Pic.{
  Pic, timer_irq_bit, uart_irq_bit, clear_irq, read_mask, from_pic, call_timer, call_uart, service,
}

abbrev pub at_timer : Option Timer → ℕ → Bool
at_timer none a = false
at_timer (some t) a = a == t.irq.address || a == t.counter.address

-- The registers that InterruptHandler writes: that of the pending interrupts, and the timer's two.
abbrev pub watched : Pic → ℕ → Bool
watched p a = a == p.irq_reg.address || at_timer p.timer_handler a

-- The readings of control registers, the loads of the pending interrupts and the stores to the
-- watched registers, oldest first.
abbrev pub log : Pic → List Event → List Event
log p [] = []
log p (load a v ∷ t) = if a == p.irq_reg.address then log p t ++ load a v ∷ [] else log p t
log p (store a v ∷ t) = if watched p a then log p t ++ store a v ∷ [] else log p t
log p (csr_read c v ∷ t) = log p t ++ csr_read c v ∷ []
log p (_ ∷ t) = log p t

-- What the handler of the timer does, if `irqs` says that the timer has an interrupt.
abbrev pub rearmed : Option Timer → ℕ → List Event
rearmed none irqs = []
rearmed (some t) irqs =
    if bit_and irqs timer_irq_bit == 0
    then []
    else store t.counter.address t.default_counter ∷ store t.irq.address 0 ∷ []

-- What one InterruptHandler does: nothing more than to read the cause, if that is not its own; else
-- it reads the pending interrupts, has the timer armed, and clears what was pending, in this order.
abbrev pub serviced : Pic → ℕ → ℕ → List Event
serviced p cause irqs =
    csr_read mcause cause
    ∷ (if from_pic cause
        then load p.irq_reg.address irqs
          ∷ (rearmed p.timer_handler irqs ++ store p.irq_reg.address 0 ∷ [])
        else [])

abbrev pub register_of : Option Uart → Option ℕ
register_of none = none
register_of (some u) = some u.reg.address

-- The port, the mask and the register of lib::Uart are none of the watched registers.
pub record IsApart (p : Pic) : Type 0 where
  pub port_load : (uart_address == p.irq_reg.address) ≡ false
  pub port_store : watched p uart_address ≡ false
  pub mask_load : (p.mask_reg.address == p.irq_reg.address) ≡ false
  pub uart_load : (a : ℕ) → register_of p.uart_handler ≡ some a → (a == p.irq_reg.address) ≡ false

read_irqs_lem :
    (reg : Reg) (m : Machine) {r : ℕ × ℕ} {k : Machine}
    → Reg.read reg m ≡ done r k
    → k.trace ≡ load reg.address r.1 ∷ m.trace
unfolding Reg.read lib_reg_read
read_irqs_lem reg m {r} {k} h =
    let (v, n, loaded, last) = bind-eq-done (load32 reg.address m) (λ v m. done (0, v) m) h in
    ap (λ (x : Machine). x.trace) (sym (done-machine last))
    ∙ ((load32-done reg.address m loaded).1
        ∙ ap (λ (x : ℕ × ℕ). load reg.address x.1 ∷ m.trace) (done-result last))

pub csrr_done :
    (m : Machine) {v : ℕ} {k : Machine}
    → csrr mcause m ≡ done v k
    → k.trace ≡ csr_read mcause v ∷ m.trace
unfolding csrr
csrr_done m {v} {k} h = go m.script refl
  where
    go : (s : List ℕ) → m.script ≡ s → k.trace ≡ csr_read mcause v ∷ m.trace
    go [] e = ground arith
    go (w ∷ rest) e = ground arith

itself : (a : ℕ) → (a == a) ≡ true
itself a = ground arith

module _ (p : Pic) (apart : IsApart p) where
  abbrev pub log_frame : Frame
  log_frame = record {
    Rel = λ m n. log p n.trace ≡ log p m.trace;
    same = λ m. refl;
    also = λ e f. f ∙ e;
  }

  abbrev pub log_port : PortFrame
  log_port = record {
    frame = log_frame;
    Gets = Unit {0};
    on_heard = λ v rest m e. rw apart.port_load refl;
    on_load = λ gets v rest m e. rw apart.port_load refl;
    on_store = λ v m. rw apart.port_store refl;
    on_pop = λ gets m ne. refl;
  }

  abbrev pub log_loads : LoadFrame
  log_loads = record {
    frame = log_frame;
    Allowed = λ a. (a == p.irq_reg.address) ≡ false;
    on_load = λ a ok v rest m e. rw ok refl;
  }

  armed_registers :
      (t : Timer)
      → p.timer_handler ≡ some t
      → (watched p t.counter.address ≡ true) × (watched p t.irq.address ≡ true)
  armed_registers t e =
      (rw (e, itself t.counter.address) (ground arith), rw (e, itself t.irq.address) (ground arith))

  call_timer-log :
      (o : Option Timer) (irqs : ℕ) (m : Machine) {m' : Machine}
      → p.timer_handler ≡ o
      → call_timer o irqs m ≡ done tt m'
      → log p m'.trace ≡ log p m.trace ++ rearmed o irqs
  unfolding call_timer Timer.interrupt_handler Timer.write_counter Timer.clear_irq Reg.write
      lib_reg_write store32
  call_timer-log none irqs m e h =
      ap (λ (x : Machine). log p x.trace) (sym (done-machine h)) ∙ sym (append-nil (log p m.trace))
  call_timer-log (some t) irqs m e h = elim (Bool-cases (bit_and irqs timer_irq_bit == 0)) [
    | inl quiet ↦
        ap (λ (x : Machine). log p x.trace) (sym (done-machine (rw quiet at h)))
        ∙ rw quiet (sym (append-nil (log p m.trace)))
    | inr pending ↦
        let (counter, irq) = armed_registers t e in
        let two = store t.counter.address t.default_counter ∷ store t.irq.address 0 ∷ [] in
        ap (λ (x : Machine). log p x.trace) (sym (done-machine (rw pending at h)))
        ∙ (ap
              (λ b.
                if b
                then (if watched p t.counter.address
                    then log p m.trace ++ store t.counter.address t.default_counter ∷ []
                    else log p m.trace)
                  ++ store t.irq.address 0 ∷ []
                else (if watched p t.counter.address
                    then log p m.trace ++ store t.counter.address t.default_counter ∷ []
                    else log p m.trace))
              irq
            ∙ (ap
                  (λ b.
                    (if b
                      then log p m.trace ++ store t.counter.address t.default_counter ∷ []
                      else log p m.trace)
                    ++ store t.irq.address 0 ∷ [])
                  counter
                ∙ rw pending (
                    append_assoc (log p m.trace) (store t.counter.address t.default_counter ∷ [])
                      (store t.irq.address 0 ∷ []))))
  ]

  call_uart-log :
      (o : Option Uart) (irqs : ℕ) (m : Machine) {u : Option Uart} {m' : Machine}
      → p.uart_handler ≡ o
      → call_uart o irqs m ≡ done u m'
      → (log p m'.trace ≡ log p m.trace) × (register_of u ≡ register_of o)
  unfolding call_uart
  call_uart-log none irqs m e h = (
    ap (λ (x : Machine). log p x.trace) (sym (done-machine h)),
    ap register_of (sym (done-result h)),
  )
  call_uart-log (some u) irqs m e h = elim (Bool-cases (bit_and irqs uart_irq_bit == 0)) [
    | inl quiet ↦
        let last = rw quiet at h in
        (
          ap (λ (x : Machine). log p x.trace) (sym (done-machine last)),
          ap register_of (sym (done-result last)),
        )
    | inr pending ↦
        let (u', k, ran, last) =
          bind-eq-done (UartIrq.interrupt_handler u m) (λ u' m. done (some u') m)
            (rw pending at h) in
        let elsewhere = apart.uart_load u.reg.address (ap register_of e) in
        (
          ap (λ (x : Machine). log p x.trace) (sym (done-machine last))
              ∙ Keeps-done log_frame (UartIrq.interrupt_handler u) m
                  (interrupt_handler-Keeps log_loads u elsewhere) ran,
          ap register_of (sym (done-result last))
              ∙ ap (λ (r : Reg). some r.address) (interrupt_handler_reg u m ran),
        )
  ]

  pub service-log :
      (m : Machine) {p' : Pic} {m' : Machine}
      → service p m ≡ done p' m'
      → (irqs : ℕ) × (u : Option Uart) × (log p m'.trace
          ≡ log p m.trace
            ++ load p.irq_reg.address irqs
              ∷ (rearmed p.timer_handler irqs ++ store p.irq_reg.address 0 ∷ []))
        × (p' ≡ record p { uart_handler = u })
        × (register_of u ≡ register_of p.uart_handler)
  unfolding service read_mask clear_irq Reg.write lib_reg_write store32
  service-log m {p'} {m'} h =
      let (u0, m0, e0, h0) = bind-eq-done (uart_putchar b'!' m) _ h in
      let (u1, m1, e1, h1) = bind-eq-done (Reg.read p.mask_reg m0) _ h0 in
      let (irqs, m2, e2, h2) = bind-eq-done (Reg.read p.irq_reg m1) _ h1 in
      let (u3, m3, e3, h3) = bind-eq-done (call_timer p.timer_handler irqs.1 m2) _ h2 in
      let (u, m4, e4, last) = bind-eq-done (call_uart p.uart_handler irqs.1 m3) _ h3 in
      let (quiet, same) = call_uart-log p.uart_handler irqs.1 m3 refl e4 in
      let first : log p m1.trace ≡ log p m.trace =
        Keeps-done log_frame (Reg.read p.mask_reg) m0
          (read-Keeps log_loads p.mask_reg apart.mask_load) e1
        ∙ Keeps-done log_frame (uart_putchar b'!') m (uart_putchar-Keeps log_port b'!') e0 in
      let seen : log p m2.trace ≡ log p m1.trace ++ load p.irq_reg.address irqs.1 ∷ [] =
        ap (log p) (read_irqs_lem p.irq_reg m1 e2) ∙ rw (itself p.irq_reg.address) refl in
      let cleared : log p m'.trace ≡ log p m4.trace ++ store p.irq_reg.address 0 ∷ [] =
        ap (λ (x : Machine). log p x.trace) (sym (done-machine last))
        ∙ rw (itself p.irq_reg.address) refl in
      (
        irqs.1,
        u,
        cleared
            ∙ (ap (λ l. l ++ store p.irq_reg.address 0 ∷ [])
                  (quiet
                    ∙ (call_timer-log p.timer_handler irqs.1 m2 refl e3
                        ∙ (ap (λ l. l ++ rearmed p.timer_handler irqs.1)
                              (seen ∙ ap (λ l. l ++ load p.irq_reg.address irqs.1 ∷ []) first)
                            ∙ append_assoc (log p m.trace) (load p.irq_reg.address irqs.1 ∷ [])
                                (rearmed p.timer_handler irqs.1))))
                ∙ append_assoc (log p m.trace)
                    (load p.irq_reg.address irqs.1 ∷ rearmed p.timer_handler irqs.1)
                    (store p.irq_reg.address 0 ∷ [])),
        sym (done-result last),
        same,
      )
