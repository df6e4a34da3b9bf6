-- ===== src/Pic/Serviced.antt =====
-- The constructor of Pic, and what InterruptHandler does for each cause.
use cocoapuffs_fpga.Prelude.{
  ℕ, ◌≡◌, refl, sym, ap, ◌∙◌, inl, inr, bit_and, Bool, true, false, not, ◌&&◌, ◌||◌, Option, none,
  some, List, [], ◌∷◌, ◌++◌, append_assoc, arith, ◌==◌, if◌then◌else◌, Bool-cases,
}
use cocoapuffs_fpga.Machine.{
  Event, load, store, csr_read, csr_write, csr_set, csr_clear, mie, mstatus, mtvec, mcause, Machine,
  done, bind-eq-done, store32, csrr, csrw, csrrs, csrrc, done-machine, done-result,
}
use cocoapuffs_fpga.Machine.Trace.{last_stored}
use cocoapuffs_fpga.Reg
use cocoapuffs_fpga.Reg.{Reg, lib_reg_read, lib_reg_write}
use cocoapuffs_fpga.Timer.{Timer}
use cocoapuffs_fpga.UartIrq.{Uart}
use cocoapuffs_fpga.Pic.{
  Pic, external_timer_irq, set_interrupt_handler, disable_interrupts, create, from_pic,
  interrupt_handler,
}
use cocoapuffs_fpga.Pic.Log.{log, serviced, register_of, IsApart, csrr_done, service-log, rearmed}

-- The controller's line is enabled in `mie`, as far as the trace tells.
abbrev pub line_enabled : List Event → Bool
line_enabled [] = false
line_enabled (csr_set mie bits ∷ t) = not (bit_and bits external_timer_irq == 0) || line_enabled t
line_enabled (csr_clear mie bits ∷ t) = bit_and bits external_timer_irq == 0 && line_enabled t
line_enabled (_ ∷ t) = line_enabled t

-- The handler that `mtvec` names.
abbrev pub installed : List Event → Option ℕ
installed [] = none
installed (csr_write mtvec handler ∷ t) = some handler
installed (_ ∷ t) = installed t

-- The core never lets interrupts in before a handler is installed.
abbrev pub guarded : List Event → Bool
guarded [] = true
guarded (csr_set mstatus bits ∷ t) = elim (installed t) [ none ↦ false | some h ↦ guarded t ]
guarded (_ ∷ t) = guarded t

-- The constructor of Pic returns without a load, with the controller's line disabled, nothing
-- enabled in its mask and nothing pending; interrupts are let in after the handler is installed, and
-- the two handler pointers are what they were.
pub create_lem :
    (base_address handler : ℕ) (t : Option Timer) (u : Option Uart) (m : Machine)
    → guarded m.trace ≡ true
    → (p : Pic) × (m' : Machine) × (create base_address handler t u m ≡ done p m')
      × (m'.script ≡ m.script)
      × (line_enabled m'.trace ≡ false)
      × (last_stored p.mask_reg.address m'.trace ≡ some 0)
      × (last_stored p.irq_reg.address m'.trace ≡ some 0)
      × (installed m'.trace ≡ some handler)
      × (guarded m'.trace ≡ true)
      × (p.timer_handler ≡ t)
      × (p.uart_handler ≡ u)
unfolding create set_interrupt_handler disable_interrupts Reg.write lib_reg_write store32 csrw csrrs
    csrrc
create_lem base_address handler t u m g =
    (_, _, refl, refl, refl, ground arith, ground arith, refl, g, refl, refl)

module _ (p : Pic) (apart : IsApart p) where
  -- An InterruptHandler that returns, of a controller whose registers are apart from the port, the
  -- mask and the register of lib::Uart. It has read one cause. Of the readings of control registers,
  -- the loads of the pending interrupts and the stores to the watched registers, it has made: for a
  -- cause that is not the controller's that reading alone; otherwise that reading, a load of what is
  -- pending, then, if it has the bit of the timer and there is a handler, the stores with which the
  -- timer is armed again, and last the store that clears what was pending. A foreign cause leaves the
  -- object as it was; otherwise only lib::Uart can have changed, and that keeps its register.
  pub interrupt_handler-Serviced :
      (m : Machine) {p' : Pic} {m' : Machine}
      → interrupt_handler p m ≡ done p' m'
      → (cause irqs : ℕ) × (u : Option Uart) × (log p m'.trace
          ≡ log p m.trace ++ serviced p cause irqs)
        × (p' ≡ (if from_pic cause then record p { uart_handler = u } else p))
        × (register_of u ≡ register_of p.uart_handler)
  unfolding interrupt_handler
  interrupt_handler-Serviced m {p'} {m'} h =
      let (cause, k, read, more) = bind-eq-done (csrr mcause m) _ h in
      let seen : log p k.trace ≡ log p m.trace ++ csr_read mcause cause ∷ [] =
        ap (log p) (csrr_done m read) in
      elim (Bool-cases (from_pic cause)) [
        | inl ours ↦
            let (irqs, u, logged, kept, same) = service-log p apart k (rw ours at more) in
            (
              cause,
              irqs,
              u,
              logged
                  ∙ (ap
                        (λ l.
                          l
                          ++ load p.irq_reg.address irqs
                            ∷ (rearmed p.timer_handler irqs ++ store p.irq_reg.address 0 ∷ []))
                        seen
                      ∙ rw ours (append_assoc (log p m.trace) (csr_read mcause cause ∷ []) _)),
              rw ours kept,
              same,
            )
        | inr foreign ↦
            let last = rw foreign at more in
            (
              cause,
              0,
              p.uart_handler,
              ap (λ (x : Machine). log p x.trace) (sym (done-machine last)) ∙ rw foreign seen,
              rw foreign (sym (done-result last)),
              refl,
            )
      ]
