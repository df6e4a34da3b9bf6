-- ===== src/UartIrq/Framed.antt =====
-- The frame of the interrupt handler of lib::Uart: it only loads.
use cocoapuffs_fpga.Prelude.{
  sym, ap, inl, inr, Bool-cases, ℕ, zero, suc, ◌≡◌, true, List, ◌∷◌, bit_and, ◌==◌, if◌then◌else◌,
}
use cocoapuffs_fpga.Machine.{Machine, load, pure, done, bind-eq-done, done-result, load32}
use cocoapuffs_fpga.Machine.Frame.{Frame, Keeps, Keeps-bind, Keeps-if, Keeps-load32}
use cocoapuffs_fpga.Reg
use cocoapuffs_fpga.Reg.{Reg, lib_reg_read}
use cocoapuffs_fpga.Uart.{uart_is_empty}
use cocoapuffs_fpga.UartIrq.{Uart, buffer_size, store_char, interrupt_loop, interrupt_handler}

-- Loads at the addresses that are allowed keep the relation.
pub record LoadFrame : Type 1 where
  pub frame : Frame
  pub Allowed : ℕ → Type 0
  pub on_load :
      (a : ℕ)
      → Allowed a
      → (v : ℕ) (rest : List ℕ) (m : Machine) → m.script ≡ v ∷ rest
      → frame.Rel m (record m { script = rest; trace = load a v ∷ m.trace })

module _ (l : LoadFrame) where
  open l use {frame as r, Allowed, on_load}

  pub read-Keeps : (reg : Reg) → Allowed reg.address → Keeps r (Reg.read reg)
  unfolding Reg.read lib_reg_read
  read-Keeps reg ok =
      Keeps-bind r (load32 reg.address) _ (Keeps-load32 r reg.address (on_load reg.address ok))
        λ v. r.same

  interrupt_loop-Keeps : (n : ℕ) (u : Uart) → Allowed u.reg.address → Keeps r (interrupt_loop n u)
  unfolding interrupt_loop store_char
  interrupt_loop-Keeps zero u ok m = r.same m
  interrupt_loop-Keeps (suc n) u ok m =
      Keeps-bind r (Reg.read u.reg)
        (λ x.
          let stored = store_char u (bit_and x.1 0xff) in
          if uart_is_empty x.1
          then pure u
          else if stored.begin == stored.end
          then pure (record stored { overrun = true })
          else interrupt_loop n stored)
        (read-Keeps u.reg ok)
        (λ x.
          let stored = store_char u (bit_and x.1 0xff) in
          Keeps-if r (uart_is_empty x.1) _ _ r.same
            (Keeps-if r (stored.begin == stored.end) _ _ r.same (interrupt_loop-Keeps n stored ok)))
        m

  pub interrupt_handler-Keeps : (u : Uart) → Allowed u.reg.address → Keeps r (interrupt_handler u)
  unfolding interrupt_handler
  interrupt_handler-Keeps u ok = interrupt_loop-Keeps buffer_size u ok

interrupt_loop_reg :
    (n : ℕ) (u : Uart) (m : Machine) {u' : Uart} {m' : Machine}
    → interrupt_loop n u m ≡ done u' m'
    → u'.reg ≡ u.reg
unfolding interrupt_loop store_char
interrupt_loop_reg zero u m h = cc
interrupt_loop_reg (suc n) u m h =
    let (x, k, read, more) = bind-eq-done (Reg.read u.reg m) _ h in
    let stored = store_char u (bit_and x.1 0xff) in
    elim (Bool-cases (uart_is_empty x.1)) [
      | inl nothing ↦ ap (λ (y : Uart). y.reg) (sym (done-result (rw nothing at more)))
      | inr byte ↦ elim (Bool-cases (stored.begin == stored.end)) [
        | inl full ↦ ap (λ (y : Uart). y.reg) (sym (done-result (rw (byte, full) at more)))
        | inr spare ↦ interrupt_loop_reg n stored k (rw (byte, spare) at more)
      ]
    ]

-- The handler leaves the register of its object alone.
pub interrupt_handler_reg :
    (u : Uart) (m : Machine) {u' : Uart} {m' : Machine}
    → interrupt_handler u m ≡ done u' m'
    → u'.reg ≡ u.reg
unfolding interrupt_handler
interrupt_handler_reg u m h = interrupt_loop_reg buffer_size u m h
