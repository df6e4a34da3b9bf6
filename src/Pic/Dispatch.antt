-- ===== src/Pic/Dispatch.antt =====
-- What an interrupt of the controller brings to lib::Uart.
use cocoapuffs_fpga.Prelude.{
  ℕ, ◌<◌, ◌≡◌, refl, sym, ap, ◌∙◌, arith, true, false, Option, none, some, List, [], ◌∷◌, ◌++◌,
  bit_and, ◌==◌, if◌then◌else◌, length, inl, inr, Bool-cases, append-nil,
}
use cocoapuffs_fpga.Machine.{Machine, done, bind, load, store, csr_read, mcause, csrr, store32}
use cocoapuffs_fpga.Machine.Frame.{Keeps-done}
use cocoapuffs_fpga.Machine.Trace.{load32_lem}
use cocoapuffs_fpga.Reg
use cocoapuffs_fpga.Reg.{Reg, lib_reg_read, lib_reg_write}
use cocoapuffs_fpga.Uart.{uart_is_empty, uart_is_full, uart_putchar}
use cocoapuffs_fpga.Uart.Pending.{IsValid, pending, pending_count, pending-push}
use cocoapuffs_fpga.Uart.Account.{heard}
use cocoapuffs_fpga.Uart.Write.{put_room, wrote}
use cocoapuffs_fpga.Timer
use cocoapuffs_fpga.Timer.{Timer}
use cocoapuffs_fpga.UartIrq
use cocoapuffs_fpga.UartIrq.{Uart}
use cocoapuffs_fpga.UartIrq.Framed.{LoadFrame, interrupt_handler-Keeps}
use cocoapuffs_fpga.UartIrq.Handler.{ring, room, all_bytes, Drained, interrupt_drains}
use cocoapuffs_fpga.Pic.{
  Pic, timer_irq_bit, uart_irq_bit, from_pic, call_timer, call_uart, service, clear_irq, read_mask,
  interrupt_handler,
}

csrr_lem :
    (m : Machine) {v : ℕ} {rest : List ℕ}
    → m.script ≡ v ∷ rest
    → csrr mcause m ≡ done v (record m { script = rest; trace = csr_read mcause v ∷ m.trace })
unfolding csrr
csrr_lem m e = ground arith

read_lem :
    (reg : Reg) (m : Machine) {v : ℕ} {rest : List ℕ}
    → m.script ≡ v ∷ rest
    → Reg.read reg m
      ≡ done (0, v) (record m { script = rest; trace = load reg.address v ∷ m.trace })
unfolding Reg.read lib_reg_read
read_lem reg m e = ap (λ o. bind o λ v k. done (0, v) k) (load32_lem reg.address m e)

-- The handler of the timer loads nothing and leaves the polling driver alone.
call_timer_done :
    (o : Option Timer) (irqs : ℕ) (m : Machine)
    → (k : Machine) × (call_timer o irqs m ≡ done tt k)
      × ((k.script ≡ m.script) × (k.uart_buf ≡ m.uart_buf))
unfolding call_timer Timer.interrupt_handler Timer.write_counter Timer.clear_irq Reg.write
    lib_reg_write store32
call_timer_done none irqs m = (m, refl, (refl, refl))
call_timer_done (some t) irqs m = elim (Bool-cases (bit_and irqs timer_irq_bit == 0)) [
  | inl quiet ↦ (m, rw quiet refl, (refl, refl))
  | inr pending ↦ (
    record m {
      trace = store t.irq.address 0 ∷ store t.counter.address t.default_counter ∷ m.trace;
    },
    rw pending refl,
    (refl, refl),
  )
]

-- The bytes that the polling driver has saved stay what they are.
abbrev saved_frame : LoadFrame
saved_frame = record {
  frame = record { Rel = λ m n. n.uart_buf ≡ m.uart_buf; same = λ m. refl; also = λ p q. q ∙ p };
  Allowed = λ a. Unit {0};
  on_load = λ a ok v rest m e. refl;
}

-- The answer to the CanWrite of the handler's own character.
abbrev pub saved_char : ℕ → List ℕ
saved_char v = if uart_is_empty v then [] else bit_and v 0xff ∷ []

heard_saves :
    (v : ℕ) (rest : List ℕ) (m : Machine)
    → IsValid m.uart_buf
    → pending_count m.uart_buf < 255
    → pending (heard v rest m).uart_buf ≡ pending m.uart_buf ++ saved_char v
heard_saves v rest m valid fits = elim (Bool-cases (uart_is_empty v)) [
  | inl empty ↦ rw empty (sym (append-nil _))
  | inr byte ↦ rw byte (pending-push (bit_and v 0xff) valid fits)
]

-- An interrupt of the controller that has the bit of lib::Uart, while the port has room for the
-- handler's own character and the polling driver has room for one; the answers to lib::Uart are
-- fewer characters than its ring has room for and then an empty port. InterruptHandler returns,
-- loads no further, and changes of its object only lib::Uart, which has stored these characters in
-- order. But a character that the port answered to the printing of the `!`, the first that it had,
-- is saved by the polling driver instead.
pub interrupt_receives :
    (p : Pic) (u : Uart) (cause v mask irqs : ℕ) (vs : List ℕ) (e : ℕ) (rest : List ℕ) (m : Machine)
    → p.uart_handler ≡ some u
    → m.script ≡ cause ∷ v ∷ mask ∷ irqs ∷ (vs ++ e ∷ rest)
    → from_pic cause ≡ true
    → (bit_and irqs uart_irq_bit == 0) ≡ false
    → uart_is_full v ≡ false
    → all_bytes vs ≡ true
    → uart_is_empty e ≡ true
    → IsValid (ring u)
    → length vs < room u
    → IsValid m.uart_buf
    → pending_count m.uart_buf < 255
    → (u' : Uart) × (m' : Machine) × (interrupt_handler p m
        ≡ done (record p { uart_handler = some u' }) m')
      × (m'.script ≡ rest)
      × Drained u vs u'
      × (pending m'.uart_buf ≡ pending m.uart_buf ++ saved_char v)
unfolding interrupt_handler service uart_putchar read_mask call_uart clear_irq Reg.write
    lib_reg_write store32
interrupt_receives p u cause v mask irqs vs e rest m handler script ours for_uart has_room bytes
      empty valid fits valid_saved fits_saved =
    let m0 = record m {
      script = v ∷ mask ∷ irqs ∷ (vs ++ e ∷ rest);
      trace = csr_read mcause cause ∷ m.trace;
    } in
    let m1 = wrote b'!' (heard v (mask ∷ irqs ∷ (vs ++ e ∷ rest)) m0) in
    let m2 = record m1 {
      script = irqs ∷ (vs ++ e ∷ rest);
      trace = load p.mask_reg.address mask ∷ m1.trace;
    } in
    let m3 = record m2 {
      script = vs ++ e ∷ rest;
      trace = load p.irq_reg.address irqs ∷ m2.trace;
    } in
    let (m4, timed, after) = call_timer_done p.timer_handler irqs m3 in
    let (u', m5, drained, ends, stored) =
      interrupt_drains vs e rest u m4 after.0 bytes empty valid fits in
    let kept =
      Keeps-done saved_frame.frame (UartIrq.interrupt_handler u) m4
        (interrupt_handler-Keeps saved_frame u tt) drained in
    (
      u',
      record m5 { trace = store p.irq_reg.address 0 ∷ m5.trace },
      rw
          (
            csrr_lem m script,
            ours,
            put_room b'!' m0 refl has_room,
            read_lem p.mask_reg m1 refl,
            read_lem p.irq_reg m2 refl,
            timed,
            handler,
            for_uart,
            drained,
          )
          refl,
      ends,
      stored,
      ap pending (kept ∙ after.1)
          ∙ heard_saves v (mask ∷ irqs ∷ (vs ++ e ∷ rest)) m0 valid_saved fits_saved,
    )
