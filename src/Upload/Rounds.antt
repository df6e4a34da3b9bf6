-- ===== src/Upload/Rounds.antt =====
-- The bound on the rounds of the upload's loop, against the answers that the hardware has left.
use cocoapuffs_fpga.Prelude.{
  ℕ, zero, suc, ◌<◌, ◌≤◌, ◌≡◌, refl, sym, ap, ◌∙◌, Bool, false, arith, length, if◌then◌else◌,
}
use cocoapuffs_fpga.Machine.{
  Machine, Outcome, done, waiting, halted, fault, bind, pure, bind-eq-done,
}
use cocoapuffs_fpga.Machine.Frame.{Keeps-if, Keeps-done}
use cocoapuffs_fpga.Uart.{Vsnprintf, buffer_size, uart_putchar, uart_getline}
use cocoapuffs_fpga.Uart.Spending.{script_port, put_spends}
use cocoapuffs_fpga.Uart.Framed.{uart_putchar-Keeps, uart_getline-Keeps}
use cocoapuffs_fpga.Ihex.{Globals}
use cocoapuffs_fpga.Ihex.Framed.{LoaderFrame}
use cocoapuffs_fpga.Upload.{KkIhex, xon, xoff, take_line, receive_line, receive_lines}
use cocoapuffs_fpga.Upload.Framed.{take_line-Keeps}
use cocoapuffs_fpga.Upload.Stream.{receive_lines_step}

abbrev script_frame : LoaderFrame
script_frame = record { port = script_port; on_byte = λ a b m. omega arith }

module _ (vsnprintf : Vsnprintf) (kk : KkIhex) where
  open kk use {State}

  pub receive_line_spends :
      (first_pass : Bool) (s : State) (g : Globals) (m : Machine) {x : State × Globals}
      {m' : Machine}
      → receive_line vsnprintf kk first_pass s g m ≡ done x m'
      → length m'.script < length m.script
  unfolding receive_line uart_putchar
  receive_line_spends first_pass s g m {x} {m'} h =
      let (u0, k, started, h0) =
        bind-eq-done ((if first_pass then pure tt else uart_putchar xon) m) _ h in
      let (l, n, got, h1) = bind-eq-done (uart_getline buffer_size k) _ h0 in
      let (u1, o, held, h2) = bind-eq-done (uart_putchar xoff n) _ h1 in
      let first : length k.script ≤ length m.script =
        Keeps-done script_frame.port.frame (if first_pass then pure tt else uart_putchar xon) m
          (Keeps-if script_frame.port.frame first_pass (pure tt) (uart_putchar xon)
            (λ m. omega arith) (uart_putchar-Keeps script_frame.port xon))
          started in
      let second : length n.script ≤ length k.script =
        Keeps-done script_frame.port.frame (uart_getline buffer_size) k
          (uart_getline-Keeps script_frame.port tt buffer_size) got in
      let third : length o.script < length n.script = put_spends xoff n held in
      let fourth : length m'.script ≤ length o.script =
        Keeps-done script_frame.port.frame (take_line vsnprintf kk l.0 l.1 s g) o
          (take_line-Keeps script_frame vsnprintf kk l.0 l.1 s g) h2 in
      omega (arith, first, second, third, fourth)

  -- More rounds than there are answers left make no difference: the bound of the upload's loop is
  -- never what ends it.
  pub receive_lines_enough :
      (n k : ℕ) (first_pass : Bool) (s : State) (g : Globals) (m : Machine)
      → length m.script < n
      → length m.script < k
      → receive_lines vsnprintf kk n first_pass s g m
        ≡ receive_lines vsnprintf kk k first_pass s g m
  receive_lines_enough zero k first_pass s g m p q = absurd (omega arith)
  receive_lines_enough (suc n) zero first_pass s g m p q = absurd (omega arith)
  receive_lines_enough (suc n) (suc k) first_pass s g m p q =
      receive_lines_step vsnprintf kk n first_pass s g m
      ∙ (ap (λ o. if g.eof then done (s, g) m else o)
            (after (receive_line vsnprintf kk first_pass s g m) refl λ x m' e.
              receive_lines_enough n k false x.0 x.1 m'
                (omega (arith, receive_line_spends first_pass s g m e))
                (omega (arith, receive_line_spends first_pass s g m e)))
          ∙ sym (receive_lines_step vsnprintf kk k first_pass s g m))
    where
      after :
          (o : Outcome (State × Globals))
          → receive_line vsnprintf kk first_pass s g m ≡ o
          → ((x : State × Globals) (m' : Machine)
              → receive_line vsnprintf kk first_pass s g m ≡ done x m'
              → receive_lines vsnprintf kk n false x.0 x.1 m'
                ≡ receive_lines vsnprintf kk k false x.0 x.1 m')
          → bind o (λ x. receive_lines vsnprintf kk n false x.0 x.1)
            ≡ bind o (λ x. receive_lines vsnprintf kk k false x.0 x.1)
      after (done x m') e again = again x m' e
      after (waiting m') e again = refl
      after (halted m') e again = refl
      after (fault m') e again = refl
