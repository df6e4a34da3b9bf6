-- ===== src/Programs/Endless.antt =====
-- The loop of bin/rv32_uart never ends.
use cocoapuffs_fpga.Prelude.{
  zero, suc, Option, ℕ, ◌≡◌, refl, sym, ◌∙◌, none, arith, length, literal, ◌≤◌, ◌<◌,
}
use cocoapuffs_fpga.Machine.{M, pure, ◌>>◌, Machine, bind, bind-eq-done}
use cocoapuffs_fpga.Machine.Loop.{retry, Spends, until-eq-retry}
use cocoapuffs_fpga.Machine.Frame.{Keeps, Keeps-bind, Keeps-done}
use cocoapuffs_fpga.Uart.{uart_print, put, pause_for_spins}
use cocoapuffs_fpga.Uart.Print.{print_more}
use cocoapuffs_fpga.Uart.Framed.{uart_print-Keeps}
use cocoapuffs_fpga.Uart.Spending.{script_port, put_spends}
use cocoapuffs_fpga.Programs.{greet, rv32_uart_main}

pause-Keeps : (n : ℕ) → Keeps script_port.frame (pause_for_spins n)
unfolding pause_for_spins
pause-Keeps zero m = omega arith
pause-Keeps (suc n) m = pause-Keeps n m

-- What follows the first line of a round.
abbrev greeting_after : M (Option (Unit {0}))
greeting_after = do
  uart_print (literal "hello from rv32.\r\n")
  uart_print (literal "======================\r\n")
  pause_for_spins 10000
  pure none

greeting_after-Keeps : Keeps script_port.frame greeting_after
greeting_after-Keeps =
    Keeps-bind script_port.frame (uart_print (literal "hello from rv32.\r\n")) _
      (uart_print-Keeps script_port (literal "hello from rv32.\r\n"))
      λ _.
        Keeps-bind script_port.frame (uart_print (literal "======================\r\n")) _
          (uart_print-Keeps script_port (literal "======================\r\n"))
          λ _.
            Keeps-bind script_port.frame (pause_for_spins 10000) (λ _. pure none)
              (pause-Keeps 10000) λ _. script_port.frame.same

greet-Spends : Spends greet
unfolding greet
greet-Spends m m' h =
    let (r, k, printed, more) =
      bind-eq-done (uart_print (literal "\r\n\r\n======================\r\n") m) _ h in
    let (u, n, sent, rest) =
      bind-eq-done (put b'\r' m) (λ _. uart_print (literal "\n\r\n======================\r\n"))
        (sym (print_more b'\r' (literal "\n\r\n======================\r\n") m refl) ∙ printed) in
    let first : length n.script < length m.script = put_spends b'\r' m sent in
    let second : length k.script ≤ length n.script =
      Keeps-done script_port.frame (uart_print (literal "\n\r\n======================\r\n")) n
        (uart_print-Keeps script_port (literal "\n\r\n======================\r\n")) rest in
    let third : length m'.script ≤ length k.script =
      Keeps-done script_port.frame greeting_after k greeting_after-Keeps more in
    omega (arith, first, second, third)

-- main of bin/rv32_uart is one round and then main again: the bound on its rounds is never met.
pub rv32_uart_main_lem : (m : Machine) → rv32_uart_main m ≡ bind (greet m) (retry greet)
unfolding rv32_uart_main
rv32_uart_main_lem m = until-eq-retry greet greet-Spends m
