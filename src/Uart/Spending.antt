-- ===== src/Uart/Spending.antt =====
-- The answers that the driver uses up: none comes back, and a character that is sent takes one.
use cocoapuffs_fpga.Prelude.{
  ℕ, ◌<◌, ◌≤◌, ◌≡◌, refl, sym, ap, ◌∙◌, inl, inr, List, [], ◌∷◌, arith, length, if◌then◌else◌,
  Bool-cases,
}
use cocoapuffs_fpga.Machine.{Machine, done, done-machine}
use cocoapuffs_fpga.Machine.Frame.{Keeps-done}
use cocoapuffs_fpga.Uart.{uart_is_full, put}
use cocoapuffs_fpga.Uart.Account.{heard}
use cocoapuffs_fpga.Uart.Write.{put_step, put_silent, wrote}
use cocoapuffs_fpga.Uart.Framed.{PortFrame, put-Keeps}

abbrev pub script_port : PortFrame
script_port = record {
  frame = record {
    Rel = λ m n. length n.script ≤ length m.script;
    same = λ m. omega arith;
    also = λ p q. omega (arith, p, q);
  };
  Gets = Unit {0};
  on_heard = λ v rest m e. omega (arith, ap length e);
  on_load = λ gets v rest m e. omega (arith, ap length e);
  on_store = λ v m. omega arith;
  on_pop = λ gets m ne. omega arith;
}

pub put_spends :
    (c : ℕ) (m : Machine) {m' : Machine} → put c m ≡ done tt m' → length m'.script < length m.script
put_spends c m {m'} h = go m.script refl
  where
    go : (s : List ℕ) → m.script ≡ s → length m'.script < length m.script
    go [] e = let silent = put_silent c m e in cc
    go (v ∷ rest) e = elim (Bool-cases (uart_is_full v)) [
      | inl full ↦
          let again : put c (heard v rest m) ≡ done tt m' =
            ap (λ b. if b then put c (heard v rest m) else done tt (wrote c (heard v rest m)))
              (sym full)
            ∙ (sym (put_step c m e) ∙ h) in
          omega (
            arith,
            ap length e,
            Keeps-done script_port.frame (put c) (heard v rest m) (put-Keeps script_port c) again,
          )
      | inr room ↦
          let wrote_it : done tt (wrote c (heard v rest m)) ≡ done tt m' =
            ap (λ b. if b then put c (heard v rest m) else done tt (wrote c (heard v rest m)))
              (sym room)
            ∙ (sym (put_step c m e) ∙ h) in
          omega (arith, ap length e, ap (λ (x : Machine). length x.script) (done-machine wrote_it))
    ]
