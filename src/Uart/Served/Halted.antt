-- ===== src/Uart/Served/Halted.antt =====
-- Runs on such a port that end in the endless loop.
use cocoapuffs_fpga.Prelude.{ℕ, ◌≡◌, refl, ap, ◌∙◌, List, [], ◌++◌, append_assoc}
use cocoapuffs_fpga.Machine.{Machine, M, halted, bind, halt, ◌>>=◌}
use cocoapuffs_fpga.Uart.Served.{Deed, idle, ◌&◌, Done, Done-idle, Done-trans, still_nothing, Serve}

-- With the answers `s` at hand and nothing saved, the run ends in the endless loop, has done `d`, and
-- has used these answers up.
pub record Halted {A : Type 0} (c : M A) (d : Deed) (rest : List ℕ) (m : Machine) : Type 0 where
  pub end : Machine
  pub ran : c m ≡ halted end
  pub left : end.script ≡ rest
  pub did : Done d m end

pub record Halts {A : Type 0} (s : List ℕ) (c : M A) (d : Deed) : Type 0 where
  pub serve :
      (m : Machine) (rest : List ℕ)
      → m.script ≡ s ++ rest
      → m.uart_buf.rd ≡ m.uart_buf.wr
      → Halted c d rest m

pub Halts-here : (A : Type 0) → Halts [] (halt {A = A}) idle
Halts-here A = record {
  serve = λ m rest e nothing. record { end = m; ran = refl; left = e; did = Done-idle m };
}

pub Halts-bind :
    {A B : Type 0} {s t : List ℕ} {d e : Deed} {a : A} (c : M A) (f : A → M B)
    → Serve s c a d
    → Halts t (f a) e
    → Halts (s ++ t) (c >>= f) (d & e)
Halts-bind {s = s} {t = t} c f first next = record {
  serve = λ m rest script nothing.
      let x = first.serve m (t ++ rest) (script ∙ append_assoc s t rest) nothing in
      let y = next.serve x.end rest x.left (still_nothing x.did nothing) in
      record {
        end = y.end;
        ran = ap (λ o. bind o f) x.ran ∙ y.ran;
        left = y.left;
        did = Done-trans x.did y.did;
      };
}
