-- ===== src/Ddr3/Rounds.antt =====
-- The bound on the rounds of the loop of the DDR3 loader. The loop writes nothing between two lines, so
-- a round may load nothing: it then takes saved bytes, of which a load saves at most one.
use cocoapuffs_fpga.Prelude.{
  ℕ, zero, suc, ◌<◌, ◌≤◌, ◌≡◌, refl, sym, ap, ◌∙◌, inl, inr, Bool, Option, subst, List, [], ◌∷◌,
  arith, length, if◌then◌else◌, Bool-cases,
}
use native.Mathlib.Decide.{ℕ_discrete}
use cocoapuffs_fpga.Machine.{
  done-machine, Machine, Outcome, done, waiting, halted, fault, bind, bind-eq-done,
}
use cocoapuffs_fpga.Machine.Loop.{until_made}
use cocoapuffs_fpga.Machine.Frame.{Keeps-done}
use cocoapuffs_fpga.Uart.{Vsnprintf, buffer_size, uart_is_empty, get_async, get, uart_getline}
use cocoapuffs_fpga.Uart.Account.{heard, get_async_saved, get_async-polled, get_async_silent}
use cocoapuffs_fpga.Uart.Framed.{uart_getline_first}
use cocoapuffs_fpga.Ihex.Framed.{LoaderFrame}
use cocoapuffs_fpga.Upload.{KkIhex}
use cocoapuffs_fpga.Ddr3.{budget, use_line, load_line, load_lines}
use cocoapuffs_fpga.Ddr3.Framed.{use_line-Keeps}
use cocoapuffs_fpga.Ddr3.Stream.{load_lines_step}

-- The indices of uart_buf lie in its array.
abbrev pub InRing : Machine → Type 0
InRing m = (m.uart_buf.rd < buffer_size) × (m.uart_buf.wr < buffer_size)

heard-budget :
    (v : ℕ) (rest : List ℕ) (m : Machine)
    → m.script ≡ v ∷ rest
    → InRing m
    → InRing (heard v rest m) × (budget (heard v rest m) ≤ budget m)
heard-budget v rest m e ring = elim (Bool-cases (uart_is_empty v)) [
  | inl nothing ↦ rw nothing (ring, omega (arith, ap length e))
  | inr byte ↦ rw byte ((ring.0, omega arith), omega (arith, ap length e, ring.0, ring.1))
]

-- The budget does not grow.
abbrev budget_frame : LoaderFrame
budget_frame = record {
  port = record {
    frame = record {
      Rel = λ m n. InRing m → InRing n × (budget n ≤ budget m);
      same = λ m ring. (ring, omega arith);
      also = λ p q ring.
          let (ring', less) = p ring in
          let (ring'', less') = q ring' in (ring'', omega (arith, less, less'));
    };
    Gets = Unit {0};
    on_heard = heard-budget;
    on_load = λ gets v rest m e ring. (ring, omega (arith, ap length e));
    on_store = λ v m ring. (ring, omega arith);
    on_pop = λ gets m ne ring. ((omega arith, ring.1), omega (arith, ne, ring.0, ring.1));
  };
  on_byte = λ a b m ring. (ring, omega arith);
}

-- The budget shrinks.
abbrev Spent : Machine → Machine → Type 0
Spent m n = InRing m → InRing n × (budget n < budget m)

get_async-Spent : (m : Machine) (o : Option ℕ) (m' : Machine) → get_async m ≡ done o m' → Spent m m'
get_async-Spent m o m' h ring = elim (ℕ_discrete m.uart_buf.rd m.uart_buf.wr) [
  | yes same ↦ go m.script refl same
  | no ne ↦
      subst (λ (n : Machine). InRing n × (budget n < budget m))
        (done-machine (sym (get_async_saved m ne) ∙ h))
        ((omega arith, ring.1), omega (arith, ne, ring.0, ring.1))
]
  where
    go :
        (s : List ℕ)
        → m.script ≡ s
        → m.uart_buf.rd ≡ m.uart_buf.wr
        → InRing m' × (budget m' < budget m)
    go [] e same = let silent = get_async_silent m same e in cc
    go (v ∷ rest) e same =
        subst (λ (n : Machine). InRing n × (budget n < budget m))
          (done-machine (sym (get_async-polled m same e) ∙ h)) (ring, omega (arith, ap length e))

get-Spent : (m : Machine) {c : ℕ} {m' : Machine} → get m ≡ done c m' → Spent m m'
unfolding get
get-Spent m h =
    until_made Spent
      (λ m n o p q ring.
        let (ring', less) = p ring in
        let (ring'', less') = q ring' in (ring'', omega (arith, less, less')))
      get_async get_async-Spent m h

module _ (vsnprintf : Vsnprintf) (kk : KkIhex) where
  open kk use {State}

  load_line-Spent :
      (s : State) (eof : Bool) (m : Machine) {x : State × Bool} {m' : Machine}
      → load_line vsnprintf kk s eof m ≡ done x m'
      → Spent m m'
  unfolding load_line
  load_line-Spent s eof m {x} {m'} h ring =
      let (l, n, got, more) = bind-eq-done (uart_getline buffer_size m) _ h in
      let (c, k, first, rest) = uart_getline_first budget_frame.port tt m got in
      let (ring0, less0) = get-Spent m first ring in
      let (ring1, less1) = rest ring0 in
      let (ring2, less2) =
        Keeps-done budget_frame.port.frame (use_line vsnprintf kk l.0 l.1 s eof) n
          (use_line-Keeps budget_frame vsnprintf kk l.0 l.1 s eof) more ring1 in
      (ring2, omega (arith, less0, less1, less2))

  -- With indices of uart_buf that lie in its array, more rounds than twice the answers left and the
  -- bytes saved make no difference: the bound of the loader's loop is never what ends it.
  pub load_lines_enough :
      (n k : ℕ) (s : State) (eof : Bool) (m : Machine)
      → InRing m
      → budget m < n
      → budget m < k
      → load_lines vsnprintf kk n s eof m ≡ load_lines vsnprintf kk k s eof m
  load_lines_enough zero k s eof m ring p q = absurd (omega arith)
  load_lines_enough (suc n) zero s eof m ring p q = absurd (omega arith)
  load_lines_enough (suc n) (suc k) s eof m ring p q =
      load_lines_step vsnprintf kk n s eof m
      ∙ (ap (λ o. if eof then done (s, eof) m else o)
            (after (load_line vsnprintf kk s eof m) refl λ x m' e.
              let (ring', less) = load_line-Spent s eof m e ring in
              load_lines_enough n k x.0 x.1 m' ring' (omega (arith, less)) (omega (arith, less)))
          ∙ sym (load_lines_step vsnprintf kk k s eof m))
    where
      after :
          (o : Outcome (State × Bool))
          → load_line vsnprintf kk s eof m ≡ o
          → ((x : State × Bool) (m' : Machine)
              → load_line vsnprintf kk s eof m ≡ done x m'
              → load_lines vsnprintf kk n x.0 x.1 m' ≡ load_lines vsnprintf kk k x.0 x.1 m')
          → bind o (λ x. load_lines vsnprintf kk n x.0 x.1)
            ≡ bind o (λ x. load_lines vsnprintf kk k x.0 x.1)
      after (done x m') e again = again x m' e
      after (waiting m') e again = refl
      after (halted m') e again = refl
      after (fault m') e again = refl
