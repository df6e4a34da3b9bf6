-- ===== src/Upload/OneLine.antt =====
-- What one round of the loop of noelv_serv_upload takes from the port, gives the decoder, and stores.
use cocoapuffs_fpga.Prelude.{
  ℕ, ◌<◌, ◌≡◌, refl, sym, subst, ap, ◌∙◌, Bool, true, false, List, [], ◌∷◌, ◌++◌, append-nil, arith,
  if◌then◌else◌, literal,
}
use cocoapuffs_fpga.Machine.{
  Machine, done, halt, pure, bind-eq-done, ◌>>◌, done-machine, done-result,
}
use cocoapuffs_fpga.Machine.Trace.{bytes_stored}
use cocoapuffs_fpga.Machine.Frame.{Keeps-if, Keeps-done}
use cocoapuffs_fpga.Uart.{Vsnprintf, buffer_size, uart_putchar, uart_getline, printme}
use cocoapuffs_fpga.Uart.Framed.{uart_putchar-Keeps, uart_getline-Keeps}
use cocoapuffs_fpga.Ihex.{Record, Globals, dots_per_line, ihex_data_read}
use cocoapuffs_fpga.Ihex.Loaded.{byte_frame, image, ends, ihex_data_read-Loaded}
use cocoapuffs_fpga.Upload.{KkIhex, xon, xoff, before_nul, callbacks, take_line, receive_line}
use cocoapuffs_fpga.Upload.Received.{
  Received, Received-trans, Received-nil, Received-quiet, or_swap,
}
use cocoapuffs_fpga.Uart.Ledger.{Loses-trans, loss_port}
use cocoapuffs_fpga.Upload.Framed.{take_line-Keeps}
use cocoapuffs_fpga.Upload.Taken.{IsWhole, handed, loss_loader, Took1, getline-IsWhole}

module _ (vsnprintf : Vsnprintf) (kk : KkIhex) where
  open kk use {State, read_bytes}

  pub callbacks-Received :
      (rs : List Record) (g : Globals) (m : Machine) {g' : Globals} {m' : Machine}
      → g.dot_count < dots_per_line
      → callbacks vsnprintf kk rs g m ≡ done g' m'
      → Received rs g m g' m'
  unfolding callbacks
  callbacks-Received [] g m {g'} {m'} small h =
      subst (λ (x : Globals). Received [] g m x m') (done-result h)
        (subst (λ (x : Machine). Received [] g m g x) (done-machine h) (Received-nil g m small))
  callbacks-Received (r ∷ rs) g m {g'} {m'} small h =
      let (g0, k, first, more) = bind-eq-done (ihex_data_read vsnprintf r g m) _ h in
      let (loaded, good, counted) = ihex_data_read-Loaded vsnprintf r g m small first in
      let one : Received (r ∷ []) g m g0 k = record {
        loaded = record {
          memory =
              loaded.memory
              ∙ ap (λ (l : List (ℕ × ℕ)). bytes_stored m.trace ++ l) (sym (append-nil (image r)));
          ended = loaded.ended ∙ or_swap (ends r) false g.eof;
          dots = loaded.dots;
        };
        sound = rw good;
        lines = omega (arith, counted);
      } in
      Received-trans one (callbacks-Received rs g0 k loaded.dots more)

  take_line-Received :
      (ok : Bool) (buf : List ℕ) (s : State) (g : Globals) (m : Machine) {x : State × Globals}
      {m' : Machine}
      → g.dot_count < dots_per_line
      → take_line vsnprintf kk ok buf s g m ≡ done x m'
      → (x.0 ≡ (read_bytes s (before_nul buf)).1)
        × Received (read_bytes s (before_nul buf)).0 g m x.1 m'
  unfolding take_line
  take_line-Received false buf s g m small h =
      let (u, k, printed, stop) =
        bind-eq-done ((uart_putchar xon >> printme (literal "1 err")) m) (λ _. halt) h in
      cc
  take_line-Received true buf s g m {x} {m'} small h =
      let (g', k, called, last) =
        bind-eq-done (callbacks vsnprintf kk (read_bytes s (before_nul buf)).0 g m) _ h in
      let received = callbacks-Received (read_bytes s (before_nul buf)).0 g m small called in
      let same = done-result last in
      (
        ap (λ (y : State × Globals). y.0) (sym same),
        subst (λ (y : State × Globals). Received (read_bytes s (before_nul buf)).0 g m y.1 m') same
            (subst (Received (read_bytes s (before_nul buf)).0 g m g') (done-machine last)
              received),
      )

  take_line_ok :
      (ok : Bool) (buf : List ℕ) (s : State) (g : Globals) (m : Machine) {x : State × Globals}
      {m' : Machine}
      → take_line vsnprintf kk ok buf s g m ≡ done x m'
      → ok ≡ true
  unfolding take_line
  take_line_ok false buf s g m h =
      let (u, k, printed, stop) =
        bind-eq-done ((uart_putchar xon >> printme (literal "1 err")) m) (λ _. halt) h in
      cc
  take_line_ok true buf s g m h = refl

  pub receive_line-Received :
      (first_pass : Bool) (s : State) (g : Globals) (m : Machine) {x : State × Globals}
      {m' : Machine}
      → g.dot_count < dots_per_line
      → receive_line vsnprintf kk first_pass s g m ≡ done x m'
      → (line : List ℕ) × IsWhole line
        × Took1 line m m'
        × (x.0 ≡ (read_bytes s (handed line)).1)
        × Received (read_bytes s (handed line)).0 g m x.1 m'
  unfolding receive_line
  receive_line-Received first_pass s g m {x} {m'} small h =
      let (u0, k, started, h0) =
        bind-eq-done ((if first_pass then pure tt else uart_putchar xon) m) _ h in
      let (l, n, got, h1) = bind-eq-done (uart_getline buffer_size k) _ h0 in
      let (u1, o, held, h2) = bind-eq-done (uart_putchar xoff n) _ h1 in
      let (next, received) = take_line-Received l.0 l.1 s g o small h2 in
      let quiet0 =
        Keeps-done byte_frame.frame (if first_pass then pure tt else uart_putchar xon) m
          (Keeps-if byte_frame.frame first_pass (pure tt) (uart_putchar xon) (λ m. refl)
            (uart_putchar-Keeps byte_frame xon))
          started in
      let quiet1 =
        Keeps-done byte_frame.frame (uart_getline buffer_size) k
          (uart_getline-Keeps byte_frame tt buffer_size) got in
      let quiet2 =
        Keeps-done byte_frame.frame (uart_putchar xoff) n (uart_putchar-Keeps byte_frame xoff)
          held in
      let (line, good, stored, listened) = getline-IsWhole k got (take_line_ok l.0 l.1 s g o h2) in
      let (next', received') =
        subst
          (λ buf.
            (x.0 ≡ (read_bytes s (before_nul buf)).1)
            × Received (read_bytes s (before_nul buf)).0 g m x.1 m')
          stored (next, Received-quiet (quiet2 ∙ (quiet1 ∙ quiet0)) received refl) in
      let took : Took1 line m m' = record {
        start = k;
        stop = n;
        before =
            Keeps-done loss_port.frame (if first_pass then pure tt else uart_putchar xon) m
              (Keeps-if loss_port.frame first_pass (pure tt) (uart_putchar xon) loss_port.frame.same
                (uart_putchar-Keeps loss_port xon))
              started;
        takes = listened;
        after =
            Loses-trans
              (Keeps-done loss_port.frame (uart_putchar xoff) n (uart_putchar-Keeps loss_port xoff)
                held)
              (Keeps-done loss_port.frame (take_line vsnprintf kk l.0 l.1 s g) o
                (take_line-Keeps loss_loader vsnprintf kk l.0 l.1 s g) h2);
      } in
      (line, good, took, next', received')
