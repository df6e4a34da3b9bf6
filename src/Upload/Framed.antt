-- ===== src/Upload/Framed.antt =====
-- The frame of the upload: a relation between machines that the driver of the port and stores of
-- bytes keep is kept by all of it.
use cocoapuffs_fpga.Prelude.{
  ℕ, zero, suc, Bool, true, false, List, [], ◌∷◌, length, if◌then◌else◌, literal,
}
use cocoapuffs_fpga.Machine.{pure, halt, ◌>>◌}
use cocoapuffs_fpga.Machine.Frame.{Keeps, Keeps-bind, Keeps-if, final-if}
use cocoapuffs_fpga.Uart.{Vsnprintf, buffer_size, uart_putchar, uart_getline, printme}
use cocoapuffs_fpga.Uart.Framed.{uart_putchar-Keeps, uart_getline-Keeps, printme-Keeps}
use cocoapuffs_fpga.Ihex.{Record, Globals, ihex_data_read}
use cocoapuffs_fpga.Ihex.Framed.{LoaderFrame, ihex_data_read-Keeps}
use cocoapuffs_fpga.Upload.{
  KkIhex, xon, xoff, before_nul, callbacks, take_line, receive_line, receive_lines, upload,
}

module _ (l : LoaderFrame) (vsnprintf : Vsnprintf) (kk : KkIhex) where
  open l use {port}
  open port use {frame as r}
  open kk use {State, begin_read, read_bytes, end_read}

  pub callbacks-Keeps : (rs : List Record) (g : Globals) → Keeps r (callbacks vsnprintf kk rs g)
  unfolding callbacks
  callbacks-Keeps [] g = r.same
  callbacks-Keeps (x ∷ rs) g =
      Keeps-bind r (ihex_data_read vsnprintf x g) (callbacks vsnprintf kk rs)
        (ihex_data_read-Keeps l vsnprintf x g) (callbacks-Keeps rs)

  pub take_line-Keeps :
      (ok : Bool) (buf : List ℕ) (s : State) (g : Globals)
      → Keeps r (take_line vsnprintf kk ok buf s g)
  unfolding take_line
  take_line-Keeps false buf s g =
      Keeps-bind r (uart_putchar xon >> printme (literal "1 err")) (λ _. halt)
        (Keeps-bind r (uart_putchar xon) (λ _. printme (literal "1 err"))
          (uart_putchar-Keeps port xon) λ _. printme-Keeps port (literal "1 err"))
        λ _. r.same
  take_line-Keeps true buf s g =
      Keeps-bind r (callbacks vsnprintf kk (read_bytes s (before_nul buf)).0 g) _
        (callbacks-Keeps (read_bytes s (before_nul buf)).0 g) λ g'. r.same

  pub receive_line-Keeps :
      port.Gets
      → (first_pass : Bool) (s : State) (g : Globals)
      → Keeps r (receive_line vsnprintf kk first_pass s g)
  unfolding receive_line
  receive_line-Keeps gets first_pass s g =
      Keeps-bind r (if first_pass then pure tt else uart_putchar xon) _
        (Keeps-if r first_pass (pure tt) (uart_putchar xon) r.same (uart_putchar-Keeps port xon))
        λ _.
          Keeps-bind r (uart_getline buffer_size) _ (uart_getline-Keeps port gets buffer_size) λ x.
            Keeps-bind r (uart_putchar xoff) _ (uart_putchar-Keeps port xoff)
              λ _. take_line-Keeps x.0 x.1 s g

  receive_lines-Keeps :
      port.Gets
      → (n : ℕ) (first_pass : Bool) (s : State) (g : Globals)
      → Keeps r (receive_lines vsnprintf kk n first_pass s g)
  unfolding receive_lines
  receive_lines-Keeps gets zero first_pass s g m = r.same m
  receive_lines-Keeps gets (suc n) first_pass s g m = final-if r g.eof _ _ m (r.same m) (
      Keeps-bind r (receive_line vsnprintf kk first_pass s g)
        (λ x. receive_lines vsnprintf kk n false x.0 x.1) (receive_line-Keeps gets first_pass s g)
        (λ x. receive_lines-Keeps gets n false x.0 x.1) m)

  pub upload-Keeps : port.Gets → (g : Globals) → Keeps r (upload vsnprintf kk g)
  unfolding upload
  upload-Keeps gets g m =
      Keeps-bind r
        (receive_lines vsnprintf kk (suc (length m.script)) true begin_read
          (record g { eof = false }))
        _
        (receive_lines-Keeps gets (suc (length m.script)) true begin_read
          (record g { eof = false }))
        (λ x.
          Keeps-bind r (callbacks vsnprintf kk (end_read x.0) x.1) _
            (callbacks-Keeps (end_read x.0) x.1)
            λ g'. Keeps-bind r (uart_putchar xon) _ (uart_putchar-Keeps port xon) λ _. r.same)
        m
