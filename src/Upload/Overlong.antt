-- ===== src/Upload/Overlong.antt =====
-- What the programs that receive a stream do with a line that does not fit into their buffer.
use cocoapuffs_fpga.Prelude.{
  ℕ, ◌≡◌, refl, subst, Bool, true, false, List, [], ◌∷◌, ◌++◌, append-nil, length, if◌then◌else◌,
  codes, literal,
}
use cocoapuffs_fpga.Machine.{Machine, pure, halt, ◌>>◌}
use cocoapuffs_fpga.Uart.{Vsnprintf, buffer_size, uart_putchar, uart_getline, printme, put}
use cocoapuffs_fpga.Uart.Line.{unbroken}
use cocoapuffs_fpga.Uart.Served.{
  rooms, saying, Serve, Serve-pure, Serve-put, Serve-bind, Serve-printme,
}
use cocoapuffs_fpga.Uart.Served.Halted.{Halted, Halts, Halts-here, Halts-bind}
use cocoapuffs_fpga.Uart.Served.Line.{all_bytes, Serve-cut_line}
use cocoapuffs_fpga.Ihex.{Globals}
use cocoapuffs_fpga.Upload.{KkIhex, xon, xoff, take_line, receive_line}
use cocoapuffs_fpga.Ddr3.{use_line, load_line}

-- The XON that begins every round but the first, and its answer.
abbrev pub greeting : Bool → List ℕ
greeting first_pass = if first_pass then [] else xon ∷ []

pub Serve-greeting :
    (first_pass : Bool)
    → Serve
        (rooms (greeting first_pass))
        (if first_pass then pure tt else uart_putchar xon)
        tt
        (saying (greeting first_pass))
unfolding uart_putchar
Serve-greeting true = Serve-pure tt
Serve-greeting false = Serve-put xon

abbrev pub complaint : List ℕ
complaint = codes "1 err\r\n"

complain :
    (A : Type 0)
    → Halts (rooms complaint) (printme (literal "1 err") >> halt {A = A}) (saying complaint)
complain A =
    Halts-bind (printme (literal "1 err")) (λ _. halt)
      (Serve-printme (literal "1 err") (codes "1 err") refl) (Halts-here A)

module _ (vsnprintf : Vsnprintf) (kk : KkIhex) where
  open kk use {State}

  stop_upload :
      (first_pass : Bool) (s : State) (g : Globals) (line : List ℕ)
      → unbroken line ≡ true
      → all_bytes line ≡ true
      → length line ≡ buffer_size
      → Halts
          (rooms (greeting first_pass) ++ (line ++ rooms (xoff ∷ xon ∷ complaint)))
          (receive_line vsnprintf kk first_pass s g)
          (record {
            got = line;
            said = greeting first_pass ++ xoff ∷ xon ∷ complaint;
            stored = [];
            words = [];
          })
  unfolding receive_line take_line uart_putchar
  stop_upload first_pass s g line u small full =
      let (buf, got) = Serve-cut_line line u small full in
      let end = uart_putchar xon >> printme (literal "1 err") in
      subst
        (λ taken.
          Halts (rooms (greeting first_pass) ++ (line ++ rooms (xoff ∷ xon ∷ complaint)))
            (receive_line vsnprintf kk first_pass s g)
            (record {
              got = taken;
              said = greeting first_pass ++ xoff ∷ xon ∷ complaint;
              stored = [];
              words = [];
            }))
        (append-nil line)
        (Halts-bind (if first_pass then pure tt else uart_putchar xon) _ (Serve-greeting first_pass)
          (Halts-bind (uart_getline buffer_size) _ got (
            Halts-bind (put xoff) _ (Serve-put xoff) (
              Halts-bind end (λ _. halt)
                (Serve-bind (put xon) _ (Serve-put xon)
                  (Serve-printme (literal "1 err") (codes "1 err") refl))
                (Halts-here (State × Globals))))))

  stop_load :
      (s : State) (eof : Bool) (line : List ℕ)
      → unbroken line ≡ true
      → all_bytes line ≡ true
      → length line ≡ buffer_size
      → Halts
          (line ++ rooms complaint)
          (load_line vsnprintf kk s eof)
          (record { got = line; said = complaint; stored = []; words = [] })
  unfolding load_line use_line
  stop_load s eof line u small full =
      let (buf, got) = Serve-cut_line line u small full in
      subst
        (λ got.
          Halts (line ++ rooms complaint) (load_line vsnprintf kk s eof)
            (record { got = got; said = complaint; stored = []; words = [] }))
        (append-nil line) (Halts-bind (uart_getline buffer_size) _ got (complain _))

  -- On a port that has room for every character, with nothing saved, a line of 256 or more bytes
  -- stops a program in its endless loop: it has taken the first 256 of them, has stored nothing, and
  -- has sent "1 err"; noelv_serv_upload and rv32_ddr3exec send the XON of the round, if it is not
  -- the first, before the line, and an XOFF and an XON after it; the two DDR3 loaders do not.
  pub overlong_line_stops :
      (first_pass eof : Bool) (s : State) (g : Globals) (line rest rest' : List ℕ) (m n : Machine)
      → unbroken line ≡ true
      → all_bytes line ≡ true
      → length line ≡ buffer_size
      → m.uart_buf.rd ≡ m.uart_buf.wr
      → n.uart_buf.rd ≡ n.uart_buf.wr
      → m.script ≡ (rooms (greeting first_pass) ++ (line ++ rooms (xoff ∷ xon ∷ complaint))) ++ rest
      → n.script ≡ (line ++ rooms complaint) ++ rest'
      → Halted
          (receive_line vsnprintf kk first_pass s g)
          (record {
            got = line;
            said = greeting first_pass ++ xoff ∷ xon ∷ complaint;
            stored = [];
            words = [];
          })
          rest
          m
        × Halted
            (load_line vsnprintf kk s eof)
            (record { got = line; said = complaint; stored = []; words = [] })
            rest'
            n
  overlong_line_stops first_pass eof s g line rest rest' m n u small full nothing nothing' e e' = (
    (stop_upload first_pass s g line u small full).serve m rest e nothing,
    (stop_load s eof line u small full).serve n rest' e' nothing',
  )
