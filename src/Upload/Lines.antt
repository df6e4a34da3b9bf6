-- ===== src/Upload/Lines.antt =====
-- Lines that a stream can be made of, and what the programs do with one of them.
use cocoapuffs_fpga.Prelude.{
  ℕ, ◌<◌, ◌≡◌, refl, sym, subst, Bool, true, not, ◌&&◌, ◌||◌, List, [], ◌∷◌, ◌++◌, append-nil,
  arith, length, ◌==◌, replicate, if◌then◌else◌,
}
use cocoapuffs_fpga.Machine.{Machine, pure}
use cocoapuffs_fpga.Uart.{Vsnprintf, buffer_size, uart_putchar, uart_getline, put}
use cocoapuffs_fpga.Uart.Line.{unbroken}
use cocoapuffs_fpga.Uart.Served.{room, rooms, Serve, Serve-put, Serve-bind, Serve-map}
use cocoapuffs_fpga.Uart.Served.Answered.{Answered, Answered-pure, Answered-bind, Sensible}
use cocoapuffs_fpga.Uart.Served.Line.{all_bytes, Serve-whole_line}
use cocoapuffs_fpga.Ihex.{Record, Globals, dots_per_line, ihex_data_read}
use cocoapuffs_fpga.Ihex.Answered.{ihex_data_read-Answered}
use cocoapuffs_fpga.Upload.{KkIhex, xon, xoff, before_nul, callbacks, take_line, receive_line}
use cocoapuffs_fpga.Upload.Overlong.{greeting, Serve-greeting}
use cocoapuffs_fpga.Upload.Received.{images, some_ends, all_sound}
use cocoapuffs_fpga.Upload.OneLine.{callbacks-Received}

-- No NUL is among them.
abbrev pub no_nul : List ℕ → Bool
no_nul [] = true
no_nul (c ∷ cs) = not (c == 0) && no_nul cs

-- At most 254 bytes, none of them a NUL, and the end of the line.
pub record IsLine (line : List ℕ) : Type 0 where
  pub body : List ℕ
  pub split : line ≡ body ++ b'\n' ∷ []
  pub one_line : unbroken body ≡ true
  pub bytes : all_bytes body ≡ true
  pub no_nuls : no_nul body ≡ true
  pub fits : length body < 255

pub before_nul-line :
    (body : List ℕ)
    → no_nul body ≡ true
    → before_nul ((body ++ b'\n' ∷ []) ++ 0 ∷ []) ≡ body ++ b'\n' ∷ []
before_nul-line [] h = refl
before_nul-line (c ∷ body) h = ground (arith, before_nul-line body (ground arith))

-- A machine with these answers at hand.
abbrev pub with_answers : List ℕ → Machine
with_answers s = record {
  script = s;
  trace = [];
  uart_buf = record { buf = replicate 256 0; rd = 0; wr = 0 };
}

module _ (vsnprintf : Vsnprintf) (kk : KkIhex) (sensible : Sensible vsnprintf) where
  open kk use {State, read_bytes}

  callbacks-Answered :
      (rs : List Record) (g : Globals)
      → all_sound rs ≡ true
      → Answered (callbacks vsnprintf kk rs g) (images rs)
  unfolding callbacks
  callbacks-Answered [] g sound = Answered-pure g
  callbacks-Answered (r ∷ rs) g sound =
      Answered-bind (ihex_data_read vsnprintf r g) (callbacks vsnprintf kk rs)
        (ihex_data_read-Answered vsnprintf sensible r g (ground arith))
        λ g'. callbacks-Answered rs g' (ground arith)

  -- The globals after the records are what any run with the answers leaves.
  pub callbacks_after :
      (rs : List Record) (g : Globals)
      → all_sound rs ≡ true
      → g.dot_count < dots_per_line
      → (run : Answered (callbacks vsnprintf kk rs g) (images rs)) × (run.result.eof
          ≡ (some_ends rs || g.eof))
        × (run.result.dot_count < dots_per_line)
  callbacks_after rs g sound small =
      let run = callbacks-Answered rs g sound in
      let x = run.served.serve (with_answers run.answers) [] (sym (append-nil run.answers)) refl in
      let received = callbacks-Received vsnprintf kk rs g (with_answers run.answers) small x.ran in
      (run, received.loaded.ended, received.loaded.dots)

  -- One round of the loop on one line.
  pub record Round (first_pass : Bool) (s : State) (g : Globals) (line : List ℕ) : Type 0 where
    pub after : Globals
    pub answers : List ℕ
    pub text : List ℕ
    pub served :
        Serve answers
          (receive_line vsnprintf kk first_pass s g)
          ((read_bytes s line).1, after)
          (record { got = line; said = text; stored = images (read_bytes s line).0; words = [] })
    pub ended : after.eof ≡ (some_ends (read_bytes s line).0 || g.eof)
    pub dots : after.dot_count < dots_per_line

  take_line-Serve :
      (line buf : List ℕ) (s : State) (g : Globals)
      → before_nul buf ≡ line
      → (run : Answered
          (callbacks vsnprintf kk (read_bytes s line).0 g)
          (images (read_bytes s line).0))
      → Serve run.answers
          (take_line vsnprintf kk true buf s g)
          ((read_bytes s line).1, run.result)
          (record { got = []; said = run.text; stored = images (read_bytes s line).0; words = [] })
  unfolding take_line
  take_line-Serve line buf s g e run = rw e (
      Serve-map (callbacks vsnprintf kk (read_bytes s line).0 g) (λ g'. ((read_bytes s line).1, g'))
        refl run.served)

  receive_body-Round :
      (first_pass : Bool) (s : State) (g : Globals) (body : List ℕ)
      → unbroken body ≡ true
      → all_bytes body ≡ true
      → no_nul body ≡ true
      → length body < 255
      → all_sound (read_bytes s (body ++ b'\n' ∷ [])).0 ≡ true
      → g.dot_count < dots_per_line
      → Round first_pass s g (body ++ b'\n' ∷ [])
  unfolding receive_line uart_putchar
  receive_body-Round first_pass s g body one bytes clean fits sound small =
      let line = body ++ b'\n' ∷ [] in
      let (run, ended, dots) = callbacks_after (read_bytes s line).0 g sound small in
      record {
        after = run.result;
        answers = rooms (greeting first_pass) ++ (line ++ room ∷ run.answers);
        text = greeting first_pass ++ xoff ∷ run.text;
        served =
            subst
              (λ taken.
                Serve (rooms (greeting first_pass) ++ (line ++ room ∷ run.answers))
                  (receive_line vsnprintf kk first_pass s g) ((read_bytes s line).1, run.result)
                  (record {
                    got = taken;
                    said = greeting first_pass ++ xoff ∷ run.text;
                    stored = images (read_bytes s line).0;
                    words = [];
                  }))
              (append-nil line)
              (Serve-bind (if first_pass then pure tt else uart_putchar xon) _
                (Serve-greeting first_pass)
                (Serve-bind (uart_getline buffer_size) _ (Serve-whole_line body one bytes fits) (
                  Serve-bind (put xoff) _ (Serve-put xoff)
                    (take_line-Serve line (line ++ 0 ∷ []) s g (before_nul-line body clean) run))));
        ended = ended;
        dots = dots;
      }

  -- A line is received, with its records handled and the bytes of these stored.
  pub receive_line-Round :
      (first_pass : Bool) (s : State) (g : Globals) (line : List ℕ)
      → IsLine line
      → all_sound (read_bytes s line).0 ≡ true
      → g.dot_count < dots_per_line
      → Round first_pass s g line
  receive_line-Round first_pass s g line good sound small =
      subst (Round first_pass s g) (sym good.split) (
        receive_body-Round first_pass s g good.body good.one_line good.bytes good.no_nuls good.fits
          (subst (λ l. all_sound (read_bytes s l).0 ≡ true) good.split sound) small)
