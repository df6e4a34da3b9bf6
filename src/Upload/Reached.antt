-- ===== src/Upload/Reached.antt =====
-- Streams that an upload receives to their end.
pub mod Run
use mathlib.Core.Path.{subst₂}
use cocoapuffs_fpga.Prelude.{
  ℕ, zero, suc, ◌<◌, ◌≡◌, refl, sym, subst, ap, ◌∙◌, Bool, true, false, List, [], ◌∷◌, ◌++◌,
  append-nil, append_assoc, arith, length,
}
use cocoapuffs_fpga.Machine.{M, Machine, pure, bind, ◌>>=◌}
use cocoapuffs_fpga.Uart.{Vsnprintf, put, uart_putchar}
use cocoapuffs_fpga.Uart.Served.{
  Serve, room, idle, Done, Done-idle, Done-trans, Served, Serve-put, Serve-bind, Serve-map,
  still_nothing,
}
use cocoapuffs_fpga.Uart.Served.Answered.{Sensible}
use cocoapuffs_fpga.Ihex.{Globals, dots_per_line}
use cocoapuffs_fpga.Upload.{KkIhex, xon, callbacks, receive_lines, upload}
use cocoapuffs_fpga.Upload.Received.{images, images-append, some_ends, all_sound}
use cocoapuffs_fpga.Upload.Stream.{decode, records_of, receive_lines_over, receive_lines_more}
use cocoapuffs_fpga.Upload.Rounds.{receive_line_spends}
use cocoapuffs_fpga.Upload.Lines.{IsLine, Round, receive_line-Round, callbacks_after}

-- The characters of several lines.
abbrev pub concat : List (List ℕ) → List ℕ
concat [] = []
concat (l ∷ ls) = l ++ concat ls

-- Lines whose records have the right checksums, of which the last alone ends the stream.
pub data Stream (kk : KkIhex) : kk.State → List (List ℕ) → Type 0 where
  last :
      (s : kk.State) (line : List ℕ)
      → IsLine line
      → all_sound (kk.read_bytes s line).0 ≡ true
      → some_ends (kk.read_bytes s line).0 ≡ true
      → Stream kk s (line ∷ [])
  more :
      (s : kk.State) (line : List ℕ) (lines : List (List ℕ))
      → IsLine line
      → all_sound (kk.read_bytes s line).0 ≡ true
      → some_ends (kk.read_bytes s line).0 ≡ false
      → Stream kk (kk.read_bytes s line).1 lines
      → Stream kk s (line ∷ lines)

module _ (vsnprintf : Vsnprintf) (kk : KkIhex) (sensible : Sensible vsnprintf) where
  open kk use {State, begin_read, read_bytes, end_read}

  -- The loop on lines, whatever bound above the answers it is given.
  record Rounds (first_pass : Bool) (s : State) (g : Globals) (lines : List (List ℕ)) : Type 0 where
    after : Globals
    answers : List ℕ
    text : List ℕ
    served :
        (n : ℕ) (m : Machine) (rest : List ℕ)
        → length m.script < n
        → m.script ≡ answers ++ rest
        → m.uart_buf.rd ≡ m.uart_buf.wr
        → Served
            (receive_lines vsnprintf kk n first_pass s g)
            ((decode vsnprintf kk s lines).1, after)
            (record {
              got = concat lines;
              said = text;
              stored = images (decode vsnprintf kk s lines).0;
              words = [];
            })
            rest
            m
    ended : after.eof ≡ true
    dots : after.dot_count < dots_per_line

  -- With the end of the stream seen, the loop ends.
  loop_over :
      (first_pass : Bool) (s : State) (g : Globals)
      → g.eof ≡ true
      → g.dot_count < dots_per_line
      → Rounds first_pass s g []
  loop_over first_pass s g over small = record {
    after = g;
    answers = [];
    text = [];
    served = over_at;
    ended = over;
    dots = small;
  }
    where
      over_at :
          (n : ℕ) (m : Machine) (rest : List ℕ)
          → length m.script < n
          → m.script ≡ rest
          → m.uart_buf.rd ≡ m.uart_buf.wr
          → Served (receive_lines vsnprintf kk n first_pass s g) (s, g) idle rest m
      over_at zero m rest bound script nothing = absurd (omega arith)
      over_at (suc n) m rest bound script nothing = record {
        end = m;
        ran = receive_lines_over vsnprintf kk n first_pass s g m over;
        left = script;
        did = Done-idle m;
      }

  -- Before that, one line and then the others.
  loop_goes_on :
      (first_pass : Bool) (s : State) (g : Globals) (line : List ℕ) (lines : List (List ℕ))
      → g.eof ≡ false
      → (round : Round vsnprintf kk sensible first_pass s g line)
      → Rounds false (read_bytes s line).1 round.after lines
      → Rounds first_pass s g (line ∷ lines)
  loop_goes_on first_pass s g line lines open_stream round rounds = record {
    after = rounds.after;
    answers = round.answers ++ rounds.answers;
    text = round.text ++ rounds.text;
    served = served_at;
    ended = rounds.ended;
    dots = rounds.dots;
  }
    where
      served_at :
          (n : ℕ) (m : Machine) (rest : List ℕ)
          → length m.script < n
          → m.script ≡ (round.answers ++ rounds.answers) ++ rest
          → m.uart_buf.rd ≡ m.uart_buf.wr
          → Served
              (receive_lines vsnprintf kk n first_pass s g)
              ((decode vsnprintf kk s (line ∷ lines)).1, rounds.after)
              (record {
                got = line ++ concat lines;
                said = round.text ++ rounds.text;
                stored = images (decode vsnprintf kk s (line ∷ lines)).0;
                words = [];
              })
              rest
              m
      served_at zero m rest bound script nothing = absurd (omega arith)
      served_at (suc n) m rest bound script nothing =
          let x =
            round.served.serve m (rounds.answers ++ rest)
              (script ∙ append_assoc round.answers rounds.answers rest) nothing in
          let spent = receive_line_spends vsnprintf kk first_pass s g m x.ran in
          let y =
            rounds.served n x.end rest (omega (arith, spent)) x.left
              (still_nothing x.did nothing) in
          let records = (read_bytes s line).0 in
          let later = decode vsnprintf kk (read_bytes s line).1 lines in
          record {
            end = y.end;
            ran =
                receive_lines_more vsnprintf kk n first_pass s g m open_stream
                ∙ (ap (λ o. bind o (λ z. receive_lines vsnprintf kk n false z.0 z.1)) x.ran
                    ∙ y.ran);
            left = y.left;
            did =
                subst
                  (λ bytes.
                    Done
                      (record {
                        got = line ++ concat lines;
                        said = round.text ++ rounds.text;
                        stored = bytes;
                        words = [];
                      })
                      m y.end)
                  (sym (images-append records later.0)) (Done-trans x.did y.did);
          }

  loop_on :
      (first_pass : Bool) (s : State) (g : Globals) (lines : List (List ℕ))
      → Stream kk s lines
      → g.eof ≡ false
      → g.dot_count < dots_per_line
      → Rounds first_pass s g lines
  loop_on first_pass _ g _ (last s line good sound over) open_stream small =
      let round = receive_line-Round vsnprintf kk sensible first_pass s g line good sound small in
      loop_goes_on first_pass s g line [] open_stream round (
        loop_over false (read_bytes s line).1 round.after (round.ended ∙ ground (arith, over))
          round.dots)
  loop_on first_pass _ g _ (more s line later good sound going stream) open_stream small =
      let round = receive_line-Round vsnprintf kk sensible first_pass s g line good sound small in
      loop_goes_on first_pass s g line later open_stream round (
        loop_on false (read_bytes s line).1 round.after later stream
          (round.ended ∙ ground (arith, going, open_stream)) round.dots)
