-- ===== src/Ddr3/Reached.antt =====
-- Streams that the DDR3 loaders receive to their end.
use mathlib.Core.Path.{subst₂}
use cocoapuffs_fpga.Prelude.{
  ℕ, zero, suc, ◌<◌, ◌≡◌, refl, sym, subst, ap, ◌∙◌, Bool, true, false, ◌||◌, List, [], ◌∷◌, ◌++◌,
  append-nil, append_assoc, arith, length, length-append,
}
use cocoapuffs_fpga.Machine.{Machine, done, bind}
use cocoapuffs_fpga.Uart.{Vsnprintf}
use cocoapuffs_fpga.Uart.Served.{idle, Done, Done-idle, Done-trans, Served, still_nothing}
use cocoapuffs_fpga.Uart.Served.Answered.{Sensible}
use cocoapuffs_fpga.Upload.{KkIhex}
use cocoapuffs_fpga.Upload.Received.{some_ends, all_sound}
use cocoapuffs_fpga.Upload.Stream.{decode, records_of}
use cocoapuffs_fpga.Upload.Reached.{concat, Stream, last, more}
use cocoapuffs_fpga.Ddr3.{budget, handle_records, load_lines, load_stream}
use cocoapuffs_fpga.Ddr3.Stream.{shifted_images, shifted_images-append, load_lines_step}
use cocoapuffs_fpga.Ddr3.Answered.{Round, load_line-Round, records_after}

module _ (vsnprintf : Vsnprintf) (kk : KkIhex) (sensible : Sensible vsnprintf) where
  open kk use {State, begin_read, read_bytes, end_read}

  -- The loop on lines, whatever bound above the answers it is given.
  record Rounds (eof : Bool) (s : State) (lines : List (List ℕ)) : Type 0 where
    answers : List ℕ
    text : List ℕ
    served :
        (n : ℕ) (m : Machine) (rest : List ℕ)
        → length m.script < n
        → m.script ≡ answers ++ rest
        → m.uart_buf.rd ≡ m.uart_buf.wr
        → Served
            (load_lines vsnprintf kk n s eof)
            ((decode vsnprintf kk s lines).1, true)
            (record {
              got = concat lines;
              said = text;
              stored = shifted_images (decode vsnprintf kk s lines).0;
              words = [];
            })
            rest
            m

  -- With the end of the stream seen, the loop ends.
  loop_over : (s : State) → Rounds true s []
  loop_over s = record { answers = []; text = []; served = over_at }
    where
      over_at :
          (n : ℕ) (m : Machine) (rest : List ℕ)
          → length m.script < n
          → m.script ≡ rest
          → m.uart_buf.rd ≡ m.uart_buf.wr
          → Served (load_lines vsnprintf kk n s true) (s, true) idle rest m
      over_at zero m rest bound script nothing = absurd (omega arith)
      over_at (suc n) m rest bound script nothing = record {
        end = m;
        ran = load_lines_step vsnprintf kk n s true m;
        left = script;
        did = Done-idle m;
      }

  -- Before that, one line and then the others.
  loop_goes_on :
      (s : State) (line : List ℕ) (lines : List (List ℕ))
      → Round vsnprintf sensible kk s false line
      → Rounds (some_ends (read_bytes s line).0 || false) (read_bytes s line).1 lines
      → Rounds false s (line ∷ lines)
  loop_goes_on s line lines round rounds = record {
    answers = round.answers ++ rounds.answers;
    text = round.text ++ rounds.text;
    served = served_at;
  }
    where
      served_at :
          (n : ℕ) (m : Machine) (rest : List ℕ)
          → length m.script < n
          → m.script ≡ (round.answers ++ rounds.answers) ++ rest
          → m.uart_buf.rd ≡ m.uart_buf.wr
          → Served
              (load_lines vsnprintf kk n s false)
              ((decode vsnprintf kk s (line ∷ lines)).1, true)
              (record {
                got = line ++ concat lines;
                said = round.text ++ rounds.text;
                stored = shifted_images (decode vsnprintf kk s (line ∷ lines)).0;
                words = [];
              })
              rest
              m
      served_at zero m rest bound script nothing = absurd (omega arith)
      served_at (suc n) m rest bound script nothing =
          let answered = script ∙ append_assoc round.answers rounds.answers rest in
          let x = round.served.serve m (rounds.answers ++ rest) answered nothing in
          let y =
            rounds.served n x.end rest
              (omega (
                arith,
                round.spends,
                ap length x.left,
                ap length answered,
                length-append round.answers (rounds.answers ++ rest),
              ))
              x.left (still_nothing x.did nothing) in
          let records = (read_bytes s line).0 in
          let later = decode vsnprintf kk (read_bytes s line).1 lines in
          record {
            end = y.end;
            ran =
                load_lines_step vsnprintf kk n s false m
                ∙ (ap (λ o. bind o (λ z. load_lines vsnprintf kk n z.0 z.1)) x.ran ∙ y.ran);
            left = y.left;
            did =
                subst
                  (λ bytes.
                    Done
                      (record {
                        got = line ++ concat lines;
                        said = round.text ++ rounds.text;
                        stored = bytes;
                        words = [];
                      })
                      m y.end)
                  (sym (shifted_images-append records later.0)) (Done-trans x.did y.did);
          }

  loop_on : (s : State) (lines : List (List ℕ)) → Stream kk s lines → Rounds false s lines
  loop_on _ _ (last s line good sound over) =
      loop_goes_on s line [] (load_line-Round vsnprintf sensible kk s false line good sound) (
        subst (λ b. Rounds b (read_bytes s line).1 []) (sym (ground (arith, over)))
          (loop_over (read_bytes s line).1))
  loop_on _ _ (more s line later good sound going stream) =
      loop_goes_on s line later (load_line-Round vsnprintf sensible kk s false line good sound) (
        subst (λ b. Rounds b (read_bytes s line).1 later) (sym (ground (arith, going)))
          (loop_on (read_bytes s line).1 later stream))

  -- Where vsnprintf does what C documents, take lines of at most 254 bytes without a NUL, whose
  -- records have the right checksums, with those for the end of the reading, and of which the last
  -- line alone has one that ends the stream. There are answers of the port with which the DDR3
  -- loader, with nothing saved, receives the stream to its end, with gEof set: it has taken exactly
  -- these lines from the port, and what it has stored in bytes is the bytes of the records, in their
  -- order, at their addresses above the start of the memory.
  pub load_stream_received :
      (lines : List (List ℕ)) (m : Machine)
      → Stream kk begin_read lines
      → all_sound (end_read (decode vsnprintf kk begin_read lines).1) ≡ true
      → m.uart_buf.rd ≡ m.uart_buf.wr
      → (answers : List ℕ) × (text : List ℕ) × Served
          (load_stream vsnprintf kk)
          true
          (record {
            got = concat lines;
            said = text;
            stored = shifted_images (records_of vsnprintf kk lines);
            words = [];
          })
          []
          (record m { script = answers })
  unfolding load_stream
  load_stream_received lines m stream sound nothing =
      let loop = loop_on begin_read lines stream in
      let (first, state) = decode vsnprintf kk begin_read lines in
      let (run, ends) = records_after vsnprintf sensible kk (end_read state) true sound in
      let answers = loop.answers ++ run.answers in
      let start : Machine = record m { script = answers } in
      let x = loop.served (suc (budget start)) start run.answers (omega arith) refl nothing in
      let y =
        run.served.serve x.end [] (x.left ∙ sym (append-nil run.answers))
          (still_nothing x.did nothing) in
      let over : run.result ≡ true = ends ∙ ground arith in
      (
        answers,
        loop.text ++ run.text,
        record {
          end = y.end;
          ran =
              ap (λ o. bind o (λ z. handle_records vsnprintf kk (end_read z.0) z.1)) x.ran
              ∙ (y.ran ∙ ap (λ b. done b y.end) over);
          left = y.left;
          did =
              subst₂
                (λ taken bytes.
                  Done
                    (record {
                      got = taken;
                      said = loop.text ++ run.text;
                      stored = bytes;
                      words = [];
                    })
                    start y.end)
                (append-nil (concat lines)) (sym (shifted_images-append first (end_read state)))
                (Done-trans x.did y.did);
        },
      )
