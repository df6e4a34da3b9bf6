-- ===== src/Upload/Reached/Run.antt =====
-- The whole upload of such a stream.
use mathlib.Core.Path.{subst₂}
use cocoapuffs_fpga.Prelude.{
  ℕ, suc, ◌<◌, ◌≡◌, refl, sym, ap, ◌∙◌, true, false, List, [], ◌∷◌, ◌++◌, append-nil, append_assoc,
  arith, length,
}
use cocoapuffs_fpga.Machine.{M, Machine, pure, bind, ◌>>=◌}
use cocoapuffs_fpga.Uart.{Vsnprintf, put, uart_putchar}
use cocoapuffs_fpga.Uart.Served.{
  Serve, room, Done, Done-trans, Serve-put, Serve-bind, Serve-map, still_nothing,
}
use cocoapuffs_fpga.Uart.Served.Answered.{Sensible}
use cocoapuffs_fpga.Ihex.{Globals, dots_per_line}
use cocoapuffs_fpga.Upload.{KkIhex, xon, callbacks, receive_lines, upload}
use cocoapuffs_fpga.Upload.Received.{images, images-append, all_sound}
use cocoapuffs_fpga.Upload.Stream.{decode, records_of}
use cocoapuffs_fpga.Upload.Lines.{callbacks_after}
use cocoapuffs_fpga.Upload.Reached.{concat, Stream, loop_on}

module _ (vsnprintf : Vsnprintf) (kk : KkIhex) (sensible : Sensible vsnprintf) where
  open kk use {State, begin_read, read_bytes, end_read}

  -- An upload of some lines.
  pub record Run (lines : List (List ℕ)) (g : Globals) : Type 0 where
    pub after : Globals
    pub answers : List ℕ
    pub text : List ℕ
    pub served : Serve answers (upload vsnprintf kk g) after (record {
      got = concat lines;
      said = text;
      stored = images (records_of vsnprintf kk lines);
      words = [];
    })
    pub ended : after.eof ≡ true

  -- What follows the loop.
  upload_end : Globals → State → M Globals
  upload_end g s = callbacks vsnprintf kk (end_read s) g >>= λ g'. uart_putchar xon >>= λ _. pure g'

  upload-loop :
      (g : Globals) (m : Machine)
      → upload vsnprintf kk g m
        ≡ bind
            (receive_lines vsnprintf kk
              (suc (length m.script))
              true
              begin_read
              (record g { eof = false })
              m)
            λ x. upload_end x.1 x.0
  unfolding upload upload_end
  upload-loop g m = refl

  -- A stream as below is received to its end.
  pub upload-Run :
      (lines : List (List ℕ)) (g : Globals)
      → Stream kk begin_read lines
      → all_sound (end_read (decode vsnprintf kk begin_read lines).1) ≡ true
      → g.dot_count < dots_per_line
      → Run lines g
  unfolding upload_end uart_putchar
  upload-Run lines g stream sound small =
      let loop =
        loop_on vsnprintf kk sensible true begin_read (record g { eof = false }) lines stream refl
          small in
      let (first, state) = decode vsnprintf kk begin_read lines in
      let (run, ended, dots) =
        callbacks_after vsnprintf kk sensible (end_read state) loop.after sound loop.dots in
      let tail =
        Serve-bind (callbacks vsnprintf kk (end_read state) loop.after)
          (λ g'. put xon >>= λ _. pure g') run.served
          (Serve-map (put xon) (λ _. run.result) refl (Serve-put xon)) in
      let answers = run.answers ++ room ∷ [] in
      let text = loop.text ++ (run.text ++ xon ∷ []) in
      record {
        after = run.result;
        answers = loop.answers ++ answers;
        text = text;
        served = record {
          serve = λ m rest script nothing.
              let x =
                loop.served (suc (length m.script)) m (answers ++ rest) (omega arith)
                  (script ∙ append_assoc loop.answers answers rest) nothing in
              let y = tail.serve x.end rest x.left (still_nothing x.did nothing) in
              record {
                end = y.end;
                ran = upload-loop g m ∙ (ap (λ o. bind o (λ z. upload_end z.1 z.0)) x.ran ∙ y.ran);
                left = y.left;
                did =
                    subst₂
                      (λ taken bytes.
                        Done (record { got = taken; said = text; stored = bytes; words = [] }) m
                          y.end)
                      (append-nil (concat lines))
                      (ap (λ l. images first ++ l) (append-nil (images (end_read state)))
                        ∙ sym (images-append first (end_read state)))
                      (Done-trans x.did y.did);
              };
        };
        ended = ended ∙ ground (arith, loop.ended);
      }
