-- ===== src/Upload/Whole.antt =====
-- noelv_serv_upload from its start to the handoff.
use mathlib.Core.Path.{subst₂}
use cocoapuffs_fpga.Prelude.{
  bit_and, ◌==◌, if◌then◌else◌, none, some, ℕ, ◌≡◌, refl, sym, ap, true, List, [], ◌∷◌, ◌++◌,
  append-nil, arith, literal, codes,
}
use cocoapuffs_fpga.Machine.{Machine, done, bind, halt, store32}
use cocoapuffs_fpga.Machine.Loop.{until, until_first}
use cocoapuffs_fpga.Machine.Trace.{load32_lem}
use cocoapuffs_fpga.Uart.{Vsnprintf, uart_is_empty, printme}
use cocoapuffs_fpga.Uart.Account.{polled}
use cocoapuffs_fpga.Uart.Served.{idle, rooms, Serve, Serve-printme, Serve-store32}
use cocoapuffs_fpga.Uart.Served.Answered.{Sensible}
use cocoapuffs_fpga.Uart.Served.Halted.{Halted, Halts, Halts-here, Halts-bind}
use cocoapuffs_fpga.Upload.{
  KkIhex, perctl, serv_uart, tx_fifo_empty, start_globals, upload, poll_drained, noelv_main,
}
use cocoapuffs_fpga.Upload.Received.{images, all_sound}
use cocoapuffs_fpga.Upload.Stream.{decode, records_of}
use cocoapuffs_fpga.Upload.Reached.{concat, Stream}
use cocoapuffs_fpga.Upload.Reached.Run.{Run, upload-Run}

-- The answer of a port that has received nothing, has room, and has sent everything.
abbrev pub quiet_port : ℕ
quiet_port = 0x500

module _ (vsnprintf : Vsnprintf) (kk : KkIhex) (sensible : Sensible vsnprintf) where
  open kk use {begin_read, end_read}

  Serve-drained : Serve (quiet_port ∷ []) (until (poll_drained vsnprintf kk)) tt idle
  unfolding uart_is_empty
  Serve-drained = record {
    serve = λ m rest script nothing. record {
      end = polled quiet_port rest m;
      ran = until_first (poll_drained vsnprintf kk) m (
          ap (λ r. bind r λ v k. done (if bit_and v tx_fifo_empty == 0 then none else some tt) k)
            (load32_lem serv_uart m script));
      left = refl;
      did = record {
        same_buf = refl;
        got = sym (append-nil _);
        said = sym (append-nil _);
        stored = sym (append-nil _);
        words = sym (append-nil _);
      };
    };
  }

  -- The answers around those of the upload.
  abbrev before_upload : List ℕ
  before_upload = rooms (codes "32-bit boot\r\n\r\n") ++ rooms (codes "ihex:\r\n")

  abbrev after_upload : List ℕ
  after_upload = rooms (codes "noelv\r\n") ++ quiet_port ∷ []

  noelv_main-Halts :
      (lines : List (List ℕ)) (run : Run vsnprintf kk sensible lines start_globals)
      → Halts (before_upload ++ (run.answers ++ after_upload)) (noelv_main vsnprintf kk) (record {
        got = concat lines ++ [];
        said = codes "32-bit boot\r\n\r\nihex:\r\n" ++ (run.text ++ codes "noelv\r\n");
        stored = images (records_of vsnprintf kk lines) ++ [];
        words = (perctl, 3) ∷ (perctl, 7) ∷ [];
      })
  unfolding noelv_main
  noelv_main-Halts lines run =
      Halts-bind (printme (literal "32-bit boot\r\n")) _
        (Serve-printme (literal "32-bit boot\r\n") (codes "32-bit boot\r\n") refl)
        (Halts-bind (printme (literal "ihex:")) _
          (Serve-printme (literal "ihex:") (codes "ihex:") refl)
          (Halts-bind (upload vsnprintf kk start_globals) _ run.served (
            Halts-bind (printme (literal "noelv")) _
              (Serve-printme (literal "noelv") (codes "noelv") refl)
              (Halts-bind (until (poll_drained vsnprintf kk)) _ Serve-drained (
                Halts-bind (store32 perctl 3) _ (Serve-store32 perctl 3 refl) (
                  Halts-bind (store32 perctl 7) (λ _. halt) (Serve-store32 perctl 7 refl)
                    (Halts-here (Unit {0}))))))))

  -- Where vsnprintf does what C documents, take lines of at most 254 bytes without a NUL, whose
  -- records have the right checksums, with those for the end of the reading, and of which the last
  -- line alone has one that ends the stream. There are answers of the port with which
  -- noelv_serv_upload, started with nothing saved, runs to its endless loop: it has taken exactly
  -- these lines from the port; what it has stored in bytes is the bytes of the records, at their
  -- addresses and in their order; and the only words that it has stored anywhere but at the port are 3
  -- and then 7, at percontrol.
  pub noelv_main_hands_over :
      (lines : List (List ℕ)) (m : Machine)
      → Stream kk begin_read lines
      → all_sound (end_read (decode vsnprintf kk begin_read lines).1) ≡ true
      → m.uart_buf.rd ≡ m.uart_buf.wr
      → (answers : List ℕ) × (text : List ℕ) × Halted
          (noelv_main vsnprintf kk)
          (record {
            got = concat lines;
            said = text;
            stored = images (records_of vsnprintf kk lines);
            words = (perctl, 3) ∷ (perctl, 7) ∷ [];
          })
          []
          (record m { script = answers })
  noelv_main_hands_over lines m stream sound nothing =
      let run = upload-Run vsnprintf kk sensible lines start_globals stream sound (omega arith) in
      let answers = before_upload ++ (run.answers ++ after_upload) in
      let tidy =
        subst₂
          (λ taken bytes. Halts answers (noelv_main vsnprintf kk) (record {
            got = taken;
            said = codes "32-bit boot\r\n\r\nihex:\r\n" ++ (run.text ++ codes "noelv\r\n");
            stored = bytes;
            words = (perctl, 3) ∷ (perctl, 7) ∷ [];
          }))
          (append-nil (concat lines)) (append-nil (images (records_of vsnprintf kk lines)))
          (noelv_main-Halts lines run) in
      (
        answers,
        codes "32-bit boot\r\n\r\nihex:\r\n" ++ (run.text ++ codes "noelv\r\n"),
        tidy.serve (record m { script = answers }) [] (sym (append-nil answers)) nothing,
      )
