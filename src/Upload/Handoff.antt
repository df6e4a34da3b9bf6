-- ===== src/Upload/Handoff.antt =====
-- The handoff of noelv_serv_upload: when the register percontrol is written, and with what.
use cocoapuffs_fpga.Prelude.{
  ℕ, ◌≡◌, refl, sym, ap, ◌∙◌, ◌⊎◌, inl, inr, Bool, true, false, none, some, List, ◌∷◌, ◌++◌, arith,
  bit_and, ◌==◌, if◌then◌else◌, literal,
}
use cocoapuffs_fpga.Machine.{
  Machine, Outcome, Event, load, store, done, halted, bind-eq-done, load32, store32, done-machine,
  done-result,
}
use cocoapuffs_fpga.Machine.Trace.{sent_to, bytes_stored, load32-done}
use cocoapuffs_fpga.Machine.Loop.{until, until_last}
use cocoapuffs_fpga.Machine.Frame.{
  Frame, Keeps, Keeps-bind, Keeps-until, Keeps-load32, Keeps-done, final, stage,
}
use cocoapuffs_fpga.Uart.{Vsnprintf, printme}
use cocoapuffs_fpga.Uart.Framed.{printme-Keeps}
use cocoapuffs_fpga.Ihex.{Globals}
use cocoapuffs_fpga.Ihex.Framed.{LoaderFrame}
use cocoapuffs_fpga.Upload.{
  KkIhex, perctl, serv_uart, tx_fifo_empty, start_globals, upload, poll_drained, noelv_main,
}
use cocoapuffs_fpga.Upload.Framed.{upload-Keeps}
use cocoapuffs_fpga.Upload.Stream.{records_of, upload-Took}
use cocoapuffs_fpga.Upload.Received.{images, some_ends, all_sound}
use cocoapuffs_fpga.Upload.Jumps.{or_false}
use cocoapuffs_fpga.Upload.Taken.{AllWhole, all_handed}
use cocoapuffs_fpga.Uart.Account.{Accounted}
use cocoapuffs_fpga.Uart.Ledger.{Loses, Loses-trans, Fed, Took-before, loss_port}
use cocoapuffs_fpga.Ihex.Loaded.{byte_frame}

-- percontrol is not written.
abbrev perctl_frame : LoaderFrame
perctl_frame = record {
  port = record {
    frame = record {
      Rel = λ m n. sent_to perctl n.trace ≡ sent_to perctl m.trace;
      same = λ m. refl;
      also = λ p q. q ∙ p;
    };
    Gets = Unit {0};
    on_heard = λ v rest m e. refl;
    on_load = λ gets v rest m e. refl;
    on_store = λ v m. refl;
    on_pop = λ gets m ne. refl;
  };
  on_byte = λ a b m. refl;
}

abbrev frame : Frame
frame = perctl_frame.port.frame

answered : (b : Bool) → (if b then none else some (tt {0})) ≡ some (tt {0}) → b ≡ false
answered true h = cc
answered false h = refl

module _ (vsnprintf : Vsnprintf) (kk : KkIhex) where
  -- A run from `m` that has handed over. The two greetings were printed, the upload after them took
  -- some lines, and returned with the end of the stream seen; then the last message was printed and
  -- the port was found drained. The last accesses are that load and the two words of the handoff,
  -- the first ones at percontrol.
  pub record HandedOver (gone : List ℕ) (m : Machine) (o : Outcome (Unit {0})) : Type 0 where
    pub m0 : Machine
    pub m1 : Machine
    pub m2 : Machine
    pub m3 : Machine
    pub m4 : Machine
    pub g : Globals
    pub v : ℕ
    pub before : List Event
    pub booted : printme (literal "32-bit boot\r\n") m ≡ done tt m0
    pub greeted : printme (literal "ihex:") m0 ≡ done tt m1
    pub uploaded : upload vsnprintf kk start_globals m1 ≡ done g m2
    pub over : g.eof ≡ true
    pub told : printme (literal "noelv") m2 ≡ done tt m3
    pub waited : until (poll_drained vsnprintf kk) m3 ≡ done tt m4
    pub drained_at : m4.trace ≡ load serv_uart v ∷ before
    pub is_drained : (bit_and v tx_fifo_empty == 0) ≡ false
    pub handed_over : (final o).trace ≡ store perctl 7 ∷ store perctl 3 ∷ m4.trace
    pub first_words : sent_to perctl m4.trace ≡ sent_to perctl m.trace
    pub ends : o ≡ halted (final o)
    pub lines : List (List ℕ)
    pub bytes : List ℕ
    pub whole : AllWhole lines
    pub fed : Fed lines bytes
    pub ledger : Accounted (gone ++ bytes) m2
    pub sound : all_sound (records_of vsnprintf kk (all_handed lines)) ≡ true
    pub stream_ends : some_ends (records_of vsnprintf kk (all_handed lines)) ≡ true
    pub memory :
        bytes_stored (final o).trace
        ≡ bytes_stored m.trace ++ images (records_of vsnprintf kk (all_handed lines))

  -- A run, as far as it went.
  abbrev pub Handed : List ℕ → Machine → Outcome (Unit {0}) → Type 0
  Handed gone m o = (sent_to perctl (final o).trace ≡ sent_to perctl m.trace) ⊎ HandedOver gone m o

  poll_drained-Keeps : Keeps frame (poll_drained vsnprintf kk)
  poll_drained-Keeps =
      Keeps-bind frame (load32 serv_uart) _ (Keeps-load32 frame serv_uart λ v rest m e. refl)
        λ v m. refl

  -- The wait for the port ends with a load that found it drained.
  drained :
      (k : Machine) {n : Machine}
      → until (poll_drained vsnprintf kk) k ≡ done tt n
      → (v : ℕ) × (before : List Event) × ((bit_and v tx_fifo_empty == 0) ≡ false)
        × (n.trace ≡ load serv_uart v ∷ before)
  drained k {n} h =
      let (l, round) = until_last (poll_drained vsnprintf kk) k h in
      let (v, o, loaded, last) =
        bind-eq-done (load32 serv_uart l)
          (λ v m. done (if bit_and v tx_fifo_empty == 0 then none else some tt) m) round in
      (
        v,
        l.trace,
        answered (bit_and v tx_fifo_empty == 0) (done-result last),
        ap (λ (x : Machine). x.trace) (sym (done-machine last))
            ∙ (load32-done serv_uart l loaded).1,
      )

  -- No byte is stored by the messages and the wait.
  printme_stores :
      (text : List ℕ) (m : Machine) {n : Machine}
      → printme text m ≡ done tt n
      → bytes_stored n.trace ≡ bytes_stored m.trace
  printme_stores text m h =
      Keeps-done byte_frame.frame (printme text) m (printme-Keeps byte_frame text) h

  wait_stores :
      (m : Machine) {n : Machine}
      → until (poll_drained vsnprintf kk) m ≡ done tt n
      → bytes_stored n.trace ≡ bytes_stored m.trace
  wait_stores m h =
      Keeps-done byte_frame.frame (until (poll_drained vsnprintf kk)) m
        (Keeps-until byte_frame.frame (poll_drained vsnprintf kk) (
          Keeps-bind byte_frame.frame (load32 serv_uart) _
            (Keeps-load32 byte_frame.frame serv_uart λ v rest m e. refl)
            λ v. byte_frame.frame.same))
        h

  printme_loses :
      (text : List ℕ) (m : Machine) {n : Machine} → printme text m ≡ done tt n → Loses m n
  printme_loses text m h =
      Keeps-done loss_port.frame (printme text) m (printme-Keeps loss_port text) h

  -- Whatever the port and the stream do, noelv_serv_upload stores no word at percontrol until it has
  -- run so far: it has printed its two greetings; the upload has returned, having taken some whole
  -- lines from the port, in their order, with nothing between them but bytes that the ring lost;
  -- the records of these lines, each up to its first NUL, and those for the end of the reading, end
  -- the stream and have the right checksums, and the bytes stored are the bytes of these records; it
  -- has printed the last message, and a load has found the port drained. It then stores 3, which
  -- starts NOEL-V, and 7, without a load in between, and halts. `gone` is what the program had taken,
  -- or lost, of what was received before. A record of the stream can itself store bytes there.
  pub noelv_main-Handed :
      (gone : List ℕ) (m : Machine) → Accounted gone m → Handed gone m (noelv_main vsnprintf kk m)
  unfolding noelv_main store32
  noelv_main-Handed gone m ledger =
      stage frame (Handed gone m) m (printme (literal "32-bit boot\r\n")) _ m (λ o. inl)
        (printme-Keeps perctl_frame.port (literal "32-bit boot\r\n")) refl
        λ _ m0 e0 p0.
          stage frame (Handed gone m) m (printme (literal "ihex:")) _ m0 (λ o. inl)
            (printme-Keeps perctl_frame.port (literal "ihex:")) p0
            λ _ m1 e1 p1.
              stage frame (Handed gone m) m (upload vsnprintf kk start_globals) _ m1 (λ o. inl)
                (upload-Keeps perctl_frame vsnprintf kk tt start_globals) p1
                λ g m2 uploaded p2.
                  stage frame (Handed gone m) m (printme (literal "noelv")) _ m2 (λ o. inl)
                    (printme-Keeps perctl_frame.port (literal "noelv")) p2
                    λ _ m3 e3 p3.
                      stage frame (Handed gone m) m (until (poll_drained vsnprintf kk)) _ m3
                        (λ o. inl)
                        (Keeps-until frame (poll_drained vsnprintf kk) poll_drained-Keeps) p3
                        λ _ m4 e4 p4.
                          let (lines, whole, took, received, over) =
                            upload-Took vsnprintf kk start_globals m1 (omega arith) uploaded in
                          let quiet =
                            Loses-trans (printme_loses (literal "32-bit boot\r\n") m e0)
                              (printme_loses (literal "ihex:") m0 e1) in
                          let (bytes, fed, ledger2) = Took-before quiet took gone ledger in
                          let (v, before, free, seen) = drained m3 e4 in
                          let records = records_of vsnprintf kk (all_handed lines) in
                          inr (record {
                            m0 = m0;
                            m1 = m1;
                            m2 = m2;
                            m3 = m3;
                            m4 = m4;
                            g = g;
                            v = v;
                            before = before;
                            booted = e0;
                            greeted = e1;
                            uploaded = uploaded;
                            over = over;
                            told = e3;
                            waited = e4;
                            drained_at = seen;
                            is_drained = free;
                            handed_over = refl;
                            first_words = p4;
                            ends = refl;
                            lines = lines;
                            bytes = bytes;
                            whole = whole;
                            fed = fed;
                            ledger = ledger2;
                            sound = received.sound;
                            stream_ends =
                                sym (or_false (some_ends records))
                                ∙ (sym received.loaded.ended ∙ over);
                            memory =
                                wait_stores m3 e4
                                ∙ (printme_stores (literal "noelv") m2 e3
                                    ∙ (received.loaded.memory
                                        ∙ ap (λ (l : List (ℕ × ℕ)). l ++ images records)
                                            (printme_stores (literal "ihex:") m0 e1
                                              ∙ printme_stores (literal "32-bit boot\r\n") m e0)));
                          })
