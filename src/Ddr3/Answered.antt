-- ===== src/Ddr3/Answered.antt =====
-- One line of the loop of the DDR3 loaders on a port that always has room.
use cocoapuffs_fpga.Prelude.{
  ℕ, ◌+◌, ◌%◌, ◌^◌, ◌<◌, ◌≡◌, refl, sym, subst, ap, Bool, true, false, ◌||◌, List, [], ◌∷◌, ◌++◌,
  append-nil, arith, length, length-append, codes, literal,
}
use cocoapuffs_fpga.Machine.{pure, ◌>>◌}
use cocoapuffs_fpga.Uart.{Vsnprintf, buffer_size, uart_getline, printme, kprintf}
use cocoapuffs_fpga.Uart.Served.{Serve, Serve-bind, Serve-map}
use cocoapuffs_fpga.Uart.Served.Answered.{
  Answered, Answered-pure, Answered-bind, Answered-printme, Answered-kprintf, Sensible,
}
use cocoapuffs_fpga.Uart.Served.Line.{Serve-whole_line}
use cocoapuffs_fpga.Ihex.{
  Record, RecordType, data_record, end_of_file_record, other_record, copy_bytes,
}
use cocoapuffs_fpga.Ihex.Answered.{copy_bytes-Answered}
use cocoapuffs_fpga.Ihex.Loaded.{copied}
use cocoapuffs_fpga.Upload.{KkIhex, before_nul}
use cocoapuffs_fpga.Upload.Received.{some_ends, all_sound}
use cocoapuffs_fpga.Upload.Lines.{IsLine, before_nul-line, with_answers}
use cocoapuffs_fpga.Ddr3.{
  ram_start, load_record, handle_record, ihex_data_read, handle_records, use_line, load_line,
}
use cocoapuffs_fpga.Ddr3.Sound.{shifted_image}
use cocoapuffs_fpga.Ddr3.Stream.{shifted_images, handle_records-Filled}

module _ (vsnprintf : Vsnprintf) (sensible : Sensible vsnprintf) where
  load_record-Answered :
      (r : Record)
      → Answered (load_record vsnprintf r) (copied ((r.address + ram_start) % 2 ^ 32) r.bytes)
  unfolding load_record
  load_record-Answered r =
      subst (Answered (load_record vsnprintf r))
        (append-nil (copied ((r.address + ram_start) % 2 ^ 32) r.bytes))
        (Answered-bind (kprintf vsnprintf _ _) _ (Answered-kprintf vsnprintf _ _ sensible) λ _.
          Answered-bind (copy_bytes ((r.address + ram_start) % 2 ^ 32) r.bytes) _
            (copy_bytes-Answered ((r.address + ram_start) % 2 ^ 32) r.bytes)
            λ _.
              Answered-bind (kprintf vsnprintf (literal "\n") []) (λ _. pure tt)
                (Answered-kprintf vsnprintf (literal "\n") [] sensible) λ _. Answered-pure tt)

  handle_record-Answered :
      (r : Record) (eof : Bool) → Answered (handle_record vsnprintf r eof) (shifted_image r)
  unfolding handle_record
  handle_record-Answered r eof = go r.type
    where
      go :
          (t : RecordType)
          → Answered
              (elim t [
                | data_record ↦ load_record vsnprintf r >> pure eof
                | end_of_file_record ↦ printme (literal "EOF") >> pure true
                | other_record ↦ pure eof
              ])
              (elim t [
                | data_record ↦ copied ((r.address + ram_start) % 2 ^ 32) r.bytes
                | end_of_file_record ↦ []
                | other_record ↦ []
              ])
      go data_record =
          subst (Answered (load_record vsnprintf r >> pure eof))
            (append-nil (copied ((r.address + ram_start) % 2 ^ 32) r.bytes))
            (Answered-bind (load_record vsnprintf r) (λ _. pure eof) (load_record-Answered r)
              λ _. Answered-pure eof)
      go end_of_file_record =
          Answered-bind (printme (literal "EOF")) (λ _. pure true)
            (Answered-printme (literal "EOF") (codes "EOF") refl) λ _. Answered-pure true
      go other_record = Answered-pure eof

  ihex_data_read-Answered :
      (r : Record) (eof : Bool)
      → r.checksum_error ≡ false
      → Answered (ihex_data_read vsnprintf r eof) (shifted_image r)
  unfolding ihex_data_read
  ihex_data_read-Answered r eof good = rw good (handle_record-Answered r eof)

  module _ (kk : KkIhex) where
    open kk use {State, read_bytes}

    handle_records-Answered :
        (rs : List Record) (eof : Bool)
        → all_sound rs ≡ true
        → Answered (handle_records vsnprintf kk rs eof) (shifted_images rs)
    unfolding handle_records
    handle_records-Answered [] eof sound = Answered-pure eof
    handle_records-Answered (r ∷ rs) eof sound =
        Answered-bind (ihex_data_read vsnprintf r eof) (handle_records vsnprintf kk rs)
          (ihex_data_read-Answered r eof (ground arith))
          λ eof'. handle_records-Answered rs eof' (ground arith)

    -- What is left in gEof is what any run with the answers leaves.
    pub records_after :
        (rs : List Record) (eof : Bool)
        → all_sound rs ≡ true
        → (run : Answered (handle_records vsnprintf kk rs eof) (shifted_images rs)) × (run.result
            ≡ (some_ends rs || eof))
    records_after rs eof sound =
        let run = handle_records-Answered rs eof sound in
        let x =
          run.served.serve (with_answers run.answers) [] (sym (append-nil run.answers)) refl in
        (run, (handle_records-Filled vsnprintf kk rs eof (with_answers run.answers) x.ran).ended)

    -- One round of the loop on one line.
    pub record Round (s : State) (eof : Bool) (line : List ℕ) : Type 0 where
      pub answers : List ℕ
      pub text : List ℕ
      pub served :
          Serve answers
            (load_line vsnprintf kk s eof)
            ((read_bytes s line).1, some_ends (read_bytes s line).0 || eof)
            (record {
              got = line;
              said = text;
              stored = shifted_images (read_bytes s line).0;
              words = [];
            })
      pub spends : 0 < length answers

    use_line-Serve :
        (line buf : List ℕ) (s : State) (eof : Bool)
        → before_nul buf ≡ line
        → (run : Answered
            (handle_records vsnprintf kk (read_bytes s line).0 eof)
            (shifted_images (read_bytes s line).0))
        → run.result ≡ (some_ends (read_bytes s line).0 || eof)
        → Serve run.answers
            (use_line vsnprintf kk true buf s eof)
            ((read_bytes s line).1, some_ends (read_bytes s line).0 || eof)
            (record {
              got = [];
              said = run.text;
              stored = shifted_images (read_bytes s line).0;
              words = [];
            })
    unfolding use_line
    use_line-Serve line buf s eof e run ends = rw e (
        Serve-map (handle_records vsnprintf kk (read_bytes s line).0 eof)
          (λ eof'. ((read_bytes s line).1, eof')) (ap (λ b. ((read_bytes s line).1, b)) ends)
          run.served)

    load_body-Round :
        (s : State) (eof : Bool) {line : List ℕ} (good : IsLine line)
        → all_sound (read_bytes s (good.body ++ b'\n' ∷ [])).0 ≡ true
        → Round s eof (good.body ++ b'\n' ∷ [])
    unfolding load_line
    load_body-Round s eof good sound =
        let line = good.body ++ b'\n' ∷ [] in
        let (run, ends) = records_after (read_bytes s line).0 eof sound in
        record {
          answers = line ++ run.answers;
          text = run.text;
          served =
              subst
                (λ taken.
                  Serve (line ++ run.answers) (load_line vsnprintf kk s eof)
                    ((read_bytes s line).1, some_ends (read_bytes s line).0 || eof)
                    (record {
                      got = taken;
                      said = run.text;
                      stored = shifted_images (read_bytes s line).0;
                      words = [];
                    }))
                (append-nil line)
                (Serve-bind (uart_getline buffer_size) _
                  (Serve-whole_line good.body good.one_line good.bytes good.fits)
                  (use_line-Serve line (line ++ 0 ∷ []) s eof
                    (before_nul-line good.body good.no_nuls) run ends));
          spends = omega (
            arith,
            length-append (good.body ++ b'\n' ∷ []) run.answers,
            length-append good.body (b'\n' ∷ []),
          );
        }

    -- A line is received, with its records handled and the bytes of these stored.
    pub load_line-Round :
        (s : State) (eof : Bool) (line : List ℕ)
        → IsLine line
        → all_sound (read_bytes s line).0 ≡ true
        → Round s eof line
    load_line-Round s eof line good sound = subst (Round s eof) (sym good.split) (
        load_body-Round s eof good
          (subst (λ l. all_sound (read_bytes s l).0 ≡ true) good.split sound))
