-- ===== src/Ddr3/Sound.antt =====
-- What the handler of the DDR3 loader stores.
use cocoapuffs_fpga.Prelude.{
  ℕ, ◌+◌, ◌%◌, ◌^◌, ◌≡◌, refl, sym, subst, ap, ◌∙◌, inl, inr, Bool, true, false, ◌||◌, List, [],
  ◌∷◌, ◌++◌, append-nil, length, if◌then◌else◌, Bool-cases, literal,
}
use cocoapuffs_fpga.Machine.{Machine, done, halt, bind-eq-done, ◌>>◌, done-machine, done-result}
use cocoapuffs_fpga.Machine.Trace.{bytes_stored}
use cocoapuffs_fpga.Machine.Frame.{Keeps, Keeps-bind, Keeps-done, final}
use cocoapuffs_fpga.Uart.{Vsnprintf, printme, kprintf}
use cocoapuffs_fpga.Uart.Framed.{printme-Keeps, kprintf-Keeps}
use cocoapuffs_fpga.Ihex.{
  Record, RecordType, data_record, end_of_file_record, other_record, copy_bytes,
}
use cocoapuffs_fpga.Ihex.Loaded.{byte_frame, copied, ends, copy_bytes-copied}
use cocoapuffs_fpga.Ddr3.{ram_start, load_record, handle_record, ihex_data_read}

-- The bytes of a record, each with its address relative to the start of the memory.
abbrev pub shifted_image : Record → List (ℕ × ℕ)
shifted_image r = elim r.type [
  | data_record ↦ copied ((r.address + ram_start) % 2 ^ 32) r.bytes
  | end_of_file_record ↦ []
  | other_record ↦ []
]

module _ (vsnprintf : Vsnprintf) where
  bad_record_quiet :
      (r : Record) (eof : Bool)
      → r.checksum_error ≡ true
      → Keeps byte_frame.frame (ihex_data_read vsnprintf r eof)
  unfolding ihex_data_read
  bad_record_quiet r eof bad =
      subst
        (λ b.
          Keeps byte_frame.frame
            (if b then printme (literal "ihex err") >> halt else handle_record vsnprintf r eof))
        (sym bad)
        (Keeps-bind byte_frame.frame (printme (literal "ihex err")) (λ _. halt)
          (printme-Keeps byte_frame (literal "ihex err")) λ _ m. refl)

  load_record-stored :
      (r : Record) (m : Machine) {m' : Machine}
      → load_record vsnprintf r m ≡ done tt m'
      → bytes_stored m'.trace
        ≡ bytes_stored m.trace ++ copied ((r.address + ram_start) % 2 ^ 32) r.bytes
  unfolding load_record
  load_record-stored r m {m'} h =
      let a : ℕ = (r.address + ram_start) % 2 ^ 32 in
      let args : List ℕ =
        r.offset ∷ length r.bytes ∷ length r.bytes ∷ r.line_length ∷ r.line_length ∷ [] in
      let text : List ℕ = literal "a: %08x: len=%4d(%4x): line_len=%4d(%4x)" in
      let (u0, k, shown, h0) = bind-eq-done (kprintf vsnprintf text args m) _ h in
      let (u1, n, copying, h1) = bind-eq-done (copy_bytes a r.bytes k) _ h0 in
      let (u2, o, ended, last) =
        bind-eq-done (kprintf vsnprintf (literal "\n") [] n) (λ _ m. done tt m) h1 in
      let before =
        Keeps-done byte_frame.frame (kprintf vsnprintf text args) m
          (kprintf-Keeps byte_frame vsnprintf text args) shown in
      let after =
        Keeps-done byte_frame.frame (kprintf vsnprintf (literal "\n") []) n
          (kprintf-Keeps byte_frame vsnprintf (literal "\n") []) ended in
      ap (λ (x : Machine). bytes_stored x.trace) (sym (done-machine last))
      ∙ (after
          ∙ (copy_bytes-copied a r.bytes k copying
              ∙ ap (λ (l : List (ℕ × ℕ)). l ++ copied a r.bytes) before))

  handle_record-stored :
      (r : Record) (eof : Bool) (m : Machine) {eof' : Bool} {m' : Machine}
      → handle_record vsnprintf r eof m ≡ done eof' m'
      → (bytes_stored m'.trace ≡ bytes_stored m.trace ++ shifted_image r) × (eof' ≡ (ends r || eof))
  unfolding handle_record
  handle_record-stored r eof m {eof'} {m'} h = go r.type refl
    where
      go :
          (t : RecordType)
          → r.type ≡ t
          → (bytes_stored m'.trace ≡ bytes_stored m.trace ++ shifted_image r)
            × (eof' ≡ (ends r || eof))
      go data_record e =
          let (u, k, loaded, last) =
            bind-eq-done (load_record vsnprintf r m) (λ _ m. done eof m) (rw e at h) in
          (
            rw e (
                ap (λ (x : Machine). bytes_stored x.trace) (sym (done-machine last))
                ∙ load_record-stored r m loaded),
            rw e (sym (done-result last)),
          )
      go end_of_file_record e =
          let (u, k, printed, last) =
            bind-eq-done (printme (literal "EOF") m) (λ _ m. done true m) (rw e at h) in
          (
            rw e (
                ap (λ (x : Machine). bytes_stored x.trace) (sym (done-machine last))
                ∙ (Keeps-done byte_frame.frame (printme (literal "EOF")) m
                      (printme-Keeps byte_frame (literal "EOF")) printed
                    ∙ sym (append-nil (bytes_stored m.trace)))),
            rw e (sym (done-result last)),
          )
      go other_record e =
          let last = rw e at h in
          (
            rw e (
                ap (λ (x : Machine). bytes_stored x.trace) (sym (done-machine last))
                ∙ sym (append-nil (bytes_stored m.trace))),
            rw e (sym (done-result last)),
          )

  -- A record with a wrong checksum stores nothing, however far its handling goes.
  pub bad_record-stored :
      (r : Record) (eof : Bool) (m : Machine)
      → r.checksum_error ≡ true
      → bytes_stored (final (ihex_data_read vsnprintf r eof m)).trace ≡ bytes_stored m.trace
  bad_record-stored r eof m bad = bad_record_quiet r eof bad m

  -- An ihex_data_read that returns has stored the bytes of a data record at its address above the
  -- start of the memory, or nothing for another record; the checksum was right, and gEof is set if
  -- the record ends the stream.
  pub ihex_data_read-stored :
      (r : Record) (eof : Bool) (m : Machine) {eof' : Bool} {m' : Machine}
      → ihex_data_read vsnprintf r eof m ≡ done eof' m'
      → (r.checksum_error ≡ false)
        × (bytes_stored m'.trace ≡ bytes_stored m.trace ++ shifted_image r)
        × (eof' ≡ (ends r || eof))
  unfolding ihex_data_read
  ihex_data_read-stored r eof m {eof'} {m'} h = elim (Bool-cases r.checksum_error) [
    | inl bad ↦
        let (u, k, printed, stop) =
          bind-eq-done (printme (literal "ihex err") m) (λ _. halt) (rw bad at h) in
        cc
    | inr good ↦
        let (stored, over) = handle_record-stored r eof m (
          ap
            (λ b.
              (if b then printme (literal "ihex err") >> halt else handle_record vsnprintf r eof) m)
            (sym good)
          ∙ h) in
        (good, stored, over)
  ]
