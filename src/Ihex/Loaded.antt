-- ===== src/Ihex/Loaded.antt =====
-- What ihex_data_read does to the memory and to the globals.
use cocoapuffs_fpga.Prelude.{
  ℕ, ◌+◌, ◌%◌, ◌^◌, ◌<◌, ◌≡◌, refl, sym, ap, ◌∙◌, inl, inr, Bool, true, false, ◌||◌, List, [], ◌∷◌,
  ◌++◌, append-nil, append_assoc, arith, ◌==◌, leb, Bool-cases, literal,
}
use cocoapuffs_fpga.Machine.{
  Machine, store_byte, done, halt, pure, bind-eq-done, ◌>>◌, store8, done-machine, done-result,
}
use cocoapuffs_fpga.Machine.Trace.{bytes_stored}
use cocoapuffs_fpga.Machine.Frame.{Keeps, Keeps-bind, Keeps-if, Keeps-done}
use cocoapuffs_fpga.Uart.{Vsnprintf, printme, kprintf, printmef}
use cocoapuffs_fpga.Uart.Framed.{PortFrame, printme-Keeps, kprintf-Keeps}
use cocoapuffs_fpga.Ihex.{
  RecordType, data_record, end_of_file_record, other_record, Record, Globals, dots_per_line,
  copy_bytes, print_address, count_dot, end_dots, read_data_record, read_end_of_file, read_record,
  ihex_data_read,
}

-- No byte is stored.
abbrev pub byte_frame : PortFrame
byte_frame = record {
  frame = record {
    Rel = λ m n. bytes_stored n.trace ≡ bytes_stored m.trace;
    same = λ m. refl;
    also = λ p q. q ∙ p;
  };
  Gets = Unit {0};
  on_heard = λ v rest m e. refl;
  on_load = λ gets v rest m e. refl;
  on_store = λ v m. refl;
  on_pop = λ gets m ne. refl;
}

-- The bytes of a record, each with its address.
abbrev pub copied : ℕ → List ℕ → List (ℕ × ℕ)
copied a [] = []
copied a (b ∷ bs) = (a % 2 ^ 32, b) ∷ copied (a + 1) bs

abbrev pub image : Record → List (ℕ × ℕ)
image r = elim r.type [
  | data_record ↦ copied r.address r.bytes
  | end_of_file_record ↦ []
  | other_record ↦ []
]

abbrev pub ends : Record → Bool
ends r = elim r.type [ data_record ↦ false | end_of_file_record ↦ true | other_record ↦ false ]

pub copy_bytes-copied :
    (a : ℕ) (bs : List ℕ) (m : Machine) {m' : Machine}
    → copy_bytes a bs m ≡ done tt m'
    → bytes_stored m'.trace ≡ bytes_stored m.trace ++ copied a bs
unfolding copy_bytes store8
copy_bytes-copied a [] m h =
    ap (λ (n : Machine). bytes_stored n.trace) (sym (done-machine h)) ∙ sym (append-nil _)
copy_bytes-copied a (b ∷ bs) m h =
    copy_bytes-copied (a + 1) bs (record m { trace = store_byte (a % 2 ^ 32) b ∷ m.trace }) h
    ∙ append_assoc _ ((a % 2 ^ 32, b) ∷ []) (copied (a + 1) bs)

-- What is true after `stored` were stored, where `eof` says whether the stream has ended.
pub record Loaded (stored : List (ℕ × ℕ)) (eof : Bool) (m : Machine) (g' : Globals) (m' : Machine)
    : Type 0 where
  pub memory : bytes_stored m'.trace ≡ bytes_stored m.trace ++ stored
  pub ended : g'.eof ≡ eof
  pub dots : g'.dot_count < dots_per_line

module _ (vsnprintf : Vsnprintf) where
  -- kprintf stores no byte.
  quiet_print :
      {A : Type 0} (format args : List ℕ) (a : A) (m : Machine) {b : A} {m' : Machine}
      → (kprintf vsnprintf format args >> pure a) m ≡ done b m'
      → (b ≡ a) × (bytes_stored m'.trace ≡ bytes_stored m.trace)
  quiet_print {A} format args a m {b} {m'} h = (
    (let (u, k, printed, last) =
          bind-eq-done (kprintf vsnprintf format args m) (λ _ m. done a m) h in
        sym (done-result last)),
    Keeps-done byte_frame.frame (kprintf vsnprintf format args >> pure a) m
        (Keeps-bind byte_frame.frame (kprintf vsnprintf format args) _
          (kprintf-Keeps byte_frame vsnprintf format args) λ _ m. refl)
        h,
  )

  unchanged :
      (g : Globals) (m : Machine) {g' : Globals} {m' : Machine}
      → g.dot_count < dots_per_line
      → done g m ≡ done g' m'
      → Loaded [] g.eof m g' m' × (g'.line ≡ g.line)
  unchanged g m small h = (
    record {
      memory =
          ap (λ (x : Machine). bytes_stored x.trace) (sym (done-machine h))
          ∙ sym (append-nil (bytes_stored m.trace));
      ended = ap (λ (x : Globals). x.eof) (sym (done-result h));
      dots = omega (arith, ap (λ (x : Globals). x.dot_count) (done-result h));
    },
    ap (λ (x : Globals). x.line) (sym (done-result h)),
  )

  print_address-quiet :
      (r : Record) (g : Globals) → Keeps byte_frame.frame (print_address vsnprintf r g)
  unfolding print_address
  print_address-quiet r g =
      Keeps-if byte_frame.frame (g.dot_count == 0)
        (kprintf vsnprintf (literal "%08x: ") (r.address ∷ []) >> pure tt) (pure tt)
        (Keeps-bind byte_frame.frame (kprintf vsnprintf (literal "%08x: ") (r.address ∷ []))
          (λ _. pure tt) (kprintf-Keeps byte_frame vsnprintf (literal "%08x: ") (r.address ∷ []))
          λ _ m. refl)
        λ m. refl

  count_dot-Loaded :
      (g : Globals) (m : Machine) {g' : Globals} {m' : Machine}
      → g.dot_count < dots_per_line
      → count_dot vsnprintf g m ≡ done g' m'
      → Loaded [] g.eof m g' m' × (g'.line ≡ g.line)
  unfolding count_dot
  count_dot-Loaded g m {g'} {m'} small h =
      let (u, k, dotted, more) = bind-eq-done (kprintf vsnprintf (literal ".") [] m) _ h in
      let quiet : bytes_stored k.trace ≡ bytes_stored m.trace =
        Keeps-done byte_frame.frame (kprintf vsnprintf (literal ".") []) m
          (kprintf-Keeps byte_frame vsnprintf (literal ".") []) dotted in
      elim (Bool-cases (leb dots_per_line (g.dot_count + 1))) [
        | inl full ↦
            let (same, still) =
              quiet_print (literal "\n") [] (record g { dot_count = 0 }) k (rw full at more) in
            (
              record {
                memory = still ∙ (quiet ∙ sym (append-nil (bytes_stored m.trace)));
                ended = ap (λ (x : Globals). x.eof) same;
                dots = omega (arith, ap (λ (x : Globals). x.dot_count) same);
              },
              ap (λ (x : Globals). x.line) same,
            )
        | inr room ↦
            let last = rw room at more in
            let same = sym (done-result last) in
            let still = ap (λ (x : Machine). bytes_stored x.trace) (sym (done-machine last)) in
            (
              record {
                memory = still ∙ (quiet ∙ sym (append-nil (bytes_stored m.trace)));
                ended = ap (λ (x : Globals). x.eof) same;
                dots = ground (arith, ap (λ (x : Globals). x.dot_count) same);
              },
              ap (λ (x : Globals). x.line) same,
            )
      ]

  read_data_record-Loaded :
      (r : Record) (g : Globals) (m : Machine) {g' : Globals} {m' : Machine}
      → g.dot_count < dots_per_line
      → read_data_record vsnprintf r g m ≡ done g' m'
      → Loaded (copied r.address r.bytes) g.eof m g' m' × (g'.line ≡ g.line)
  unfolding read_data_record
  read_data_record-Loaded r g m {g'} {m'} small h =
      let (u0, k, headed, h0) = bind-eq-done (print_address vsnprintf r g m) _ h in
      let (u1, n, copying, h1) = bind-eq-done (copy_bytes r.address r.bytes k) _ h0 in
      let (counted, line_kept) = count_dot-Loaded g n small h1 in
      let before =
        Keeps-done byte_frame.frame (print_address vsnprintf r g) m (print_address-quiet r g)
          headed in
      (
        record {
          memory =
              counted.memory
              ∙ (append-nil (bytes_stored n.trace)
                  ∙ (copy_bytes-copied r.address r.bytes k copying
                      ∙ ap (λ (l : List (ℕ × ℕ)). l ++ copied r.address r.bytes) before));
          ended = counted.ended;
          dots = counted.dots;
        },
        line_kept,
      )

  end_dots-Loaded :
      (g : Globals) (m : Machine) {g' : Globals} {m' : Machine}
      → g.dot_count < dots_per_line
      → end_dots vsnprintf g m ≡ done g' m'
      → Loaded [] g.eof m g' m' × (g'.line ≡ g.line)
  unfolding end_dots
  end_dots-Loaded g m {g'} {m'} small h = elim (Bool-cases (g.dot_count == 0)) [
    | inl none_printed ↦ unchanged g m small (rw none_printed at h)
    | inr some_printed ↦
        let (same, quiet) =
          quiet_print (literal "\n") [] (record g { dot_count = 0 }) m (rw some_printed at h) in
        (
          record {
            memory = quiet ∙ sym (append-nil (bytes_stored m.trace));
            ended = ap (λ (x : Globals). x.eof) same;
            dots = omega (arith, ap (λ (x : Globals). x.dot_count) same);
          },
          ap (λ (x : Globals). x.line) same,
        )
  ]

  read_end_of_file-Loaded :
      (g : Globals) (m : Machine) {g' : Globals} {m' : Machine}
      → g.dot_count < dots_per_line
      → read_end_of_file vsnprintf g m ≡ done g' m'
      → Loaded [] true m g' m' × (g'.line ≡ g.line)
  unfolding read_end_of_file
  read_end_of_file-Loaded g m {g'} {m'} small h =
      let (g0, k, headed, h0) = bind-eq-done (end_dots vsnprintf g m) _ h in
      let (u, n, printed, last) =
        bind-eq-done (printme (literal "EOF") k) (λ _ m. done (record g0 { eof = true }) m) h0 in
      let (ended_dots, line_kept) = end_dots-Loaded g m small headed in
      let quiet =
        Keeps-done byte_frame.frame (printme (literal "EOF")) k
          (printme-Keeps byte_frame (literal "EOF")) printed in
      let same = sym (done-result last) in
      (
        record {
          memory =
              ap (λ (x : Machine). bytes_stored x.trace) (sym (done-machine last))
              ∙ (quiet ∙ ended_dots.memory);
          ended = ap (λ (x : Globals). x.eof) same;
          dots = omega (arith, ap (λ (x : Globals). x.dot_count) same, ended_dots.dots);
        },
        ap (λ (x : Globals). x.line) same ∙ line_kept,
      )

  read_record-Loaded :
      (r : Record) (g : Globals) (m : Machine) {g' : Globals} {m' : Machine}
      → g.dot_count < dots_per_line
      → read_record vsnprintf r g m ≡ done g' m'
      → Loaded (image r) (ends r || g.eof) m g' m' × (g'.line ≡ g.line)
  unfolding read_record
  read_record-Loaded r g m {g'} {m'} small h = go r.type refl
    where
      go :
          (t : RecordType)
          → r.type ≡ t
          → Loaded (image r) (ends r || g.eof) m g' m' × (g'.line ≡ g.line)
      go data_record e = rw e (read_data_record-Loaded r g m small (rw e at h))
      go end_of_file_record e = rw e (read_end_of_file-Loaded g m small (rw e at h))
      go other_record e = rw e (unchanged g m small (rw e at h))

  -- An ihex_data_read that returns, on fewer than 40 dots, has stored the bytes of a data record at
  -- its address and on, or nothing for another record; the checksum was right, one line more is
  -- counted, gEof is set if the record ends the stream, and there are fewer than 40 dots again.
  pub ihex_data_read-Loaded :
      (r : Record) (g : Globals) (m : Machine) {g' : Globals} {m' : Machine}
      → g.dot_count < dots_per_line
      → ihex_data_read vsnprintf r g m ≡ done g' m'
      → Loaded (image r) (ends r || g.eof) m g' m'
        × (r.checksum_error ≡ false)
        × (g'.line ≡ g.line + 1)
  unfolding ihex_data_read
  ihex_data_read-Loaded r g m {g'} {m'} small h =
      let (g0, k, handled, more) = bind-eq-done (read_record vsnprintf r g m) _ h in
      let (loaded, line_kept) = read_record-Loaded r g m small handled in
      elim (Bool-cases r.checksum_error) [
        | inl bad ↦
            let (u, n, printed, stop) =
              bind-eq-done
                (printmef vsnprintf (literal "ihex err: line %d type: %d\n") (g0.line ∷ r.code ∷ [])
                  k)
                (λ _. halt) (rw bad at more) in
            cc
        | inr good ↦
            let last = rw good at more in
            let same = sym (done-result last) in
            (
              record {
                memory =
                    ap (λ (x : Machine). bytes_stored x.trace) (sym (done-machine last))
                    ∙ loaded.memory;
                ended = ap (λ (x : Globals). x.eof) same ∙ loaded.ended;
                dots = omega (arith, ap (λ (x : Globals). x.dot_count) same, loaded.dots);
              },
              good,
              omega (arith, ap (λ (x : Globals). x.line) same, line_kept),
            )
      ]
