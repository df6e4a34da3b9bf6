-- ===== src/Ddr3/Stream.antt =====
-- What the DDR3 loader has put into the memory when the stream has ended.
use cocoapuffs_fpga.Prelude.{
  ℕ, zero, suc, ◌≡◌, refl, sym, subst, ap, ◌∙◌, Bool, true, false, ◌||◌, List, [], ◌∷◌, ◌++◌,
  append-nil, append_assoc, arith, if◌then◌else◌, literal,
}
use cocoapuffs_fpga.Machine.{Machine, done, halt, bind, bind-eq-done, done-machine, done-result}
use cocoapuffs_fpga.Machine.Trace.{bytes_stored}
use cocoapuffs_fpga.Machine.Frame.{Keeps-done}
use cocoapuffs_fpga.Uart.{Vsnprintf, buffer_size, uart_getline, printme}
use cocoapuffs_fpga.Uart.Framed.{uart_getline-Keeps}
use cocoapuffs_fpga.Ihex.{Record}
use cocoapuffs_fpga.Ihex.Loaded.{byte_frame}
use cocoapuffs_fpga.Upload.{KkIhex, before_nul}
use cocoapuffs_fpga.Upload.Received.{
  some_ends, all_sound, some_ends-append, all_sound-append, or_swap,
}
use cocoapuffs_fpga.Upload.Stream.{decode, records_of}
use cocoapuffs_fpga.Upload.Taken.{
  IsWhole, AllWhole, handed, all_handed, loss_loader, Took1, Took1-Took, getline-IsWhole,
}
use cocoapuffs_fpga.Uart.Ledger.{Loses, Loses-Took, Took, loss_port}
use cocoapuffs_fpga.Ddr3.Framed.{use_line-Keeps, handle_records-Keeps}
use cocoapuffs_fpga.Ddr3.{
  ihex_data_read, budget, handle_records, use_line, load_line, load_lines, load_stream,
}
use cocoapuffs_fpga.Ddr3.Sound.{shifted_image, ihex_data_read-stored}

-- The bytes of several records, each with its address relative to the start of the memory.
abbrev pub shifted_images : List Record → List (ℕ × ℕ)
shifted_images [] = []
shifted_images (r ∷ rs) = shifted_image r ++ shifted_images rs

pub shifted_images-append :
    (rs qs : List Record) → shifted_images (rs ++ qs) ≡ shifted_images rs ++ shifted_images qs
shifted_images-append [] qs = refl
shifted_images-append (r ∷ rs) qs =
    ap (λ l. shifted_image r ++ l) (shifted_images-append rs qs)
    ∙ sym (append_assoc (shifted_image r) (shifted_images rs) (shifted_images qs))

-- From `m` to `m'` the records `rs` were handled, all of them with the right checksum.
pub record Filled (rs : List Record) (eof : Bool) (m : Machine) (eof' : Bool) (m' : Machine)
    : Type 0 where
  pub memory : bytes_stored m'.trace ≡ bytes_stored m.trace ++ shifted_images rs
  pub ended : eof' ≡ (some_ends rs || eof)
  pub sound : all_sound rs ≡ true

Filled-nil :
    (eof : Bool) (m : Machine) {eof' : Bool} {m' : Machine}
    → done eof m ≡ done eof' m'
    → Filled [] eof m eof' m'
Filled-nil eof m h = record {
  memory =
      ap (λ (x : Machine). bytes_stored x.trace) (sym (done-machine h))
      ∙ sym (append-nil (bytes_stored m.trace));
  ended = sym (done-result h);
  sound = refl;
}

Filled-trans :
    {rs qs : List Record} {e0 e1 e2 : Bool} {m n o : Machine}
    → Filled rs e0 m e1 n
    → Filled qs e1 n e2 o
    → Filled (rs ++ qs) e0 m e2 o
Filled-trans {rs} {qs} {e0} {e1} {e2} {m} p q = record {
  memory =
      q.memory
      ∙ (ap (λ (l : List (ℕ × ℕ)). l ++ shifted_images qs) p.memory
          ∙ (append_assoc (bytes_stored m.trace) (shifted_images rs) (shifted_images qs)
              ∙ ap (λ (l : List (ℕ × ℕ)). bytes_stored m.trace ++ l)
                  (sym (shifted_images-append rs qs))));
  ended =
      q.ended
      ∙ (ap (λ b. some_ends qs || b) p.ended
          ∙ (or_swap (some_ends rs) (some_ends qs) e0
              ∙ ap (λ b. b || e0) (sym (some_ends-append rs qs))));
  sound = all_sound-append rs qs p.sound q.sound;
}

module _ (vsnprintf : Vsnprintf) (kk : KkIhex) where
  open kk use {State, begin_read, read_bytes, end_read}

  pub handle_records-Filled :
      (rs : List Record) (eof : Bool) (m : Machine) {eof' : Bool} {m' : Machine}
      → handle_records vsnprintf kk rs eof m ≡ done eof' m'
      → Filled rs eof m eof' m'
  unfolding handle_records
  handle_records-Filled [] eof m h = Filled-nil eof m h
  handle_records-Filled (r ∷ rs) eof m h =
      let (e0, k, first, more) = bind-eq-done (ihex_data_read vsnprintf r eof m) _ h in
      let (good, stored, over) = ihex_data_read-stored vsnprintf r eof m first in
      let one : Filled (r ∷ []) eof m e0 k = record {
        memory =
            stored
            ∙ ap (λ (l : List (ℕ × ℕ)). bytes_stored m.trace ++ l)
                (sym (append-nil (shifted_image r)));
        ended = over ∙ or_swap _ false eof;
        sound = rw good;
      } in
      Filled-trans one (handle_records-Filled rs e0 k more)

  use_line-Filled :
      (ok : Bool) (buf : List ℕ) (s : State) (eof : Bool) (m : Machine) {x : State × Bool}
      {m' : Machine}
      → use_line vsnprintf kk ok buf s eof m ≡ done x m'
      → (x.0 ≡ (read_bytes s (before_nul buf)).1)
        × Filled (read_bytes s (before_nul buf)).0 eof m x.1 m'
  unfolding use_line
  use_line-Filled false buf s eof m h =
      let (u, k, printed, stop) = bind-eq-done (printme (literal "1 err") m) (λ _. halt) h in cc
  use_line-Filled true buf s eof m {x} {m'} h =
      let (e0, k, called, last) =
        bind-eq-done (handle_records vsnprintf kk (read_bytes s (before_nul buf)).0 eof m) _ h in
      let filled = handle_records-Filled (read_bytes s (before_nul buf)).0 eof m called in
      let same = done-result last in
      (
        ap (λ (y : State × Bool). y.0) (sym same),
        subst (λ (y : State × Bool). Filled (read_bytes s (before_nul buf)).0 eof m y.1 m') same
            (subst (Filled (read_bytes s (before_nul buf)).0 eof m e0) (done-machine last) filled),
      )

  use_line_ok :
      (ok : Bool) (buf : List ℕ) (s : State) (eof : Bool) (m : Machine) {x : State × Bool}
      {m' : Machine}
      → use_line vsnprintf kk ok buf s eof m ≡ done x m'
      → ok ≡ true
  unfolding use_line
  use_line_ok false buf s eof m h =
      let (u, k, printed, stop) = bind-eq-done (printme (literal "1 err") m) (λ _. halt) h in cc
  use_line_ok true buf s eof m h = refl

  load_line-Filled :
      (s : State) (eof : Bool) (m : Machine) {x : State × Bool} {m' : Machine}
      → load_line vsnprintf kk s eof m ≡ done x m'
      → (line : List ℕ) × IsWhole line
        × Took1 line m m'
        × (x.0 ≡ (read_bytes s (handed line)).1)
        × Filled (read_bytes s (handed line)).0 eof m x.1 m'
  unfolding load_line
  load_line-Filled s eof m {x} {m'} h =
      let (l, n, got, more) = bind-eq-done (uart_getline buffer_size m) _ h in
      let (line, good, stored, listened) =
        getline-IsWhole m got (use_line_ok l.0 l.1 s eof n more) in
      let (next, filled) =
        subst
          (λ buf.
            (x.0 ≡ (read_bytes s (before_nul buf)).1)
            × Filled (read_bytes s (before_nul buf)).0 eof n x.1 m')
          stored (use_line-Filled l.0 l.1 s eof n more) in
      let quiet =
        Keeps-done byte_frame.frame (uart_getline buffer_size) m
          (uart_getline-Keeps byte_frame tt buffer_size) got in
      (
        line,
        good,
        record {
          start = m;
          stop = n;
          before = loss_port.frame.same m;
          takes = listened;
          after =
              Keeps-done loss_port.frame (use_line vsnprintf kk l.0 l.1 s eof) n
                (use_line-Keeps loss_loader vsnprintf kk l.0 l.1 s eof) more;
        },
        next,
        record {
          memory =
              filled.memory
              ∙ ap (λ (t : List (ℕ × ℕ)). t ++ shifted_images (read_bytes s (handed line)).0) quiet;
          ended = filled.ended;
          sound = filled.sound;
        },
      )

  pub load_lines_step :
      (n : ℕ) (s : State) (eof : Bool) (m : Machine)
      → load_lines vsnprintf kk (suc n) s eof m ≡ (
          if eof
          then done (s, eof) m
          else bind (load_line vsnprintf kk s eof m) λ x. load_lines vsnprintf kk n x.0 x.1)
  unfolding load_lines
  load_lines_step n s eof m = refl

  load_lines-Filled :
      (n : ℕ) (s : State) (eof : Bool) (m : Machine) {x : State × Bool} {m' : Machine}
      → load_lines vsnprintf kk n s eof m ≡ done x m'
      → (lines : List (List ℕ)) × AllWhole lines
        × (x.0 ≡ (decode vsnprintf kk s (all_handed lines)).1)
        × Filled (decode vsnprintf kk s (all_handed lines)).0 eof m x.1 m'
        × (x.1 ≡ true)
        × ((o : Machine) → Loses m' o → Took lines m o)
  unfolding load_lines
  load_lines-Filled zero s eof m h = cc
  load_lines-Filled (suc n) s true m {x} {m'} h =
      let last = sym (load_lines_step n s true m) ∙ h in
      let same = done-result last in
      (
        [],
        tt,
        ap (λ (y : State × Bool). y.0) (sym same),
        subst (λ (y : State × Bool). Filled [] true m y.1 m') same
            (Filled-nil true m (ap (done true) (done-machine last))),
        ap (λ (y : State × Bool). y.1) (sym same),
        λ o after. Loses-Took (subst (λ n. Loses n o) (sym (done-machine last)) after),
      )
  load_lines-Filled (suc n) s false m {x} {m'} h =
      let (y, k, one, more) =
        bind-eq-done (load_line vsnprintf kk s false m) _ (sym (load_lines_step n s false m) ∙ h) in
      let (line, good, took, next, filled) = load_line-Filled s false m one in
      let (lines, all_good, end, rest, over, tooks) = load_lines-Filled n y.0 y.1 k more in
      (
        line ∷ lines,
        (good, all_good),
        end ∙ ap (λ s'. (decode vsnprintf kk s' (all_handed lines)).1) next,
        Filled-trans filled (
            subst (λ s'. Filled (decode vsnprintf kk s' (all_handed lines)).0 y.1 k x.1 m') next
              rest),
        over,
        λ o after. Took1-Took took (tooks o after),
      )

  -- A load_stream that returns has seen the end of the stream: it took some whole lines from the
  -- port, the records of these were all handled and had the right checksums, and what was stored is
  -- the bytes of the records, at their addresses above the start of the memory and in their order.
  pub load_stream-Filled :
      (m : Machine) {eof' : Bool} {m' : Machine}
      → load_stream vsnprintf kk m ≡ done eof' m'
      → (lines : List (List ℕ)) × AllWhole lines
        × Took lines m m'
        × Filled (records_of vsnprintf kk (all_handed lines)) false m eof' m'
        × (eof' ≡ true)
  unfolding load_stream
  load_stream-Filled m {eof'} {m'} h =
      let (x, k, received, called) =
        bind-eq-done (load_lines vsnprintf kk (suc (budget m)) begin_read false m) _ h in
      let (lines, good, end, first, over, tooks) =
        load_lines-Filled (suc (budget m)) begin_read false m received in
      let second = handle_records-Filled (end_read x.0) x.1 k called in
      (
        lines,
        good,
        tooks m' (
            Keeps-done loss_port.frame (handle_records vsnprintf kk (end_read x.0) x.1) k
              (handle_records-Keeps loss_loader vsnprintf kk (end_read x.0) x.1) called),
        Filled-trans first (subst (λ s. Filled (end_read s) x.1 k eof' m') end second),
        second.ended ∙ ground (arith, over),
      )
