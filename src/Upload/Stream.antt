-- ===== src/Upload/Stream.antt =====
-- What a completed upload has put into the memory.
use cocoapuffs_fpga.Prelude.{
  ℕ, zero, suc, ◌<◌, ◌≡◌, refl, sym, subst, ap, ◌∙◌, inl, inr, Bool, true, false, List, [], ◌∷◌,
  ◌++◌, arith, length, if◌then◌else◌, Bool-cases,
}
use cocoapuffs_fpga.Machine.{Machine, done, bind, bind-eq-done, done-machine, done-result}
use cocoapuffs_fpga.Machine.Frame.{Keeps-done}
use cocoapuffs_fpga.Uart.{Vsnprintf, uart_putchar}
use cocoapuffs_fpga.Uart.Framed.{uart_putchar-Keeps}
use cocoapuffs_fpga.Ihex.{Record, Globals, dots_per_line}
use cocoapuffs_fpga.Ihex.Loaded.{byte_frame}
use cocoapuffs_fpga.Upload.{KkIhex, xon, callbacks, receive_line, receive_lines, upload}
use cocoapuffs_fpga.Upload.Received.{Received, Received-trans, Received-nil, Received-quiet}
use cocoapuffs_fpga.Uart.Account.{Accounted}
use cocoapuffs_fpga.Uart.Ledger.{Loses, Loses-trans, Loses-Took, Took, Fed, loss_port}
use cocoapuffs_fpga.Upload.Framed.{callbacks-Keeps}
use cocoapuffs_fpga.Upload.Taken.{AllWhole, all_handed, loss_loader, Took1-Took}
use cocoapuffs_fpga.Upload.OneLine.{callbacks-Received, receive_line-Received}

module _ (vsnprintf : Vsnprintf) (kk : KkIhex) where
  open kk use {State, begin_read, read_bytes, end_read}

  -- The records of several lines, and the decoder after them.
  abbrev pub decode : State → List (List ℕ) → List Record × State
  decode s [] = ([], s)
  decode s (l ∷ ls) =
      let (rs, s') = read_bytes s l in let (qs, s'') = decode s' ls in (rs ++ qs, s'')

  -- What the library calls back for some lines and the end of the reading.
  abbrev pub records_of : List (List ℕ) → List Record
  records_of lines = (decode begin_read lines).0 ++ end_read (decode begin_read lines).1

  pub receive_lines_step :
      (n : ℕ) (first_pass : Bool) (s : State) (g : Globals) (m : Machine)
      → receive_lines vsnprintf kk (suc n) first_pass s g m ≡ (
          if g.eof
          then done (s, g) m
          else bind
              (receive_line vsnprintf kk first_pass s g m)
              λ x. receive_lines vsnprintf kk n false x.0 x.1)
  unfolding receive_lines
  receive_lines_step n first_pass s g m = refl

  pub receive_lines_over :
      (n : ℕ) (first_pass : Bool) (s : State) (g : Globals) (m : Machine)
      → g.eof ≡ true
      → receive_lines vsnprintf kk (suc n) first_pass s g m ≡ done (s, g) m
  receive_lines_over n first_pass s g m e =
      receive_lines_step n first_pass s g m
      ∙ ap
          (λ b.
            if b
            then done (s, g) m
            else bind (receive_line vsnprintf kk first_pass s g m)
                λ x. receive_lines vsnprintf kk n false x.0 x.1)
          e

  pub receive_lines_more :
      (n : ℕ) (first_pass : Bool) (s : State) (g : Globals) (m : Machine)
      → g.eof ≡ false
      → receive_lines vsnprintf kk (suc n) first_pass s g m
        ≡ bind
            (receive_line vsnprintf kk first_pass s g m)
            λ x. receive_lines vsnprintf kk n false x.0 x.1
  receive_lines_more n first_pass s g m e =
      receive_lines_step n first_pass s g m
      ∙ ap
          (λ b.
            if b
            then done (s, g) m
            else bind (receive_line vsnprintf kk first_pass s g m)
                λ x. receive_lines vsnprintf kk n false x.0 x.1)
          e

  receive_lines-Received :
      (n : ℕ) (first_pass : Bool) (s : State) (g : Globals) (m : Machine) {x : State × Globals}
      {m' : Machine}
      → g.dot_count < dots_per_line
      → receive_lines vsnprintf kk n first_pass s g m ≡ done x m'
      → (lines : List (List ℕ)) × AllWhole lines
        × (x.0 ≡ (decode s (all_handed lines)).1)
        × Received (decode s (all_handed lines)).0 g m x.1 m'
        × (x.1.eof ≡ true)
        × ((o : Machine) → Loses m' o → Took lines m o)
  unfolding receive_lines
  receive_lines-Received zero first_pass s g m small h = cc
  receive_lines-Received (suc n) first_pass s g m {x} {m'} small h = elim (Bool-cases g.eof) [
    | inl over ↦
        let last = sym (receive_lines_over n first_pass s g m over) ∙ h in
        let same = done-result last in
        (
          [],
          tt,
          ap (λ (y : State × Globals). y.0) (sym same),
          subst (λ (y : State × Globals). Received [] g m y.1 m') same
              (subst (Received [] g m g) (done-machine last) (Received-nil g m small)),
          ap (λ (y : State × Globals). y.1.eof) (sym same) ∙ over,
          λ o after. Loses-Took (subst (λ n. Loses n o) (sym (done-machine last)) after),
        )
    | inr open_stream ↦
        let (y, k, one, more) =
          bind-eq-done (receive_line vsnprintf kk first_pass s g m) _
            (sym (receive_lines_more n first_pass s g m open_stream) ∙ h) in
        let (line, good, took, next, received) =
          receive_line-Received vsnprintf kk first_pass s g m small one in
        let (lines, all_good, end, rest, over, tooks) =
          receive_lines-Received n false y.0 y.1 k received.loaded.dots more in
        (
          line ∷ lines,
          (good, all_good),
          end ∙ ap (λ s'. (decode s' (all_handed lines)).1) next,
          Received-trans received
              (subst (λ s'. Received (decode s' (all_handed lines)).0 y.1 k x.1 m') next rest),
          over,
          λ o after. Took1-Took took (tooks o after),
        )
  ]

  pub upload-Took :
      (g : Globals) (m : Machine) {g' : Globals} {m' : Machine}
      → g.dot_count < dots_per_line
      → upload vsnprintf kk g m ≡ done g' m'
      → (lines : List (List ℕ)) × AllWhole lines
        × Took lines m m'
        × Received (records_of (all_handed lines)) (record g { eof = false }) m g' m'
        × (g'.eof ≡ true)
  unfolding upload
  upload-Took g m {g'} {m'} small h =
      let (x, k, received, h0) =
        bind-eq-done
          (receive_lines vsnprintf kk (suc (length m.script)) true begin_read
            (record g { eof = false }) m)
          _ h in
      let (g0, n, called, h1) = bind-eq-done (callbacks vsnprintf kk (end_read x.0) x.1 k) _ h0 in
      let (u, o, sent, last) = bind-eq-done (uart_putchar xon n) (λ _ m. done g0 m) h1 in
      let (lines, all_good, end, first, over, tooks) =
        receive_lines-Received (suc (length m.script)) true begin_read (record g { eof = false }) m
          small received in
      let second = callbacks-Received vsnprintf kk (end_read x.0) x.1 k first.loaded.dots called in
      let quiet =
        Keeps-done byte_frame.frame (uart_putchar xon) n (uart_putchar-Keeps byte_frame xon) sent in
      let whole =
        Received-quiet refl
          (Received-trans first (subst (λ s. Received (end_read s) x.1 k g0 n) end second)) quiet in
      let same = done-result last in
      let later : Loses k m' =
        Loses-trans
          (Keeps-done loss_port.frame (callbacks vsnprintf kk (end_read x.0) x.1) k
            (callbacks-Keeps loss_loader vsnprintf kk (end_read x.0) x.1) called)
          (subst (Loses n) (done-machine last) (
            Keeps-done loss_port.frame (uart_putchar xon) n (uart_putchar-Keeps loss_port xon)
              sent)) in
      (
        lines,
        all_good,
        tooks m' later,
        subst
            (λ (y : Globals).
              Received (records_of (all_handed lines)) (record g { eof = false }) m y m')
            same
            (subst (Received (records_of (all_handed lines)) (record g { eof = false }) m g0)
              (done-machine last) whole),
        ap (λ (y : Globals). y.eof) (sym same) ∙ (second.loaded.ended ∙ ground (arith, over)),
      )

  -- An upload that returns, on fewer than 40 dots, has seen the end of the stream. What the port has
  -- handed over during it is some whole lines, of at most 255 bytes with their ends, in their order
  -- and with nothing between them but bytes that the ring lost, 256 at a time when it was full. The
  -- decoder was given exactly these lines, each up to its first NUL; the records of them, and those
  -- for the end of the reading, were all handled and had the right checksums, and what was stored in
  -- bytes is the bytes of these records, at their addresses and in their order, and nothing else.
  -- `gone` is what the program had taken, or lost, of what was received before.
  pub upload-Received :
      (g : Globals) (gone : List ℕ) (m : Machine) {g' : Globals} {m' : Machine}
      → g.dot_count < dots_per_line
      → Accounted gone m
      → upload vsnprintf kk g m ≡ done g' m'
      → (lines : List (List ℕ)) × (bytes : List ℕ) × AllWhole lines
        × Fed lines bytes
        × Accounted (gone ++ bytes) m'
        × Received (records_of (all_handed lines)) (record g { eof = false }) m g' m'
        × (g'.eof ≡ true)
  upload-Received g gone m small before h =
      let (lines, good, took, received, over) = upload-Took g m small h in
      let (bytes, fed, after) = took gone before in (lines, bytes, good, fed, after, received, over)
