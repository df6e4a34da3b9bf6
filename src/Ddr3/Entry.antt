-- ===== src/Ddr3/Entry.antt =====
-- When the DDR3 loader jumps, and what the memory then holds.
use cocoapuffs_fpga.Prelude.{
  false, ℕ, ◌≡◌, refl, sym, ap, ◌∙◌, inl, true, List, [], ◌∷◌, ◌++◌, literal, ◌==◌,
}
use cocoapuffs_fpga.Machine.{Machine, Outcome, pure, load32, store32}
use cocoapuffs_fpga.Machine.Trace.{jumps, bytes_stored}
use cocoapuffs_fpga.Machine.Frame.{final, stage, Keeps, Keeps-bind, Keeps-if}
use cocoapuffs_fpga.Uart.{Vsnprintf, uart_address, buffer_size, printme, printmef, kprintf}
use cocoapuffs_fpga.Uart.Framed.{printme-Keeps, printmef-Keeps, kprintf-Keeps}
use cocoapuffs_fpga.Memtest.{ram_cell, test_one_cell}
use cocoapuffs_fpga.Upload.{KkIhex}
use cocoapuffs_fpga.Upload.Received.{some_ends, all_sound}
use cocoapuffs_fpga.Upload.Stream.{records_of}
use cocoapuffs_fpga.Upload.Taken.{AllWhole, all_handed}
use cocoapuffs_fpga.Uart.Account.{Accounted}
use cocoapuffs_fpga.Uart.Ledger.{Fed, Took-before, keeps_all}
use cocoapuffs_fpga.Upload.Jumps.{
  jump_frame, quiet, load32-quiet, quiet_stage, or_false, Jumped, jump_out,
}
use cocoapuffs_fpga.Ddr3.{ram_start, jumpfn, load_end, load_stream, load_and_jump, ddr3_main}
use cocoapuffs_fpga.Ddr3.Framed.{load_stream-Keeps}
use cocoapuffs_fpga.Ddr3.Stream.{shifted_images, load_stream-Filled}

store32-quiet : (a v : ℕ) → Keeps quiet.frame (store32 a v)
unfolding store32
store32-quiet a v m =
    (refl, refl, λ gone l. keeps_all gone (record { valid = l.valid; all = l.all }))

module _ (vsnprintf : Vsnprintf) where
  pub test_one_cell-quiet :
      (v cell : ℕ)
      → (ram_cell cell == uart_address) ≡ false
      → Keeps quiet.frame (test_one_cell vsnprintf v cell)
  unfolding test_one_cell
  test_one_cell-quiet v cell other =
      Keeps-bind quiet.frame (store32 (ram_cell cell) v) _ (store32-quiet (ram_cell cell) v) λ _.
        Keeps-bind quiet.frame (load32 (ram_cell cell)) _ (load32-quiet (ram_cell cell) other)
          λ actual. Keeps-if quiet.frame (actual == v) (pure true) _ quiet.frame.same (
            Keeps-bind quiet.frame (printmef vsnprintf _ _) _ (printmef-Keeps quiet vsnprintf _ _)
              λ _. quiet.frame.same)

  module _ (kk : KkIhex) where
    abbrev pub Entered : List ℕ → Machine → Outcome (Unit {0}) → Type 0
    Entered = Jumped vsnprintf kk jumpfn shifted_images

    -- What follows the stream.
    after_stream :
        (gone : List ℕ) (m k : Machine) (lines : List (List ℕ)) (bytes : List ℕ)
        → Accounted (gone ++ bytes) k
        → Fed lines bytes
        → AllWhole lines
        → jumps k.trace ≡ jumps m.trace
        → some_ends (records_of vsnprintf kk (all_handed lines)) ≡ true
        → all_sound (records_of vsnprintf kk (all_handed lines)) ≡ true
        → bytes_stored k.trace
          ≡ bytes_stored m.trace ++ shifted_images (records_of vsnprintf kk (all_handed lines))
        → Entered gone m (load_end vsnprintf kk k)
    unfolding load_end
    after_stream gone m k lines bytes ledger fed whole j over sound memory =
        let still : (o : Outcome (Unit {0})) → quiet.frame.Rel k (final o) → Entered gone m o =
          λ o q. inl (q.0 ∙ j) in
        quiet_stage (Entered gone m) k (printme (literal "u")) _ k still
          (printme-Keeps quiet (literal "u")) (quiet.frame.same k)
          λ _ m1 q1.
            quiet_stage (Entered gone m) k (load32 ram_start) _ m1 still
              (load32-quiet ram_start refl) q1
              λ begin m2 q2.
                quiet_stage (Entered gone m) k (printme (literal "t")) _ m2 still
                  (printme-Keeps quiet (literal "t")) q2
                  λ _ m3 q3.
                    quiet_stage (Entered gone m) k (kprintf vsnprintf _ (begin ∷ [])) _ m3 still
                      (kprintf-Keeps quiet vsnprintf _ (begin ∷ [])) q3
                      λ _ m4 q4.
                        quiet_stage (Entered gone m) k (kprintf vsnprintf _ (ram_start ∷ [])) _ m4
                          still (kprintf-Keeps quiet vsnprintf _ (ram_start ∷ [])) q4
                          λ _ m5 q5.
                            quiet_stage (Entered gone m) k (kprintf vsnprintf _ (jumpfn ∷ [])) _ m5
                              still (kprintf-Keeps quiet vsnprintf _ (jumpfn ∷ [])) q5
                              λ _ m6 q6.
                                let (lost, l, ledger6) = q6.2 (gone ++ bytes) ledger in
                                jump_out vsnprintf kk jumpfn shifted_images (literal "completed")
                                  gone m m6 lines bytes lost ledger6 fed whole (q6.0 ∙ j) over sound
                                  (q6.1 ∙ memory)

    pub load_and_jump-Entered :
        (gone : List ℕ) (m k : Machine)
        → Accounted gone m
        → quiet.frame.Rel m k
        → Entered gone m (load_and_jump vsnprintf kk k)
    unfolding load_and_jump
    load_and_jump-Entered gone m k ledger before =
        quiet_stage (Entered gone m) m (printme (literal "ihex:")) _ k (λ o q. inl q.0)
          (printme-Keeps quiet (literal "ihex:")) before
          λ _ m0 q0.
            quiet_stage (Entered gone m) m
              (printmef vsnprintf (literal "buf: %d") (buffer_size ∷ [])) _ m0 (λ o q. inl q.0)
              (printmef-Keeps quiet vsnprintf _ _) q0
              λ _ m1 q1.
                stage jump_frame.port.frame (Entered gone m) m (load_stream vsnprintf kk) _ m1
                  (λ o q. inl q) (load_stream-Keeps jump_frame vsnprintf kk tt) q1.0
                  λ eof m2 ran j2.
                    let (lines, whole, took, filled, over) =
                      load_stream-Filled vsnprintf kk m1 ran in
                    let (bytes, fed, ledger2) = Took-before q1.2 took gone ledger in
                    let records = records_of vsnprintf kk (all_handed lines) in
                    after_stream gone m m2 lines bytes ledger2 fed whole j2
                      (sym (or_false (some_ends records)) ∙ (sym filled.ended ∙ over)) filled.sound
                      (filled.memory ∙ ap (λ (l : List (ℕ × ℕ)). l ++ shifted_images records) q1.1)

    pub ddr3_main-Entered :
        (gone : List ℕ) (m : Machine) → Accounted gone m → Entered gone m (ddr3_main vsnprintf kk m)
    unfolding ddr3_main
    ddr3_main-Entered gone m ledger =
        quiet_stage (Entered gone m) m (test_one_cell vsnprintf 0x1111_1111 0) _ m (λ o q. inl q.0)
          (test_one_cell-quiet 0x1111_1111 0 refl) (quiet.frame.same m)
          λ _ m0 q0.
            quiet_stage (Entered gone m) m (printme (literal ">-< memtest")) _ m0 (λ o q. inl q.0)
              (printme-Keeps quiet (literal ">-< memtest")) q0
              λ _ m1 q1. load_and_jump-Entered gone m m1 ledger q1
