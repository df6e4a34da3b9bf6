-- ===== src/Upload/Exec.antt =====
-- When rv32_ddr3exec jumps into what it has received.
use cocoapuffs_fpga.Prelude.{
  ℕ, ◌≡◌, refl, sym, ap, ◌∙◌, inl, true, List, ◌∷◌, [], ◌++◌, arith, literal,
}
use cocoapuffs_fpga.Machine.{Machine, Outcome, load32}
use cocoapuffs_fpga.Machine.Trace.{jumps, bytes_stored}
use cocoapuffs_fpga.Machine.Frame.{final, stage}
use cocoapuffs_fpga.Uart.{Vsnprintf, printme, kprintf}
use cocoapuffs_fpga.Uart.Framed.{printme-Keeps, kprintf-Keeps}
use cocoapuffs_fpga.Upload.{
  KkIhex, mem_start_ptr, start_globals, upload, ddr3exec_end, ddr3exec_main,
}
use cocoapuffs_fpga.Upload.Framed.{upload-Keeps}
use cocoapuffs_fpga.Upload.Received.{images, some_ends, all_sound}
use cocoapuffs_fpga.Upload.Stream.{records_of, upload-Took}
use cocoapuffs_fpga.Upload.Taken.{AllWhole, all_handed}
use cocoapuffs_fpga.Uart.Account.{Accounted}
use cocoapuffs_fpga.Uart.Ledger.{Fed, Took-before}
use cocoapuffs_fpga.Upload.Jumps.{
  jump_frame, quiet, load32-quiet, quiet_stage, or_false, Jumped, jump_out,
}

module _ (vsnprintf : Vsnprintf) (kk : KkIhex) where
  abbrev pub Started : List ℕ → Machine → Outcome (Unit {0}) → Type 0
  Started = Jumped vsnprintf kk mem_start_ptr images

  after_upload :
      (gone : List ℕ) (m k : Machine) (lines : List (List ℕ)) (bytes : List ℕ)
      → Accounted (gone ++ bytes) k
      → Fed lines bytes
      → AllWhole lines
      → jumps k.trace ≡ jumps m.trace
      → some_ends (records_of vsnprintf kk (all_handed lines)) ≡ true
      → all_sound (records_of vsnprintf kk (all_handed lines)) ≡ true
      → bytes_stored k.trace
        ≡ bytes_stored m.trace ++ images (records_of vsnprintf kk (all_handed lines))
      → Started gone m (ddr3exec_end vsnprintf kk k)
  unfolding ddr3exec_end
  after_upload gone m k lines bytes ledger fed whole j over sound memory =
      let still : (o : Outcome (Unit {0})) → quiet.frame.Rel k (final o) → Started gone m o =
        λ o q. inl (q.0 ∙ j) in
      quiet_stage (Started gone m) k (load32 mem_start_ptr) _ k still
        (load32-quiet mem_start_ptr refl) (quiet.frame.same k)
        λ begin m1 q1.
          quiet_stage (Started gone m) k (kprintf vsnprintf _ (begin ∷ [])) _ m1 still
            (kprintf-Keeps quiet vsnprintf _ (begin ∷ [])) q1
            λ _ m2 q2.
              quiet_stage (Started gone m) k (kprintf vsnprintf _ (mem_start_ptr ∷ [])) _ m2 still
                (kprintf-Keeps quiet vsnprintf _ (mem_start_ptr ∷ [])) q2
                λ _ m3 q3.
                  quiet_stage (Started gone m) k (kprintf vsnprintf _ (mem_start_ptr ∷ [])) _ m3
                    still (kprintf-Keeps quiet vsnprintf _ (mem_start_ptr ∷ [])) q3
                    λ _ m4 q4.
                      let (lost, l, ledger4) = q4.2 (gone ++ bytes) ledger in
                      jump_out vsnprintf kk mem_start_ptr images (literal "halt.") gone m m4 lines
                        bytes lost ledger4 fed whole (q4.0 ∙ j) over sound (q4.1 ∙ memory)

  pub ddr3exec_main-Started :
      (gone : List ℕ) (m : Machine)
      → Accounted gone m
      → Started gone m (ddr3exec_main vsnprintf kk m)
  unfolding ddr3exec_main
  ddr3exec_main-Started gone m ledger =
      quiet_stage (Started gone m) m (printme (literal "ihex:")) _ m (λ o q. inl q.0)
        (printme-Keeps quiet (literal "ihex:")) (quiet.frame.same m)
        λ _ m0 q0.
          stage jump_frame.port.frame (Started gone m) m (upload vsnprintf kk start_globals) _ m0
            (λ o q. inl q) (upload-Keeps jump_frame vsnprintf kk tt start_globals) q0.0
            λ g m1 ran j1.
              let (lines, whole, took, received, over) =
                upload-Took vsnprintf kk start_globals m0 (omega arith) ran in
              let (bytes, fed, ledger1) = Took-before q0.2 took gone ledger in
              let records = records_of vsnprintf kk (all_handed lines) in
              after_upload gone m m1 lines bytes ledger1 fed whole j1
                (sym (or_false (some_ends records)) ∙ (sym received.loaded.ended ∙ over))
                received.sound
                (received.loaded.memory ∙ ap (λ (l : List (ℕ × ℕ)). l ++ images records) q0.1)
