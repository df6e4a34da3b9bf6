-- ===== src/Muntjac/Entry.antt =====
-- The two loaders that jump into the DDR3 memory, and the bits of perinput.
use cocoapuffs_fpga.Prelude.{ℕ, List, refl, inl, ◌∷◌, [], literal}
use cocoapuffs_fpga.Machine.{Machine, load32}
use cocoapuffs_fpga.Machine.Frame.{Keeps, Keeps-bind}
use cocoapuffs_fpga.Uart.{Vsnprintf, printme, kprintf}
use cocoapuffs_fpga.Uart.Framed.{printme-Keeps, kprintf-Keeps}
use cocoapuffs_fpga.Memtest.{test_one_cell}
use cocoapuffs_fpga.Upload.{KkIhex, ddr3exec_main}
use cocoapuffs_fpga.Ddr3.{ddr3_main}
use cocoapuffs_fpga.Ddr3.Entry.{
  test_one_cell-quiet, Entered, load_and_jump-Entered, ddr3_main-Entered,
}
use cocoapuffs_fpga.Uart.Account.{Accounted}
use cocoapuffs_fpga.Upload.Jumps.{quiet, load32-quiet, quiet_stage}
use cocoapuffs_fpga.Upload.Exec.{Started, ddr3exec_main-Started}
use cocoapuffs_fpga.Muntjac.{read_reg, read_mem_a_valid, muntjac_main}

read_mem_a_valid-quiet : Keeps quiet.frame read_mem_a_valid
unfolding read_mem_a_valid read_reg
read_mem_a_valid-quiet =
    Keeps-bind quiet.frame (load32 0x4000_0060) _ (load32-quiet 0x4000_0060 refl)
      λ v. quiet.frame.same

-- Whatever the port and the stream do, rv32_ddr3exec and the loaders of bin/rv32_ddr3 and bin/muntjac
-- jump at most once, to the start of the memory or, the latter two, to 0x80000004. If they jump, what
-- the port had handed over, after `gone`, began with some whole lines in their order, with nothing
-- between them but bytes that the ring lost, 256 at a time. The decoder was given exactly these
-- lines, each up to its first NUL; their records, with those for the end of the reading, end the
-- stream and have the right checksums; and the bytes stored are the bytes of these records, at their
-- addresses, for the latter two above the start of the memory, in their order, and nothing else.
-- `gone` is what the program had taken, or lost, of what was received before.
pub loaders_jump :
    (vsnprintf : Vsnprintf) (kk : KkIhex) (gone : List ℕ) (m : Machine)
    → Accounted gone m
    → Started vsnprintf kk gone m (ddr3exec_main vsnprintf kk m)
      × Entered vsnprintf kk gone m (ddr3_main vsnprintf kk m)
      × Entered vsnprintf kk gone m (muntjac_main vsnprintf kk m)
unfolding muntjac_main
loaders_jump vsnprintf kk gone m ledger = (
  ddr3exec_main-Started vsnprintf kk gone m ledger,
  ddr3_main-Entered vsnprintf kk gone m ledger,
  quiet_stage (Entered vsnprintf kk gone m) m (test_one_cell vsnprintf 0x1111_1111 0) _ m
      (λ o q. inl q.0) (test_one_cell-quiet vsnprintf 0x1111_1111 0 refl) (quiet.frame.same m)
      λ _ m0 q0.
        quiet_stage (Entered vsnprintf kk gone m) m (printme (literal ">-< memtest")) _ m0
          (λ o q. inl q.0) (printme-Keeps quiet (literal ">-< memtest")) q0
          λ _ m1 q1.
            quiet_stage (Entered vsnprintf kk gone m) m read_mem_a_valid _ m1 (λ o q. inl q.0)
              read_mem_a_valid-quiet q1
              λ valid m2 q2.
                quiet_stage (Entered vsnprintf kk gone m) m (kprintf vsnprintf _ (valid ∷ [])) _ m2
                  (λ o q. inl q.0) (kprintf-Keeps quiet vsnprintf _ (valid ∷ [])) q2
                  λ _ m3 q3. load_and_jump-Entered vsnprintf kk gone m m3 ledger q3,
)
