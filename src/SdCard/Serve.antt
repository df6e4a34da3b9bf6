-- ===== src/SdCard/Serve.antt =====
-- ReadBlock with a card that is never busy and answers at once.
use cocoapuffs_fpga.Prelude.{
  ℕ, suc, ◌%◌, ◌/◌, ◌^◌, ◌≡◌, subst, refl, ap, ◌∙◌, bit_and, bit_or, true, List, [], ◌∷◌, arith,
  length, ltb,
}
use cocoapuffs_fpga.Prelude.Bits.{bit_and_low_byte}
use cocoapuffs_fpga.Prelude.Int.{pos}
use cocoapuffs_fpga.Machine.{M, ◌>>◌, Machine, load, store, done, bind, store32}
use cocoapuffs_fpga.Machine.Trace.{load32_lem}
use cocoapuffs_fpga.Machine.Total.{Ran, Ran-bind}
use cocoapuffs_fpga.Machine.Loop.{until, retry}
use cocoapuffs_fpga.Reg
use cocoapuffs_fpga.Reg.{lib_reg_read, lib_reg_write}
use cocoapuffs_fpga.SdCard.{
  poll_busy, block_size, transfer, select, deselect, read_bytes, poll_response, send_command,
  wait_token, cmd17, retries, read_data, read_block,
}
use cocoapuffs_fpga.SdCard.Exchange.{data_address, ctrl_address, wait_round, round_busy}
use cocoapuffs_fpga.SdCard.Command.{all_bytes}

-- The answers to the loads of one Transfer for each byte: not busy, and the byte.
abbrev pub quiet : List ℕ → List ℕ → List ℕ
quiet [] rest = rest
quiet (b ∷ bs) rest = 0 ∷ b ∷ quiet bs rest

byte_mask : (b : ℕ) → ltb b 256 ≡ true → bit_and b 0xff ≡ b
byte_mask b h = ground (arith, bit_and_low_byte b)

module _ (base_address : ℕ) where
  transfer-quiet :
      (out b : ℕ) (rest : List ℕ) (m : Machine)
      → m.script ≡ quiet (b ∷ []) rest
      → Ran (transfer base_address out) m (bit_and b 0xff) rest
  unfolding transfer Reg.read Reg.write lib_reg_read lib_reg_write store32
  transfer-quiet out b rest m e =
      let k : Machine = record m { trace = store (data_address base_address) out ∷ m.trace } in
      let n : Machine = record k {
        script = b ∷ rest;
        trace = load (ctrl_address base_address) 0 ∷ k.trace;
      } in
      let o : Machine = record n {
        script = rest;
        trace = load (data_address base_address) b ∷ n.trace;
      } in
      let waited : until (poll_busy base_address) k ≡ done tt n =
        wait_round base_address k
        ∙ ap (λ r. bind r (retry (poll_busy base_address))) (round_busy base_address k e) in
      (o, rw (waited, load32_lem (data_address base_address) n refl), refl)

  read_bytes-quiet :
      (bs rest : List ℕ) (m : Machine)
      → all_bytes bs ≡ true
      → m.script ≡ quiet bs rest
      → Ran (read_bytes base_address (length bs)) m bs rest
  unfolding read_bytes
  read_bytes-quiet [] rest m h e = (m, refl, e)
  read_bytes-quiet (b ∷ bs) rest m h e =
      Ran-bind (transfer base_address 0xff) _ m (transfer-quiet 0xff b (quiet bs rest) m e) λ k e0.
        Ran-bind (read_bytes base_address (length bs)) (λ bs m. done (bit_and b 0xff ∷ bs) m) k
          (read_bytes-quiet bs rest k (ground arith) e0)
          λ n e1. (n, ap (λ x. done (x ∷ bs) n) (byte_mask b (ground arith)), e1)

  select-quiet :
      (c : ℕ) (rest : List ℕ) (m : Machine)
      → m.script ≡ c ∷ rest
      → Ran (select base_address) m tt rest
  unfolding select Reg.read Reg.write lib_reg_read lib_reg_write store32
  select-quiet c rest m e = (
    record m {
      script = rest;
      trace =
          store (ctrl_address base_address) (bit_and c 0xffff_fffe)
          ∷ load (ctrl_address base_address) c
          ∷ m.trace;
    },
    rw (load32_lem (ctrl_address base_address) m e),
    refl,
  )

  deselect-quiet :
      (c idle : ℕ) (rest : List ℕ) (m : Machine)
      → m.script ≡ c ∷ quiet (idle ∷ []) rest
      → Ran (deselect base_address) m tt rest
  unfolding deselect Reg.read Reg.write lib_reg_read lib_reg_write store32
  deselect-quiet c idle rest m e =
      let k : Machine = record m {
        script = quiet (idle ∷ []) rest;
        trace =
            store (ctrl_address base_address) (bit_or c 1)
            ∷ load (ctrl_address base_address) c
            ∷ m.trace;
      } in
      let (n, idled, e') = transfer-quiet 0xff idle rest k refl in
      (n, rw (load32_lem (ctrl_address base_address) m e, idled), e')

  -- A Transfer whose result is dropped.
  skip_quiet :
      {A : Type 0} (out b : ℕ) (f : M A) (m : Machine) {a : A} {s rest : List ℕ}
      → m.script ≡ 0 ∷ b ∷ s
      → ((k : Machine) → k.script ≡ s → Ran f k a rest)
      → Ran (transfer base_address out >> f) m a rest
  skip_quiet out b f m {s = s} e next =
      Ran-bind (transfer base_address out) (λ _. f) m (transfer-quiet out b s m e) next

  send_command-quiet :
      (cmd arg crc s0 s1 s2 s3 s4 s5 s6 : ℕ) (rest : List ℕ) (m : Machine)
      → m.script ≡ quiet (s0 ∷ s1 ∷ s2 ∷ s3 ∷ s4 ∷ s5 ∷ s6 ∷ 0 ∷ []) rest
      → Ran (send_command base_address cmd arg crc) m (pos 0) rest
  unfolding send_command poll_response
  send_command-quiet cmd arg crc s0 s1 s2 s3 s4 s5 s6 rest m e = skip_quiet 0xff s0 _ m e λ m0 e0.
      skip_quiet cmd s1 _ m0 e0 λ m1 e1. skip_quiet (arg / 2 ^ 24 % 256) s2 _ m1 e1 λ m2 e2.
        skip_quiet (arg / 2 ^ 16 % 256) s3 _ m2 e2 λ m3 e3.
          skip_quiet (arg / 2 ^ 8 % 256) s4 _ m3 e3 λ m4 e4.
            skip_quiet (arg % 256) s5 _ m4 e4 λ m5 e5. skip_quiet crc s6 _ m5 e5 λ m6 e6.
              Ran-bind (transfer base_address 0xff) _ m6 (transfer-quiet 0xff 0 rest m6 e6)
                λ m7 e7. (m7, refl, e7)

  wait_token-quiet :
      (n : ℕ) (rest : List ℕ) (m : Machine)
      → m.script ≡ quiet (0xfe ∷ []) rest
      → Ran (wait_token base_address (suc n)) m (suc n) rest
  unfolding wait_token
  wait_token-quiet n rest m e =
      Ran-bind (transfer base_address 0xff) _ m (transfer-quiet 0xff 0xfe rest m e)
        λ k e0. (k, refl, e0)

  read_data-quiet :
      (block : List ℕ) (crc0 crc1 c idle : ℕ) (rest : List ℕ) (m : Machine)
      → length block ≡ block_size
      → all_bytes block ≡ true
      → m.script
        ≡ quiet (0xfe ∷ []) (quiet block (quiet (crc0 ∷ crc1 ∷ []) (c ∷ quiet (idle ∷ []) rest)))
      → Ran (read_data base_address) m (pos 0, block) rest
  unfolding read_data
  read_data-quiet block crc0 crc1 c idle rest m long bytes e =
      Ran-bind (wait_token base_address retries) _ m (wait_token-quiet 9999 _ m e) λ k e0.
        Ran-bind (read_bytes base_address block_size) _ k
          (subst
            (λ n.
              Ran (read_bytes base_address n) k block
                (quiet (crc0 ∷ crc1 ∷ []) (c ∷ quiet (idle ∷ []) rest)))
            long (read_bytes-quiet block _ k bytes e0))
          λ m1 e1. skip_quiet 0xff crc0 _ m1 e1 λ m2 e2. skip_quiet 0xff crc1 _ m2 e2 λ m3 e3.
            Ran-bind (deselect base_address) _ m3 (deselect-quiet c idle rest m3 e3)
              λ m4 e4. (m4, refl, e4)

  -- ReadBlock of a card that is never busy and answers at once returns 0, with the block that the
  -- card sent in the buffer, and loads no further.
  pub read_block-total :
      (block_addr c s0 s1 s2 s3 s4 s5 s6 : ℕ) (block : List ℕ) (crc0 crc1 c' idle : ℕ)
      (rest : List ℕ) (m : Machine)
      → length block ≡ block_size
      → all_bytes block ≡ true
      → m.script
        ≡ c
          ∷ quiet
              (s0 ∷ s1 ∷ s2 ∷ s3 ∷ s4 ∷ s5 ∷ s6 ∷ 0 ∷ 0xfe ∷ [])
              (quiet block (quiet (crc0 ∷ crc1 ∷ []) (c' ∷ quiet (idle ∷ []) rest)))
      → (m' : Machine) × (read_block base_address true block_addr m ≡ done (pos 0, block) m')
        × (m'.script ≡ rest)
  unfolding read_block
  read_block-total block_addr c s0 s1 s2 s3 s4 s5 s6 block crc0 crc1 c' idle rest m long bytes e =
      Ran-bind (select base_address) _ m (select-quiet c _ m e) λ k e0.
        Ran-bind (send_command base_address cmd17 block_addr 0xff) _ k
          (send_command-quiet cmd17 block_addr 0xff s0 s1 s2 s3 s4 s5 s6 _ k e0)
          λ n e1. read_data-quiet block crc0 crc1 c' idle rest n long bytes e1
