-- ===== src/SdCard/Select.antt =====
-- Select and Deselect: the level of CS_N, which is low while the card is selected.
use cocoapuffs_fpga.Prelude.{
  ℕ, ◌%◌, ◌≡◌, refl, sym, subst, ◌∙◌, bit_and, bit_or, some, List, [], ◌∷◌, append-nil, arith,
  ==_iff,
}
use cocoapuffs_fpga.Prelude.Bits.{bit_and_clears_bit0, bit_or-bit0}
use cocoapuffs_fpga.Machine.{Machine, done, bind-eq-done, load32, store32, done-machine}
use cocoapuffs_fpga.Machine.Trace.{load32-done, last_stored}
use cocoapuffs_fpga.Reg
use cocoapuffs_fpga.Reg.{lib_reg_read, lib_reg_write}
use cocoapuffs_fpga.SdCard.{ctrl_reg, select, deselect, transfer}
use cocoapuffs_fpga.SdCard.Exchange.{
  ctrl_address, two_registers, Talked, Talked-trans, Exchanged, ctrl_load-Exchanged,
  transfer-Exchanged,
}

module _ (base_address : ℕ) where
  -- The level that CS_N was last set to.
  abbrev pub CsLevel : ℕ → Machine → Type 0
  CsLevel level m =
      (w : ℕ) × (last_stored (ctrl_address base_address) m.trace ≡ some w) × (w % 2 ≡ level)

  pub Exchanged-CsLevel :
      {out inp : List ℕ} {level : ℕ} {m m' : Machine}
      → Exchanged base_address out inp m m'
      → CsLevel level m
      → CsLevel level m'
  Exchanged-CsLevel (talk, same) (w, last, e) = (w, same ∙ last, e)

  -- Reading the control register exchanges nothing.
  read_ctrl :
      (m : Machine) {r : ℕ × ℕ} {k : Machine}
      → Reg.read (ctrl_reg base_address) m ≡ done r k
      → Exchanged base_address [] [] m k
  unfolding Reg.read lib_reg_read
  read_ctrl m {r} {k} h =
      let (v, p, loaded, got) =
        bind-eq-done (load32 (ctrl_address base_address) m) (λ v. λ m. done (0, v) m) h in
      subst (Exchanged base_address [] [] m) (done-machine got) (
        ctrl_load-Exchanged base_address v m p (load32-done (ctrl_address base_address) m loaded).1)

  -- The control register is set.
  pub ctrl_write :
      (w : ℕ) (m : Machine) {s : ℕ} {m' : Machine}
      → Reg.write (ctrl_reg base_address) w m ≡ done s m'
      → Talked base_address [] [] m m' × (last_stored (ctrl_address base_address) m'.trace ≡ some w)
  unfolding Reg.write lib_reg_write store32
  ctrl_write w m {s} {m'} h =
      subst
        (λ (n : Machine).
          Talked base_address [] [] m n
          × (last_stored (ctrl_address base_address) n.trace ≡ some w))
        (done-machine h)
        (
          record {
            sent = rw (two_registers base_address) (sym (append-nil _));
            heard = sym (append-nil _);
            keeps_patient = λ p. p;
          },
          rw (==_iff (ctrl_address base_address) (ctrl_address base_address)).1 refl,
        )

  -- Select sends nothing and leaves CS_N low.
  pub select-CsLevel :
      (m : Machine) {m' : Machine}
      → select base_address m ≡ done tt m'
      → Talked base_address [] [] m m' × CsLevel 0 m'
  unfolding select
  select-CsLevel m {m'} h =
      let (r, k, read, more) = bind-eq-done (Reg.read (ctrl_reg base_address) m) _ h in
      let (s, n, set, last) =
        bind-eq-done (Reg.write (ctrl_reg base_address) (bit_and r.1 0xffff_fffe) k)
          (λ _ m. done tt m) more in
      let (talk, stored) = ctrl_write (bit_and r.1 0xffff_fffe) k set in
      subst (λ (o : Machine). Talked base_address [] [] m o × CsLevel 0 o) (done-machine last)
        (
          Talked-trans base_address (read_ctrl m read).0 talk,
          (bit_and r.1 0xffff_fffe, stored, bit_and_clears_bit0 r.1),
        )

  -- Deselect leaves CS_N high, and sends one idle byte after that.
  pub deselect-CsLevel :
      (m : Machine) {m' : Machine}
      → deselect base_address m ≡ done tt m'
      → (b : ℕ) × Talked base_address (0xff ∷ []) (b ∷ []) m m' × CsLevel 1 m'
  unfolding deselect
  deselect-CsLevel m {m'} h =
      let (r, k, read, more) = bind-eq-done (Reg.read (ctrl_reg base_address) m) _ h in
      let (s, n, set, rest) =
        bind-eq-done (Reg.write (ctrl_reg base_address) (bit_or r.1 1) k) _ more in
      let (b, o, idled, last) =
        bind-eq-done (transfer base_address 0xff n) (λ _ m. done tt m) rest in
      let (talk, stored) = ctrl_write (bit_or r.1 1) k set in
      let clocks = transfer-Exchanged base_address 0xff n idled in
      let (talked, high) =
        subst (λ (p : Machine). Talked base_address (0xff ∷ []) (b ∷ []) m p × CsLevel 1 p)
          (done-machine last)
          (
            Talked-trans base_address (read_ctrl m read).0
                (Talked-trans base_address talk clocks.0),
            Exchanged-CsLevel clocks (bit_or r.1 1, stored, omega (arith, bit_or-bit0 r.1)),
          ) in
      (b, talked, high)
