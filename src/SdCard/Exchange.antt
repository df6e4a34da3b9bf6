-- ===== src/SdCard/Exchange.antt =====
-- Transfer, and what a sequence of transfers does: a byte goes out and a byte comes in.
use cocoapuffs_fpga.Prelude.{
  ℕ, zero, suc, ◌<◌, ◌≡◌, refl, sym, subst, ap, ◌∙◌, inl, inr, bit_and, Bool, true, false, not,
  ◌&&◌, ◌||◌, none, some, List, [], ◌∷◌, ◌++◌, append-nil, append_assoc, arith, length, ◌==◌,
  if◌then◌else◌, Bool-cases, replicate,
}
use cocoapuffs_fpga.Machine.{
  Event, load, store, Machine, done, waiting, bind, bind-eq-done, load32, store32, done-machine,
  done-result,
}
use cocoapuffs_fpga.Machine.Loop.{until, Spends, retry, until-eq-retry}
use cocoapuffs_fpga.Machine.Trace.{sent_to, last_stored, load32-done, load32_lem}
use cocoapuffs_fpga.Reg
use cocoapuffs_fpga.Reg.{lib_reg_read, lib_reg_write}
use cocoapuffs_fpga.SdCard.{data_reg, ctrl_reg, poll_busy, transfer, read_bytes}

module _ (base_address : ℕ) where
  abbrev pub data_address : ℕ
  data_address = (data_reg base_address).address

  abbrev pub ctrl_address : ℕ
  ctrl_address = (ctrl_reg base_address).address

  pub two_registers : (ctrl_address == data_address) ≡ false
  two_registers = ground arith

  other_way : (data_address == ctrl_address) ≡ false
  other_way = ground arith

  itself : (data_address == data_address) ≡ true
  itself = ground arith

  -- The bytes that were read from the data register, oldest first.
  abbrev pub bytes_in : List Event → List ℕ
  bytes_in [] = []
  bytes_in (load a v ∷ t) =
      if a == data_address then bytes_in t ++ bit_and v 0xff ∷ [] else bytes_in t
  bytes_in (_ ∷ t) = bytes_in t

  -- The last access found the peripheral idle.
  abbrev pub idle : List Event → Bool
  idle (load a v ∷ t) = a == ctrl_address && bit_and v 2 == 0
  idle _ = false

  -- Every load of the data register comes directly after such an access.
  abbrev pub patient : List Event → Bool
  patient [] = true
  patient (load a v ∷ t) = (not (a == data_address) || idle t) && patient t
  patient (_ ∷ t) = patient t

  -- From `m` to `m'` exactly the bytes `out` were sent and exactly `inp` were read.
  pub record Talked (out inp : List ℕ) (m m' : Machine) : Type 0 where
    pub sent : sent_to data_address m'.trace ≡ sent_to data_address m.trace ++ out
    pub heard : bytes_in m'.trace ≡ bytes_in m.trace ++ inp
    pub keeps_patient : patient m.trace ≡ true → patient m'.trace ≡ true

  -- The control register was not written.
  abbrev pub Exchanged : List ℕ → List ℕ → Machine → Machine → Type 0
  Exchanged out inp m m' =
      Talked out inp m m' × (last_stored ctrl_address m'.trace ≡ last_stored ctrl_address m.trace)

  pub Exchanged-refl : (m : Machine) → Exchanged [] [] m m
  Exchanged-refl m = (
    record { sent = sym (append-nil _); heard = sym (append-nil _); keeps_patient = λ p. p },
    refl,
  )

  pub Talked-trans :
      {s t i j : List ℕ} {m n o : Machine}
      → Talked s i m n
      → Talked t j n o
      → Talked (s ++ t) (i ++ j) m o
  Talked-trans {s} {t} {i} {j} p q = record {
    sent = q.sent ∙ (ap (λ (l : List ℕ). l ++ t) p.sent ∙ append_assoc _ s t);
    heard = q.heard ∙ (ap (λ (l : List ℕ). l ++ j) p.heard ∙ append_assoc _ i j);
    keeps_patient = λ h. q.keeps_patient (p.keeps_patient h);
  }

  pub Exchanged-trans :
      {s t i j : List ℕ} {m n o : Machine}
      → Exchanged s i m n
      → Exchanged t j n o
      → Exchanged (s ++ t) (i ++ j) m o
  Exchanged-trans (p, e) (q, f) = (Talked-trans p q, f ∙ e)

  abbrev after_load : ℕ → ℕ → List ℕ → Machine → Machine
  after_load a v rest m = record m { script = rest; trace = load a v ∷ m.trace }

  pub ctrl_load-Exchanged :
      (v : ℕ) (m m' : Machine) → m'.trace ≡ load ctrl_address v ∷ m.trace → Exchanged [] [] m m'
  ctrl_load-Exchanged v m m' l = (
    record {
      sent = rw l (sym (append-nil _));
      heard = rw (l, two_registers) (sym (append-nil _));
      keeps_patient = λ p. rw (l, two_registers) p;
    },
    rw l,
  )

  pub round_busy :
      (m : Machine) {v : ℕ} {rest : List ℕ}
      → m.script ≡ v ∷ rest
      → poll_busy base_address m
        ≡ done (if not (bit_and v 2 == 0) then none else some tt) (after_load ctrl_address v rest m)
  unfolding Reg.read lib_reg_read
  round_busy m e = rw (load32_lem ctrl_address m e)

  round_silent : (m : Machine) → m.script ≡ [] → poll_busy base_address m ≡ waiting m
  unfolding Reg.read lib_reg_read load32
  round_silent m e = rw e

  poll_busy-Spends : Spends (poll_busy base_address)
  poll_busy-Spends m m' h = go m.script refl
    where
      go : (s : List ℕ) → m.script ≡ s → length m'.script < length m.script
      go [] e = ground (arith, round_silent m e)
      go (v ∷ rest) e = ground (arith, round_busy m e)

  pub wait_round :
      (m : Machine)
      → until (poll_busy base_address) m
        ≡ bind (poll_busy base_address m) (retry (poll_busy base_address))
  wait_round m = until-eq-retry (poll_busy base_address) poll_busy-Spends m

  -- The wait for the busy bit exchanges nothing and ends when it is seen clear.
  wait-idle :
      (s : List ℕ) (m : Machine) {m' : Machine}
      → m.script ≡ s
      → until (poll_busy base_address) m ≡ done tt m'
      → Exchanged [] [] m m' × (idle m'.trace ≡ true)
  wait-idle [] m e h = ground (arith, wait_round m, round_silent m e)
  wait-idle (v ∷ rest) m {m'} e h =
      let k : Machine = after_load ctrl_address v rest m in
      let step : bind (done (if not (bit_and v 2 == 0) then none else some tt) k)
            (retry (poll_busy base_address))
          ≡ done tt m' =
        ap (λ r. bind r (retry (poll_busy base_address))) (sym (round_busy m e))
        ∙ (sym (wait_round m) ∙ h) in
      elim (Bool-cases (bit_and v 2 == 0)) [
        | inl free ↦
            let same : k ≡ m' = done-machine (rw free at step) in
            subst (λ (n : Machine). Exchanged [] [] m n × (idle n.trace ≡ true)) same
              (ctrl_load-Exchanged v m k refl, ground arith)
        | inr busy ↦
            let (more, ends) = wait-idle rest k refl (rw busy at step) in
            (Exchanged-trans (ctrl_load-Exchanged v m k refl) more, ends)
      ]

  data_store-Exchanged :
      (b : ℕ) (m : Machine)
      → Exchanged (b ∷ []) [] m (record m { trace = store data_address b ∷ m.trace })
  data_store-Exchanged b m = (
    record { sent = rw itself; heard = sym (append-nil _); keeps_patient = λ p. p },
    rw other_way,
  )

  data_load-Exchanged :
      (v : ℕ) (m m' : Machine)
      → idle m.trace ≡ true
      → m'.trace ≡ load data_address v ∷ m.trace
      → Exchanged [] (bit_and v 0xff ∷ []) m m'
  data_load-Exchanged v m m' e l = (
    record {
      sent = rw l (sym (append-nil _));
      heard = rw (l, itself);
      keeps_patient = λ p. rw l (ground arith);
    },
    rw l,
  )

  -- A Transfer sends its byte and returns the one that came in.
  pub transfer-Exchanged :
      (b : ℕ) (m : Machine) {r : ℕ} {m' : Machine}
      → transfer base_address b m ≡ done r m'
      → Exchanged (b ∷ []) (r ∷ []) m m'
  unfolding transfer Reg.read Reg.write lib_reg_read lib_reg_write store32
  transfer-Exchanged b m {r} {m'} h =
      let k : Machine = record m { trace = store data_address b ∷ m.trace } in
      let (u, n, waited, more) = bind-eq-done (until (poll_busy base_address) k) _ h in
      let (w, o, read, last) =
        bind-eq-done (Reg.read (data_reg base_address) n) (λ r. λ m. done (bit_and r.1 0xff) m)
          more in
      let (v, p, loaded, got) =
        bind-eq-done (load32 data_address n) (λ v. λ m. done (0, v) m) read in
      let result : bit_and v 0xff ≡ r =
        ap (λ (x : ℕ × ℕ). bit_and x.1 0xff) (done-result got) ∙ done-result last in
      let (quiet, free) = wait-idle k.script k refl waited in
      let seen : p.trace ≡ load data_address v ∷ n.trace = (load32-done data_address n loaded).1 in
      subst (λ x. Exchanged (b ∷ []) (x ∷ []) m m') result
        (subst (Exchanged (b ∷ []) (bit_and v 0xff ∷ []) m) (done-machine got ∙ done-machine last) (
          Exchanged-trans (data_store-Exchanged b m)
            (Exchanged-trans quiet (data_load-Exchanged v n p free seen))))

  -- Reading `n` bytes sends 0xff for each.
  pub read_bytes-Exchanged :
      (n : ℕ) (m : Machine) {bs : List ℕ} {m' : Machine}
      → read_bytes base_address n m ≡ done bs m'
      → (length bs ≡ n) × Exchanged (replicate n 0xff) bs m m'
  unfolding read_bytes
  read_bytes-Exchanged zero m {bs} {m'} h = (
    ap length (sym (done-result h)),
    subst (λ l. Exchanged [] l m m') (done-result h)
        (subst (Exchanged [] [] m) (done-machine h) (Exchanged-refl m)),
  )
  read_bytes-Exchanged (suc n) m {bs} {m'} h =
      let (b, k, first, more) = bind-eq-done (transfer base_address 0xff m) _ h in
      let (rest, o, others, last) =
        bind-eq-done (read_bytes base_address n k) (λ bs. λ m. done (b ∷ bs) m) more in
      let (long, tail) = read_bytes-Exchanged n k others in
      (
        ap length (sym (done-result last)) ∙ ap suc long,
        subst (λ l. Exchanged (replicate (suc n) 0xff) l m m') (done-result last)
            (subst (Exchanged (replicate (suc n) 0xff) (b ∷ rest) m) (done-machine last)
              (Exchanged-trans (transfer-Exchanged 0xff m first) tail)),
      )
