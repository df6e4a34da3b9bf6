-- ===== src/Memtest/Cells.antt =====
-- TestOneCell and TestWithC.
use cocoapuffs_fpga.Prelude.{
  ℕ, zero, suc, ◌+◌, ◌<◌, ◌≡◌, refl, sym, ap, ◌∙◌, inl, inr, Bool, true, false, List, [], ◌∷◌, ◌==◌,
  ==_iff, if◌then◌else◌, literal, Bool-cases,
}
use cocoapuffs_fpga.Machine.{Machine, done, store, pure, bind-eq-done, store32, load32, done-result}
use cocoapuffs_fpga.Machine.Trace.{load32_lem}
use cocoapuffs_fpga.Uart.{Vsnprintf, printmef}
use cocoapuffs_fpga.Memtest.{ram_cell, test_one_cell, test_cells, test_with_c}

module _ (vsnprintf : Vsnprintf) where
  -- TestOneCell that returns says whether the memory answered with the word that was stored.
  test_one_cell_lem :
      (expected cell v : ℕ) (rest : List ℕ) (m : Machine) {r : Bool} {m' : Machine}
      → m.script ≡ v ∷ rest
      → test_one_cell vsnprintf expected cell m ≡ done r m'
      → r ≡ (v == expected)
  unfolding test_one_cell store32
  test_one_cell_lem expected cell v rest m {r} {m'} s h =
      let k : Machine = record m { trace = store (ram_cell cell) expected ∷ m.trace } in
      let read = load32_lem (ram_cell cell) k s in
      let (w, n, got, more) = bind-eq-done (load32 (ram_cell cell) k) _ h in
      let word : v ≡ w = done-result (sym read ∙ got) in
      elim (Bool-cases (w == expected)) [
        | inl same ↦
            sym (done-result (rw same at more)) ∙ (sym same ∙ ap (λ x. x == expected) (sym word))
        | inr differs ↦
            let (z, o, printed, last) =
              bind-eq-done
                (printmef vsnprintf (literal "mem: 0x08%x: expect: 0x%08x, actual: 0x%08x")
                  (ram_cell cell ∷ expected ∷ w ∷ []) n)
                (λ _. pure false) (rw differs at more) in
            sym (done-result last) ∙ (sym differs ∙ ap (λ x. x == expected) (sym word))
      ]

  if-same : (b : Bool) → (if b then false else false) ≡ false
  if-same true = refl
  if-same false = refl

  stays_false :
      (value left i : ℕ) (m : Machine) {r : Bool} {m' : Machine}
      → test_cells vsnprintf value left i false m ≡ done r m'
      → r ≡ false
  unfolding test_cells
  stays_false value zero i m h = sym (done-result h)
  stays_false value (suc left) i m h =
      let (good, k, tested, more) = bind-eq-done (test_one_cell vsnprintf value i m) _ h in
      stays_false value left (i + 1) k (rw if-same at more)

  -- TestWithC answers the wrong way round: one working first cell is enough for it to return false.
  pub test_with_c_inverted :
      (value limit : ℕ) (rest : List ℕ) (m : Machine) {r : Bool} {m' : Machine}
      → 0 < limit
      → m.script ≡ value ∷ rest
      → test_with_c vsnprintf value limit m ≡ done r m'
      → r ≡ false
  unfolding test_with_c test_cells
  test_with_c_inverted value zero rest m h s e = elim h [ ]
  test_with_c_inverted value (suc left) rest m h s e =
      let (good, k, tested, more) = bind-eq-done (test_one_cell vsnprintf value 0 m) _ e in
      let works : good ≡ true =
        test_one_cell_lem value 0 value rest m s tested ∙ (==_iff value value).1 refl in
      stays_false value left (0 + 1) k (rw works at more)
