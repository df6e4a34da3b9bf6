-- ===== src/Memtest/Verdict.antt =====
-- Memtest::Test: every access that it makes, and what its result says of the memory.
use cocoapuffs_fpga.Prelude.{
  ℕ, zero, suc, ◌+◌, ◌<◌, ◌≡◌, ◌≢◌, refl, sym, subst, ap, ◌∙◌, ◌⊎◌, inl, inr, true, false, some,
  List, [], ◌∷◌, ◌++◌, arith, length, ◌==◌, ==_iff, if◌then◌else◌, Bool-cases, if-apply,
}
use cocoapuffs_fpga.Machine.{
  Event, load, store, Machine, done, bind-eq-done, load32, store32, done-machine, done-result,
}
use cocoapuffs_fpga.Machine.Trace.{last_stored, load32-done, load32_lem, coherent}
use cocoapuffs_fpga.Memtest.{
  Result, Memtest, passed, cell_address, write_cells, compare_cells, test,
}

module _ (t : Memtest) where
  open t use {base_pattern as pattern_word, cell_count}

  -- The trace after the first `n` cells were written, from cell `i` on.
  abbrev pub filled : ℕ → ℕ → List Event → List Event
  filled zero i tr = tr
  filled (suc n) i tr = filled n (i + 1) (store (cell_address t i) pattern_word ∷ tr)

  -- The trace after `n` cells from cell `i` on were read and held the pattern.
  abbrev pub held : ℕ → ℕ → List Event → List Event
  held zero i tr = tr
  held (suc n) i tr = held n (i + 1) (load (cell_address t i) pattern_word ∷ tr)

  write_cells-filled :
      (n i : ℕ) (m : Machine)
      → write_cells t n i m ≡ done tt (record m { trace = filled n i m.trace })
  unfolding write_cells store32
  write_cells-filled zero i m = refl
  write_cells-filled (suc n) i m = write_cells-filled n (i + 1) _

  -- The result for cell `c`, which held `actual`.
  abbrev pub failed : ℕ → ℕ → Result
  failed c actual = record {
    ok = false;
    addr = cell_address t c;
    expected = pattern_word;
    actual = actual;
  }

  -- What the comparison of `n` cells from cell `i` on found: all of them held the pattern, or cell
  -- `c`, after `j` cells that did, is the first that did not.
  abbrev pub Found : ℕ → ℕ → List Event → Result → List Event → Type 0
  Found n i tr r tr' =
      ((r ≡ passed) × (tr' ≡ held n i tr))
      ⊎ ((j c v : ℕ) × (j < n)
          × (c ≡ i + j)
          × (r ≡ failed c v)
          × (v ≢ pattern_word)
          × (tr' ≡ load (cell_address t c) v ∷ held j i tr))

  Found-more :
      (n i : ℕ) (tr : List Event) {r : Result} {tr' : List Event}
      → Found n (i + 1) (load (cell_address t i) pattern_word ∷ tr) r tr'
      → Found (suc n) i tr r tr'
  Found-more n i tr (inl p) = inl p
  Found-more n i tr (inr (j, c, v, less, e, p, q, r)) =
      inr (suc j, c, v, omega arith, omega arith, p, q, r)

  compare_cells-Found :
      (n i : ℕ) (m : Machine) {r : Result} {m' : Machine}
      → compare_cells t n i m ≡ done r m'
      → Found n i m.trace r m'.trace
  unfolding compare_cells
  compare_cells-Found zero i m h =
      inl (sym (done-result h), ap (λ (n : Machine). n.trace) (sym (done-machine h)))
  compare_cells-Found (suc n) i m {r} {m'} h =
      let (v, k, read, more) = bind-eq-done (load32 (cell_address t i) m) _ h in
      let seen : k.trace ≡ load (cell_address t i) v ∷ m.trace =
        (load32-done (cell_address t i) m read).1 in
      elim (Bool-cases (v == pattern_word)) [
        | inl same ↦
            let rest = compare_cells-Found n (i + 1) k (rw same at more) in
            Found-more n i m.trace (
              subst (λ tr. Found n (i + 1) tr r m'.trace)
                (seen ∙ ap (λ w. load (cell_address t i) w ∷ m.trace) ((==_iff _ _).0 same)) rest)
        | inr differs ↦
            let stop = rw differs at more in
            inr (
              0,
              i,
              v,
              omega arith,
              omega arith,
              sym (done-result stop),
              (λ e. ground arith),
              ap (λ (n : Machine). n.trace) (sym (done-machine stop)) ∙ seen,
            )
      ]

  -- The whole trace of the writing half.
  abbrev pub written : List Event → List Event
  written tr = filled cell_count 0 (store (cell_address t 0) pattern_word ∷ tr)

  test_some :
      (m : Machine)
      → (cell_count == 0) ≡ false
      → test t m ≡ compare_cells t cell_count 0 (record m { trace = written m.trace })
  unfolding test store32
  test_some m e = rw (e, write_cells-filled)

  test_none : (m : Machine) → (cell_count == 0) ≡ true → test t m ≡ done passed m
  unfolding test
  test_none m e = rw e

  -- Test writes the pattern to every cell and then reads the cells in order, up to the first that
  -- does not hold it: its result names that cell and both words. If all hold it, the result is ok.
  pub test-Found :
      (m : Machine) {r : Result} {m' : Machine}
      → 0 < cell_count
      → test t m ≡ done r m'
      → Found cell_count 0 (written m.trace) r m'.trace
  test-Found m some_cells h =
      compare_cells-Found cell_count 0 (record m { trace = written m.trace })
        (sym (test_some m (ground arith)) ∙ h)

  last_stored-filled :
      (n i a : ℕ) (tr : List Event)
      → last_stored a tr ≡ some pattern_word
      → last_stored a (filled n i tr) ≡ some pattern_word
  last_stored-filled zero i a tr h = h
  last_stored-filled (suc n) i a tr h =
      last_stored-filled n (i + 1) a (store (cell_address t i) pattern_word ∷ tr) (ground arith)

  last_stored-cell :
      (n i j c : ℕ) (tr : List Event)
      → j < n
      → c ≡ i + j
      → last_stored (cell_address t c) (filled n i tr) ≡ some pattern_word
  last_stored-cell zero i j c tr less e = elim less [ ]
  last_stored-cell (suc n) i zero c tr less e =
      last_stored-filled n (i + 1) (cell_address t c) _
        (let same : c ≡ i = omega arith in ground (arith, ap (cell_address t) same))
  last_stored-cell (suc n) i (suc j) c tr less e =
      last_stored-cell n (i + 1) j c _ (omega arith) (omega arith)

  last_stored-held : (j i a : ℕ) (tr : List Event) → last_stored a (held j i tr) ≡ last_stored a tr
  last_stored-held zero i a tr = refl
  last_stored-held (suc j) i a tr =
      last_stored-held j (i + 1) a (load (cell_address t i) pattern_word ∷ tr)

  Found-coherent :
      (tr : List Event) {r : Result} {tr' : List Event}
      → Found cell_count 0 (written tr) r tr'
      → coherent tr' ≡ true
      → r ≡ passed
  Found-coherent tr (inl (p, e)) h = p
  Found-coherent tr (inr (j, c, v, less, e, p, wrong, seen)) h =
      let stored : last_stored (cell_address t c) (held j 0 (written tr)) ≡ some pattern_word =
        last_stored-held j 0 (cell_address t c) (written tr)
        ∙ last_stored-cell cell_count 0 j c _ less e in
      let agrees = subst (λ (l : List Event). coherent l ≡ true) seen h in
      absurd (wrong (ground arith))

  -- On a memory that returns what was stored last, whatever was in it before, Test passes.
  pub test-coherent :
      (m : Machine) {r : Result} {m' : Machine}
      → test t m ≡ done r m'
      → coherent m'.trace ≡ true
      → r.ok ≡ true
  test-coherent m h good = elim (Bool-cases (cell_count == 0)) [
    | inl no_cells ↦ ap (λ (r : Result). r.ok) (sym (done-result (sym (test_none m no_cells) ∙ h)))
    | inr some_cells ↦
        ap (λ (r : Result). r.ok) (Found-coherent m.trace (test-Found m (ground arith) h) good)
  ]

  compare_step :
      (n i : ℕ) (m : Machine) {v : ℕ} {rest : List ℕ}
      → m.script ≡ v ∷ rest
      → let k = record m { script = rest; trace = load (cell_address t i) v ∷ m.trace } in
        compare_cells t (suc n) i m
        ≡ (if v == pattern_word then compare_cells t n (i + 1) k else done (failed i v) k)
  unfolding compare_cells
  compare_step n i m {v} {rest} e =
      rw (load32_lem (cell_address t i) m e) (if-apply (v == pattern_word) _ _ _)

  compare_cells-total :
      (n i : ℕ) (vs rest : List ℕ) (m : Machine)
      → m.script ≡ vs ++ rest
      → length vs ≡ n
      → (r : Result) × (m' : Machine) × (compare_cells t n i m ≡ done r m')
  compare_cells-total zero i vs rest m s l = (passed, m, unfold compare_cells in refl)
  compare_cells-total (suc n) i [] rest m s l = absurd (omega arith)
  compare_cells-total (suc n) i (v ∷ vs) rest m s l =
      let k : Machine = record m {
        script = vs ++ rest;
        trace = load (cell_address t i) v ∷ m.trace;
      } in
      let step = compare_step n i m s in
      elim (Bool-cases (v == pattern_word)) [
        | inl same ↦
            let (r, m', e) = compare_cells-total n (i + 1) vs rest k refl (omega arith) in
            (
              r,
              m',
              step
                  ∙ (ap (λ b. if b then compare_cells t n (i + 1) k else done (failed i v) k) same
                      ∙ e),
            )
        | inr differs ↦ (
          failed i v,
          k,
          step ∙ ap (λ b. if b then compare_cells t n (i + 1) k else done (failed i v) k) differs,
        )
      ]

  -- Test returns after at most one answer for each cell.
  pub test-total :
      (vs rest : List ℕ) (m : Machine)
      → m.script ≡ vs ++ rest
      → length vs ≡ cell_count
      → (r : Result) × (m' : Machine) × (test t m ≡ done r m')
  test-total vs rest m s l = elim (Bool-cases (cell_count == 0)) [
    | inl no_cells ↦ (passed, m, test_none m no_cells)
    | inr some_cells ↦
        let (r, m', e) =
          compare_cells-total cell_count 0 vs rest (record m { trace = written m.trace }) s l in
        (r, m', test_some m some_cells ∙ e)
  ]
