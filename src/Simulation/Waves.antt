-- ===== src/Simulation/Waves.antt =====
-- The two loops of the simulation driver as one: what is dumped, and when.
use cocoapuffs_fpga.Prelude.{
  ℕ, zero, suc, ◌+◌, ◌-◌, ◌%◌, ◌^◌, ◌<◌, ◌≤◌, ◌≡◌, refl, sym, subst, ap, ◌∙◌, ◌≢◌, Bool, true,
  false, not, List, [], ◌∷◌, ◌++◌, append-nil, append_assoc, arith, length, ltb,
}
use cocoapuffs_fpga.Prelude.Int.{ℤ, pos, negsuc}
use cocoapuffs_fpga.Simulation.{
  TopLevel, work_directory, usage, Dump, Sim, reset_time, to_time, reset_round, run_round,
  reset_loop, run_loop, fresh, simulate, main,
}

module _ (top : TopLevel) where
  open top use {State, start, eval}

  -- `n` steps from the time `t` on: each toggles the clock, and the reset is on before the time 100.
  abbrev pub steps : ℕ → ℕ → Bool → State → List (Dump State)
  steps zero t clk state = []
  steps (suc n) t clk state =
      let reset = ltb t reset_time in
      let state' = eval (not clk) reset state in
      record { time = t; clk = not clk; reset = reset; state = state' }
      ∷ steps n (t + 1) (not clk) state'

  -- What a round leaves, with the reset as given.
  abbrev rounded : Bool → Sim State → Sim State
  rounded reset s =
      let state = eval (not s.clk) reset s.state in
      record {
        clk = not s.clk;
        reset = reset;
        state = state;
        sim_time = s.sim_time + 1;
        dumps =
            s.dumps
            ++ record { time = s.sim_time; clk = not s.clk; reset = reset; state = state } ∷ [];
      }

  reset_round-rounded :
      (s : Sim State) → s.sim_time + 1 < 2 ^ 64 → reset_round top s ≡ rounded true s
  unfolding reset_round
  reset_round-rounded s small =
      let next : (s.sim_time + 1) % 2 ^ 64 ≡ s.sim_time + 1 = omega arith in
      ap (λ t. record (rounded true s) { sim_time = t }) next

  run_round-rounded : (s : Sim State) → s.sim_time + 1 < 2 ^ 64 → run_round top s ≡ rounded false s
  unfolding run_round
  run_round-rounded s small =
      let next : (s.sim_time + 1) % 2 ^ 64 ≡ s.sim_time + 1 = omega arith in
      ap (λ t. record (rounded false s) { sim_time = t }) next

  -- A round and the steps after it are one step more.
  rounded-steps :
      (n : ℕ) (s : Sim State) {reset : Bool}
      → ltb s.sim_time reset_time ≡ reset
      → (rounded reset s).dumps
          ++ steps n (s.sim_time + 1) (rounded reset s).clk (rounded reset s).state
        ≡ s.dumps ++ steps (suc n) s.sim_time s.clk s.state
  rounded-steps n s e =
      subst
        (λ b.
          (rounded b s).dumps ++ steps n (s.sim_time + 1) (rounded b s).clk (rounded b s).state
          ≡ s.dumps ++ steps (suc n) s.sim_time s.clk s.state)
        e (append_assoc s.dumps _ _)

  run_loop-steps :
      (n : ℕ) (s : Sim State)
      → reset_time ≤ s.sim_time
      → s.sim_time + n < 2 ^ 64
      → (run_loop top n s).dumps ≡ s.dumps ++ steps n s.sim_time s.clk s.state
  unfolding run_loop
  run_loop-steps zero s late small = sym (append-nil s.dumps)
  run_loop-steps (suc n) s late small =
      let off : ltb s.sim_time reset_time ≡ false = ground arith in
      ap (λ x. (run_loop top n x).dumps) (run_round-rounded s (omega arith))
      ∙ (run_loop-steps n (rounded false s) (omega arith) (omega arith) ∙ rounded-steps n s off)

  -- The reset, and then the rest.
  reset_loop-steps :
      (left k : ℕ) (s : Sim State)
      → s.sim_time + left ≡ reset_time
      → reset_time + k < 2 ^ 64
      → (run_loop top k (reset_loop top left s)).dumps
        ≡ s.dumps ++ steps (left + k) s.sim_time s.clk s.state
  unfolding reset_loop
  reset_loop-steps zero k s e small =
      let counted : k ≡ 0 + k = omega arith in
      run_loop-steps k s (omega (arith, e)) (omega (arith, e))
      ∙ ap (λ n. s.dumps ++ steps n s.sim_time s.clk s.state) counted
  reset_loop-steps (suc left) k s e small =
      let counted : suc (left + k) ≡ suc left + k = omega arith in
      let on : ltb s.sim_time reset_time ≡ true = ground (arith, e) in
      ap (λ x. (run_loop top k (reset_loop top left x)).dumps)
        (reset_round-rounded s (omega (arith, e)))
      ∙ (reset_loop-steps left k (rounded true s) (omega (arith, e)) small
          ∙ (rounded-steps (left + k) s on
              ∙ ap (λ n. s.dumps ++ steps n s.sim_time s.clk s.state) counted))

  reset_loop-time :
      (left : ℕ) (s : Sim State)
      → s.sim_time + left ≡ reset_time
      → (reset_loop top left s).sim_time ≡ reset_time
  unfolding reset_loop
  reset_loop-time zero s e = omega (arith, e)
  reset_loop-time (suc left) s e =
      ap (λ x. (reset_loop top left x).sim_time) (reset_round-rounded s (omega (arith, e)))
      ∙ reset_loop-time left (rounded true s) (omega (arith, e))

  simulate-steps :
      (max_sim_time : ℕ)
      → max_sim_time < 2 ^ 64
      → (simulate top max_sim_time).dumps
        ≡ steps (reset_time + (max_sim_time - reset_time)) 0 top.clk start
  unfolding simulate
  simulate-steps max_sim_time small =
      ap (λ t. (run_loop top (max_sim_time - t) (reset_loop top reset_time (fresh top))).dumps)
        (reset_loop-time reset_time (fresh top) refl)
      ∙ reset_loop-steps reset_time (max_sim_time - reset_time) (fresh top) refl (omega arith)

  to_time-lt : (z : ℤ) → to_time z < 2 ^ 64
  to_time-lt (pos n) = omega arith
  to_time-lt (negsuc n) = omega arith

  -- Called with a file and a time, the driver exits with success and has dumped the steps at the
  -- times 0, 1, 2, … up to the given time, or to 100 if that is earlier: each toggles the clock and
  -- evaluates the model, with the reset on exactly before the time 100. Called otherwise, it prints
  -- how to use it, exits with -1, and dumps nothing.
  pub main-steps :
      (cwd name time : List ℕ) (atoll : List ℕ → ℤ) (args : List (List ℕ))
      → length args ≢ 2
      → ((main top cwd atoll (name ∷ time ∷ [])).status ≡ pos 0)
        × ((main top cwd atoll (name ∷ time ∷ [])).file ≡ name)
        × ((main top cwd atoll (name ∷ time ∷ [])).dumps
            ≡ steps (reset_time + (to_time (atoll time) - reset_time)) 0 top.clk start)
        × ((main top cwd atoll args).status ≡ negsuc 0)
        × ((main top cwd atoll args).printed ≡ work_directory cwd ∷ usage ∷ [])
        × ((main top cwd atoll args).dumps ≡ [])
  unfolding main
  main-steps cwd name time atoll args wrong = (
    refl,
    refl,
    simulate-steps (to_time (atoll time)) (to_time-lt (atoll time)),
    (wrong_args args wrong).0,
    (wrong_args args wrong).1,
    (wrong_args args wrong).2,
  )
    where
      wrong_args :
          (args : List (List ℕ))
          → length args ≢ 2
          → ((main top cwd atoll args).status ≡ negsuc 0)
            × ((main top cwd atoll args).printed ≡ work_directory cwd ∷ usage ∷ [])
            × ((main top cwd atoll args).dumps ≡ [])
      wrong_args [] wrong = (refl, refl, refl)
      wrong_args (a ∷ []) wrong = (refl, refl, refl)
      wrong_args (a ∷ b ∷ []) wrong = absurd (wrong refl)
      wrong_args (a ∷ b ∷ c ∷ more) wrong = (refl, refl, refl)
