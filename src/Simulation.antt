-- ===== src/Simulation.antt =====
-- boards/rv32_uart/main.cc: the driver that runs the Verilator model of the board rv32_uart. The
-- model, its VCD writer and the C library are not part of the repository.
pub mod Waves
mod Tests
use cocoapuffs_fpga.Prelude.{
  ℕ, zero, suc, ◌+◌, ◌-◌, ◌%◌, ◌^◌, Bool, true, false, not, List, [], ◌∷◌, ◌++◌, ◌==◌,
  if◌then◌else◌,
}
use cocoapuffs_fpga.Prelude.Int.{ℤ, pos, negsuc}

-- Vtop_level: the state behind its pins, the pin `clk` as it is at first, and `eval`.
pub record TopLevel : Type 1 where
  pub State : Type 0
  pub start : State
  pub clk : Bool
  pub eval : Bool → Bool → State → State

-- One `m_trace.dump(sim_time)`: the time, the two pins, and what the model shows.
pub record Dump (S : Type 0) : Type 0 where
  pub time : ℕ
  pub clk : Bool
  pub reset : Bool
  pub state : S

-- `dut` with its two pins, sim_time, and what was dumped, the first dump first.
pub record Sim (S : Type 0) : Type 0 where
  pub clk : Bool
  pub reset : Bool
  pub state : S
  pub sim_time : ℕ
  pub dumps : List (Dump S)

-- What is printed.
pub data Message : Type 0 where
  work_directory : List ℕ → Message
  usage : Message
  simulating_for : ℕ → Message

-- What the program leaves: the status given to `exit`, its output, and the dumps, if the file was
-- opened.
pub record Result (S : Type 0) : Type 0 where
  pub status : ℤ
  pub printed : List Message
  pub file : List ℕ
  pub dumps : List (Dump S)

-- The length of the reset.
abbrev pub reset_time : ℕ
reset_time = 100

-- The conversion of a `long long` to `vluint64_t`.
abbrev pub to_time : ℤ → ℕ
to_time (pos n) = n % 2 ^ 64
to_time (negsuc n) = 2 ^ 64 - 1 - n % 2 ^ 64

module _ (top : TopLevel) where
  open top use {State, start, eval}

  -- `dut.eval(); m_trace.dump(sim_time); sim_time++;`
  eval_and_dump : Sim State → Sim State
  eval_and_dump s =
      let state = eval s.clk s.reset s.state in
      record s {
        state = state;
        sim_time = (s.sim_time + 1) % 2 ^ 64;
        dumps =
            s.dumps
            ++ record { time = s.sim_time; clk = s.clk; reset = s.reset; state = state } ∷ [];
      }

  reset_round : Sim State → Sim State
  unfolding eval_and_dump
  reset_round s =
      let clocked = record s { clk = not s.clk } in eval_and_dump (record clocked { reset = true })

  run_round : Sim State → Sim State
  unfolding eval_and_dump
  run_round s =
      let released = record s { reset = false } in
      eval_and_dump (record released { clk = not released.clk })

  -- `while (sim_time < 100)` and `while (sim_time < max_sim_time_ps)`, by the rounds left.
  reset_loop : ℕ → Sim State → Sim State
  unfolding reset_round
  reset_loop zero s = s
  reset_loop (suc left) s = reset_loop left (reset_round s)

  run_loop : ℕ → Sim State → Sim State
  unfolding run_round
  run_loop zero s = s
  run_loop (suc left) s = run_loop left (run_round s)

  abbrev pub fresh : Sim State
  fresh = record { clk = top.clk; reset = false; state = start; sim_time = 0; dumps = [] }

  -- The two loops.
  unfoldable pub simulate : ℕ → Sim State
  unfolding reset_loop run_loop
  simulate max_sim_time =
      let s = reset_loop (reset_time - fresh.sim_time) fresh in
      run_loop (max_sim_time - s.sim_time) s

  -- main: argv without the name of the program, and what `getcwd` and `atoll` give.
  unfoldable pub main : List ℕ → (List ℕ → ℤ) → List (List ℕ) → Result State
  main cwd atoll (name ∷ time ∷ []) =
      let max_sim_time = to_time (atoll time) in
      record {
        status = pos 0;
        printed = work_directory cwd ∷ simulating_for max_sim_time ∷ [];
        file = name;
        dumps = (simulate max_sim_time).dumps;
      }
  main cwd atoll args = record {
    status = negsuc 0;
    printed = work_directory cwd ∷ usage ∷ [];
    file = [];
    dumps = [];
  }
