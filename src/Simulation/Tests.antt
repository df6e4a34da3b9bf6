-- ===== src/Simulation/Tests.antt =====
-- A run of the driver over 103 units of time, on a model that counts its evaluations.
use cocoapuffs_fpga.Prelude.{ℕ, suc, ◌≡◌, ◌≢◌, refl, arith, false, List, [], ◌∷◌, length}
use cocoapuffs_fpga.Prelude.Int.{ℤ, pos, negsuc}
use cocoapuffs_fpga.Simulation.{TopLevel, work_directory, usage, simulate, main}
use cocoapuffs_fpga.Simulation.Waves.{steps, main-steps}

abbrev counting : TopLevel
counting = record { State = ℕ; start = 0; clk = false; eval = λ clk reset n. suc n }

abbrev file_name : List ℕ
file_name = 0x77 ∷ []

abbrev time_text : List ℕ
time_text = 0x31 ∷ 0x30 ∷ 0x33 ∷ []

abbrev read_time : List ℕ → ℤ
read_time text = pos 103

dumps_counted : length (main counting [] read_time (file_name ∷ time_text ∷ [])).dumps ≡ 103
unfolding main simulate
dumps_counted = refl

abbrev nothing : List (List ℕ)
nothing = []

no_args : length nothing ≢ 2
no_args e = absurd (omega (arith, e))

main-steps_example :
    ((main counting [] read_time (file_name ∷ time_text ∷ [])).status ≡ pos 0)
    × ((main counting [] read_time (file_name ∷ time_text ∷ [])).file ≡ file_name)
    × ((main counting [] read_time (file_name ∷ time_text ∷ [])).dumps
        ≡ steps counting 103 0 false 0)
    × ((main counting [] read_time nothing).status ≡ negsuc 0)
    × ((main counting [] read_time nothing).printed ≡ work_directory [] ∷ usage ∷ [])
    × ((main counting [] read_time nothing).dumps ≡ [])
main-steps_example = main-steps counting [] file_name time_text read_time nothing no_args
