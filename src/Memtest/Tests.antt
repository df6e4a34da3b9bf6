-- ===== src/Memtest/Tests.antt =====
-- Runs of the memory test on memories of two cells.
use cocoapuffs_fpga.Prelude.{ℕ, ◌≡◌, refl, arith, true, false, none, List, [], ◌∷◌, replicate}
use cocoapuffs_fpga.Machine.{Event, load, store, Machine, done, load32, store32}
use cocoapuffs_fpga.Uart.{Vsnprintf}
use cocoapuffs_fpga.Memtest.{Result, Memtest, passed, test, test_one_cell, test_with_c}
use cocoapuffs_fpga.Memtest.Verdict.{Found, written, failed, test-Found, test-coherent, test-total}
use cocoapuffs_fpga.Memtest.Cells.{test_with_c_inverted}

abbrev two_cells : Memtest
two_cells = record { base_address = 0x8000_0000; base_pattern = 0x5a; cell_count = 2 }

abbrev memory : List ℕ → Machine
memory script = record {
  script = script;
  trace = [];
  uart_buf = record { buf = replicate 256 0; rd = 0; wr = 0 };
}

abbrev checked : List Event → List ℕ → Machine
checked loads rest = record (memory rest) { trace = loads }

-- The second cell answers with another word.
abbrev bad_second : Machine
bad_second = checked (load 0x8000_0004 7 ∷ load 0x8000_0000 0x5a ∷ written two_cells []) []

test_fails : test two_cells (memory (0x5a ∷ 7 ∷ [])) ≡ done (failed two_cells 1 7) bad_second
unfolding test load32 store32
test_fails = refl

test-Found_example :
    Found two_cells 2 0 (written two_cells []) (failed two_cells 1 7) bad_second.trace
test-Found_example = test-Found two_cells (memory (0x5a ∷ 7 ∷ [])) (omega arith) test_fails

abbrev good_cells : Machine
good_cells = checked (load 0x8000_0004 0x5a ∷ load 0x8000_0000 0x5a ∷ written two_cells []) []

test_passes : test two_cells (memory (0x5a ∷ 0x5a ∷ [])) ≡ done passed good_cells
unfolding test load32 store32
test_passes = refl

test-coherent_example : passed.ok ≡ true
test-coherent_example = test-coherent two_cells (memory (0x5a ∷ 0x5a ∷ [])) test_passes refl

test-total_example :
    (r : Result) × (m' : Machine) × (test two_cells (memory (0x5a ∷ 7 ∷ 9 ∷ [])) ≡ done r m')
test-total_example =
    test-total two_cells (0x5a ∷ 7 ∷ []) (9 ∷ []) (memory (0x5a ∷ 7 ∷ 9 ∷ [])) refl refl

-- The text of the message does not matter here: a vsnprintf that fails.
abbrev fails : Vsnprintf
fails n format args = record { ret = none; buf = replicate 256 0 }

abbrev one_cell : Machine
one_cell = checked (load 0x8000_0000 3 ∷ store 0x8000_0000 3 ∷ []) []

test_with_c_inverted_example : false ≡ false
unfolding test_with_c test_one_cell load32 store32
test_with_c_inverted_example =
    test_with_c_inverted fails 3 1 [] (memory (3 ∷ [])) {r = false} {m' = one_cell} (omega arith)
      refl refl
