-- ===== src/Memtest.antt =====
-- lib/memtest/memtest.cc and lib/memtest/memtest.h: the memory test. A `uint32_t*` steps by 4.
pub mod Verdict
pub mod Cells
mod Tests
use cocoapuffs_fpga.Prelude.{
  ℕ, zero, suc, ◌+◌, ◌*◌, ◌%◌, ◌^◌, Bool, true, false, List, [], ◌∷◌, ◌==◌, if◌then◌else◌, literal,
}
use cocoapuffs_fpga.Machine.{M, pure, bind, ◌>>=◌, ◌>>◌, load32, store32}
use cocoapuffs_fpga.Uart.{Vsnprintf, printmef}

-- struct Result
pub record Result : Type 0 where
  pub ok : Bool
  pub addr : ℕ
  pub expected : ℕ
  pub actual : ℕ

-- class Memtest
pub record Memtest : Type 0 where
  pub base_address : ℕ
  pub base_pattern : ℕ
  pub cell_count : ℕ

-- A Result as it is declared, with its initialisers, and then `ok`.
abbrev pub passed : Result
passed = record { ok = true; addr = 0; expected = 0; actual = 0 }

-- `base + i`
abbrev pub cell_address : Memtest → ℕ → ℕ
cell_address t i = (t.base_address + 4 * i) % 2 ^ 32

-- for (uint32_t i = …; i < cell_count_; i++) *(base + i) = base_pattern_, with the rounds left.
write_cells : Memtest → ℕ → ℕ → M (Unit {0})
write_cells t zero i = pure tt
write_cells t (suc left) i = store32 (cell_address t i) t.base_pattern >> write_cells t left (i + 1)

-- The loop that reads and compares.
compare_cells : Memtest → ℕ → ℕ → M Result
compare_cells t zero i = pure passed
compare_cells t (suc left) i = load32 (cell_address t i) >>= λ v.
    let rest = compare_cells t left (i + 1) in
    if v == t.base_pattern
    then rest
    else pure
        (record { ok = false; addr = cell_address t i; expected = t.base_pattern; actual = v })

-- Memtest::Test
unfoldable pub test : Memtest → M Result
unfolding write_cells compare_cells
test t = if t.cell_count == 0 then pure passed else (do
  store32 (cell_address t 0) t.base_pattern
  write_cells t t.cell_count 0
  compare_cells t t.cell_count 0)

abbrev pub ram_start : ℕ
ram_start = 0x8000_0000

-- kMemoryBegin + cell
abbrev pub ram_cell : ℕ → ℕ
ram_cell cell = (ram_start + 4 * cell) % 2 ^ 32

module _ (vsnprintf : Vsnprintf) where
  unfoldable pub test_one_cell : ℕ → ℕ → M Bool
  test_one_cell expected cell = do
    store32 (ram_cell cell) expected
    actual ← load32 (ram_cell cell)
    (if actual == expected then pure true else (do
      printmef vsnprintf (literal "mem: 0x08%x: expect: 0x%08x, actual: 0x%08x")
          (ram_cell cell ∷ expected ∷ actual ∷ [])
      pure false))

  -- The loop of TestWithC; `ret` goes in and comes out.
  test_cells : ℕ → ℕ → ℕ → Bool → M Bool
  test_cells value zero i ret = pure ret
  test_cells value (suc left) i ret =
      test_one_cell value i >>= λ good. test_cells value left (i + 1) (if good then false else ret)

  unfoldable pub test_with_c : ℕ → ℕ → M Bool
  unfolding test_cells
  test_with_c value limit = test_cells value limit 0 true
