-- ===== src/Reg/Mock.antt =====
-- The registers of the host build: the std::map `mock_regs`. Reading `mock_regs[address]` inserts
-- a zero where there is no entry.
pub mod Laws
mod Tests
use cocoapuffs_fpga.Prelude.{
  ℕ, ◌≡◌, refl, Bool, Option, none, some, List, [], ◌∷◌, arith, ◌==◌, if◌then◌else◌,
}
use cocoapuffs_fpga.Reg.{Reg}

-- std::map<uint32_t, uint32_t>
abbrev pub MockRegs : Type 0
MockRegs = List (ℕ × ℕ)

pub find : ℕ → MockRegs → Option ℕ
find address [] = none
find address ((a, v) ∷ regs) = if a == address then some v else find address regs

-- mock_regs[address] = value
unfoldable pub assign : ℕ → ℕ → MockRegs → MockRegs
assign address value [] = (address, value) ∷ []
assign address value ((a, v) ∷ regs) =
    if a == address then (address, value) ∷ regs else (a, v) ∷ assign address value regs

-- mock_regs[address], with the entry that the access makes
unfoldable pub index : ℕ → MockRegs → ℕ × MockRegs
unfolding find
index address regs = elim (find address regs) [
  | some v ↦ (v, regs)
  | none ↦ (0, assign address 0 regs)
]

unfoldable pub mock_read : Reg → MockRegs → (ℕ × ℕ) × MockRegs
mock_read r regs = let (value, regs') = index r.address regs in ((0, value), regs')

unfoldable pub mock_write : Reg → ℕ → MockRegs → ℕ × MockRegs
mock_write r value regs = (0, assign r.address value regs)

unfoldable pub set_mock_value : ℕ → ℕ → MockRegs → MockRegs
set_mock_value address value regs = assign address value regs

unfoldable pub get_mock_value : ℕ → MockRegs → ℕ × MockRegs
get_mock_value address regs = index address regs

unfoldable pub clear_mock_values : MockRegs → MockRegs
clear_mock_values regs = []
