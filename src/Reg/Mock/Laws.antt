-- ===== src/Reg/Mock/Laws.antt =====
-- The mock registers as a total function: every register holds a word, zero at first.
use cocoapuffs_fpga.Prelude.{ℕ, ◌≡◌, refl, ap, none, some, [], ◌∷◌, arith, ◌==◌, if◌then◌else◌}
use cocoapuffs_fpga.Reg.{Reg}
use cocoapuffs_fpga.Reg.Mock.{
  MockRegs, find, assign, index, mock_read, mock_write, set_mock_value, get_mock_value,
  clear_mock_values,
}

-- What a register holds.
abbrev pub holds : MockRegs → ℕ → ℕ
holds regs address = elim (find address regs) [ some v ↦ v | none ↦ 0 ]

pub holds-empty : (a : ℕ) → holds [] a ≡ 0
unfolding find
holds-empty a = refl

find-assign :
    (a v b : ℕ) (regs : MockRegs)
    → find b (assign a v regs) ≡ (if a == b then some v else find b regs)
unfolding find assign
find-assign a v b [] = refl
find-assign a v b ((c, w) ∷ regs) = ground (arith, find-assign a v b regs)

holds-assign :
    (a v b : ℕ) (regs : MockRegs) → holds (assign a v regs) b ≡ (if a == b then v else holds regs b)
holds-assign a v b regs = ground (arith, find-assign a v b regs)

index_value : (a : ℕ) (regs : MockRegs) → (index a regs).0 ≡ holds regs a
unfolding index
index_value a regs = ground arith

index_keeps : (a b : ℕ) (regs : MockRegs) → holds (index a regs).1 b ≡ holds regs b
unfolding index
index_keeps a b regs = ground (arith, holds-assign a 0 b regs)

-- Writing changes the one register, and reading none: not even the entry that a read of a missing
-- address makes can be seen. Clearing sets all to zero.
pub mock_regs_refine :
    (r : Reg) (v b : ℕ) (regs : MockRegs)
    → ((mock_write r v regs).0 ≡ 0)
      × (holds (mock_write r v regs).1 b ≡ (if r.address == b then v else holds regs b))
      × ((mock_read r regs).0 ≡ (0, holds regs r.address))
      × (holds (mock_read r regs).1 b ≡ holds regs b)
      × (holds (set_mock_value r.address v regs) b ≡ (if r.address == b then v else holds regs b))
      × ((get_mock_value b regs).0 ≡ holds regs b)
      × (holds (get_mock_value r.address regs).1 b ≡ holds regs b)
      × (holds (clear_mock_values regs) b ≡ 0)
unfolding mock_write mock_read set_mock_value get_mock_value clear_mock_values find
mock_regs_refine r v b regs = (
  refl,
  holds-assign r.address v b regs,
  ap (λ w. (0, w)) (index_value r.address regs),
  index_keeps r.address b regs,
  holds-assign r.address v b regs,
  index_value b regs,
  index_keeps r.address b regs,
  refl,
)
