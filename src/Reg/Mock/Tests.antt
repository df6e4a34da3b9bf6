-- ===== src/Reg/Mock/Tests.antt =====
-- lib/reg_test.cc: values that are written are read, and a register that was not written is 0.
use cocoapuffs_fpga.Prelude.{◌≡◌, refl, [], ◌∷◌}
use cocoapuffs_fpga.Reg.{Reg}
use cocoapuffs_fpga.Reg.Mock.{
  MockRegs, index, mock_read, mock_write, set_mock_value, get_mock_value, clear_mock_values,
}
use cocoapuffs_fpga.Reg.Mock.Laws.{holds, mock_regs_refine}

abbrev reg1 : Reg
reg1 = record { address = 0x3000 }

abbrev written : MockRegs
written = (0x3000, 0x1111) ∷ (0x3004, 0x2222) ∷ []

multiple_registers :
    ((mock_read reg1 written).0 ≡ (0, 0x1111))
    × ((get_mock_value 0x3004 written).0 ≡ 0x2222)
    × ((mock_read reg1 []).0 ≡ (0, 0))
unfolding mock_read get_mock_value index
multiple_registers = (refl, refl, refl)

mock_regs_refine_example :
    ((mock_write reg1 7 written).0 ≡ 0)
    × (holds (mock_write reg1 7 written).1 0x3004 ≡ holds written 0x3004)
    × ((mock_read reg1 written).0 ≡ (0, holds written 0x3000))
    × (holds (mock_read reg1 written).1 0x3004 ≡ holds written 0x3004)
    × (holds (set_mock_value 0x3000 7 written) 0x3004 ≡ holds written 0x3004)
    × ((get_mock_value 0x3004 written).0 ≡ holds written 0x3004)
    × (holds (get_mock_value 0x3000 written).1 0x3004 ≡ holds written 0x3004)
    × (holds (clear_mock_values written) 0x3004 ≡ 0)
mock_regs_refine_example = mock_regs_refine reg1 7 0x3004 written
