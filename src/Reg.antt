-- ===== src/Reg.antt =====
-- lib/reg.cc and lib/reg.h: a memory-mapped register. On the boards a register is a volatile word;
-- in tests on the host it is an entry of the map `mock_regs` (`Reg.Mock`).
pub mod Mock
pub mod Agreement
mod Tests
use cocoapuffs_fpga.Prelude.{ℕ}
use cocoapuffs_fpga.Machine.{M, pure, ◌>>=◌, ◌>>◌, load32, store32}

-- class Reg
pub record Reg : Type 0 where
  pub address : ℕ

-- The status that every access returns (0 for success), and `*value`.
unfoldable pub lib_reg_read : ℕ → M (ℕ × ℕ)
lib_reg_read address = do value ← load32 address; pure (0, value)

unfoldable pub lib_reg_write : ℕ → ℕ → M ℕ
lib_reg_write address value = do store32 address value; pure 0

unfoldable pub read : Reg → M (ℕ × ℕ)
read r = lib_reg_read r.address

unfoldable pub write : Reg → ℕ → M ℕ
write r value = lib_reg_write r.address value
