-- ===== src/Arch.antt =====
-- lib/arch/rv32/irq.cc, and lib/arch/x86_64/irq.cc with the same text: the entry of interrupts for
-- programs that set a handler of their own. `main_handler`, which no file of the repository defines,
-- is a parameter.
use cocoapuffs_fpga.Prelude.{ℕ, Option, none, some}
use cocoapuffs_fpga.Machine.{M, pure, ◌>>=◌}
use cocoapuffs_fpga.Pic.{Pic, read_irqs}

-- default_handler, on what main_handler and pic::instance point to. The handler is called with a null
-- pointer and the pending interrupts.
unfoldable pub default_handler : Option (ℕ → M (Unit {0})) → Option Pic → M (Unit {0})
default_handler none instance_ = pure tt
default_handler (some main_handler) instance_ = read_irqs instance_ >>= main_handler
