-- ===== src/Reg/Tests.antt =====
-- A client of Reg on a board and on the host.
use cocoapuffs_fpga.Prelude.{◌≡◌, refl, true, none, some, List, [], ◌∷◌, replicate}
use cocoapuffs_fpga.Machine.{Machine, done, load32, store32}
use cocoapuffs_fpga.Machine.Frame.{final}
use cocoapuffs_fpga.Reg.{Reg, lib_reg_read, lib_reg_write, read, write}
use cocoapuffs_fpga.Reg.Mock.Laws.{holds-empty}
use cocoapuffs_fpga.Reg.Agreement.{
  Access, reading, writing, Reply, on_board, on_host, plain, Agree, board_and_host,
}

abbrev first : Reg
first = record { address = 0x3000 }

abbrev second : Reg
second = record { address = 0x3004 }

-- A register written and read, and one that was never written.
abbrev client : List Access
client = writing first 5 ∷ reading first ∷ reading second ∷ []

abbrev board : Machine
board = record {
  script = 5 ∷ 0 ∷ [];
  trace = [];
  uart_buf = record { buf = replicate 256 0; rd = 0; wr = 0 };
}

abbrev replies : List Reply
replies = (0, none) ∷ (0, some 5) ∷ (0, some 0) ∷ []

client_runs : on_board client board ≡ done replies (final (on_board client board))
unfolding on_board read write lib_reg_read lib_reg_write load32 store32
client_runs = refl

empty-Agree : Agree [] board
empty-Agree a = holds-empty a

client-plain : plain (final (on_board client board)).trace ≡ true
unfolding on_board read write lib_reg_read lib_reg_write load32 store32
client-plain = refl

board_and_host_example :
    (replies ≡ (on_host client []).0) × Agree (on_host client []).1 (final (on_board client board))
board_and_host_example = board_and_host client [] board client_runs client-plain empty-Agree
