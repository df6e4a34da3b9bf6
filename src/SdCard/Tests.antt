-- ===== src/SdCard/Tests.antt =====
-- Conversations with cards that are never busy, at the address 0x40000060.
use cocoapuffs_fpga.Prelude.{ℕ, ◌≡◌, refl, arith, true, List, [], ◌∷◌, ◌++◌, length, replicate}
use cocoapuffs_fpga.Prelude.Int.{pos}
use cocoapuffs_fpga.Machine.{Machine, Outcome, done, waiting, halted, fault, load32, store32}
use cocoapuffs_fpga.Machine.Loop.{until}
use cocoapuffs_fpga.Reg
use cocoapuffs_fpga.Reg.{lib_reg_read, lib_reg_write}
use cocoapuffs_fpga.SdCard.{cmd8, response_polls, transfer, poll_response, send_command, read_block}
use cocoapuffs_fpga.SdCard.Exchange.{Exchanged}
use cocoapuffs_fpga.SdCard.Command.{big_endian, all_bytes, frame, Responded, send_command-Responded}
use cocoapuffs_fpga.SdCard.Serve.{quiet, read_block-total}

abbrev card : List ℕ → Machine
card script = record {
  script = script;
  trace = [];
  uart_buf = record { buf = replicate 256 0; rd = 0; wr = 0 };
}

abbrev final : {A : Type 0} → Outcome A → Machine
final (done a m) = m
final (waiting m) = m
final (halted m) = m
final (fault m) = m

abbrev base : ℕ
base = 0x4000_0060

-- The response comes with the second poll.
abbrev slow_card : Machine
slow_card = card (quiet (replicate 8 0xff ++ 1 ∷ []) [])

slow_answer :
    send_command base cmd8 0x1aa 0x87 slow_card
    ≡ done (pos 1) (final (send_command base cmd8 0x1aa 0x87 slow_card))
unfolding send_command poll_response transfer until load32 store32 Reg.read Reg.write lib_reg_read
    lib_reg_write
slow_answer = refl

send_command-Responded_example :
    (word skipped inp : List ℕ) × (big_endian word 0 ≡ 0x1aa)
    × (all_bytes word ≡ true)
    × (length word ≡ 4)
    × (length skipped ≡ 7)
    × Exchanged base
        (frame cmd8 word 0x87 (length inp))
        (skipped ++ inp)
        slow_card
        (final (send_command base cmd8 0x1aa 0x87 slow_card))
    × Responded response_polls inp (pos 1)
send_command-Responded_example =
    send_command-Responded base cmd8 0x1aa 0x87 slow_card (omega arith) slow_answer

-- A card that refuses CMD17.
abbrev refusing : Machine
refusing = card (1 ∷ quiet (replicate 7 0xff ++ 4 ∷ []) (0 ∷ quiet (0xff ∷ []) []))

-- A card that is not idle after CMD0.
abbrev broken : Machine
broken =
    card (
      quiet (replicate 10 0xff) (1 ∷ quiet (replicate 7 0xff ++ 4 ∷ []) (0 ∷ quiet (0xff ∷ []) [])))

-- A card that sends a block of 0x5a.
abbrev filled_block : List ℕ
filled_block = replicate 512 0x5a

abbrev serving : Machine
serving = card (
    0
    ∷ quiet (replicate 7 0xff ++ 0 ∷ 0xfe ∷ [])
        (quiet filled_block (quiet (1 ∷ 2 ∷ []) (0 ∷ quiet (0xff ∷ []) []))))

read_block-total_example :
    (m' : Machine) × (read_block base true 7 serving ≡ done (pos 0, filled_block) m')
    × (m'.script ≡ [])
read_block-total_example =
    read_block-total base 7 0 255 255 255 255 255 255 255 filled_block 1 2 0 255 [] serving refl
      refl refl
