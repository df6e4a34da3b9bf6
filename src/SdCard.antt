-- ===== src/SdCard.antt =====
-- lib/sdcard.h: the driver of the SD card behind the sdcard_wblite peripheral, a data register and
-- a control register. Bit 0 of the control register is CS_N, which selects the card when it is
-- clear, and bit 1 is the busy flag.
pub mod Exchange
pub mod Command
pub mod Select
pub mod Block
pub mod Start
pub mod Serve
mod Tests
use cocoapuffs_fpga.Prelude.{
  ℕ, zero, suc, ◌+◌, ◌*◌, ◌/◌, ◌%◌, ◌^◌, bit_and, bit_or, Bool, true, false, not, Option, none,
  some, List, [], ◌∷◌, ◌++◌, ◌==◌, if◌then◌else◌,
}
use cocoapuffs_fpga.Prelude.Int.{ℤ, pos, negsuc}
use cocoapuffs_fpga.Machine.{M, pure, bind, ◌>>=◌, ◌>>◌}
use cocoapuffs_fpga.Machine.Loop.{until}
use cocoapuffs_fpga.Reg
use cocoapuffs_fpga.Reg.{Reg}

-- namespace sdcard_commands
abbrev pub cmd0 : ℕ
cmd0 = 0x40

abbrev pub cmd8 : ℕ
cmd8 = 0x48

abbrev pub cmd17 : ℕ
cmd17 = 0x51

abbrev pub cmd55 : ℕ
cmd55 = 0x77

abbrev pub acmd41 : ℕ
acmd41 = 0x69

-- `result == n` on an `int`.
abbrev pub is : ℤ → ℕ → Bool
is (pos m) n = m == n
is (negsuc m) n = false

-- Where a command, or a block, waits for the card: the rounds of the loop.
abbrev pub response_polls : ℕ
response_polls = 10

abbrev pub retries : ℕ
retries = 10000

abbrev pub block_size : ℕ
block_size = 512

-- The parameter is BASE_ADDRESS, a `uint32_t`.
module _ (base_address : ℕ) where
  abbrev pub data_reg : Reg
  data_reg = record { address = base_address % 2 ^ 32 }

  abbrev pub ctrl_reg : Reg
  ctrl_reg = record { address = (base_address + 4) % 2 ^ 32 }

  -- One round of the wait for the busy bit to clear.
  abbrev pub poll_busy : M (Option (Unit {0}))
  poll_busy = do r ← Reg.read ctrl_reg; pure (if not (bit_and r.1 2 == 0) then none else some tt)

  unfoldable pub transfer : ℕ → M ℕ
  transfer out = do
    Reg.write data_reg out
    until poll_busy
    r ← Reg.read data_reg
    pure (bit_and r.1 0xff)

  -- `ctrl &= ~1` on 32 bits.
  unfoldable pub select : M (Unit {0})
  select = do r ← Reg.read ctrl_reg; Reg.write ctrl_reg (bit_and r.1 0xffff_fffe); pure tt

  unfoldable pub deselect : M (Unit {0})
  deselect = do r ← Reg.read ctrl_reg; Reg.write ctrl_reg (bit_or r.1 1); transfer 0xff; pure tt

  -- `for (int i = 0; i < n; ++i) buffer[i] = Transfer(0xFF);`
  unfoldable pub read_bytes : ℕ → M (List ℕ)
  read_bytes zero = pure []
  read_bytes (suc left) = do b ← transfer 0xff; bs ← read_bytes left; pure (b ∷ bs)

  unfoldable pub poll_response : ℕ → M ℤ
  poll_response zero = pure (negsuc 0)
  poll_response (suc left) = transfer 0xff >>= λ res.
      let rest = poll_response left in if bit_and res 0x80 == 0 then pure (pos res) else rest

  unfoldable pub send_command : ℕ → ℕ → ℕ → M ℤ
  send_command cmd arg crc = do
    transfer 0xff
    transfer cmd
    transfer (arg / 2 ^ 24 % 256)
    transfer (arg / 2 ^ 16 % 256)
    transfer (arg / 2 ^ 8 % 256)
    transfer (arg % 256)
    transfer crc
    poll_response response_polls

  -- The loop that sends ACMD41, with the retries left; its result is `retries` after it.
  unfoldable pub wait_ready : ℕ → M ℕ
  wait_ready zero = pure 0
  wait_ready (suc left) = send_command cmd55 0 0xff >>= λ ignored.
      send_command acmd41 0x4000_0000 0xff >>= λ res.
      let rest = wait_ready left in if is res 0 then pure (suc left) else rest

  -- What Init does once the card is idle.
  start_card : M ℤ
  start_card = do
    res ← send_command cmd8 0x1aa 0x87
    (if is res 1 then read_bytes 4 else pure [])
    left ← wait_ready retries
    (if left == 0
        then deselect >> pure (negsuc 1)
        else (do deselect; Reg.write ctrl_reg (2 * 2 ^ 16 + 1); pure (pos 0)))

  unfoldable pub init : M ℤ
  unfolding start_card
  init = do
    Reg.write ctrl_reg (100 * 2 ^ 16 + 1)
    read_bytes 10
    select
    res ← send_command cmd0 0 0x95
    (if not (is res 1) then deselect >> pure (negsuc 0) else start_card)

  -- The loop that waits for the data token; its result is `retries` after it.
  unfoldable pub wait_token : ℕ → M ℕ
  wait_token zero = pure 0
  wait_token (suc left) = transfer 0xff >>= λ token.
      let rest = wait_token left in if token == 0xfe then pure (suc left) else rest

  -- What ReadBlock does once the command is accepted.
  read_data : M (ℤ × List ℕ)
  read_data = do
    left ← wait_token retries
    (if left == 0 then deselect >> pure (negsuc 1, []) else (do
      bytes ← read_bytes block_size
      transfer 0xff
      transfer 0xff
      deselect
      pure (pos 0, bytes)))

  -- The first argument is whether `buffer` is not null; the result comes with what was stored there.
  unfoldable pub read_block : Bool → ℕ → M (ℤ × List ℕ)
  unfolding read_data
  read_block buffer block_addr = if not buffer then pure (negsuc 0, []) else (do
    select
    res ← send_command cmd17 block_addr 0xff
    (if not (is res 0) then deselect >> pure (negsuc 0, []) else read_data))
