-- ===== src/SdCard/Start.antt =====
-- Init: the conversation that starts the card, and the control register that it leaves.
use cocoapuffs_fpga.Prelude.{
  ℕ, ◌+◌, ◌*◌, ◌^◌, ◌<◌, ◌≡◌, ◌⊎◌, true, false, some, List, [], ◌∷◌, ◌++◌,
}
use cocoapuffs_fpga.Prelude.Int.{ℤ, pos, negsuc}
use cocoapuffs_fpga.Machine.{◌>>◌, Machine}
use cocoapuffs_fpga.Machine.Trace.{last_stored}
use cocoapuffs_fpga.Reg
use cocoapuffs_fpga.SdCard.{is}
use cocoapuffs_fpga.SdCard.Exchange.{ctrl_address, Talked}
use cocoapuffs_fpga.SdCard.Select.{CsLevel}

-- The bytes of a wait for the card, where `left` is what is left of the retries: the last one is 0,
-- or there is no retry left.
abbrev pub Ready : ℕ → List ℕ → Type 0
Ready left inp = (left ≡ 0) ⊎ ((0 < left) × ((before : List ℕ) × (inp ≡ before ++ 0 ∷ [])))

-- What Init has done from `m` to `m'` after CMD0, whose response was `answer`, and its result: the
-- card is not idle, or is never ready, and is deselected; or it was ready, as its last byte before
-- the idle byte of Deselect says, and the faster clock is set.
pub data Started (base_address : ℕ) (answer : ℤ) (m m' : Machine) : ℤ → Type 0 where
  not_idle :
      is answer 1 ≡ false → CsLevel base_address 1 m' → Started base_address answer m m' (negsuc 0)
  never_ready :
      is answer 1 ≡ true → CsLevel base_address 1 m' → Started base_address answer m m' (negsuc 1)
  started :
      (out before : List ℕ) (idle : ℕ)
      → is answer 1 ≡ true
      → Talked base_address (out ++ 0xff ∷ []) ((before ++ 0 ∷ []) ++ idle ∷ []) m m'
      → last_stored (ctrl_address base_address) m'.trace ≡ some (2 * 2 ^ 16 + 1)
      → Started base_address answer m m' (pos 0)
