-- ===== src/SdCard/Block.antt =====
-- ReadBlock: the conversation with the card on every path, and what it leaves in the buffer.
use cocoapuffs_fpga.Prelude.{
  ℕ, ◌+◌, ◌<◌, ◌≡◌, sym, subst, ◌⊎◌, Bool, true, false, not, ◌&&◌, List, [], ◌∷◌, ◌++◌, length,
  ◌==◌, replicate,
}
use cocoapuffs_fpga.Prelude.Int.{ℤ, pos, negsuc}
use cocoapuffs_fpga.Machine.{pure, ◌>>◌, Machine, done, bind-eq-done, done-machine, done-result}
use cocoapuffs_fpga.SdCard.{is, retries, block_size, deselect}
use cocoapuffs_fpga.SdCard.Exchange.{Talked}
use cocoapuffs_fpga.SdCard.Select.{CsLevel, deselect-CsLevel}

-- No data token among the bytes.
abbrev pub no_token : List ℕ → Bool
no_token [] = true
no_token (b ∷ bs) = not (b == 0xfe) && no_token bs

-- The wait for the data token, where `left` is what is left of `n` retries.
abbrev pub Waited : ℕ → List ℕ → ℕ → Type 0
Waited n inp left =
    ((early : List ℕ) × (inp ≡ early ++ 0xfe ∷ [])
      × (no_token early ≡ true)
      × (length early + left ≡ n)
      × (0 < left))
    ⊎ ((left ≡ 0) × (length inp ≡ n) × (no_token inp ≡ true))

-- What ReadBlock has done after the command, whose response was `answer`: `out` and `inp` are the
-- bytes exchanged, `r` the result and `bytes` what was stored. Each path ends with the idle byte
-- of Deselect.
pub data Block (answer : ℤ) : List ℕ → List ℕ → ℤ → List ℕ → Type 0 where
  refused : (idle : ℕ) → is answer 0 ≡ false → Block answer (0xff ∷ []) (idle ∷ []) (negsuc 0) []
  timeout :
      (waits : List ℕ) (idle : ℕ)
      → is answer 0 ≡ true
      → length waits ≡ retries
      → no_token waits ≡ true
      → Block answer (replicate (length waits) 0xff ++ 0xff ∷ []) (waits ++ idle ∷ []) (negsuc 1) []
  complete :
      (waits early bytes : List ℕ) (crc0 crc1 idle : ℕ)
      → is answer 0 ≡ true
      → waits ≡ early ++ 0xfe ∷ []
      → no_token early ≡ true
      → length early < retries
      → length bytes ≡ block_size
      → Block answer
          (replicate (length waits) 0xff ++ (replicate block_size 0xff ++ 0xff ∷ 0xff ∷ 0xff ∷ []))
          (waits ++ (bytes ++ crc0 ∷ crc1 ∷ idle ∷ []))
          (pos 0)
          bytes

module _ (base_address : ℕ) where
  -- Deselect before a result.
  pub deselect-then :
      {A : Type 0} (a : A) (m : Machine) {b : A} {m' : Machine}
      → (deselect base_address >> pure a) m ≡ done b m'
      → (s : ℕ) × (b ≡ a)
        × Talked base_address (0xff ∷ []) (s ∷ []) m m'
        × CsLevel base_address 1 m'
  deselect-then a m {b} {m'} h =
      let (u, k, off, last) = bind-eq-done (deselect base_address m) (λ _ m. done a m) h in
      let (s, talk, high) = deselect-CsLevel base_address m off in
      let same = done-machine last in
      (
        s,
        sym (done-result last),
        subst (Talked base_address (0xff ∷ []) (s ∷ []) m) same talk,
        subst (CsLevel base_address 1) same high,
      )

  -- From `m` to `m'` the bytes of such a path were exchanged, and CS_N ends high.
  abbrev pub Told : ℤ → Machine → ℤ × List ℕ → Machine → Type 0
  Told answer m x m' =
      (out inp : List ℕ) × Talked base_address out inp m m'
      × CsLevel base_address 1 m'
      × Block answer out inp x.0 x.1
