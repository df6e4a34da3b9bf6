-- ===== src/SdCard/Command.antt =====
-- SendCommand: the frame that goes out and the response that comes back.
use cocoapuffs_fpga.Prelude.{
  ℕ, zero, suc, ◌+◌, ◌*◌, ◌/◌, ◌%◌, ◌^◌, ◌<◌, ◌≡◌, refl, sym, subst, ap, ◌⊎◌, inl, inr, bit_and,
  Bool, true, false, not, ◌&&◌, List, [], ◌∷◌, ◌++◌, arith, length, ltb, ◌==◌, Bool-cases,
  replicate,
}
use cocoapuffs_fpga.Prelude.Int.{ℤ, pos, negsuc}
use cocoapuffs_fpga.Machine.{M, ◌>>◌, Machine, done, bind-eq-done, done-machine, done-result}
use cocoapuffs_fpga.SdCard.{transfer, poll_response, send_command, response_polls}
use cocoapuffs_fpga.SdCard.Exchange.{Exchanged, Exchanged-refl, Exchanged-trans, transfer-Exchanged}

-- A command and its argument as they are sent, and the bytes that ask for the response.
abbrev pub frame : ℕ → List ℕ → ℕ → ℕ → List ℕ
frame cmd word crc polls = 0xff ∷ cmd ∷ word ++ crc ∷ replicate polls 0xff

-- No response yet: the top bit is set.
abbrev pub no_response : ℕ → Bool
no_response b = not (bit_and b 0x80 == 0)

abbrev pub all_silent : List ℕ → Bool
all_silent [] = true
all_silent (b ∷ bs) = no_response b && all_silent bs

-- What the polls found: a response after fewer than `n` bytes that are none, or `n` such bytes.
abbrev pub Responded : ℕ → List ℕ → ℤ → Type 0
Responded n inp r =
    ((busy : List ℕ) × (b : ℕ) × (inp ≡ busy ++ b ∷ [])
      × (length busy < n)
      × (all_silent busy ≡ true)
      × (no_response b ≡ false)
      × (r ≡ pos b))
    ⊎ ((length inp ≡ n) × (all_silent inp ≡ true) × (r ≡ negsuc 0))

Responded-more :
    (n : ℕ) (b : ℕ) (inp : List ℕ) {r : ℤ}
    → no_response b ≡ true
    → Responded n inp r
    → Responded (suc n) (b ∷ inp) r
Responded-more n b inp e (inl (busy, c, split, short, silent, top, result)) =
    inl (b ∷ busy, c, ap (◌∷◌ b) split, omega arith, rw e silent, top, result)
Responded-more n b inp e (inr (long, silent, result)) = inr (ap suc long, rw e silent, result)

-- The number that four bytes spell, the most significant first.
abbrev pub big_endian : List ℕ → ℕ → ℕ
big_endian [] acc = acc
big_endian (b ∷ bs) acc = big_endian bs (256 * acc + b)

abbrev pub all_bytes : List ℕ → Bool
all_bytes [] = true
all_bytes (b ∷ bs) = ltb b 256 && all_bytes bs

abbrev argument_bytes : ℕ → List ℕ
argument_bytes arg = arg / 2 ^ 24 % 256 ∷ arg / 2 ^ 16 % 256 ∷ arg / 2 ^ 8 % 256 ∷ arg % 256 ∷ []

big_endian_lem : (arg : ℕ) → arg < 2 ^ 32 → big_endian (argument_bytes arg) 0 ≡ arg
big_endian_lem arg small = omega arith

ltb_byte : (n : ℕ) → ltb (n % 256) 256 ≡ true
ltb_byte n = ground arith

all_bytes_lem : (arg : ℕ) → all_bytes (argument_bytes arg) ≡ true
all_bytes_lem arg =
    rw (ltb_byte (arg / 2 ^ 24), ltb_byte (arg / 2 ^ 16), ltb_byte (arg / 2 ^ 8), ltb_byte arg)

module _ (base_address : ℕ) where
  poll_response-Responded :
      (n : ℕ) (m : Machine) {r : ℤ} {m' : Machine}
      → poll_response base_address n m ≡ done r m'
      → (inp : List ℕ) × Exchanged base_address (replicate (length inp) 0xff) inp m m'
        × Responded n inp r
  unfolding poll_response
  poll_response-Responded zero m {r} {m'} h = (
    [],
    subst (Exchanged base_address [] [] m) (done-machine h) (Exchanged-refl base_address m),
    inr (refl, refl, sym (done-result h)),
  )
  poll_response-Responded (suc n) m {r} {m'} h =
      let (b, k, first, more) = bind-eq-done (transfer base_address 0xff m) _ h in
      let got = transfer-Exchanged base_address 0xff m first in
      elim (Bool-cases (bit_and b 0x80 == 0)) [
        | inl answered ↦
            let last = rw answered at more in
            (
              b ∷ [],
              subst (Exchanged base_address (0xff ∷ []) (b ∷ []) m) (done-machine last) got,
              inl ([], b, refl, omega arith, refl, ap not answered, sym (done-result last)),
            )
        | inr silent ↦
            let (inp, talk, found) = poll_response-Responded n k (rw silent at more) in
            (
              b ∷ inp,
              Exchanged-trans base_address got talk,
              Responded-more n b inp (ap not silent) found,
            )
      ]

  -- A Transfer whose result is dropped, and what follows it.
  pub transfer-then :
      {A : Type 0} (b : ℕ) (f : M A) (m : Machine) {a : A} {m' : Machine}
      → (transfer base_address b >> f) m ≡ done a m'
      → (s : ℕ) × (k : Machine) × Exchanged base_address (b ∷ []) (s ∷ []) m k × (f k ≡ done a m')
  transfer-then b f m h =
      let (s, k, first, more) = bind-eq-done (transfer base_address b m) (λ _. f) h in
      (s, k, transfer-Exchanged base_address b m first, more)

  -- A SendCommand that returns has sent an idle byte, the command, its argument in big-endian order
  -- and the CRC, and then 0xff for each byte that it polled: its result is the first of at most ten
  -- whose top bit is clear, or -1 if there is none. The first seven bytes that came in are dropped.
  pub send_command-Responded :
      (cmd arg crc : ℕ) (m : Machine) {r : ℤ} {m' : Machine}
      → arg < 2 ^ 32
      → send_command base_address cmd arg crc m ≡ done r m'
      → (word skipped inp : List ℕ) × (big_endian word 0 ≡ arg)
        × (all_bytes word ≡ true)
        × (length word ≡ 4)
        × (length skipped ≡ 7)
        × Exchanged base_address (frame cmd word crc (length inp)) (skipped ++ inp) m m'
        × Responded response_polls inp r
  unfolding send_command
  send_command-Responded cmd arg crc m {r} {m'} small h =
      let (s0, m0, x0, h0) = transfer-then 0xff _ m h in
      let (s1, m1, x1, h1) = transfer-then cmd _ m0 h0 in
      let (s2, m2, x2, h2) = transfer-then (arg / 2 ^ 24 % 256) _ m1 h1 in
      let (s3, m3, x3, h3) = transfer-then (arg / 2 ^ 16 % 256) _ m2 h2 in
      let (s4, m4, x4, h4) = transfer-then (arg / 2 ^ 8 % 256) _ m3 h3 in
      let (s5, m5, x5, h5) = transfer-then (arg % 256) _ m4 h4 in
      let (s6, m6, x6, h6) = transfer-then crc _ m5 h5 in
      let (inp, talk, found) = poll_response-Responded response_polls m6 h6 in
      (
        argument_bytes arg,
        s0 ∷ s1 ∷ s2 ∷ s3 ∷ s4 ∷ s5 ∷ s6 ∷ [],
        inp,
        big_endian_lem arg small,
        all_bytes_lem arg,
        refl,
        refl,
        Exchanged-trans base_address x0 (
            Exchanged-trans base_address x1 (
              Exchanged-trans base_address x2 (
                Exchanged-trans base_address x3 (
                  Exchanged-trans base_address x4
                    (Exchanged-trans base_address x5 (Exchanged-trans base_address x6 talk)))))),
        found,
      )
