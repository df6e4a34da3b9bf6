-- ===== src/Machine/Trace.antt =====
-- The record of accesses, read as the streams that one address has seen, oldest first.
use cocoapuffs_fpga.Prelude.{
  ℕ, Bool, true, ◌&&◌, ◌≡◌, refl, arith, Option, none, some, List, [], ◌∷◌, ◌++◌, ◌==◌,
  if◌then◌else◌,
}
use cocoapuffs_fpga.Machine.{Event, load, store, store_byte, jump, Machine, done, load32}

-- The words stored at an address.
abbrev pub sent_to : ℕ → List Event → List ℕ
sent_to address [] = []
sent_to address (store a v ∷ t) =
    if a == address then sent_to address t ++ v ∷ [] else sent_to address t
sent_to address (_ ∷ t) = sent_to address t

-- The words loaded from an address.
abbrev pub loaded_from : ℕ → List Event → List ℕ
loaded_from address [] = []
loaded_from address (load a v ∷ t) =
    if a == address then loaded_from address t ++ v ∷ [] else loaded_from address t
loaded_from address (_ ∷ t) = loaded_from address t

-- The word that was stored last.
abbrev pub last_stored : ℕ → List Event → Option ℕ
last_stored address [] = none
last_stored address (store a v ∷ t) = if a == address then some v else last_stored address t
last_stored address (_ ∷ t) = last_stored address t

-- What a load that completes has done.
pub load32-done :
    (address : ℕ) (m : Machine) {v : ℕ} {k : Machine}
    → load32 address m ≡ done v k
    → (m.script ≡ v ∷ k.script) × (k.trace ≡ load address v ∷ m.trace) × (k.uart_buf ≡ m.uart_buf)
unfolding load32
load32-done address m {v} {k} h = go m.script refl
  where
    go :
        (s : List ℕ)
        → m.script ≡ s
        → (m.script ≡ v ∷ k.script)
          × (k.trace ≡ load address v ∷ m.trace)
          × (k.uart_buf ≡ m.uart_buf)
    go [] e = ground arith
    go (w ∷ rest) e = ground arith

pub load32_lem :
    (address : ℕ) (m : Machine) {v : ℕ} {rest : List ℕ}
    → m.script ≡ v ∷ rest
    → load32 address m ≡ done v (record m { script = rest; trace = load address v ∷ m.trace })
unfolding load32
load32_lem address m e = ground arith

-- A memory: each load returns the word that was stored last at its address, if there is one.
abbrev agrees : Option ℕ → ℕ → Bool
agrees none v = true
agrees (some w) v = v == w

abbrev pub coherent : List Event → Bool
coherent [] = true
coherent (load a v ∷ t) = agrees (last_stored a t) v && coherent t
coherent (_ ∷ t) = coherent t

-- The bytes stored, each with its address, oldest first.
abbrev pub bytes_stored : List Event → List (ℕ × ℕ)
bytes_stored [] = []
bytes_stored (store_byte a b ∷ t) = bytes_stored t ++ (a, b) ∷ []
bytes_stored (_ ∷ t) = bytes_stored t

-- The addresses jumped to, oldest first.
abbrev pub jumps : List Event → List ℕ
jumps [] = []
jumps (jump a ∷ t) = jumps t ++ a ∷ []
jumps (_ ∷ t) = jumps t
