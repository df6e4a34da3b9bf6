-- ===== src/Machine/Total.antt =====
-- Runs that complete: the result, and what is left of the script.
use cocoapuffs_fpga.Prelude.{ℕ, ◌≡◌, refl, ap, ◌∙◌, List, ◌∷◌}
use cocoapuffs_fpga.Machine.{Machine, M, done, bind, ◌>>=◌, load32, store32}
use cocoapuffs_fpga.Machine.Trace.{load32_lem}

abbrev pub Ran : {A : Type 0} → M A → Machine → A → List ℕ → Type 0
Ran c m a rest = (m' : Machine) × (c m ≡ done a m') × (m'.script ≡ rest)

pub Ran-bind :
    {A B : Type 0} (c : M A) (f : A → M B) (m : Machine) {a : A} {b : B} {s rest : List ℕ}
    → Ran c m a s
    → ((k : Machine) → k.script ≡ s → Ran (f a) k b rest)
    → Ran (c >>= f) m b rest
Ran-bind c f m (k, first, e) next =
    let (m', second, e') = next k e in (m', ap (λ r. bind r f) first ∙ second, e')

pub load32-Ran :
    (address v : ℕ) (rest : List ℕ) (m : Machine)
    → m.script ≡ v ∷ rest
    → Ran (load32 address) m v rest
load32-Ran address v rest m e = (_, load32_lem address m e, refl)

pub store32-Ran :
    (address v : ℕ) (rest : List ℕ) (m : Machine)
    → m.script ≡ rest
    → Ran (store32 address v) m tt rest
unfolding store32
store32-Ran address v rest m e = (_, refl, e)
