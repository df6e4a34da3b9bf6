-- ===== src/Machine/Loop.antt =====
-- Busy-wait loops: `do { … } while (!ready)` around a body that loads at least one word.
use cocoapuffs_fpga.Prelude.{
  ℕ, zero, suc, ◌<◌, ◌≡◌, refl, ap, subst, ◌∙◌, Option, none, some, arith, length,
}
use cocoapuffs_fpga.Machine.{
  Machine, M, Outcome, done, waiting, halted, fault, bind, bind-eq-done, done-machine, done-result,
}

-- One round after another until the body answers `some`. Each round loads, so the script bounds
-- the number of rounds.
unfoldable pub rounds : {A : Type 0} → ℕ → M (Option A) → M A
rounds zero body m = waiting m
rounds (suc n) body m =
    bind (body m) λ o m'. elim o [ none ↦ rounds n body m' | some a ↦ done a m' ]

unfoldable pub until : {A : Type 0} → M (Option A) → M A
unfolding rounds
until body m = rounds (suc (length m.script)) body m

-- A failed round has used up part of the script.
abbrev pub Spends : {A : Type 0} → M (Option A) → Type 0
Spends body = (m m' : Machine) → body m ≡ done none m' → length m'.script < length m.script

-- What comes after one round.
abbrev pub retry : {A : Type 0} → M (Option A) → Option A → M A
retry body (some a) m = done a m
retry body none m = until body m

module _ {A : Type 0} (body : M (Option A)) (spends : Spends body) where
  rounds_enough :
      (n k : ℕ) (m : Machine)
      → length m.script < n
      → length m.script < k
      → rounds n body m ≡ rounds k body m
  unfolding rounds
  rounds_enough zero k m p q = absurd (omega arith)
  rounds_enough (suc n) zero m p q = absurd (omega arith)
  rounds_enough (suc n) (suc k) m p q =
      after (body m) refl
        λ m' e. rounds_enough n k m' (omega (arith, spends m m' e)) (omega (arith, spends m m' e))
    where
      after :
          (r : Outcome (Option A))
          → body m ≡ r
          → ((m' : Machine) → body m ≡ done none m' → rounds n body m' ≡ rounds k body m')
          → rounds (suc n) body m ≡ rounds (suc k) body m
      after (done none m') e again = rw (e, rounds) (again m' e)
      after (done (some a) m') e again = rw (e, rounds)
      after (waiting m') e again = rw (e, rounds)
      after (halted m') e again = rw (e, rounds)
      after (fault m') e again = rw (e, rounds)

  -- The loop is one round, and then the loop again: the bound on the rounds is never met.
  pub until-eq-retry : (m : Machine) → until body m ≡ bind (body m) (retry body)
  unfolding until rounds
  until-eq-retry m = after (body m) refl
    where
      after : (r : Outcome (Option A)) → body m ≡ r → until body m ≡ bind r (retry body)
      after (done none m') e =
          rw (e, until, rounds)
            (rounds_enough (length m.script) (suc (length m'.script)) m' (spends m m' e)
              (omega arith))
      after (done (some a) m') e = rw (e, until, rounds)
      after (waiting m') e = rw (e, until, rounds)
      after (halted m') e = rw (e, until, rounds)
      after (fault m') e = rw (e, until, rounds)

-- A first round that answers `some` is the whole loop.
pub until_first :
    {A : Type 0} (body : M (Option A)) (m : Machine) {a : A} {m' : Machine}
    → body m ≡ done (some a) m'
    → until body m ≡ done a m'
unfolding until rounds
until_first body m e =
    ap (λ r. bind r λ o k. elim o [ none ↦ rounds (length m.script) body k | some a ↦ done a k ]) e

-- A loop that ends has ended with a round that answered `some`.
rounds_last :
    {A : Type 0} (n : ℕ) (body : M (Option A)) (m : Machine) {a : A} {m' : Machine}
    → rounds n body m ≡ done a m'
    → (k : Machine) × (body k ≡ done (some a) m')
unfolding rounds
rounds_last zero body m h = cc
rounds_last {A} (suc n) body m {a} {m'} h =
    let (o, k, round, more) =
      bind-eq-done (body m) (λ o m'. elim o [ none ↦ rounds n body m' | some a ↦ done a m' ]) h in
    go o k round more λ k e. rounds_last n body k e
  where
    go :
        (o : Option A) (k : Machine)
        → body m ≡ done o k
        → (elim o [ none ↦ rounds n body k | some a ↦ done a k ]) ≡ done a m'
        → ((k : Machine)
            → rounds n body k ≡ done a m'
            → (l : Machine) × (body l ≡ done (some a) m'))
        → (l : Machine) × (body l ≡ done (some a) m')
    go none k round more again = again k more
    go (some b) k round more again = (
      m,
      round
          ∙ (ap (λ x. done (some x) k) (done-result more) ∙ ap (done (some a)) (done-machine more)),
    )

pub until_last :
    {A : Type 0} (body : M (Option A)) (m : Machine) {a : A} {m' : Machine}
    → until body m ≡ done a m'
    → (k : Machine) × (body k ≡ done (some a) m')
unfolding until
until_last body m h = rounds_last (suc (length m.script)) body m h

-- A transitive relation that every round makes is made by a loop that ends.
module _ {A : Type 0} (R : Machine → Machine → Type 0)
    (also : (m n o : Machine) → R m n → R n o → R m o) (body : M (Option A))
    (round : (m : Machine) (o : Option A) (m' : Machine) → body m ≡ done o m' → R m m') where
  rounds_made : (n : ℕ) (m : Machine) {a : A} {m' : Machine} → rounds n body m ≡ done a m' → R m m'
  unfolding rounds
  rounds_made zero m h = cc
  rounds_made (suc n) m {a} {m'} h =
      let (o, k, first, more) =
        bind-eq-done (body m) (λ o m'. elim o [ none ↦ rounds n body m' | some a ↦ done a m' ]) h in
      go o k (round m o k first) more λ k e. rounds_made n k e
    where
      go :
          (o : Option A) (k : Machine)
          → R m k
          → (elim o [ none ↦ rounds n body k | some a ↦ done a k ]) ≡ done a m'
          → ((k : Machine) → rounds n body k ≡ done a m' → R k m')
          → R m m'
      go none k made more again = also m k m' made (again k more)
      go (some b) k made more again = subst (R m) (done-machine more) made

  pub until_made : (m : Machine) {a : A} {m' : Machine} → until body m ≡ done a m' → R m m'
  unfolding until
  until_made m h = rounds_made (suc (length m.script)) m h
