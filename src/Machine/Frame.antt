-- ===== src/Machine/Frame.antt =====
-- What every run of a program part does to the machine, whether it completes or not: a reflexive
-- and transitive relation that each access keeps is kept by all that is built from them.
use cocoapuffs_fpga.Prelude.{
  ℕ, zero, suc, ◌≡◌, refl, sym, subst, arith, Bool, true, false, List, [], ◌∷◌, if◌then◌else◌,
  Option, none, some, length,
}
use cocoapuffs_fpga.Machine.{
  Machine, M, Outcome, done, waiting, halted, fault, bind, ◌>>=◌, load, load32,
}
use cocoapuffs_fpga.Machine.Trace.{load32_lem}
use cocoapuffs_fpga.Machine.Loop.{until, rounds}

-- The machine where a run stands, for whatever reason.
abbrev pub final : {A : Type 0} → Outcome A → Machine
final (done a m) = m
final (waiting m) = m
final (halted m) = m
final (fault m) = m

pub record Frame : Type 1 where
  pub Rel : Machine → Machine → Type 0
  pub same : (m : Machine) → Rel m m
  pub also : {m n o : Machine} → Rel m n → Rel n o → Rel m o

abbrev pub Keeps : Frame → {A : Type 0} → M A → Type 0
Keeps r c = (m : Machine) → r.Rel m (final (c m))

load32_silent : (address : ℕ) (m : Machine) → m.script ≡ [] → load32 address m ≡ waiting m
unfolding load32
load32_silent address m e = ground arith

module _ (r : Frame) where
  final-bind :
      {A B : Type 0} (o : Outcome A) (f : A → M B) (m : Machine)
      → r.Rel m (final o)
      → ((a : A) → Keeps r (f a))
      → r.Rel m (final (bind o f))
  final-bind (done a n) f m first next = r.also first (next a n)
  final-bind (waiting n) f m first next = first
  final-bind (halted n) f m first next = first
  final-bind (fault n) f m first next = first

  pub Keeps-bind :
      {A B : Type 0} (c : M A) (f : A → M B)
      → Keeps r c
      → ((a : A) → Keeps r (f a))
      → Keeps r (c >>= f)
  Keeps-bind c f first next m = final-bind (c m) f m (first m) next

  -- A stage that keeps the relation, and what follows it if it completes: `P` is a property of runs
  -- that holds wherever the relation does.
  pub stage :
      {A B : Type 0} (P : Outcome B → Type 0) (m : Machine) (c : M A) (f : A → M B) (k : Machine)
      → ((o : Outcome B) → r.Rel m (final o) → P o)
      → Keeps r c
      → r.Rel m k
      → ((a : A) (n : Machine) → c k ≡ done a n → r.Rel m n → P (f a n))
      → P (bind (c k) f)
  stage {A} {B} P m c f k stopped keeps before next = go (c k) refl (r.also before (keeps k))
    where
      go : (o : Outcome A) → c k ≡ o → r.Rel m (final o) → P (bind o f)
      go (done a n) e p = next a n e p
      go (waiting n) e p = stopped (waiting n) p
      go (halted n) e p = stopped (halted n) p
      go (fault n) e p = stopped (fault n) p

  pub Keeps-if :
      {A : Type 0} (b : Bool) (c d : M A) → Keeps r c → Keeps r d → Keeps r (if b then c else d)
  Keeps-if true c d p q = p
  Keeps-if false c d p q = q

  pub final-if :
      {A : Type 0} (b : Bool) (x y : Outcome A) (m : Machine)
      → r.Rel m (final x)
      → r.Rel m (final y)
      → r.Rel m (final (if b then x else y))
  final-if true x y m p q = p
  final-if false x y m p q = q

  next_round :
      {A : Type 0} (again : M A)
      → Keeps r again
      → (o : Option A) → Keeps r (λ m'. elim o [ none ↦ again m' | some a ↦ done a m' ])
  next_round again q none m' = q m'
  next_round again q (some a) m' = r.same m'

  Keeps-rounds : {A : Type 0} (n : ℕ) (body : M (Option A)) → Keeps r body → Keeps r (rounds n body)
  unfolding rounds
  Keeps-rounds zero body p m = r.same m
  Keeps-rounds (suc n) body p m =
      final-bind (body m) (λ o m'. elim o [ none ↦ rounds n body m' | some a ↦ done a m' ]) m (p m)
        (next_round (rounds n body) (Keeps-rounds n body p))

  pub Keeps-until : {A : Type 0} (body : M (Option A)) → Keeps r body → Keeps r (until body)
  unfolding until
  Keeps-until body p m = Keeps-rounds (suc (length m.script)) body p m

  pub Keeps-load32 :
      (address : ℕ)
      → ((v : ℕ) (rest : List ℕ) (m : Machine)
          → m.script ≡ v ∷ rest
          → r.Rel m (record m { script = rest; trace = load address v ∷ m.trace }))
      → Keeps r (load32 address)
  Keeps-load32 address step m = go m.script refl
    where
      go : (s : List ℕ) → m.script ≡ s → r.Rel m (final (load32 address m))
      go [] e = subst (λ o. r.Rel m (final o)) (sym (load32_silent address m e)) (r.same m)
      go (v ∷ rest) e =
          subst (λ o. r.Rel m (final o)) (sym (load32_lem address m e)) (step v rest m e)

  -- The part of it that speaks of runs that complete.
  pub Keeps-done :
      {A : Type 0} (c : M A) (m : Machine) {a : A} {m' : Machine}
      → Keeps r c
      → c m ≡ done a m'
      → r.Rel m m'
  Keeps-done c m p h = subst (λ o. r.Rel m (final o)) h (p m)
