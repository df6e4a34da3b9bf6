-- ===== src/Uart/Write.antt =====
-- UartBuf::PutAsync and UartBuf::Put: what one written character does to the machine.
use cocoapuffs_fpga.Prelude.{
  ℕ, ◌≤◌, ◌<◌, ◌≡◌, refl, sym, subst, ap, ◌∙◌, inl, inr, Bool, true, false, not, ◌&&◌, ◌||◌, none,
  some, List, [], ◌∷◌, ◌++◌, append_assoc, append-nil, arith, length, ◌==◌, if◌then◌else◌,
  Bool-cases,
}
use cocoapuffs_fpga.Machine.{
  Event, load, store, Machine, done, waiting, store32, done-machine, bind,
}
use cocoapuffs_fpga.Machine.Loop.{Spends, retry, until-eq-retry}
use cocoapuffs_fpga.Machine.Trace.{sent_to}
use cocoapuffs_fpga.Uart.{
  uart_address, uart_is_full, can_write, put_async, put, poll, uart_wait_available,
}
use cocoapuffs_fpga.Uart.Account.{
  received, Accounted, Fits, heard, can_write-heard, can_write_silent, length-received-heard,
  heard-Accounted,
}

-- The last access was a load of the port that found room for a character.
abbrev pub ready : List Event → Bool
ready (load a v ∷ t) = a == uart_address && not (uart_is_full v)
ready _ = false

-- Every store to the port comes directly after such a load.
abbrev pub polite : List Event → Bool
polite [] = true
polite (store a v ∷ t) = (not (a == uart_address) || ready t) && polite t
polite (_ ∷ t) = polite t

-- From `m` to `m'` exactly `text` was sent, only when there was room; what came in meanwhile is in
-- the ledger, if it fits.
pub record Spoke (text : List ℕ) (m m' : Machine) : Type 0 where
  pub sent : sent_to uart_address m'.trace ≡ sent_to uart_address m.trace ++ text
  pub keeps_polite : polite m.trace ≡ true → polite m'.trace ≡ true
  pub grown : length (received m.trace) ≤ length (received m'.trace)
  pub kept : (given : List ℕ) → Accounted given m → Fits given m' → Accounted given m'

pub Spoke-refl : (m : Machine) → Spoke [] m m
Spoke-refl m = record {
  sent = sym (append-nil _);
  keeps_polite = λ p. p;
  grown = omega arith;
  kept = λ given a f. a;
}

pub Spoke-trans : {s t : List ℕ} {m n o : Machine} → Spoke s m n → Spoke t n o → Spoke (s ++ t) m o
Spoke-trans {s} {t} {m} {n} {o} p q = record {
  sent = q.sent ∙ (ap (λ (l : List ℕ). l ++ t) p.sent ∙ append_assoc _ s t);
  keeps_polite = λ h. q.keeps_polite (p.keeps_polite h);
  grown = omega (arith, p.grown, q.grown);
  kept = λ given a f. q.kept given (p.kept given a (omega (arith, q.grown))) f;
}

heard-Spoke : (m : Machine) (v : ℕ) (rest : List ℕ) → Spoke [] m (heard v rest m)
heard-Spoke m v rest = record {
  sent = sym (append-nil _);
  keeps_polite = λ p. p;
  grown = length-received-heard m v rest;
  kept = λ given. heard-Accounted given m v rest;
}

abbrev pub wrote : ℕ → Machine → Machine
wrote c m = record m { trace = store uart_address c ∷ m.trace }

wrote-Spoke :
    (c v : ℕ) (rest : List ℕ) (m : Machine)
    → uart_is_full v ≡ false
    → Spoke (c ∷ []) (heard v rest m) (wrote c (heard v rest m))
wrote-Spoke c v rest m e = record {
  sent = refl;
  keeps_polite = λ p. rw e p;
  grown = omega arith;
  kept = λ given a f. record { valid = a.valid; all = a.all };
}

pub put_async_step :
    (c : ℕ) (m : Machine) {v : ℕ} {rest : List ℕ}
    → m.script ≡ v ∷ rest
    → put_async c m ≡ (
        if uart_is_full v
        then done false (heard v rest m)
        else done true (wrote c (heard v rest m)))
unfolding put_async store32
put_async_step c m {v} {rest} e = ground (arith, can_write-heard m e)

-- One round of Put.
put_round :
    (c : ℕ) (m : Machine) {v : ℕ} {rest : List ℕ}
    → m.script ≡ v ∷ rest
    → poll (put_async c) m ≡ (
        if uart_is_full v
        then done none (heard v rest m)
        else done (some tt) (wrote c (heard v rest m)))
put_round c m e = ground (arith, put_async_step c m e)

put_round_silent : (c : ℕ) (m : Machine) → m.script ≡ [] → poll (put_async c) m ≡ waiting m
unfolding put_async
put_round_silent c m e = rw (can_write_silent m e)

put_round-Spends : (c : ℕ) → Spends (poll (put_async c))
put_round-Spends c m m' h = go m.script refl
  where
    go : (s : List ℕ) → m.script ≡ s → length m'.script < length m.script
    go [] e = ground (arith, put_round_silent c m e)
    go (v ∷ rest) e = ground (arith, put_round c m e)

-- Put as a recursion on the answers of the port: each answer either ends the wait or is skipped.
pub put_step :
    (c : ℕ) (m : Machine) {v : ℕ} {rest : List ℕ}
    → m.script ≡ v ∷ rest
    → put c m
      ≡ (if uart_is_full v then put c (heard v rest m) else done tt (wrote c (heard v rest m)))
unfolding put
put_step c m {v} {rest} e =
    ground (arith, until-eq-retry (poll (put_async c)) (put_round-Spends c) m, put_round c m e)

pub put_silent : (c : ℕ) (m : Machine) → m.script ≡ [] → put c m ≡ waiting m
unfolding put
put_silent c m e =
    ground
      (arith, until-eq-retry (poll (put_async c)) (put_round-Spends c) m, put_round_silent c m e)

put_full :
    (c : ℕ) (m : Machine) {v : ℕ} {rest : List ℕ}
    → m.script ≡ v ∷ rest
    → uart_is_full v ≡ true
    → put c m ≡ put c (heard v rest m)
put_full c m e full = put_step c m e ∙ rw full

pub put_room :
    (c : ℕ) (m : Machine) {v : ℕ} {rest : List ℕ}
    → m.script ≡ v ∷ rest
    → uart_is_full v ≡ false
    → put c m ≡ done tt (wrote c (heard v rest m))
put_room c m e room = put_step c m e ∙ rw room

put-Spoke_on :
    (s : List ℕ) (c : ℕ) (m : Machine) {m' : Machine}
    → m.script ≡ s
    → put c m ≡ done tt m'
    → Spoke (c ∷ []) m m'
put-Spoke_on [] c m e h = ground (arith, put_silent c m e)
put-Spoke_on (v ∷ rest) c m {m'} e h = elim (Bool-cases (uart_is_full v)) [
  | inl full ↦
      Spoke-trans (heard-Spoke m v rest)
        (put-Spoke_on rest c (heard v rest m) refl (sym (put_full c m e full) ∙ h))
  | inr room ↦
      subst (Spoke (c ∷ []) m) (done-machine (sym (put_room c m e room) ∙ h))
        (Spoke-trans (heard-Spoke m v rest) (wrote-Spoke c v rest m room))
]

-- A completed Put has sent its character once, after a load that found room, and has lost nothing
-- that arrived while it waited, provided it fits.
pub put-Spoke : (c : ℕ) (m : Machine) {m' : Machine} → put c m ≡ done tt m' → Spoke (c ∷ []) m m'
put-Spoke c m h = put-Spoke_on m.script c m refl h

abbrev pub all_full : List ℕ → Bool
all_full [] = true
all_full (v ∷ vs) = uart_is_full v && all_full vs

-- Put returns at the first answer with room, and loads no further.
pub put-total :
    (busy : List ℕ) (v : ℕ) (rest : List ℕ) (c : ℕ) (m : Machine)
    → m.script ≡ busy ++ v ∷ rest
    → all_full busy ≡ true
    → uart_is_full v ≡ false
    → (m' : Machine) × (put c m ≡ done tt m') × (m'.script ≡ rest)
put-total [] v rest c m e b room = (wrote c (heard v rest m), put_room c m e room, refl)
put-total (w ∷ busy) v rest c m e b room =
    let later = put-total busy v rest c (heard w (busy ++ v ∷ rest) m) refl (ground arith) room in
    (later.0, put_full c m e (ground arith) ∙ later.1, later.2)

-- While every answer says that there is no room, it waits.
pub put_waits :
    (s : List ℕ) (c : ℕ) (m : Machine)
    → m.script ≡ s
    → all_full s ≡ true
    → (m' : Machine) × (put c m ≡ waiting m')
      × (sent_to uart_address m'.trace ≡ sent_to uart_address m.trace)
put_waits [] c m e b = (m, put_silent c m e, refl)
put_waits (v ∷ rest) c m e b =
    let later = put_waits rest c (heard v rest m) refl (ground arith) in
    (later.0, put_full c m e (ground arith) ∙ later.1, later.2)

-- uart_wait_available: its last load found room, and it sent nothing.
poll-can_write :
    (m : Machine) {v : ℕ} {rest : List ℕ}
    → m.script ≡ v ∷ rest
    → poll can_write m
      ≡ (if uart_is_full v then done none (heard v rest m) else done (some tt) (heard v rest m))
poll-can_write m {v} {rest} e = ground (arith, can_write-heard m e)

poll-can_write-Spends : Spends (poll can_write)
poll-can_write-Spends m m' h = go m.script refl
  where
    go : (s : List ℕ) → m.script ≡ s → length m'.script < length m.script
    go [] e = ground (arith, can_write_silent m e)
    go (v ∷ rest) e = ground (arith, poll-can_write m e)

wait-Spoke_on :
    (s : List ℕ) (m : Machine) {m' : Machine}
    → m.script ≡ s
    → uart_wait_available m ≡ done tt m'
    → Spoke [] m m' × (ready m'.trace ≡ true)
unfolding uart_wait_available
wait-Spoke_on [] m e h =
    ground (arith, until-eq-retry (poll can_write) poll-can_write-Spends m, can_write_silent m e)
wait-Spoke_on (v ∷ rest) m {m'} e h =
    let step =
      until-eq-retry (poll can_write) poll-can_write-Spends m
      ∙ ap (λ r. bind r (retry (poll can_write))) (poll-can_write m e) in
    elim (Bool-cases (uart_is_full v)) [
      | inl full ↦
          let (spoke, room) = wait-Spoke_on rest (heard v rest m) refl (sym (step ∙ rw full) ∙ h) in
          (Spoke-trans (heard-Spoke m v rest) spoke, room)
      | inr room ↦
          let found : heard v rest m ≡ m' = done-machine (sym (step ∙ rw room) ∙ h) in
          (
            subst (Spoke [] m) found (heard-Spoke m v rest),
            subst (λ (n : Machine). ready n.trace ≡ true) found (rw room),
          )
    ]

-- A completed uart_wait_available has sent nothing, lost nothing that fits, and ended with a load
-- that found room.
pub wait-Spoke :
    (m : Machine) {m' : Machine}
    → uart_wait_available m ≡ done tt m'
    → Spoke [] m m' × (ready m'.trace ≡ true)
wait-Spoke m h = wait-Spoke_on m.script m refl h
