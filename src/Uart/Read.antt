-- ===== src/Uart/Read.antt =====
-- UartBuf::GetAsync and UartBuf::Get: what the program is given.
use cocoapuffs_fpga.Prelude.{
  ℕ, ◌≡◌, ◌≢◌, refl, sym, subst, append-nil, append_assoc, Bool, ◌∙◌, inl, inr, true, false, ◌&&◌,
  none, some, bit_and, List, [], ◌∷◌, ◌++◌, arith, ◌<◌, length, if◌then◌else◌, Bool-cases, get_or,
}
use mathlib.Core.Path.{subst₂}
use native.Mathlib.Decide.{ℕ_discrete}
use cocoapuffs_fpga.Machine.{Machine, done, waiting, done-machine, done-result}
use cocoapuffs_fpga.Machine.Loop.{Spends, until-eq-retry}
use cocoapuffs_fpga.Machine.Trace.{sent_to}
use cocoapuffs_fpga.Uart.{uart_address, uart_is_empty, get_async, get}
use cocoapuffs_fpga.Uart.Account.{
  Accounted, Given, get_async_saved, get_async-polled, get_async_silent, polled, saved-Accounted,
  polled-Given,
}
use cocoapuffs_fpga.Uart.Pending.{pop}
use cocoapuffs_fpga.Uart.Write.{polite}

-- From `m` to `m'` the program was given exactly `line`, the next bytes of the ledger; nothing was
-- sent, and the order of loads and stores stays polite.
pub record Listened (line : List ℕ) (m m' : Machine) : Type 0 where
  pub same_sent : sent_to uart_address m'.trace ≡ sent_to uart_address m.trace
  pub keeps_polite : polite m.trace ≡ true → polite m'.trace ≡ true
  pub moved : (given : List ℕ) → Accounted given m → Accounted (given ++ line) m'

pub Listened-refl : (m : Machine) → Listened [] m m
Listened-refl m = record {
  same_sent = refl;
  keeps_polite = λ p. p;
  moved = λ given a. subst (λ g. Accounted g m) (sym (append-nil given)) a;
}

pub Listened-trans :
    {s t : List ℕ} {m n o : Machine} → Listened s m n → Listened t n o → Listened (s ++ t) m o
Listened-trans {s} {t} {m} {n} {o} p q = record {
  same_sent = q.same_sent ∙ p.same_sent;
  keeps_polite = λ h. q.keeps_polite (p.keeps_polite h);
  moved = λ given a.
      subst (λ g. Accounted g o) (append_assoc given s t) (q.moved (given ++ s) (p.moved given a));
}

get_async-Spends : Spends get_async
get_async-Spends m m' h = elim (ℕ_discrete m.uart_buf.rd m.uart_buf.wr) [
  | yes r ↦ go m.script refl r
  | no ne ↦ ground (arith, get_async_saved m ne)
]
  where
    go :
        (s : List ℕ)
        → m.script ≡ s
        → m.uart_buf.rd ≡ m.uart_buf.wr
        → length m'.script < length m.script
    go [] e r = ground (arith, get_async_silent m r e)
    go (v ∷ rest) e r = ground (arith, get_async-polled m r e)

get_saved :
    (m : Machine)
    → m.uart_buf.rd ≢ m.uart_buf.wr
    → get m ≡ done (get_or m.uart_buf.buf m.uart_buf.rd 0) (record m { uart_buf = pop m.uart_buf })
unfolding get
get_saved m ne = ground (arith, until-eq-retry get_async get_async-Spends m, get_async_saved m ne)

get_silent : (m : Machine) → m.uart_buf.rd ≡ m.uart_buf.wr → m.script ≡ [] → get m ≡ waiting m
unfolding get
get_silent m r e =
    ground (arith, until-eq-retry get_async get_async-Spends m, get_async_silent m r e)

get_step :
    (m : Machine) {v : ℕ} {rest : List ℕ}
    → m.uart_buf.rd ≡ m.uart_buf.wr
    → m.script ≡ v ∷ rest
    → get m
      ≡ (if uart_is_empty v then get (polled v rest m) else done (bit_and v 0xff) (polled v rest m))
unfolding get
get_step m r e = ground (arith, until-eq-retry get_async get_async-Spends m, get_async-polled m r e)

get_idle :
    (m : Machine) {v : ℕ} {rest : List ℕ}
    → m.uart_buf.rd ≡ m.uart_buf.wr
    → m.script ≡ v ∷ rest
    → uart_is_empty v ≡ true
    → get m ≡ get (polled v rest m)
get_idle m r e nothing = get_step m r e ∙ rw nothing

pub get_byte :
    (m : Machine) {v : ℕ} {rest : List ℕ}
    → m.uart_buf.rd ≡ m.uart_buf.wr
    → m.script ≡ v ∷ rest
    → uart_is_empty v ≡ false
    → get m ≡ done (bit_and v 0xff) (polled v rest m)
get_byte m r e byte = get_step m r e ∙ rw byte

saved-Listened :
    (m : Machine)
    → m.uart_buf.rd ≢ m.uart_buf.wr
    → Listened
        (get_or m.uart_buf.buf m.uart_buf.rd 0 ∷ [])
        m
        (record m { uart_buf = pop m.uart_buf })
saved-Listened m ne = record {
  same_sent = refl;
  keeps_polite = λ p. p;
  moved = λ given a. saved-Accounted given m a ne;
}

empty-Listened :
    (m : Machine) (v : ℕ) (rest : List ℕ)
    → m.uart_buf.rd ≡ m.uart_buf.wr
    → uart_is_empty v ≡ true
    → Listened [] m (polled v rest m)
empty-Listened m v rest r e = record {
  same_sent = refl;
  keeps_polite = λ p. p;
  moved = λ given a.
      subst (λ g. Accounted g (polled v rest m)) (sym (append-nil given))
        (subst (λ b. Given given (if b then none else some (bit_and v 0xff)) (polled v rest m)) e
          (polled-Given given m v rest a r));
}

byte-Listened :
    (m : Machine) (v : ℕ) (rest : List ℕ)
    → m.uart_buf.rd ≡ m.uart_buf.wr
    → uart_is_empty v ≡ false
    → Listened (bit_and v 0xff ∷ []) m (polled v rest m)
byte-Listened m v rest r e = record {
  same_sent = refl;
  keeps_polite = λ p. p;
  moved = λ given a.
      subst (λ b. Given given (if b then none else some (bit_and v 0xff)) (polled v rest m)) e
        (polled-Given given m v rest a r);
}

get-Listened_on :
    (s : List ℕ) (m : Machine) {c : ℕ} {m' : Machine}
    → m.script ≡ s
    → m.uart_buf.rd ≡ m.uart_buf.wr
    → get m ≡ done c m'
    → Listened (c ∷ []) m m'
get-Listened_on [] m e r h = ground (arith, get_silent m r e)
get-Listened_on (v ∷ rest) m {c} {m'} e r h = elim (Bool-cases (uart_is_empty v)) [
  | inl nothing ↦
      Listened-trans (empty-Listened m v rest r nothing)
        (get-Listened_on rest (polled v rest m) refl r (sym (get_idle m r e nothing) ∙ h))
  | inr byte ↦
      let found = sym (get_byte m r e byte) ∙ h in
      subst₂ (λ c m'. Listened (c ∷ []) m m') (done-result found) (done-machine found)
        (byte-Listened m v rest r byte)
]

-- A completed Get gives the program the next byte of the ledger.
pub get-Listened : (m : Machine) {c : ℕ} {m' : Machine} → get m ≡ done c m' → Listened (c ∷ []) m m'
get-Listened m {c} {m'} h = elim (ℕ_discrete m.uart_buf.rd m.uart_buf.wr) [
  | yes r ↦ get-Listened_on m.script m refl r h
  | no ne ↦
      let found = sym (get_saved m ne) ∙ h in
      subst₂ (λ c m'. Listened (c ∷ []) m m') (done-result found) (done-machine found)
        (saved-Listened m ne)
]

abbrev pub all_empty : List ℕ → Bool
all_empty [] = true
all_empty (v ∷ vs) = uart_is_empty v && all_empty vs

-- With nothing saved, Get returns the first byte that the port has.
pub get-total :
    (idle : List ℕ) (v : ℕ) (rest : List ℕ) (m : Machine)
    → m.script ≡ idle ++ v ∷ rest
    → m.uart_buf.rd ≡ m.uart_buf.wr
    → all_empty idle ≡ true
    → uart_is_empty v ≡ false
    → (m' : Machine) × (get m ≡ done (bit_and v 0xff) m') × (m'.script ≡ rest)
get-total [] v rest m e r b found = (polled v rest m, get_byte m r e found, refl)
get-total (w ∷ idle) v rest m e r b found =
    let nothing : uart_is_empty w ≡ true = ground arith in
    let later = get-total idle v rest (polled w (idle ++ v ∷ rest) m) refl r (ground arith) found in
    (later.0, get_idle m r e nothing ∙ later.1, later.2)
