-- ===== src/UartIrq/Handler.antt =====
-- Uart::InterruptHandler: what it moves from the port into the ring, and when it gives up.
use cocoapuffs_fpga.Prelude.{
  ℕ, zero, suc, ◌+◌, ◌-◌, ◌≤◌, ◌<◌, ◌≡◌, refl, sym, ap, ◌∙◌, bit_and, Bool, true, false, not, ◌&&◌,
  List, [], ◌∷◌, ◌++◌, ◌==◌, append_assoc, append-nil, arith, if◌then◌else◌, length,
}
use cocoapuffs_fpga.Machine.{load, UartBuf, Machine, done, load32}
use cocoapuffs_fpga.Reg
use cocoapuffs_fpga.Reg.{lib_reg_read}
use cocoapuffs_fpga.Uart.{uart_is_empty}
use cocoapuffs_fpga.Uart.Pending.{
  IsValid, pending, pending_count, push, push-IsValid, pending-push, pending-push_overflow,
}
use cocoapuffs_fpga.UartIrq.{Uart, buffer_size, store_char, interrupt_loop, interrupt_handler}

-- The ring of lib::Uart, with its indices in the roles that they have in UartBuf.
abbrev pub ring : Uart → UartBuf
ring u = record { buf = u.buffer; rd = u.end; wr = u.begin }

-- The characters that wait to be read, oldest first.
abbrev pub contents : Uart → List ℕ
contents u = pending (ring u)

-- How many characters the handler can store before the ring is overrun.
abbrev pub room : Uart → ℕ
room u = buffer_size - pending_count (ring u)

abbrev answered : Uart → ℕ → List ℕ → Machine → Machine
answered u v rest m = record m { script = rest; trace = load u.reg.address v ∷ m.trace }

ring-store_char : (u : Uart) (c : ℕ) → IsValid (ring u) → ring (store_char u c) ≡ push (ring u) c
unfolding store_char
ring-store_char u c v = ground arith

loop_step :
    (n : ℕ) (u : Uart) (m : Machine) {v : ℕ} {rest : List ℕ}
    → m.script ≡ v ∷ rest
    → let stored = store_char u (bit_and v 0xff) in
      interrupt_loop (suc n) u m ≡ (
        if uart_is_empty v
        then done u (answered u v rest m)
        else if stored.begin == stored.end
        then done (record stored { overrun = true }) (answered u v rest m)
        else interrupt_loop n stored (answered u v rest m))
unfolding interrupt_loop Reg.read lib_reg_read load32
loop_step n u m e = ground arith

stored-IsValid : (u : Uart) (c : ℕ) → IsValid (ring u) → IsValid (ring (store_char u c))
stored-IsValid u c v = rw (ring-store_char u c v) (push-IsValid c v)

contents-store_char :
    (u : Uart) (c : ℕ)
    → IsValid (ring u)
    → pending_count (ring u) < 255
    → contents (store_char u c) ≡ contents u ++ c ∷ []
contents-store_char u c v h = ap pending (ring-store_char u c v) ∙ pending-push c v h

count-store_char :
    (u : Uart) (c : ℕ)
    → IsValid (ring u)
    → pending_count (ring u) < 255
    → pending_count (ring (store_char u c)) ≡ pending_count (ring u) + 1
count-store_char u c v h =
    ap pending_count (ring-store_char u c v) ∙ omega (arith, v.rd_in, v.wr_in)

apart :
    (u : Uart) (c : ℕ)
    → IsValid (ring u)
    → pending_count (ring u) < 255
    → ((store_char u c).begin == (store_char u c).end) ≡ false
unfolding store_char
apart u c v h = ground arith

meets :
    (u : Uart) (c : ℕ)
    → IsValid (ring u)
    → pending_count (ring u) ≡ 255
    → ((store_char u c).begin == (store_char u c).end) ≡ true
unfolding store_char
meets u c v h = ground arith

kept_fields :
    (u : Uart) (c : ℕ)
    → ((store_char u c).reg ≡ u.reg)
      × ((store_char u c).overrun ≡ u.overrun)
      × ((store_char u c).end ≡ u.end)
unfolding store_char
kept_fields u c = (refl, refl, refl)

loop_more :
    (n : ℕ) (u : Uart) (m : Machine) {v : ℕ} {rest : List ℕ}
    → m.script ≡ v ∷ rest
    → uart_is_empty v ≡ false
    → IsValid (ring u)
    → pending_count (ring u) < 255
    → interrupt_loop (suc n) u m
      ≡ interrupt_loop n (store_char u (bit_and v 0xff)) (answered u v rest m)
loop_more n u m {v} e byte valid h = loop_step n u m e ∙ rw (byte, apart u (bit_and v 0xff) valid h)

loop_full :
    (n : ℕ) (u : Uart) (m : Machine) {v : ℕ} {rest : List ℕ}
    → m.script ≡ v ∷ rest
    → uart_is_empty v ≡ false
    → IsValid (ring u)
    → pending_count (ring u) ≡ 255
    → interrupt_loop (suc n) u m
      ≡ done (record (store_char u (bit_and v 0xff)) { overrun = true }) (answered u v rest m)
loop_full n u m {v} e byte valid h = loop_step n u m e ∙ rw (byte, meets u (bit_and v 0xff) valid h)

-- Answers of the port that all bring a character, and these characters.
abbrev pub all_bytes : List ℕ → Bool
all_bytes [] = true
all_bytes (v ∷ vs) = not (uart_is_empty v) && all_bytes vs

abbrev pub chars : List ℕ → List ℕ
chars [] = []
chars (v ∷ vs) = bit_and v 0xff ∷ chars vs

-- A run of the handler that ends at an empty port: what came in is stored in order.
pub record Drained (u : Uart) (vs : List ℕ) (u' : Uart) : Type 0 where
  pub valid : IsValid (ring u')
  pub stores : contents u' ≡ contents u ++ chars vs
  pub no_change : (u'.overrun ≡ u.overrun) × (u'.end ≡ u.end) × (u'.reg ≡ u.reg)

drains :
    (vs : List ℕ) (e : ℕ) (rest : List ℕ) (n : ℕ) (u : Uart) (m : Machine)
    → m.script ≡ vs ++ e ∷ rest
    → all_bytes vs ≡ true
    → uart_is_empty e ≡ true
    → IsValid (ring u)
    → length vs + pending_count (ring u) < buffer_size
    → length vs < n
    → (u' : Uart) × (m' : Machine) × (interrupt_loop n u m ≡ done u' m')
      × (m'.script ≡ rest)
      × Drained u vs u'
drains vs e rest zero u m s b empty v fits more = absurd (omega arith)
drains [] e rest (suc n) u m s b empty v fits more = (
  u,
  answered u e rest m,
  loop_step n u m s ∙ rw empty,
  refl,
  record { valid = v; stores = sym (append-nil _); no_change = (refl, refl, refl) },
)
drains (w ∷ vs) e rest (suc n) u m s b empty v fits more =
    let c = bit_and w 0xff in
    let small : pending_count (ring u) < 255 = omega arith in
    let byte : uart_is_empty w ≡ false = ground arith in
    let kept = kept_fields u c in
    let (u', m', ran, ends, drained) =
      drains vs e rest n (store_char u c) (answered u w (vs ++ e ∷ rest) m) refl (ground arith)
        empty (stored-IsValid u c v) (omega (arith, count-store_char u c v small)) (omega arith) in
    (
      u',
      m',
      loop_more n u m s byte v small ∙ ran,
      ends,
      record {
        valid = drained.valid;
        stores =
            drained.stores
            ∙ (ap (λ (l : List ℕ). l ++ chars vs) (contents-store_char u c v small)
                ∙ append_assoc (contents u) (c ∷ []) (chars vs));
        no_change = (
          drained.no_change.0 ∙ kept.1,
          drained.no_change.1 ∙ kept.2,
          drained.no_change.2 ∙ kept.0,
        );
      },
    )

overruns :
    (vs : List ℕ) (rest : List ℕ) (n : ℕ) (u : Uart) (m : Machine)
    → m.script ≡ vs ++ rest
    → all_bytes vs ≡ true
    → IsValid (ring u)
    → length vs + pending_count (ring u) ≡ buffer_size
    → length vs ≤ n
    → (u' : Uart) × (m' : Machine) × (interrupt_loop n u m ≡ done u' m')
      × ((m'.script ≡ rest) × (u'.overrun ≡ true) × (contents u' ≡ []))
overruns vs rest zero u m s b v fits more = absurd (omega arith)
overruns [] rest (suc n) u m s b v fits more = absurd (omega arith)
overruns (w ∷ []) rest (suc n) u m s b v fits more =
    let c = bit_and w 0xff in
    let last : pending_count (ring u) ≡ 255 = omega arith in
    (
      record (store_char u c) { overrun = true },
      answered u w rest m,
      loop_full n u m s (ground arith) v last,
      (refl, refl, ap pending (ring-store_char u c v) ∙ pending-push_overflow c v last),
    )
overruns (w ∷ x ∷ vs) rest (suc n) u m s b v fits more =
    let c = bit_and w 0xff in
    let small : pending_count (ring u) < 255 = omega arith in
    let (u', m', ran, ends) =
      overruns (x ∷ vs) rest n (store_char u c) (answered u w (x ∷ vs ++ rest) m) refl
        (ground arith) (stored-IsValid u c v) (omega (arith, count-store_char u c v small))
        (omega arith) in
    (u', m', loop_more n u m s (ground arith) v small ∙ ran, ends)

-- Fewer characters than the ring has room for, and then an empty port: the handler stores them
-- all, in order, loads no further, and leaves the overrun flag and the read index as they were.
pub interrupt_drains :
    (vs : List ℕ) (e : ℕ) (rest : List ℕ) (u : Uart) (m : Machine)
    → m.script ≡ vs ++ e ∷ rest
    → all_bytes vs ≡ true
    → uart_is_empty e ≡ true
    → IsValid (ring u)
    → length vs < room u
    → (u' : Uart) × (m' : Machine) × (interrupt_handler u m ≡ done u' m')
      × (m'.script ≡ rest)
      × Drained u vs u'
unfolding interrupt_handler
interrupt_drains vs e rest u m s b empty v fits =
    drains vs e rest buffer_size u m s b empty v (omega arith) (omega arith)

-- As many characters as the ring has room for: the handler stops after the last of them with the
-- overrun flag set, and the ring looks empty. So it always stops within 256 loads.
pub interrupt_overruns :
    (vs : List ℕ) (rest : List ℕ) (u : Uart) (m : Machine)
    → m.script ≡ vs ++ rest
    → all_bytes vs ≡ true
    → IsValid (ring u)
    → length vs ≡ room u
    → (u' : Uart) × (m' : Machine) × (interrupt_handler u m ≡ done u' m')
      × ((m'.script ≡ rest) × (u'.overrun ≡ true) × (contents u' ≡ []))
unfolding interrupt_handler
interrupt_overruns vs rest u m s b v fits =
    overruns vs rest buffer_size u m s b v (omega arith) (omega arith)
