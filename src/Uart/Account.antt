-- ===== src/Uart/Account.antt =====
-- The ledger between the port and the program: what was received, given, and is pending.
use cocoapuffs_fpga.Prelude.{
  ℕ, ◌+◌, ◌≤◌, ◌<◌, ◌≡◌, sym, subst, ap, ◌∙◌, ◌≢◌, inl, inr, Bool-cases, append-nil, bit_and, true,
  false, not, ◌&&◌, Option, none, some, List, [], ◌∷◌, ◌++◌, append_assoc, arith, length,
  length-append, ◌==◌, if◌then◌else◌, get_or,
}
use cocoapuffs_fpga.Machine.{Event, load, Machine, done, waiting, load32}
use cocoapuffs_fpga.Uart.{uart_address, uart_is_empty, uart_is_full, can_write, get_async}
use cocoapuffs_fpga.Uart.Pending.{
  IsValid, pending, pending_count, pending-push_overflow, push, pop, length-pending, push-IsValid,
  pending-push, pop-IsValid, pending-pop, pending_empty,
}

-- The bytes that the port has handed over, oldest first.
abbrev pub received : List Event → List ℕ
received [] = []
received (load a v ∷ t) =
    if a == uart_address && not (uart_is_empty v)
    then received t ++ bit_and v 0xff ∷ []
    else received t
received (_ ∷ t) = received t

pub received_nothing :
    (v : ℕ) (t : List Event)
    → uart_is_empty v ≡ true
    → received (load uart_address v ∷ t) ≡ received t
received_nothing v t e = ground arith

pub received_elsewhere :
    (a v : ℕ) (t : List Event) → (a == uart_address) ≡ false → received (load a v ∷ t) ≡ received t
received_elsewhere a v t e = ground arith

pub received_byte :
    (v : ℕ) (t : List Event)
    → uart_is_empty v ≡ false
    → received (load uart_address v ∷ t) ≡ received t ++ bit_and v 0xff ∷ []
received_byte v t e = ground arith

-- `given` is what the program has been given so far: with the bytes still pending it makes up
-- all that was received, in order.
pub record Accounted (given : List ℕ) (m : Machine) : Type 0 where
  pub valid : IsValid m.uart_buf
  pub all : received m.trace ≡ given ++ pending m.uart_buf

-- The received bytes that the program has not been given are at most 255.
abbrev pub Fits : List ℕ → Machine → Type 0
Fits given m = length (received m.trace) ≤ length given + 255

-- The machine after the port answered `v` to CanWrite.
abbrev pub heard : ℕ → List ℕ → Machine → Machine
heard v rest m = record m {
  script = rest;
  trace = load uart_address v ∷ m.trace;
  uart_buf = if not (uart_is_empty v) then push m.uart_buf (bit_and v 0xff) else m.uart_buf;
}

pub can_write-heard :
    (m : Machine) {v : ℕ} {rest : List ℕ}
    → m.script ≡ v ∷ rest
    → can_write m ≡ done (not (uart_is_full v)) (heard v rest m)
unfolding can_write load32
can_write-heard m {v} {rest} e = ground arith

pub can_write_silent : (m : Machine) → m.script ≡ [] → can_write m ≡ waiting m
unfolding can_write load32
can_write_silent m e = ground arith

pub length-received-heard :
    (m : Machine) (v : ℕ) (rest : List ℕ)
    → length (received m.trace) ≤ length (received (heard v rest m).trace)
length-received-heard m v rest =
    ground (arith, length-append (received m.trace) (bit_and v 0xff ∷ []))

-- A load that fits keeps the ledger.
pub heard-Accounted :
    (given : List ℕ) (m : Machine) (v : ℕ) (rest : List ℕ)
    → Accounted given m
    → Fits given (heard v rest m)
    → Accounted given (heard v rest m)
heard-Accounted given m v rest a f = elim (Bool-cases (uart_is_empty v)) [
  | inl e ↦ rw e (record { valid = a.valid; all = received_nothing v m.trace e ∙ a.all })
  | inr e ↦
      let x = bit_and v 0xff in
      let f' : length (received m.trace ++ x ∷ []) ≤ length given + 255 =
        subst (λ l. length l ≤ length given + 255) (received_byte v m.trace e) f in
      let room : pending_count m.uart_buf < 255 = omega (
        arith,
        ap length a.all,
        length-append (received m.trace) (x ∷ []),
        length-append given (pending m.uart_buf),
        length-pending m.uart_buf,
      ) in
      rw e (record {
        valid = push-IsValid x a.valid;
        all =
            received_byte v m.trace e
            ∙ ap (λ (l : List ℕ). l ++ x ∷ []) a.all
            ∙ (append_assoc given (pending m.uart_buf) (x ∷ [])
                ∙ ap (◌++◌ given) (sym (pending-push x a.valid room)));
      })
]

-- GetAsync with a byte at hand, and with none: then one load decides.
pub get_async_saved :
    (m : Machine)
    → m.uart_buf.rd ≢ m.uart_buf.wr
    → get_async m
      ≡ done (some (get_or m.uart_buf.buf m.uart_buf.rd 0)) (record m { uart_buf = pop m.uart_buf })
unfolding get_async
get_async_saved m ne = ground arith

-- The machine after the port answered `v` to GetAsync.
abbrev pub polled : ℕ → List ℕ → Machine → Machine
polled v rest m = record m { script = rest; trace = load uart_address v ∷ m.trace }

pub get_async-polled :
    (m : Machine) {v : ℕ} {rest : List ℕ}
    → m.uart_buf.rd ≡ m.uart_buf.wr
    → m.script ≡ v ∷ rest
    → get_async m ≡ done (if uart_is_empty v then none else some (bit_and v 0xff)) (polled v rest m)
unfolding get_async load32
get_async-polled m r e = ground arith

pub get_async_silent :
    (m : Machine) → m.uart_buf.rd ≡ m.uart_buf.wr → m.script ≡ [] → get_async m ≡ waiting m
unfolding get_async load32
get_async_silent m r e = ground arith

-- GetAsync gives the program the next byte of the ledger, or none while nothing is received.
abbrev pub Given : List ℕ → Option ℕ → Machine → Type 0
Given given none m = Accounted given m
Given given (some c) m = Accounted (given ++ c ∷ []) m

pub saved-Accounted :
    (given : List ℕ) (m : Machine)
    → Accounted given m
    → m.uart_buf.rd ≢ m.uart_buf.wr
    → Accounted
        (given ++ get_or m.uart_buf.buf m.uart_buf.rd 0 ∷ [])
        (record m { uart_buf = pop m.uart_buf })
saved-Accounted given m a ne = record {
  valid = pop-IsValid a.valid;
  all =
      a.all
      ∙ (ap (◌++◌ given) (pending-pop a.valid ne)
          ∙ sym (append_assoc given (get_or m.uart_buf.buf m.uart_buf.rd 0 ∷ []) _));
}

pub polled-Given :
    (given : List ℕ) (m : Machine) (v : ℕ) (rest : List ℕ)
    → Accounted given m
    → m.uart_buf.rd ≡ m.uart_buf.wr
    → Given given (if uart_is_empty v then none else some (bit_and v 0xff)) (polled v rest m)
polled-Given given m v rest a r =
    let idle = pending_empty m.uart_buf r in
    let seen : received m.trace ≡ given = a.all ∙ (ap (◌++◌ given) idle ∙ append-nil given) in
    elim (Bool-cases (uart_is_empty v)) [
      | inl e ↦ rw e (record { valid = a.valid; all = received_nothing v m.trace e ∙ a.all })
      | inr e ↦ rw e (record {
        valid = a.valid;
        all =
            rw (idle, append-nil)
              (received_byte v m.trace e ∙ ap (λ (l : List ℕ). l ++ bit_and v 0xff ∷ []) seen);
      })
    ]

-- The bug: with 255 bytes saved, one more received byte makes the buffer look empty. All 256 are
-- lost to the program, and nothing tells it so.
pub can_write_overflow :
    (given : List ℕ) (m : Machine) (v : ℕ) (rest : List ℕ)
    → m.script ≡ v ∷ rest
    → uart_is_empty v ≡ false
    → Accounted given m
    → pending_count m.uart_buf ≡ 255
    → (m' : Machine) × (can_write m ≡ done (not (uart_is_full v)) m')
      × (pending m'.uart_buf ≡ [])
      × (length (received m'.trace) ≡ length given + 256)
can_write_overflow given m v rest e byte a full = (
  heard v rest m,
  can_write-heard m e,
  rw byte (pending-push_overflow (bit_and v 0xff) a.valid full),
  omega (
    arith,
    ap length (received_byte v m.trace byte),
    length-append (received m.trace) (bit_and v 0xff ∷ []),
    ap length a.all,
    length-append given (pending m.uart_buf),
    length-pending m.uart_buf,
  ),
)
