-- ===== src/Machine.antt =====
-- The processor as the C++ code of lib/ and bin/ sees it. A program of this repository talks to its
-- hardware by volatile loads and stores and by the control registers of the core, so a run is
-- described by the words with which the hardware answers the loads and the reads of control
-- registers (`script`, in their order), and leaves a record of every access behind (`trace`). The
-- static object `uart_buf` of lib/uart/uart.cc is part of the state.
pub mod Loop
pub mod Trace
pub mod Total
pub mod Frame
use cocoapuffs_fpga.Prelude.{ℕ, ◌≡◌, refl, List, [], ◌∷◌}

-- The control and status registers that the code names.
pub data Csr : Type 0 where
  mie : Csr
  mstatus : Csr
  mtvec : Csr
  mcause : Csr

-- One volatile access, an access to a control register, or a jump to code that this program did
-- not bring.
pub data Event : Type 0 where
  load : ℕ → ℕ → Event
  store : ℕ → ℕ → Event
  store_byte : ℕ → ℕ → Event
  jump : ℕ → Event
  csr_read : Csr → ℕ → Event
  csr_write : Csr → ℕ → Event
  csr_set : Csr → ℕ → Event
  csr_clear : Csr → ℕ → Event

-- class UartBuf: 256 bytes and two indices.
pub record UartBuf : Type 0 where
  pub buf : List ℕ
  pub rd : ℕ
  pub wr : ℕ

-- `trace` has the latest access first.
pub record Machine : Type 0 where
  pub script : List ℕ
  pub trace : List Event
  pub uart_buf : UartBuf

-- `waiting`: the script ended at a load. `halted`: the code reached its `for (;;);`. `fault`: the
-- code ran off the end of an array.
pub data Outcome (A : Type 0) : Type 0 where
  done : A → Machine → Outcome A
  waiting : Machine → Outcome A
  halted : Machine → Outcome A
  fault : Machine → Outcome A

abbrev pub M : Type 0 → Type 0
M A = Machine → Outcome A

abbrev pub pure : {A : Type 0} → A → M A
pure a m = done a m

abbrev pub bind : {A B : Type 0} → Outcome A → (A → M B) → Outcome B
bind (done a m) f = f a m
bind (waiting m) f = waiting m
bind (halted m) f = halted m
bind (fault m) f = fault m

infixl 5 ◌>>=◌ ◌>>◌
abbrev pub ◌>>=◌ : {A B : Type 0} → M A → (A → M B) → M B
◌>>=◌ c f m = bind (c m) f

abbrev pub ◌>>◌ : {A B : Type 0} → M A → M B → M B
c >> k = c >>= λ _. k

pub done-machine : {A : Type 0} {a b : A} {m n : Machine} → done a m ≡ done b n → m ≡ n
done-machine e = cc

pub done-result : {A : Type 0} {a b : A} {m n : Machine} → done a m ≡ done b n → a ≡ b
done-result e = cc

-- A composition that completes has completed in both its parts.
pub bind-eq-done :
    {A B : Type 0} (r : Outcome A) (f : A → M B) {b : B} {m' : Machine}
    → bind r f ≡ done b m'
    → (a : A) × (m : Machine) × (r ≡ done a m) × (f a m ≡ done b m')
bind-eq-done (done a m) f h = (a, m, refl, h)
bind-eq-done (waiting m) f h = cc
bind-eq-done (halted m) f h = cc
bind-eq-done (fault m) f h = cc

-- `for (;;);`
abbrev pub halt : {A : Type 0} → M A
halt m = halted m

abbrev pub record_event : Event → M (Unit {0})
record_event e m = done tt (record m { trace = e ∷ m.trace })

abbrev pub answer : ℕ → List ℕ → M ℕ
answer address [] m = waiting m
answer address (v ∷ rest) m = done v (record m { script = rest; trace = load address v ∷ m.trace })

-- `*(volatile uint32_t*)address`, as a value and as an assignment.
unfoldable pub load32 : ℕ → M ℕ
load32 address m = answer address m.script m

unfoldable pub store32 : ℕ → ℕ → M (Unit {0})
store32 address v = record_event (store address v)

unfoldable pub store8 : ℕ → ℕ → M (Unit {0})
store8 address v = record_event (store_byte address v)

unfoldable pub jump_to : ℕ → M (Unit {0})
jump_to address = record_event (jump address)

abbrev pub csr_answer : Csr → List ℕ → M ℕ
csr_answer csr [] m = waiting m
csr_answer csr (v ∷ rest) m = done v (record m { script = rest; trace = csr_read csr v ∷ m.trace })

-- The instructions csrr, csrw, csrrs and csrrc, the last two where the old value is dropped.
unfoldable pub csrr : Csr → M ℕ
csrr csr m = csr_answer csr m.script m

unfoldable pub csrw : Csr → ℕ → M (Unit {0})
csrw csr v = record_event (csr_write csr v)

unfoldable pub csrrs : Csr → ℕ → M (Unit {0})
csrrs csr bits = record_event (csr_set csr bits)

unfoldable pub csrrc : Csr → ℕ → M (Unit {0})
csrrc csr bits = record_event (csr_clear csr bits)
