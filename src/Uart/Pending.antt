-- ===== src/Uart/Pending.antt =====
-- UartBuf as a queue: the bytes between the two indices.
use cocoapuffs_fpga.Prelude.{
  ℕ, zero, suc, ◌+◌, ◌-◌, ◌%◌, ◌<◌, ◌≡◌, refl, ap, ◌≢◌, List, [], ◌∷◌, ◌++◌, arith, length, get_or,
  set, length-set, get_or-set_self, get_or-set_ne,
}
use cocoapuffs_fpga.Machine.{UartBuf}
use cocoapuffs_fpga.Uart.{buffer_size}

-- `n` bytes from index `i` on, going round at the end of the array.
abbrev pub window : List ℕ → ℕ → ℕ → List ℕ
window buf i zero = []
window buf i (suc n) = get_or buf i 0 ∷ window buf ((i + 1) % buffer_size) n

length-window : (buf : List ℕ) (i n : ℕ) → length (window buf i n) ≡ n
length-window buf i zero = refl
length-window buf i (suc n) = ap suc (length-window buf ((i + 1) % buffer_size) n)

-- A byte written just past a window makes it longer.
window-set :
    (buf : List ℕ) (i n k x : ℕ)
    → length buf ≡ buffer_size
    → i < buffer_size
    → n < 255
    → k ≡ (i + n) % buffer_size
    → window (set buf k x) i (suc n) ≡ window buf i n ++ x ∷ []
window-set buf i zero k x len hi hn e =
    let here : k ≡ i = omega arith in ground (arith, get_or-set_self buf i x 0)
window-set buf i (suc n) k x len hi hn e = ground (
  arith,
  get_or-set_ne buf k i x 0 (omega arith),
  window-set buf ((i + 1) % buffer_size) n k x len (omega arith) (omega arith) (omega arith),
)

abbrev pub pending_count : UartBuf → ℕ
pending_count u = (u.wr + buffer_size - u.rd) % buffer_size

abbrev pub pending : UartBuf → List ℕ
pending u = window u.buf u.rd (pending_count u)

-- The array has its size, and the indices lie in it.
pub record IsValid (u : UartBuf) : Type 0 where
  pub size : length u.buf ≡ buffer_size
  pub rd_in : u.rd < buffer_size
  pub wr_in : u.wr < buffer_size

-- What CanWrite does with a received byte.
abbrev pub push : UartBuf → ℕ → UartBuf
push u x = record u { buf = set u.buf u.wr x; wr = (u.wr + 1) % buffer_size }

-- What GetAsync does with a saved byte.
abbrev pub pop : UartBuf → UartBuf
pop u = record u { rd = (u.rd + 1) % buffer_size }

pub length-pending : (u : UartBuf) → length (pending u) ≡ pending_count u
length-pending u = length-window u.buf u.rd (pending_count u)

pub push-IsValid : {u : UartBuf} (x : ℕ) → IsValid u → IsValid (push u x)
push-IsValid {u} x v = ground (arith, length-set u.buf u.wr x)

pub pending-push :
    {u : UartBuf} (x : ℕ)
    → IsValid u
    → pending_count u < 255
    → pending (push u x) ≡ pending u ++ x ∷ []
pending-push {u} x v h =
    let more : pending_count (push u x) ≡ suc (pending_count u) = omega arith in
    rw more (window-set u.buf u.rd (pending_count u) u.wr x v.size v.rd_in h (omega arith))

-- With 255 bytes saved the next one meets the read index: nothing is pending any more.
pub pending-push_overflow :
    {u : UartBuf} (x : ℕ) → IsValid u → pending_count u ≡ 255 → pending (push u x) ≡ []
pending-push_overflow {u} x v h =
    let none_left : pending_count (push u x) ≡ 0 = omega arith in rw none_left

pub pop-IsValid : {u : UartBuf} → IsValid u → IsValid (pop u)
pop-IsValid v = omega arith

-- The oldest byte is the one that GetAsync takes.
pub pending-pop :
    {u : UartBuf} → IsValid u → u.rd ≢ u.wr → pending u ≡ get_or u.buf u.rd 0 ∷ pending (pop u)
pending-pop {u} v ne =
    let fewer : pending_count u ≡ suc (pending_count (pop u)) = omega arith in rw fewer

pub pending_empty : (u : UartBuf) → u.rd ≡ u.wr → pending u ≡ []
pending_empty u e = let none_left : pending_count u ≡ 0 = omega arith in rw none_left
