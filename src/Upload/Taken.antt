-- ===== src/Upload/Taken.antt =====
-- The lines that the loops of the loaders take from the port, and what they hand to the decoder.
use cocoapuffs_fpga.Prelude.{ℕ, ◌<◌, ◌≡◌, refl, Bool, true, List, [], ◌∷◌, ◌++◌, length}
use cocoapuffs_fpga.Machine.{Machine, done}
use cocoapuffs_fpga.Uart.{buffer_size, uart_getline}
use cocoapuffs_fpga.Uart.Read.{Listened}
use cocoapuffs_fpga.Uart.Line.{unbroken, Answer, whole, cut, nothing, uart_getline-Answer}
use cocoapuffs_fpga.Uart.Ledger.{Loses, Took, Took-before, Took-line, loss_port, keeps_all}
use cocoapuffs_fpga.Ihex.Framed.{LoaderFrame}
use cocoapuffs_fpga.Upload.{before_nul}

-- A line with its end that fits into the buffer together with a NUL.
pub record IsWhole (line : List ℕ) : Type 0 where
  pub body : List ℕ
  pub split : line ≡ body ++ b'\n' ∷ []
  pub one_line : unbroken body ≡ true
  pub fits : length line < buffer_size

abbrev pub AllWhole : List (List ℕ) → Type 0
AllWhole [] = Unit {0}
AllWhole (line ∷ lines) = IsWhole line × AllWhole lines

-- What ihex_read_bytes is given of a line: strlen of the buffer ends at the first NUL.
abbrev pub handed : List ℕ → List ℕ
handed line = before_nul (line ++ 0 ∷ [])

abbrev pub all_handed : List (List ℕ) → List (List ℕ)
all_handed [] = []
all_handed (line ∷ lines) = handed line ∷ all_handed lines

-- Neither the messages of a loader nor its stores of bytes take anything from the port.
abbrev pub loss_loader : LoaderFrame
loss_loader = record {
  port = loss_port;
  on_byte = λ a b m gone l. keeps_all gone (record { valid = l.valid; all = l.all });
}

-- From `m` to `n` one line was taken, with messages before and after.
pub record Took1 (line : List ℕ) (m n : Machine) : Type 0 where
  pub start : Machine
  pub stop : Machine
  pub before : Loses m start
  pub takes : Listened line start stop
  pub after : Loses stop n

pub Took1-Took :
    {line : List ℕ} {lines : List (List ℕ)} {m n o : Machine}
    → Took1 line m n
    → Took lines n o
    → Took (line ∷ lines) m o
Took1-Took one more = Took-before one.before (Took-line one.takes (Took-before one.after more))

answered_true :
    {line buf : List ℕ} {ok : Bool}
    → Answer buffer_size line ok buf
    → ok ≡ true
    → IsWhole line × (buf ≡ line ++ 0 ∷ [])
answered_true (whole body split u fits) e =
    (record { body = body; split = split; one_line = u; fits = fits }, refl)
answered_true (cut body last split u full) e = cc
answered_true (nothing none empty) e = cc

-- A uart_getline that answers true has taken a whole line and stored it.
pub getline-IsWhole :
    (m : Machine) {l : Bool × List ℕ} {n : Machine}
    → uart_getline buffer_size m ≡ done l n
    → l.0 ≡ true
    → (line : List ℕ) × IsWhole line × (l.1 ≡ line ++ 0 ∷ []) × Listened line m n
getline-IsWhole m h e =
    let (line, answer, listened) = uart_getline-Answer buffer_size m h in
    let (good, stored) = answered_true answer e in (line, good, stored, listened)
