-- ===== src/Uart/Correct.antt =====
-- The polling driver as its callers may rely on it: each function of lib/uart/uart.cc, over the
-- ledger of the received bytes and the order of loads and stores.
use cocoapuffs_fpga.Prelude.{ℕ, ◌≡◌, Bool, true, Option, some, List, [], ◌∷◌, ◌++◌, codes}
use cocoapuffs_fpga.Machine.{Machine, done}
use cocoapuffs_fpga.Machine.Trace.{sent_to}
use cocoapuffs_fpga.Uart.{
  uart_address, buffer_size, put, get, uart_wait_available, uart_print, Vsnprintf, printmef,
  kprintf, uart_getline,
}
use cocoapuffs_fpga.Uart.Account.{Accounted, Fits}
use cocoapuffs_fpga.Uart.Write.{polite, ready, Spoke, put-Spoke, wait-Spoke}
use cocoapuffs_fpga.Uart.Read.{Listened, get-Listened}
use cocoapuffs_fpga.Uart.Print.{c_string, uart_print-Spoke, Documented, printf-Spoke}
use cocoapuffs_fpga.Uart.Line.{Answer, uart_getline-Answer}

-- `given` is what the program has been given of the bytes that the port received.
pub record Inv (given : List ℕ) (m : Machine) : Type 0 where
  pub ledger : Accounted given m
  pub courteous : polite m.trace ≡ true

-- `text` is what was sent between two machines.
abbrev pub Sent : List ℕ → Machine → Machine → Type 0
Sent text m m' = sent_to uart_address m'.trace ≡ sent_to uart_address m.trace ++ text

Spoke-Inv :
    {given text : List ℕ} {m m' : Machine}
    → Spoke text m m'
    → Inv given m
    → Fits given m'
    → Sent text m m' × Inv given m'
Spoke-Inv {given} s i f =
    (s.sent, record { ledger = s.kept given i.ledger f; courteous = s.keeps_polite i.courteous })

Listened-Inv :
    {given line : List ℕ} {m m' : Machine}
    → Listened line m m'
    → Inv given m
    → (sent_to uart_address m'.trace ≡ sent_to uart_address m.trace) × Inv (given ++ line) m'
Listened-Inv {given} l i = (
  l.same_sent,
  record { ledger = l.moved given i.ledger; courteous = l.keeps_polite i.courteous },
)

-- A Put that returns has sent its character once and nothing else, after a load that found room;
-- if at most 255 received bytes are then still to be given to the program, none is lost.
pub put-Inv :
    (given : List ℕ) (c : ℕ) (m : Machine) {m' : Machine}
    → Inv given m
    → put c m ≡ done tt m'
    → Fits given m'
    → Sent (c ∷ []) m m' × Inv given m'
put-Inv given c m i h f = Spoke-Inv (put-Spoke c m h) i f

-- A Get that returns gives the program the next received byte, in order, and sends nothing.
pub get-Inv :
    (given : List ℕ) (m : Machine) {c : ℕ} {m' : Machine}
    → Inv given m
    → get m ≡ done c m'
    → (sent_to uart_address m'.trace ≡ sent_to uart_address m.trace) × Inv (given ++ c ∷ []) m'
get-Inv given m i h = Listened-Inv (get-Listened m h) i

-- A uart_wait_available that returns has ended with a load that found room, has sent nothing, and
-- has lost nothing if at most 255 received bytes are still to be given.
pub wait-Inv :
    (given : List ℕ) (m : Machine) {m' : Machine}
    → Inv given m
    → uart_wait_available m ≡ done tt m'
    → Fits given m'
    → Sent [] m m' × Inv given m' × (ready m'.trace ≡ true)
wait-Inv given m i h f =
    let (s, inv) = Spoke-Inv (wait-Spoke m h).0 i f in (s, inv, (wait-Spoke m h).1)

-- A uart_print of a string with a NUL that returns has sent the text before the NUL, has lost
-- nothing if at most 255 received bytes are still to be given, and returns 0.
pub uart_print-Inv :
    (given str text : List ℕ) (m : Machine) {r : ℕ} {m' : Machine}
    → Inv given m
    → c_string str ≡ some text
    → uart_print str m ≡ done r m'
    → Fits given m'
    → (r ≡ 0) × Sent text m m' × Inv given m'
uart_print-Inv given str text m i s h f =
    let (z, spoke) = uart_print-Spoke str m s h in
    let (sent, inv) = Spoke-Inv spoke i f in (z, sent, inv)

-- Where vsnprintf does what C documents, kprintf sends the formatted text, cut to 255 characters,
-- or nothing if the formatting fails; printmef sends the same and the end of the line. Both return
-- the result of vsnprintf, and lose nothing if at most 255 received bytes are still to be given.
pub printf-Inv :
    (vsnprintf : Vsnprintf) (given format args shown : List ℕ) (m : Machine) {ret ret' : Option ℕ}
    {k p : Machine}
    → Inv given m
    → Documented (vsnprintf buffer_size format args) shown
    → kprintf vsnprintf format args m ≡ done ret k
    → printmef vsnprintf format args m ≡ done ret' p
    → Fits given k
    → Fits given p
    → (ret ≡ (vsnprintf buffer_size format args).ret)
      × (ret' ≡ ret)
      × (Sent shown m k × Inv given k)
      × (Sent (shown ++ codes "\r\n") m p × Inv given p)
printf-Inv vsnprintf given format args shown m i d h g f f' =
    let (same, same', spoke, spoke') = printf-Spoke vsnprintf format args shown m d h g in
    (same, same', Spoke-Inv spoke i f, Spoke-Inv spoke' i f')

-- A uart_getline that returns has taken the next received bytes up to the first end of a line, or
-- as many as it has room for, and nothing else; it answers true and stores the line with its end
-- and a NUL exactly when that fits, and otherwise puts the NUL in place of the last byte.
pub uart_getline-Inv :
    (given : List ℕ) (size : ℕ) (m : Machine) {ok : Bool} {text : List ℕ} {m' : Machine}
    → Inv given m
    → uart_getline size m ≡ done (ok, text) m'
    → (line : List ℕ) × Answer size line ok text
      × (sent_to uart_address m'.trace ≡ sent_to uart_address m.trace)
      × Inv (given ++ line) m'
uart_getline-Inv given size m i h =
    let (line, answer, l) = uart_getline-Answer size m h in
    let (same, inv) = Listened-Inv l i in (line, answer, same, inv)
