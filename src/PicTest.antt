-- ===== src/PicTest.antt =====
-- bin/pic_test: a loop that prints the counter of the timer, under the interrupts of the controller.
-- These come between ReadCounter, the tests of the loop, and the passes of the wait in Put.
pub mod Rounds
pub mod Ready
pub mod Kept
pub mod History
pub mod Safe
mod Tests
use cocoapuffs_fpga.Prelude.{
  ℕ, ◌≡◌, Bool, true, false, Option, some, List, ◌∷◌, [], ◌==◌, if◌then◌else◌, literal,
}
use cocoapuffs_fpga.Machine.{M, Machine, done, fault, pure, ◌>>=◌, ◌>>◌}
use cocoapuffs_fpga.Uart
use cocoapuffs_fpga.Uart.{Vsnprintf, terminate, put_async, kprintf}
use cocoapuffs_fpga.Timer
use cocoapuffs_fpga.Timer.{Timer}
use cocoapuffs_fpga.UartIrq
use cocoapuffs_fpga.UartIrq.{Uart}
use cocoapuffs_fpga.Pic
use cocoapuffs_fpga.Pic.{Pic, timer_irq_bit, set_uart_handler, set_timer_handler, set_mask}

-- The argument of Timer's constructor and of WriteCounter.
abbrev pub period : ℕ
period = 100000

-- main up to its loop. `handler` is the address of default_handler; the two pointers and `garbage`
-- are what the constructors of Pic and lib::Uart do not initialise.
unfoldable pub set_up : ℕ → Option Timer → Option Uart → List ℕ → M (Pic × Timer)
set_up handler timer_handler uart_handler garbage = do
  p ← Pic.create Pic.base_address handler timer_handler uart_handler
  let u : Uart = UartIrq.create UartIrq.base_address garbage
  t ← Timer.create Timer.default_base_address period
  Timer.write_counter t period
  let p' : Pic = set_timer_handler (set_uart_handler p (some u)) (some t)
  set_mask p' timer_irq_bit
  Pic.enable_interrupts
  pure (p', t)

-- What the loop does with the status of ReadCounter. `once` goes in and comes out.
unfoldable pub after_read : Vsnprintf → ℕ → Bool → M Bool
after_read vsnprintf status once =
    if status == 0
    then pure once
    else if once
    then pure true
    else (do kprintf vsnprintf (literal "Error reading timer counter\r\n") []; pure true)

-- One round of the loop, undisturbed.
unfoldable pub turn : Vsnprintf → Timer → Bool → M Bool
turn vsnprintf t once = do
  r ← Timer.read_counter t
  once' ← after_read vsnprintf r.0 once
  kprintf vsnprintf (literal "timer: %u\r\n") (r.1 ∷ [])
  pure once'

-- Where the loop stands: before ReadCounter; with its status and counter_val; after the message of
-- an error; before the last kprintf; and in the loop of uart_print, with what is left of the string
-- and where it goes on.
pub data Place : Type 0 where
  top : Place
  tested : ℕ → ℕ → Place
  failed : ℕ → Place
  shown : ℕ → Place
  prints : List ℕ → Place → Place

-- The string that kprintf prints.
unfoldable pub line_of : Vsnprintf → List ℕ → List ℕ → List ℕ
line_of vsnprintf format args =
    let r = vsnprintf Uart.buffer_size format args in terminate r.ret r.buf

-- From one place to the next: a ReadCounter, a test, or one pass of the wait in Put.
unfoldable pub advance : Vsnprintf → Timer → Place → Bool → M (Place × Bool)
unfolding line_of
advance vsnprintf t top once = do r ← Timer.read_counter t; pure (tested r.0 r.1, once)
advance vsnprintf t (tested status v) once = pure (
  if status == 0
      then shown v
      else if once
      then failed v
      else prints (line_of vsnprintf (literal "Error reading timer counter\r\n") []) (failed v),
  once,
)
advance vsnprintf t (failed v) once = pure (shown v, true)
advance vsnprintf t (shown v) once =
    pure (prints (line_of vsnprintf (literal "timer: %u\r\n") (v ∷ [])) top, once)
advance vsnprintf t (prints [] next) once = fault
advance vsnprintf t (prints (c ∷ str) next) once =
    if c == 0
    then pure (next, once)
    else (do ok ← put_async c; pure (if ok then prints str next else prints (c ∷ str) next, once))

pub record PicTest : Type 0 where
  pub pic : Pic
  pub timer : Timer
  pub place : Place
  pub once : Bool
  pub machine : Machine

-- What can happen next: the loop advances, or it is interrupted.
pub data Step (vsnprintf : Vsnprintf) : PicTest → PicTest → Type 0 where
  advances :
      (s : PicTest) (place : Place) (once : Bool) (m : Machine)
      → advance vsnprintf s.timer s.place s.once s.machine ≡ done (place, once) m
      → Step vsnprintf s (record s { place = place; once = once; machine = m })
  interrupted :
      (s : PicTest) (p : Pic) (m : Machine)
      → Pic.default_handler (some s.pic) s.machine ≡ done (some p) m
      → Step vsnprintf s (record s { pic = p; machine = m })

-- The states that a run from `m` comes through.
pub data Reach (vsnprintf : Vsnprintf) (handler : ℕ) (m : Machine) : PicTest → Type 0 where
  starts :
      (timer_handler : Option Timer) (uart_handler : Option Uart) (garbage : List ℕ) (p : Pic)
      (t : Timer) (m' : Machine)
      → set_up handler timer_handler uart_handler garbage m ≡ done (p, t) m'
      → Reach vsnprintf handler m
          (record { pic = p; timer = t; place = top; once = false; machine = m' })
  goes_on :
      (s s' : PicTest)
      → Reach vsnprintf handler m s
      → Step vsnprintf s s'
      → Reach vsnprintf handler m s'
