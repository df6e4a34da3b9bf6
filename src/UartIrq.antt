-- ===== src/UartIrq.antt =====
-- lib/uart.cc and lib/uart.h: class lib::Uart, the receiver that is driven by interrupts. The
-- pointers begin_ and end_ are indices into `buffer`.
pub mod Handler
pub mod Reading
pub mod Framed
mod Tests
use cocoapuffs_fpga.Prelude.{
  ℕ, zero, suc, ◌+◌, ◌-◌, ◌%◌, ◌^◌, bit_and, Bool, true, false, not, ◌&&◌, List, [], ◌∷◌, ◌++◌,
  ◌==◌, if◌then◌else◌, length, get_or, set, replicate,
}
use cocoapuffs_fpga.Prelude.Int.{ℤ, pos, negsuc}
use cocoapuffs_fpga.Machine.{Machine, M, done, waiting, pure, bind, ◌>>=◌}
use cocoapuffs_fpga.Reg
use cocoapuffs_fpga.Reg.{Reg}
use cocoapuffs_fpga.Uart.{uart_is_empty}

abbrev pub base_address : ℕ
base_address = 0x4000_0010

abbrev pub buffer_size : ℕ
buffer_size = 256

-- `*buffer_` is not initialised by the constructor: its content is an argument of `create`.
pub record Uart : Type 0 where
  pub reg : Reg
  pub buffer : List ℕ
  pub begin : ℕ
  pub end : ℕ
  pub overrun : Bool

unfoldable pub create : ℕ → List ℕ → Uart
create base_address garbage = record {
  reg = record { address = base_address % 2 ^ 32 };
  buffer = garbage;
  begin = 0;
  end = 0;
  overrun = false;
}

unfoldable pub is_overrun : Uart → Bool
is_overrun u = u.overrun

unfoldable pub is_empty : Uart → Bool
is_empty u = not u.overrun && u.begin == u.end

-- `*begin_++ = uart_ch;` and the turn at the end of the buffer.
store_char : Uart → ℕ → Uart
store_char u c = record u {
  buffer = set u.buffer u.begin c;
  begin = if u.begin + 1 == buffer_size then 0 else u.begin + 1;
}

-- The `for (;;)` of the handler, with a bound on its rounds.
interrupt_loop : ℕ → Uart → M Uart
unfolding store_char
interrupt_loop zero u m = waiting m
interrupt_loop (suc rounds) u m = bind (Reg.read u.reg m) λ r.
    let status = r.1 in
    let stored = store_char u (bit_and status 0xff) in
    let rest = interrupt_loop rounds stored in
    if uart_is_empty status
    then pure u
    else if stored.begin == stored.end
    then pure (record stored { overrun = true })
    else rest

-- The buffer has 256 places: after as many rounds it is overrun at the latest.
unfoldable pub interrupt_handler : Uart → M Uart
unfolding interrupt_loop
interrupt_handler u = interrupt_loop buffer_size u

-- The loop of Uart::Read: `room` is len - read_count.
read_loop : ℕ → Uart → List ℕ → List ℕ × Uart
read_loop zero u out = (out, u)
read_loop (suc room) u out =
    if u.begin == u.end
    then (out, u)
    else read_loop room (record u { end = if u.end == buffer_size then 0 else u.end })
        (out ++ get_or u.buffer u.end 0 ∷ [])

-- read_count, the characters stored at `buf`, and the object.
unfoldable pub read : Uart → ℕ → ℕ × List ℕ × Uart
unfolding read_loop
read u len = let (out, u') = read_loop len u [] in (length out, out, u')

-- `while (IsEmpty()) {}` in ReadLine: only the interrupt handler, running meanwhile, can end it.
unfoldable pub wait_for_char : ℕ → Uart → M Uart
wait_for_char zero u m = waiting m
wait_for_char (suc rounds) u m =
    let again = bind (interrupt_handler u m) (wait_for_char rounds) in
    if is_empty u then again else done u m

-- The loop of ReadLine. What it has stored at `buf` goes in and comes out.
read_line_loop : ℕ → ℕ → Uart → List ℕ → M (ℤ × List ℕ × Uart)
read_line_loop zero len u out m = waiting m
read_line_loop (suc fuel) len u out m =
    let turn = bind (wait_for_char (suc (length m.script)) u m) λ w.
      let (count, chars, u') = read w 1 in
      let rest = read_line_loop fuel (len - count) u' (out ++ chars) in
      if is_overrun w
      then pure (negsuc 0, out, w)
      else if get_or chars 0 0 == b'\r'
      then pure (pos 0, out ++ chars, u')
      else rest in
    if len == 0 then done (pos 0, out, u) m else turn

unfoldable pub read_line : Uart → ℕ → M (ℤ × List ℕ × Uart)
unfolding read_line_loop
read_line u len = read_line_loop (suc len) len u []
