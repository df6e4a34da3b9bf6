-- ===== src/Uart.antt =====
-- lib/uart/uart.cc and lib/uart/uart.h: the polling driver of the serial port. Class UartBuf keeps
-- the bytes that arrive while the program writes; the free functions print and read lines.
-- A `char` is unsigned on RISC-V, so a character is a byte.
pub mod Status
pub mod Pending
pub mod Account
pub mod Write
pub mod Read
pub mod Print
pub mod Line
pub mod Correct
pub mod Framed
pub mod Spending
pub mod Ledger
pub mod Served
mod Tests
use cocoapuffs_fpga.Prelude.{
  ℕ, zero, suc, ◌+◌, ◌%◌, bit_and, Bool, true, false, not, Option, none, some, List, [], ◌∷◌, ◌++◌,
  ◌==◌, leb, if◌then◌else◌, get_or, set, literal,
}
use cocoapuffs_fpga.Machine.{Machine, M, done, fault, pure, ◌>>=◌, ◌>>◌, load32, store32}
use cocoapuffs_fpga.Machine.Loop.{until}

-- UART_ADDRESS, as every BUILD file for the boards defines it.
abbrev pub uart_address : ℕ
uart_address = 0x4000_0010

abbrev pub empty_bitmask : ℕ
empty_bitmask = 0x0100

abbrev pub full_bitmask : ℕ
full_bitmask = 0x0800

-- sizeof(buf_), and of the buffer that printmef and kprintf share.
abbrev pub buffer_size : ℕ
buffer_size = 256

unfoldable pub uart_is_empty : ℕ → Bool
uart_is_empty c = not (bit_and c empty_bitmask == 0)

unfoldable pub uart_is_full : ℕ → Bool
uart_is_full c = not (bit_and c full_bitmask == 0)

abbrev pub uart_raw_read : M ℕ
uart_raw_read = load32 uart_address

abbrev pub uart_raw_write : ℕ → M (Unit {0})
uart_raw_write v = store32 uart_address v

-- UartBuf::CanWrite. The load may bring a received byte along, which is saved.
save_received : ℕ → M (Unit {0})
save_received v m =
    if not (uart_is_empty v)
    then done tt (record m {
      uart_buf = record u { buf = set u.buf u.wr (bit_and v 0xff); wr = (u.wr + 1) % buffer_size };
    })
    else done tt m
  where
    open m use {uart_buf as u}

unfoldable pub can_write : M Bool
unfolding save_received
can_write = do v ← uart_raw_read; save_received v; pure (not (uart_is_full v))

-- UartBuf::GetAsync: the result is `*c` where the function returns true.
take_saved : M (Option ℕ)
take_saved m =
    done (some (get_or u.buf u.rd 0))
      (record m { uart_buf = record u { rd = (u.rd + 1) % buffer_size } })
  where
    open m use {uart_buf as u}

unfoldable pub get_async : M (Option ℕ)
unfolding take_saved
get_async m =
    if not (m.uart_buf.rd == m.uart_buf.wr)
    then take_saved m
    else (do v ← uart_raw_read; pure (if uart_is_empty v then none else some (bit_and v 0xff))) m

-- UartBuf::PutAsync
unfoldable pub put_async : ℕ → M Bool
put_async c = do ok ← can_write; if ok then uart_raw_write c >> pure true else pure false

-- The answer of a function that a `do … while (!ret)` loop repeats.
abbrev pub poll : M Bool → M (Option (Unit {0}))
poll ready = do ok ← ready; pure (if ok then some tt else none)

-- UartBuf::Put and UartBuf::Get
unfoldable pub put : ℕ → M (Unit {0})
put c = until (poll (put_async c))

unfoldable pub get : M ℕ
get = until get_async

unfoldable pub uart_getchar : M ℕ
uart_getchar = get

unfoldable pub uart_putchar : ℕ → M (Unit {0})
uart_putchar c = put c

unfoldable pub uart_wait_available : M (Unit {0})
uart_wait_available = until (poll can_write)

-- for (; pause > 0; pause--);
unfoldable pub pause_for_spins : ℕ → M (Unit {0})
pause_for_spins zero m = done tt m
pause_for_spins (suc pause) m = pause_for_spins pause m

-- The list is the memory from `str` on; past its end is past the end of the array.
unfoldable pub uart_print : List ℕ → M ℕ
uart_print [] m = fault m
uart_print (c ∷ str) m =
    let rest = (do uart_putchar c; uart_print str) m in if c == 0 then done 0 m else rest

unfoldable pub printme : List ℕ → M (Unit {0})
printme p = do uart_print p; uart_print (literal "\r\n"); pure tt

-- What vsnprintf leaves: its result, `none` where that is negative, and the bytes of `buf`.
pub record Formatted : Type 0 where
  pub ret : Option ℕ
  pub buf : List ℕ

-- The C library's vsnprintf(buf, n, format, args).
abbrev pub Vsnprintf : Type 0
Vsnprintf = ℕ → List ℕ → List ℕ → Formatted

-- The repair of `buf` after the call.
pub terminate : Option ℕ → List ℕ → List ℕ
terminate none buf = set buf 0 0
terminate (some ret) buf = if leb buffer_size ret then set buf 255 0 else buf

module _ (vsnprintf : Vsnprintf) where
  unfoldable pub printmef : List ℕ → List ℕ → M (Option ℕ)
  unfolding terminate
  printmef format args = do
    let r = vsnprintf buffer_size format args
    printme (terminate r.ret r.buf)
    pure r.ret

  unfoldable pub kprintf : List ℕ → List ℕ → M (Option ℕ)
  unfolding terminate
  kprintf format args = do
    let r = vsnprintf buffer_size format args
    uart_print (terminate r.ret r.buf)
    pure r.ret

-- The loop of uart_getline: the characters stored so far go in, all of them and what is left of
-- `read_chars` come out.
getline_loop : ℕ → List ℕ → M (List ℕ × ℕ)
getline_loop zero stored m = done (stored, 0) m
getline_loop (suc left) stored m =
    (uart_getchar >>= λ c.
    let rest = getline_loop left (stored ++ c ∷ []) in
    if c == b'\n' then pure (stored ++ c ∷ [], left) else rest)
      m

-- `--buf; *buf = '\0';`
drop_last : List ℕ → List ℕ
drop_last [] = []
drop_last (c ∷ []) = []
drop_last (c ∷ d ∷ cs) = c ∷ drop_last (d ∷ cs)

-- What follows the loop: the answer, and the buffer with its NUL.
close_line : List ℕ × ℕ → Bool × List ℕ
unfolding drop_last
close_line (stored, left) =
    if left == 0 then (false, drop_last stored ++ 0 ∷ []) else (true, stored ++ 0 ∷ [])

-- The function's result, and what it has written at `buf`.
unfoldable pub uart_getline : ℕ → M (Bool × List ℕ)
unfolding getline_loop close_line
uart_getline read_chars =
    if read_chars == 0
    then pure (false, [])
    else (do r ← getline_loop read_chars []; pure (close_line r))
