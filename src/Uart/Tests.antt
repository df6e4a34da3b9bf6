-- ===== src/Uart/Tests.antt =====
-- Runs of lib/uart/uart.cc at concrete answers of the port: 0x100 is an idle port with room, 0x900
-- an idle port without, 0x041 a received `A`, and 0x842 a received `B` while there is no room.
use cocoapuffs_fpga.Prelude.{
  ℕ, ◌≡◌, refl, arith, inl, true, false, Option, some, List, [], ◌∷◌, ◌++◌, length, replicate,
  codes, literal,
}
use cocoapuffs_fpga.Machine.{Machine, Event, load, store, UartBuf, done, waiting, load32, store32}
use cocoapuffs_fpga.Machine.Loop.{until}
use cocoapuffs_fpga.Machine.Trace.{sent_to}
use cocoapuffs_fpga.Uart.{
  uart_address, uart_is_empty, uart_is_full, can_write, get_async, put_async, put, get,
  uart_getchar, uart_putchar, uart_wait_available, uart_print, printme, Vsnprintf, printmef,
  kprintf, uart_getline,
}
use cocoapuffs_fpga.Uart.Pending.{pending, push, pop}
use cocoapuffs_fpga.Uart.Account.{Accounted, received, can_write_overflow}
use cocoapuffs_fpga.Uart.Write.{ready, put-total, put_waits}
use cocoapuffs_fpga.Uart.Read.{get-total}
use cocoapuffs_fpga.Uart.Print.{uart_print-total}
use cocoapuffs_fpga.Uart.Line.{Answer}
use cocoapuffs_fpga.Uart.Correct.{
  Inv, Sent, put-Inv, get-Inv, wait-Inv, uart_print-Inv, printf-Inv, uart_getline-Inv,
}

abbrev fresh : UartBuf
fresh = record { buf = replicate 256 0; rd = 0; wr = 0 }

abbrev boot : List ℕ → Machine
boot script = record { script = script; trace = []; uart_buf = fresh }

abbrev port : ℕ → Event
port v = load uart_address v

abbrev send : ℕ → Event
send v = store uart_address v

status_words :
    (uart_is_empty 0x100 ≡ true)
    × (uart_is_full 0x100 ≡ false)
    × (uart_is_empty 0x842 ≡ false)
    × (uart_is_full 0x842 ≡ true)
unfolding uart_is_empty uart_is_full
status_words = (refl, refl, refl, refl)

-- `H` has to wait for two answers; the `B` that comes with the first is saved.
abbrev sent_h : Machine
sent_h = record {
  script = 0x41 ∷ [];
  trace = send 72 ∷ port 0x100 ∷ port 0x842 ∷ [];
  uart_buf = push fresh 66;
}

put_runs : put 72 (boot (0x842 ∷ 0x100 ∷ 0x41 ∷ [])) ≡ done tt sent_h
unfolding put put_async can_write until load32 store32 uart_is_empty uart_is_full
put_runs = refl

boot-Inv : (script : List ℕ) → Inv [] (boot script)
boot-Inv script = record {
  ledger = record {
    valid = record { size = refl; rd_in = omega arith; wr_in = omega arith };
    all = refl;
  };
  courteous = refl;
}

put-Inv_example : Sent (72 ∷ []) (boot (0x842 ∷ 0x100 ∷ 0x41 ∷ [])) sent_h × Inv [] sent_h
unfolding put put_async can_write until load32 store32 uart_is_empty uart_is_full
put-Inv_example = put-Inv [] 72 (boot (0x842 ∷ 0x100 ∷ 0x41 ∷ [])) (boot-Inv _) refl (omega arith)

put-total_example :
    (m' : Machine) × (put 72 (boot (0x842 ∷ 0x100 ∷ 0x41 ∷ [])) ≡ done tt m')
    × (m'.script ≡ 0x41 ∷ [])
unfolding uart_is_full
put-total_example =
    put-total (0x842 ∷ []) 0x100 (0x41 ∷ []) 72 (boot (0x842 ∷ 0x100 ∷ 0x41 ∷ [])) refl refl refl

put_waits_example :
    (m' : Machine) × (put 72 (boot (0x900 ∷ 0x842 ∷ [])) ≡ waiting m')
    × (sent_to uart_address m'.trace ≡ [])
unfolding uart_is_full
put_waits_example = put_waits (0x900 ∷ 0x842 ∷ []) 72 (boot (0x900 ∷ 0x842 ∷ [])) refl refl

abbrev waited : Machine
waited = record { script = []; trace = port 0x100 ∷ port 0x900 ∷ []; uart_buf = fresh }

waits_for_room :
    Sent [] (boot (0x900 ∷ 0x100 ∷ [])) waited × Inv [] waited × (ready waited.trace ≡ true)
unfolding uart_wait_available can_write until load32 uart_is_empty uart_is_full
waits_for_room = wait-Inv [] (boot (0x900 ∷ 0x100 ∷ [])) (boot-Inv _) refl (omega arith)

-- The saved `B` comes before the `A` that the port still has.
get-Inv_example :
    (sent_to uart_address sent_h.trace ≡ 72 ∷ [])
    × Inv (66 ∷ []) (record sent_h { uart_buf = pop (push fresh 66) })
unfolding get get_async until put put_async can_write load32 store32 uart_is_empty uart_is_full
get-Inv_example = get-Inv [] sent_h put-Inv_example.1 refl

get-total_example :
    (m' : Machine) × (get (boot (0x100 ∷ 0x41 ∷ 0x42 ∷ [])) ≡ done 65 m') × (m'.script ≡ 0x42 ∷ [])
unfolding uart_is_empty
get-total_example =
    get-total (0x100 ∷ []) 0x41 (0x42 ∷ []) (boot (0x100 ∷ 0x41 ∷ 0x42 ∷ [])) refl refl refl refl

-- 255 NUL bytes are saved and one more byte comes in.
abbrev brimming : Machine
brimming = record {
  script = 0x41 ∷ [];
  trace = replicate 255 (port 0);
  uart_buf = record { buf = replicate 256 0; rd = 0; wr = 255 };
}

brimming-Accounted : Accounted [] brimming
unfolding uart_is_empty
brimming-Accounted = record {
  valid = record { size = refl; rd_in = omega arith; wr_in = omega arith };
  all = refl;
}

can_write_overflow_example :
    (m' : Machine) × (can_write brimming ≡ done true m')
    × (pending m'.uart_buf ≡ [])
    × (length (received m'.trace) ≡ 256)
unfolding uart_is_empty uart_is_full
can_write_overflow_example =
    can_write_overflow [] brimming 0x41 [] refl refl brimming-Accounted refl

abbrev idle : ℕ → Machine
idle n = boot (replicate n 0x100)

abbrev said_ok : Machine
said_ok = record {
  script = [];
  trace = send 75 ∷ port 0x100 ∷ send 79 ∷ port 0x100 ∷ [];
  uart_buf = fresh;
}

uart_print-Inv_example : (◌≡◌ {A = ℕ} 0 0) × Sent (codes "OK") (idle 2) said_ok × Inv [] said_ok
unfolding uart_print uart_putchar put put_async can_write until load32 store32 uart_is_empty
    uart_is_full
uart_print-Inv_example =
    uart_print-Inv [] (literal "OK") (codes "OK") (idle 2) (boot-Inv _) refl refl (omega arith)

uart_print-total_example :
    (m' : Machine) × (uart_print (literal "OK") (idle 3) ≡ done 0 m') × (m'.script ≡ 0x100 ∷ [])
unfolding uart_is_full
uart_print-total_example =
    uart_print-total (literal "OK") (codes "OK") (replicate 2 0x100) (0x100 ∷ []) (idle 3) refl refl
      refl refl

-- A vsnprintf that knows one text.
abbrev says_ok : Vsnprintf
says_ok n format args = record { ret = some 2; buf = literal "OK" }

abbrev said_line : Machine
said_line = record {
  script = [];
  trace = send 10 ∷ port 0x100 ∷ send 13 ∷ port 0x100 ∷ said_ok.trace;
  uart_buf = fresh;
}

abbrev said_ok_early : Machine
said_ok_early = record said_ok { script = replicate 2 0x100 }

printf-Inv_example :
    (◌≡◌ {A = Option ℕ} (some 2) (some 2))
    × (◌≡◌ {A = Option ℕ} (some 2) (some 2))
    × (Sent (codes "OK") (idle 4) said_ok_early × Inv [] said_ok_early)
    × (Sent (codes "OK\r\n") (idle 4) said_line × Inv [] said_line)
unfolding kprintf printmef printme uart_print uart_putchar put put_async can_write until load32
    store32 uart_is_empty uart_is_full
printf-Inv_example =
    printf-Inv says_ok [] (literal "%s") [] (codes "OK") (idle 4) (boot-Inv _)
      (inl (codes "OK", refl, refl, refl)) refl refl (omega arith) (omega arith)

-- A line of two characters and its end, in a buffer of eight and in one of three.
abbrev typed : Machine
typed = boot (0x68 ∷ 0x100 ∷ 0x69 ∷ 0x0a ∷ [])

abbrev heard_line : Machine
heard_line = record {
  script = [];
  trace = port 0x0a ∷ port 0x69 ∷ port 0x100 ∷ port 0x68 ∷ [];
  uart_buf = fresh;
}

getline_runs : uart_getline 8 typed ≡ done (true, codes "hi\n" ++ 0 ∷ []) heard_line
unfolding uart_getline uart_getchar get get_async until load32 uart_is_empty
getline_runs = refl

getline_cuts : uart_getline 3 typed ≡ done (false, codes "hi" ++ 0 ∷ []) heard_line
unfolding uart_getline uart_getchar get get_async until load32 uart_is_empty
getline_cuts = refl

uart_getline-Inv_example :
    (line : List ℕ) × Answer 8 line true (codes "hi\n" ++ 0 ∷ [])
    × (sent_to uart_address heard_line.trace ≡ [])
    × Inv line heard_line
uart_getline-Inv_example = uart_getline-Inv [] 8 typed (boot-Inv _) getline_runs
