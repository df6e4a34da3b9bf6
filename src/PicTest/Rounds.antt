-- ===== src/PicTest/Rounds.antt =====
-- The places of bin/pic_test against its loop.
use mathlib.Core.Path.{subst₂}
use cocoapuffs_fpga.Prelude.{
  ℕ, ◌≡◌, refl, sym, ap, ◌∙◌, subst, Bool, true, false, List, [], ◌∷◌, ◌==◌, inl, inr, Bool-cases,
  if◌then◌else◌, literal,
}
use cocoapuffs_fpga.Machine.{
  ◌>>◌, pure, Machine, done, bind, bind-eq-done, done-machine, done-result,
}
use cocoapuffs_fpga.Uart.{Vsnprintf, uart_is_full, put, uart_print, kprintf}
use cocoapuffs_fpga.Uart.Account.{heard}
use cocoapuffs_fpga.Uart.Write.{put_async_step, put_silent, put_step, wrote}
use cocoapuffs_fpga.Uart.Print.{print_more, print_end}
use cocoapuffs_fpga.Timer
use cocoapuffs_fpga.Timer.{Timer}
use cocoapuffs_fpga.PicTest.{
  Place, top, tested, failed, shown, prints, line_of, after_read, turn, advance, PicTest, advances,
  Reach, goes_on,
}

-- A place of the program, on a machine.
abbrev at : PicTest → Place → Bool → Machine → PicTest
at s place once m = record s { place = place; once = once; machine = m }

module _ (vsnprintf : Vsnprintf) (handler : ℕ) (boot : Machine) (s : PicTest) where
  abbrev Reached : Place → Bool → Machine → Type 0
  Reached place once m = Reach vsnprintf handler boot (at s place once m)

  goes :
      (place next : Place) (once once' : Bool) (m n : Machine)
      → Reached place once m
      → advance vsnprintf s.timer place once m ≡ done (next, once') n
      → Reached next once' n
  goes place next once once' m n r e =
      goes_on (at s place once m) _ r (advances (at s place once m) next once' n e)

  put_reaches :
      (answers : List ℕ) (c : ℕ) (str : List ℕ) (next : Place) (once : Bool) (m : Machine)
      {n : Machine}
      → m.script ≡ answers
      → (c == 0) ≡ false
      → Reached (prints (c ∷ str) next) once m
      → put c m ≡ done tt n
      → Reached (prints str next) once n
  unfolding advance
  put_reaches [] c str next once m e more r h = let silent = put_silent c m e in cc
  put_reaches (v ∷ rest) c str next once m {n} e more r h = elim (Bool-cases (uart_is_full v)) [
    | inl full ↦
        put_reaches rest c str next once (heard v rest m) refl more
          (goes (prints (c ∷ str) next) (prints (c ∷ str) next) once once m (heard v rest m) r
            (rw (more, put_async_step c m e, full) refl))
          (sym (put_step c m e ∙ rw full) ∙ h)
    | inr room ↦
        subst (Reached (prints str next) once) (done-machine (sym (put_step c m e ∙ rw room) ∙ h)) (
          goes (prints (c ∷ str) next) (prints str next) once once m (wrote c (heard v rest m)) r
            (rw (more, put_async_step c m e, room) refl))
  ]

  print_reaches :
      (str : List ℕ) (next : Place) (once : Bool) (m : Machine) {x : ℕ} {n : Machine}
      → Reached (prints str next) once m
      → uart_print str m ≡ done x n
      → Reached next once n
  unfolding uart_print advance
  print_reaches [] next once m r h = cc
  print_reaches (c ∷ str) next once m {x} {n} r h = elim (Bool-cases (c == 0)) [
    | inl over ↦
        subst (Reached next once) (done-machine (sym (print_end c str m over) ∙ h))
          (goes (prints (c ∷ str) next) next once once m m r (rw over refl))
    | inr more ↦
        let (u, k, sent, later) =
          bind-eq-done (put c m) (λ _. uart_print str) (sym (print_more c str m more) ∙ h) in
        print_reaches str next once k (put_reaches m.script c str next once m refl more r sent)
          later
  ]

  kprintf_reaches :
      (format args : List ℕ) (next : Place) (once : Bool) (m : Machine) {x : _} {n : Machine}
      → Reached (prints (line_of vsnprintf format args) next) once m
      → kprintf vsnprintf format args m ≡ done x n
      → Reached next once n
  unfolding kprintf line_of
  kprintf_reaches format args next once m r h =
      let (u, k, printed, last) = bind-eq-done (uart_print (line_of vsnprintf format args) m) _ h in
      subst (Reached next once) (done-machine last)
        (print_reaches (line_of vsnprintf format args) next once m r printed)

  arrives :
      (place : Place) {b once : Bool} {m n : Machine}
      → done b m ≡ done once n
      → Reached place b m
      → Reached place once n
  arrives place e r = subst₂ (λ b m. Reached place b m) (done-result e) (done-machine e) r

  -- A reading that fails, with its message the first time.
  fail_reaches :
      (status v : ℕ) (once : Bool) (m : Machine) {once' : Bool} {n : Machine}
      → Reached (tested status v) once m
      → (status == 0) ≡ false
      → (if once
            then pure true
            else (do kprintf vsnprintf (literal "Error reading timer counter\r\n") []; pure true))
          m
        ≡ done once' n
      → Reached (shown v) once' n
  unfolding advance
  fail_reaches status v true m r fails h = arrives (shown v) h (
      goes (failed v) (shown v) true true m m
        (goes (tested status v) (failed v) true true m m r (rw fails refl)) refl)
  fail_reaches status v false m r fails h =
      let message = literal "Error reading timer counter\r\n" in
      let (x, k, printed, last) = bind-eq-done (kprintf vsnprintf message [] m) _ h in
      let started =
        goes (tested status v) (prints (line_of vsnprintf message []) (failed v)) false false m m r
          (rw fails refl) in
      arrives (shown v) last (
        goes (failed v) (shown v) false true k k
          (kprintf_reaches message [] (failed v) false m started printed) refl)

  -- The middle of the loop: what it does with the status.
  tested_reaches :
      (status v : ℕ) (once : Bool) (m : Machine) {once' : Bool} {n : Machine}
      → Reached (tested status v) once m
      → after_read vsnprintf status once m ≡ done once' n
      → Reached (shown v) once' n
  unfolding after_read advance
  tested_reaches status v once m {once'} {n} r h = elim (Bool-cases (status == 0)) [
    | inl well ↦
        arrives (shown v) (sym (rw well refl) ∙ h)
          (goes (tested status v) (shown v) once once m m r (rw well refl))
    | inr fails ↦ fail_reaches status v once m r fails (sym (rw fails refl) ∙ h)
  ]

  -- A round of the loop that returns is a run through its places: from `top` to `top`, with the
  -- value of `once` and the machine that the round ends with.
  pub turn_reaches :
      (once : Bool) (m : Machine) {once' : Bool} {n : Machine}
      → Reach vsnprintf handler boot (record s { place = top; once = once; machine = m })
      → turn vsnprintf s.timer once m ≡ done once' n
      → Reach vsnprintf handler boot (record s { place = top; once = once'; machine = n })
  unfolding turn advance
  turn_reaches once m {once'} {n} r h =
      let (x, k, read, more) = bind-eq-done (Timer.read_counter s.timer m) _ h in
      let (b, l, tests, later) = bind-eq-done (after_read vsnprintf x.0 once k) _ more in
      let format = literal "timer: %u\r\n" in
      let (y, o, printed, last) = bind-eq-done (kprintf vsnprintf format (x.1 ∷ []) l) _ later in
      let has_read =
        goes top (tested x.0 x.1) once once m k r
          (ap (λ z. bind z λ r m. done (tested r.0 r.1, once) m) read) in
      let ready = tested_reaches x.0 x.1 once k has_read tests in
      let started =
        goes (shown x.1) (prints (line_of vsnprintf format (x.1 ∷ [])) top) b b l l ready refl in
      arrives top last (kprintf_reaches format (x.1 ∷ []) top b l started printed)
