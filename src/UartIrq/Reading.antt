-- ===== src/UartIrq/Reading.antt =====
-- Uart::Read and Uart::ReadLine. In them `end_` is only turned from the end of the buffer to its
-- beginning, and nothing advances it.
use cocoapuffs_fpga.Prelude.{
  ℕ, zero, suc, ◌-◌, ◌<◌, ◌≡◌, ◌≢◌, refl, sym, ap, ◌∙◌, true, false, List, [], ◌∷◌, ◌++◌, ◌==◌,
  append_assoc, append-nil, arith, if◌then◌else◌, length, get_or, replicate, length-replicate,
  Bool-cases, if-apply, ==_iff, inl, inr,
}
use cocoapuffs_fpga.Prelude.Int.{ℤ, pos, negsuc}
use cocoapuffs_fpga.Machine.{Machine, done}
use cocoapuffs_fpga.Uart.Pending.{IsValid}
use cocoapuffs_fpga.UartIrq.{
  Uart, buffer_size, read_loop, read, is_overrun, is_empty, wait_for_char, read_line_loop,
  read_line,
}
use cocoapuffs_fpga.UartIrq.Handler.{ring}

-- The oldest character of the ring.
abbrev pub oldest : Uart → ℕ
oldest u = get_or u.buffer u.end 0

read_loop_stays :
    (n : ℕ) (u : Uart) (out : List ℕ)
    → IsValid (ring u)
    → u.begin ≢ u.end
    → read_loop n u out ≡ (out ++ replicate n (oldest u), u)
unfolding read_loop
read_loop_stays zero u out v ne = ap (λ o. (o, u)) (sym (append-nil out))
read_loop_stays (suc n) u out v ne =
    let filled : (u.begin == u.end) ≡ false = ground arith in
    let inside : (u.end == buffer_size) ≡ false = ground arith in
    rw (filled, inside)
      (read_loop_stays n u (out ++ oldest u ∷ []) v ne
        ∙ ap (λ o. (o, u)) (append_assoc out (oldest u ∷ []) (replicate n (oldest u))))

read_loop_empty : (n : ℕ) (u : Uart) (out : List ℕ) → u.begin ≡ u.end → read_loop n u out ≡ (out, u)
unfolding read_loop
read_loop_empty zero u out e = refl
read_loop_empty (suc n) u out e = let met : (u.begin == u.end) ≡ true = ground arith in rw met

-- The bug in Read: on a ring that is not empty it answers that it read `len` characters, all of
-- them copies of the oldest one, and takes none out. On an empty ring it reads nothing.
pub read_repeats :
    (u : Uart) (len : ℕ)
    → IsValid (ring u)
    → read u len ≡ (if u.begin == u.end then (0, [], u) else (len, replicate len (oldest u), u))
unfolding read
read_repeats u len v = elim (Bool-cases (u.begin == u.end)) [
  | inl met ↦ rw (met, read_loop_empty len u [] ((==_iff _ _).0 met))
  | inr apart ↦ rw (apart, read_loop_stays len u [] v (λ e. ground arith), length-replicate)
]

-- What ReadLine answers when it need not wait: its result and the characters that it stored.
abbrev pub line_answer : Uart → ℕ → ℤ × List ℕ
line_answer u zero = (pos 0, [])
line_answer u (suc len) =
    if u.overrun
    then (negsuc 0, [])
    else if oldest u == b'\r'
    then (pos 0, oldest u ∷ [])
    else (pos 0, replicate (suc len) (oldest u))

read_one :
    (u : Uart) → IsValid (ring u) → (u.begin == u.end) ≡ false → read u 1 ≡ (1, oldest u ∷ [], u)
read_one u v apart = read_repeats u 1 v ∙ rw apart

no_wait :
    (n : ℕ) (u : Uart) (m : Machine) → is_empty u ≡ false → wait_for_char (suc n) u m ≡ done u m
unfolding wait_for_char
no_wait n u m e = rw e

line_overrun :
    (fuel len : ℕ) (u : Uart) (out : List ℕ) (m : Machine)
    → u.overrun ≡ true
    → read_line_loop (suc fuel) (suc len) u out m ≡ done (negsuc 0, out, u) m
unfolding read_line_loop
line_overrun fuel len u out m o =
    let stop : is_overrun u ≡ true = unfold is_overrun in o in
    let some_room : (suc len == 0) ≡ false = ground arith in
    let busy : is_empty u ≡ false = unfold is_empty in ground arith in
    rw (some_room, no_wait (length m.script) u m busy, stop)

line_turn :
    (fuel len : ℕ) (u : Uart) (out : List ℕ) (m : Machine)
    → IsValid (ring u)
    → u.overrun ≡ false
    → (u.begin == u.end) ≡ false
    → read_line_loop (suc fuel) (suc len) u out m ≡ (
        if oldest u == b'\r'
        then done (pos 0, out ++ oldest u ∷ [], u) m
        else read_line_loop fuel len u (out ++ oldest u ∷ []) m)
unfolding read_line_loop
line_turn fuel len u out m v o apart =
    let fine : is_overrun u ≡ false = unfold is_overrun in o in
    let some_room : (suc len == 0) ≡ false = ground arith in
    let busy : is_empty u ≡ false = unfold is_empty in ground arith in
    let less : suc len - 1 ≡ len = omega arith in
    rw (some_room, no_wait (length m.script) u m busy, fine, read_one u v apart, less)
      (if-apply (oldest u == b'\r') _ _ m)

line_done :
    (fuel : ℕ) (u : Uart) (out : List ℕ) (m : Machine)
    → read_line_loop (suc fuel) 0 u out m ≡ done (pos 0, out, u) m
unfolding read_line_loop
line_done fuel u out m = refl

line_loop :
    (fuel len : ℕ) (u : Uart) (out : List ℕ) (m : Machine)
    → IsValid (ring u)
    → u.overrun ≡ false
    → (u.begin == u.end) ≡ false
    → (oldest u == b'\r') ≡ false
    → len < fuel
    → read_line_loop fuel len u out m ≡ done (pos 0, out ++ replicate len (oldest u), u) m
line_loop zero len u out m v o apart plain h = absurd (omega arith)
line_loop (suc fuel) zero u out m v o apart plain h = rw append-nil (line_done fuel u out m)
line_loop (suc fuel) (suc len) u out m v o apart plain h =
    line_turn fuel len u out m v o apart
    ∙ (rw plain (
        line_loop fuel len u (out ++ oldest u ∷ []) m v o apart plain (omega arith)
        ∙ ap (λ l. done (pos 0, l, u) m)
            (append_assoc out (oldest u ∷ []) (replicate len (oldest u)))))

-- The same bug in ReadLine: with a character at hand it does not wait, and either fails because of
-- an overrun, or ends at once with a `\r`, or fills the whole of `buf` with copies of the oldest
-- character. It takes nothing out of the ring.
pub read_line_repeats :
    (u : Uart) (len : ℕ) (m : Machine)
    → IsValid (ring u)
    → is_empty u ≡ false
    → (u.begin == u.end) ≡ false
    → read_line u len m ≡ done ((line_answer u len).0, (line_answer u len).1, u) m
unfolding read_line
read_line_repeats u zero m v busy apart = line_done 0 u [] m
read_line_repeats u (suc len) m v busy apart = elim (Bool-cases u.overrun) [
  | inl o ↦ line_overrun (suc len) len u [] m o ∙ rw o
  | inr o ↦ elim (Bool-cases (oldest u == b'\r')) [
    | inl return ↦ line_turn (suc len) len u [] m v o apart ∙ rw (return, o)
    | inr plain ↦
        line_loop (suc (suc len)) (suc len) u [] m v o apart plain (omega arith) ∙ rw (o, plain)
  ]
]
