-- ===== src/Uart/Served/Line.antt =====
-- uart_getline on a port that hands a line over, one character for each load.
use cocoapuffs_fpga.Prelude.{
  ℕ, zero, suc, ◌+◌, ◌-◌, ◌<◌, ◌≡◌, refl, sym, subst, Bool, true, false, ◌&&◌, List, [], ◌∷◌, ◌++◌,
  append-nil, append_assoc, arith, length, ◌==◌, ltb, if◌then◌else◌,
}
use cocoapuffs_fpga.Machine.{M, pure}
use cocoapuffs_fpga.Uart.{
  buffer_size, get, uart_getchar, getline_loop, drop_last, close_line, uart_getline,
}
use cocoapuffs_fpga.Uart.Line.{unbroken}
use cocoapuffs_fpga.Uart.Served.{Deed, taking, Serve, Serve-pure, Serve-map, Serve-bind, Serve-get}

-- Each character is a byte.
abbrev pub all_bytes : List ℕ → Bool
all_bytes [] = true
all_bytes (c ∷ cs) = ltb c 256 && all_bytes cs

then_branch :
    {A : Type 0} {s : List ℕ} {d : Deed} {a : A} {b : Bool} (x y : M A)
    → b ≡ true
    → Serve s x a d
    → Serve s (if b then x else y) a d
then_branch {s = s} {d = d} {a = a} x y e p = rw e p

else_branch :
    {A : Type 0} {s : List ℕ} {d : Deed} {a : A} {b : Bool} (x y : M A)
    → b ≡ false
    → Serve s y a d
    → Serve s (if b then x else y) a d
else_branch x y e p = rw e p

-- The loop on a line with its end, and on as many characters as it has room for.
loop_whole :
    (body stored : List ℕ) (limit left : ℕ)
    → suc (length body + left) ≡ limit
    → unbroken body ≡ true
    → all_bytes body ≡ true
    → Serve
        (body ++ b'\n' ∷ [])
        (getline_loop limit stored)
        (stored ++ (body ++ b'\n' ∷ []), left)
        (taking (body ++ b'\n' ∷ []))
unfolding getline_loop uart_getchar
loop_whole body stored zero left e u small = absurd (omega arith)
loop_whole [] stored (suc limit) left e u small =
    let same : limit ≡ left = omega (arith, e) in
    subst
      (λ n.
        Serve (b'\n' ∷ []) (getline_loop (suc limit) stored) (stored ++ b'\n' ∷ [], n)
          (taking (b'\n' ∷ [])))
      same
      (Serve-bind get _ (Serve-get b'\n' (omega arith)) (Serve-pure (stored ++ b'\n' ∷ [], limit)))
loop_whole (c ∷ body) stored (suc limit) left e u small =
    Serve-bind get _ (Serve-get c (ground arith)) (
      else_branch (pure (stored ++ c ∷ [], limit)) (getline_loop limit (stored ++ c ∷ []))
        (ground arith)
        (subst
          (λ out.
            Serve (body ++ b'\n' ∷ []) (getline_loop limit (stored ++ c ∷ [])) (out, left)
              (taking (body ++ b'\n' ∷ [])))
          (append_assoc stored (c ∷ []) (body ++ b'\n' ∷ []))
          (loop_whole body (stored ++ c ∷ []) limit left (omega (arith, e)) (ground arith)
            (ground arith))))

loop_cut :
    (line stored : List ℕ)
    → unbroken line ≡ true
    → all_bytes line ≡ true
    → Serve line (getline_loop (length line) stored) (stored ++ line, 0) (taking line)
unfolding getline_loop uart_getchar
loop_cut [] stored u small =
    subst (λ out. Serve [] (getline_loop 0 stored) (out, 0) (taking [])) (sym (append-nil stored))
      (Serve-pure (stored, 0))
loop_cut (c ∷ line) stored u small = Serve-bind get _ (Serve-get c (ground arith)) (
    else_branch (pure (stored ++ c ∷ [], length line)) _ (ground arith) (
      subst
        (λ out. Serve line (getline_loop (length line) (stored ++ c ∷ [])) (out, 0) (taking line))
        (append_assoc stored (c ∷ []) line)
        (loop_cut line (stored ++ c ∷ []) (ground arith) (ground arith))))

close_whole : (out : List ℕ) (left : ℕ) → close_line (out, suc left) ≡ (true, out ++ 0 ∷ [])
unfolding close_line
close_whole out left = let more : (suc left == 0) ≡ false = ground arith in rw more

close_cut : (out : List ℕ) → close_line (out, 0) ≡ (false, drop_last out ++ 0 ∷ [])
unfolding close_line
close_cut out = refl

-- A line that fits, with its end and a NUL: uart_getline returns it.
pub Serve-whole_line :
    (body : List ℕ)
    → unbroken body ≡ true
    → all_bytes body ≡ true
    → length body < 255
    → Serve
        (body ++ b'\n' ∷ [])
        (uart_getline buffer_size)
        (true, (body ++ b'\n' ∷ []) ++ 0 ∷ [])
        (taking (body ++ b'\n' ∷ []))
unfolding uart_getline
Serve-whole_line body u small fits =
    Serve-map (getline_loop buffer_size []) close_line
      (close_whole (body ++ b'\n' ∷ []) (254 - length body))
      (loop_whole body [] buffer_size (suc (254 - length body)) (omega arith) u small)

-- As many characters as there is room for, without an end: it answers false.
pub Serve-cut_line :
    (line : List ℕ)
    → unbroken line ≡ true
    → all_bytes line ≡ true
    → length line ≡ buffer_size
    → (buf : List ℕ) × Serve line (uart_getline buffer_size) (false, buf) (taking line)
unfolding uart_getline
Serve-cut_line line u small full = (
  drop_last line ++ 0 ∷ [],
  Serve-map (getline_loop buffer_size []) close_line (close_cut line) (
      subst (λ n. Serve line (getline_loop n []) (line, 0) (taking line)) full
        (loop_cut line [] u small)),
)
