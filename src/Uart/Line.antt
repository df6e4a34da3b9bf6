-- ===== src/Uart/Line.antt =====
-- uart_getline: the line that it stores and what it answers.
use mathlib.Core.Path.{subst₂, subst₃}
use cocoapuffs_fpga.Prelude.{
  ==_iff, ℕ, zero, suc, ◌+◌, ◌<◌, ◌≡◌, refl, sym, subst, ap, ◌∙◌, inl, inr, ◌⊎◌, Bool, true, false,
  not, ◌&&◌, List, [], ◌∷◌, ◌++◌, append_assoc, append-nil, arith, length, ◌==◌, Bool-cases,
}
use cocoapuffs_fpga.Machine.{Machine, done, pure, bind, bind-eq-done, done-machine, done-result}
use cocoapuffs_fpga.Uart.{get, uart_getchar, getline_loop, drop_last, close_line, uart_getline}
use cocoapuffs_fpga.Uart.Read.{Listened, Listened-refl, Listened-trans, get-Listened}

-- No character of the list ends a line.
abbrev pub unbroken : List ℕ → Bool
unbroken [] = true
unbroken (c ∷ cs) = not (c == b'\n') && unbroken cs

-- The characters `line` were taken by a loop that had `limit` characters left at its start and
-- `left` at its end: up to the first end of a line, or as many as there was room for.
abbrev Taken : ℕ → ℕ → List ℕ → Type 0
Taken limit left line =
    (length line + left ≡ limit)
    × (((body : List ℕ) × (line ≡ body ++ b'\n' ∷ []) × (unbroken body ≡ true))
        ⊎ ((left ≡ 0) × (unbroken line ≡ true)))

-- What the loop has done when it completes.
record Looped (limit : ℕ) (stored : List ℕ) (m : Machine) (out : List ℕ) (left : ℕ) (m' : Machine)
    : Type 0 where
  line : List ℕ
  stores : out ≡ stored ++ line
  taken : Taken limit left line
  listened : Listened line m m'

-- One character that ends the line, and one that does not.
Looped-last :
    (limit c : ℕ) (stored : List ℕ) {m n : Machine}
    → c ≡ b'\n'
    → Listened (c ∷ []) m n
    → Looped (suc limit) stored m (stored ++ c ∷ []) limit n
Looped-last limit c stored e l = record {
  line = c ∷ [];
  stores = refl;
  taken = (omega arith, inl ([], ap (λ d. d ∷ []) e, refl));
  listened = l;
}

Looped-more :
    (limit c : ℕ) (stored : List ℕ) {m n m' : Machine} {out : List ℕ} {left : ℕ}
    → (c == b'\n') ≡ false
    → Listened (c ∷ []) m n
    → Looped limit (stored ++ c ∷ []) n out left m'
    → Looped (suc limit) stored m out left m'
Looped-more limit c stored {left = left} e l r = record {
  line = c ∷ r.line;
  stores = r.stores ∙ append_assoc stored (c ∷ []) r.line;
  taken = (omega (arith, r.taken.0), longer r.taken.1);
  listened = Listened-trans l r.listened;
}
  where
    longer :
        ((body : List ℕ) × (r.line ≡ body ++ b'\n' ∷ []) × (unbroken body ≡ true))
          ⊎ ((left ≡ 0) × (unbroken r.line ≡ true))
        → ((body : List ℕ) × (c ∷ r.line ≡ body ++ b'\n' ∷ []) × (unbroken body ≡ true))
          ⊎ ((left ≡ 0) × (unbroken (c ∷ r.line) ≡ true))
    longer (inl (body, split, u)) = inl (c ∷ body, ap (◌∷◌ c) split, ground arith)
    longer (inr (z, u)) = inr (z, ground arith)

getline_loop-Looped :
    (limit : ℕ) (stored : List ℕ) (m : Machine) {out : List ℕ} {left : ℕ} {m' : Machine}
    → getline_loop limit stored m ≡ done (out, left) m'
    → Looped limit stored m out left m'
unfolding getline_loop uart_getchar
getline_loop-Looped zero stored m {out} {left} {m'} h = record {
  line = [];
  stores = sym (ap (λ r. r.0) (done-result h)) ∙ sym (append-nil stored);
  taken = let z = sym (ap (λ r. r.1) (done-result h)) in (omega (arith, z), inr (z, refl));
  listened = subst (Listened [] m) (done-machine h) (Listened-refl m);
}
getline_loop-Looped (suc limit) stored m {out} {left} {m'} h =
    let (c, n, got, more) = bind-eq-done (get m) _ h in
    elim (Bool-cases (c == b'\n')) [
      | inl newline ↦
          let found = rw newline at more in
          subst₃ (Looped (suc limit) stored m) (ap (λ r. r.0) (done-result found))
            (ap (λ r. r.1) (done-result found)) (done-machine found)
            (Looped-last limit c stored ((==_iff c _).0 newline) (get-Listened m got))
      | inr other ↦
          Looped-more limit c stored other (get-Listened m got)
            (getline_loop-Looped limit (stored ++ c ∷ []) n (rw other at more))
    ]

drop_last-append : (xs : List ℕ) (x : ℕ) → drop_last (xs ++ x ∷ []) ≡ xs
unfolding drop_last
drop_last-append [] x = refl
drop_last-append (y ∷ []) x = refl
drop_last-append (y ∷ z ∷ xs) x = ap (◌∷◌ y) (drop_last-append (z ∷ xs) x)

-- What a call with room for `size` characters answers and stores, for the characters `line` that
-- it took from the port.
pub data Answer (size : ℕ) (line : List ℕ) : Bool → List ℕ → Type 0 where
  -- A whole line with its end, which fits together with a NUL.
  whole :
      (body : List ℕ)
      → line ≡ body ++ b'\n' ∷ []
      → unbroken body ≡ true
      → length line < size
      → Answer size line true (line ++ 0 ∷ [])
  -- No whole line: `size` characters were taken, and the last of them gave way to the NUL.
  cut :
      (body : List ℕ) (last : ℕ)
      → line ≡ body ++ last ∷ []
      → unbroken body ≡ true
      → length line ≡ size
      → Answer size line false (body ++ 0 ∷ [])
  nothing : size ≡ 0 → line ≡ [] → Answer size line false []

getline_none : (m : Machine) → uart_getline 0 m ≡ done (false, []) m
unfolding uart_getline
getline_none m = refl

getline_room :
    (size : ℕ) (m : Machine)
    → uart_getline (suc size) m ≡ bind (getline_loop (suc size) [] m) (λ r. pure (close_line r))
unfolding uart_getline
getline_room size m = let e : (suc size == 0) ≡ false = ground arith in rw e

snoc : (xs : List ℕ) → 0 < length xs → (body : List ℕ) × (last : ℕ) × (xs ≡ body ++ last ∷ [])
snoc [] h = absurd (omega arith)
snoc (x ∷ []) h = ([], x, refl)
snoc (x ∷ y ∷ xs) h =
    let (body, last, e) = snoc (y ∷ xs) (omega arith) in (x ∷ body, last, ap (◌∷◌ x) e)

unbroken_body :
    (body : List ℕ) (last : ℕ) → unbroken (body ++ last ∷ []) ≡ true → unbroken body ≡ true
unbroken_body [] last u = refl
unbroken_body (c ∷ body) last u = ground (arith, unbroken_body body last)

cut_at :
    (size : ℕ) (line body : List ℕ) (last : ℕ)
    → line ≡ body ++ last ∷ []
    → unbroken body ≡ true
    → length line ≡ size
    → Answer size line false (drop_last line ++ 0 ∷ [])
cut_at size line body last split u len =
    subst (λ t. Answer size line false (t ++ 0 ∷ []))
      (sym (ap drop_last split ∙ drop_last-append body last)) (cut body last split u len)

close_line-Answer :
    (size left : ℕ) (line : List ℕ)
    → Taken (suc size) left line
    → Answer (suc size) line (close_line (line, left)).0 (close_line (line, left)).1
unfolding close_line
close_line-Answer size zero line (count, inl (body, split, u)) =
    cut_at (suc size) line body _ split u (omega arith)
close_line-Answer size zero line (count, inr (z, u)) =
    let (body, last, split) = snoc line (omega arith) in
    cut_at (suc size) line body last split
      (unbroken_body body last (subst (λ t. unbroken t ≡ true) split u)) (omega arith)
close_line-Answer size (suc left) line (count, inl (body, split, u)) =
    let more : (suc left == 0) ≡ false = ground arith in rw more (whole body split u (omega arith))
close_line-Answer size (suc left) line (count, inr (z, u)) = absurd (omega arith)

-- A completed uart_getline took some characters from the ledger, in order, and its answer and its
-- buffer are those of `Answer`.
pub uart_getline-Answer :
    (size : ℕ) (m : Machine) {ok : Bool} {text : List ℕ} {m' : Machine}
    → uart_getline size m ≡ done (ok, text) m'
    → (line : List ℕ) × Answer size line ok text × Listened line m m'
uart_getline-Answer zero m {ok} {text} {m'} h =
    let e = done-result (sym (getline_none m) ∙ h) in
    (
      [],
      subst₂ (Answer 0 []) (ap (λ r. r.0) e) (ap (λ r. r.1) e) (nothing refl refl),
      subst (Listened [] m) (done-machine (sym (getline_none m) ∙ h)) (Listened-refl m),
    )
uart_getline-Answer (suc size) m {ok} {text} {m'} h =
    let ((out, left), n, looped, last) =
      bind-eq-done (getline_loop (suc size) [] m) (λ r. pure (close_line r))
        (sym (getline_room size m) ∙ h) in
    let l = getline_loop-Looped (suc size) [] m looped in
    let e : close_line (l.line, left) ≡ (ok, text) =
      ap (λ o. close_line (o, left)) (sym l.stores) ∙ done-result last in
    (
      l.line,
      subst₂ (Answer (suc size) l.line) (ap (λ r. r.0) e) (ap (λ r. r.1) e)
          (close_line-Answer size left l.line l.taken),
      subst (Listened l.line m) (done-machine last) l.listened,
    )
