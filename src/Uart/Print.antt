-- ===== src/Uart/Print.antt =====
-- uart_print, printme, printmef and kprintf: which characters reach the port.
use mathlib.Core.Option
use cocoapuffs_fpga.Prelude.{
  ℕ, zero, suc, ◌≤◌, ◌≡◌, refl, sym, subst, ap, ◌∙◌, inl, inr, ◌⊎◌, Bool, true, false, not, ◌&&◌,
  Option, none, some, List, [], ◌∷◌, ◌++◌, arith, length, ◌==◌, if◌then◌else◌, Bool-cases, codes,
  literal, set, take,
}
use cocoapuffs_fpga.Machine.{Machine, done, bind, bind-eq-done, done-machine, done-result}
use cocoapuffs_fpga.Uart.{
  uart_is_full, put, uart_putchar, uart_print, printme, Formatted, Vsnprintf, printmef, kprintf,
  terminate, buffer_size,
}
use cocoapuffs_fpga.Uart.Write.{Spoke, Spoke-refl, Spoke-trans, put-Spoke, put-total}

-- The text of a C string: what stands before the first NUL, if there is one.
abbrev pub c_string : List ℕ → Option (List ℕ)
c_string [] = none
c_string (c ∷ s) = if c == 0 then some [] else Option.map (◌∷◌ c) (c_string s)

pub print_more :
    (c : ℕ) (str : List ℕ) (m : Machine)
    → (c == 0) ≡ false
    → uart_print (c ∷ str) m ≡ bind (put c m) (λ _. uart_print str)
unfolding uart_print uart_putchar
print_more c str m e = rw e

pub print_end :
    (c : ℕ) (str : List ℕ) (m : Machine) → (c == 0) ≡ true → uart_print (c ∷ str) m ≡ done 0 m
unfolding uart_print
print_end c str m e = rw e

pub c_string-end :
    (c : ℕ) (str : List ℕ) {text : List ℕ}
    → (c == 0) ≡ true
    → c_string (c ∷ str) ≡ some text
    → text ≡ []
c_string-end c str e s = ground arith

pub c_string-more :
    (c : ℕ) (str : List ℕ) {text : List ℕ}
    → (c == 0) ≡ false
    → c_string (c ∷ str) ≡ some text
    → (rest : List ℕ) × (c_string str ≡ some rest) × (text ≡ c ∷ rest)
c_string-more c str {text} e s = go (c_string str) refl
  where
    go :
        (o : Option (List ℕ))
        → c_string str ≡ o
        → (rest : List ℕ) × (c_string str ≡ some rest) × (text ≡ c ∷ rest)
    go none q = ground arith
    go (some rest) q = (rest, q, ground arith)

-- A completed uart_print has sent the text of its string and nothing else, and returns 0.
pub uart_print-Spoke :
    (str : List ℕ) (m : Machine) {text : List ℕ} {r : ℕ} {m' : Machine}
    → c_string str ≡ some text
    → uart_print str m ≡ done r m'
    → (r ≡ 0) × Spoke text m m'
uart_print-Spoke [] m s h = cc
uart_print-Spoke (c ∷ str) m {text} {r} {m'} s h = elim (Bool-cases (c == 0)) [
  | inl stop ↦
      let found = sym (print_end c str m stop) ∙ h in
      (
        sym (done-result found),
        subst (λ t. Spoke t m m') (sym (c_string-end c str stop s))
            (subst (Spoke [] m) (done-machine found) (Spoke-refl m)),
      )
  | inr more ↦
      let (rest, spelled, split) = c_string-more c str more s in
      let (u, n, sent, later) =
        bind-eq-done (put c m) (λ _. uart_print str) (sym (print_more c str m more) ∙ h) in
      let (zero_result, spoke) = uart_print-Spoke str n spelled later in
      (zero_result, subst (λ t. Spoke t m m') (sym split) (Spoke-trans (put-Spoke c m sent) spoke))
]

abbrev pub all_ready : List ℕ → Bool
all_ready [] = true
all_ready (v ∷ vs) = not (uart_is_full v) && all_ready vs

-- With a port that always has room, printing takes one load for each character.
pub uart_print-total :
    (str text answers rest : List ℕ) (m : Machine)
    → c_string str ≡ some text
    → m.script ≡ answers ++ rest
    → length answers ≡ length text
    → all_ready answers ≡ true
    → (m' : Machine) × (uart_print str m ≡ done 0 m') × (m'.script ≡ rest)
uart_print-total [] text answers rest m s e l a = cc
uart_print-total (c ∷ str) text [] rest m s e l a = elim (Bool-cases (c == 0)) [
  | inl stop ↦ (m, print_end c str m stop, e)
  | inr more ↦
      let (t, spelled, split) = c_string-more c str more s in
      absurd (omega (arith, ap length split))
]
uart_print-total (c ∷ str) text (v ∷ answers) rest m s e l a = elim (Bool-cases (c == 0)) [
  | inl stop ↦ absurd (omega (arith, ap length (c_string-end c str stop s)))
  | inr more ↦
      let (t, spelled, split) = c_string-more c str more s in
      let (n, sent, left) = put-total [] v (answers ++ rest) c m e refl (ground arith) in
      let (m', printed, ends) =
        uart_print-total str t answers rest n spelled left (omega (arith, ap length split))
          (ground arith) in
      (m', print_more c str m more ∙ (ap (λ r. bind r (λ _. uart_print str)) sent ∙ printed), ends)
]

-- printme adds the end of the line.
pub printme-Spoke :
    (str : List ℕ) (m : Machine) {text : List ℕ} {m' : Machine}
    → c_string str ≡ some text
    → printme str m ≡ done tt m'
    → Spoke (text ++ codes "\r\n") m m'
unfolding printme
printme-Spoke str m {text} {m'} s h =
    let (r, n, first, more) = bind-eq-done (uart_print str m) _ h in
    let (r', o, second, last) = bind-eq-done (uart_print (literal "\r\n") n) _ more in
    subst (Spoke (text ++ codes "\r\n") m) (done-machine last) (
      Spoke-trans (uart_print-Spoke str m s first).1
        (uart_print-Spoke (literal "\r\n") n refl second).1)

-- What C says of vsnprintf(buf, 256, …): it returns the length of the whole text and leaves as
-- much of it in `buf` as fits before a NUL, or it returns a negative number. The last argument is
-- the text that is to be shown.
abbrev pub Documented : Formatted → List ℕ → Type 0
Documented r shown =
    ((out : List ℕ) × (r.ret ≡ some (length out))
      × (c_string r.buf ≡ some (take 255 out))
      × (shown ≡ take 255 out))
    ⊎ ((r.ret ≡ none) × (length r.buf ≡ buffer_size) × (shown ≡ []))

length-take-le {ℓ} : {A : Type ℓ} (n : ℕ) (xs : List A) → length (take n xs) ≤ n
length-take-le zero xs = omega arith
length-take-le (suc n) [] = omega arith
length-take-le (suc n) (x ∷ xs) = omega (arith, length-take-le n xs)

-- A NUL stored behind the text leaves the text as it is.
c_string-set :
    (buf : List ℕ) (i : ℕ) {text : List ℕ}
    → c_string buf ≡ some text
    → length text ≤ i
    → c_string (set buf i 0) ≡ some text
c_string-set [] i s h = cc
c_string-set (c ∷ buf) zero {text} s h = elim (Bool-cases (c == 0)) [
  | inl stop ↦ ap some (sym (c_string-end c buf stop s))
  | inr more ↦
      let (t, spelled, split) = c_string-more c buf more s in
      absurd (omega (arith, ap length split))
]
c_string-set (c ∷ buf) (suc i) {text} s h = elim (Bool-cases (c == 0)) [
  | inl stop ↦ ground arith
  | inr more ↦
      let (t, spelled, split) = c_string-more c buf more s in
      ground (arith, c_string-set buf i spelled (omega (arith, ap length split)))
]

c_string-cut : (buf : List ℕ) → length buf ≡ buffer_size → c_string (set buf 0 0) ≡ some []
c_string-cut [] h = absurd (omega arith)
c_string-cut (c ∷ buf) h = refl

-- What printmef and kprintf do to the buffer keeps the text that is to be shown.
pub terminate_lem :
    (r : Formatted) {shown : List ℕ}
    → Documented r shown
    → c_string (terminate r.ret r.buf) ≡ some shown
unfolding terminate
terminate_lem r (inl (out, ret, text, e)) =
    ground (arith, c_string-set r.buf 255 text (length-take-le 255 out))
terminate_lem r (inr (ret, size, e)) = ground (arith, c_string-cut r.buf size)

module _ (vsnprintf : Vsnprintf) where
  -- kprintf sends the formatted text, at most 255 characters of it, and nothing if the formatting
  -- fails; it returns what vsnprintf returned. printmef adds the end of the line.
  pub printf-Spoke :
      (format args shown : List ℕ) (m : Machine) {ret ret' : Option ℕ} {k p : Machine}
      → Documented (vsnprintf buffer_size format args) shown
      → kprintf vsnprintf format args m ≡ done ret k
      → printmef vsnprintf format args m ≡ done ret' p
      → (ret ≡ (vsnprintf buffer_size format args).ret)
        × (ret' ≡ ret)
        × Spoke shown m k
        × Spoke (shown ++ codes "\r\n") m p
  unfolding kprintf printmef
  printf-Spoke format args shown m {ret} {ret'} {k} {p} d h g =
      let r : Formatted = vsnprintf buffer_size format args in
      let (z, k', printed, last) = bind-eq-done (uart_print (terminate r.ret r.buf) m) _ h in
      let (u, p', lined, last') = bind-eq-done (printme (terminate r.ret r.buf) m) _ g in
      (
        sym (done-result last),
        sym (done-result last') ∙ done-result last,
        subst (Spoke shown m) (done-machine last)
            (uart_print-Spoke _ m (terminate_lem r d) printed).1,
        subst (Spoke (shown ++ codes "\r\n") m) (done-machine last')
            (printme-Spoke _ m (terminate_lem r d) lined),
      )
