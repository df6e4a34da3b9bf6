-- ===== src/Uart/Ledger.antt =====
-- What becomes of the bytes that the port hands over: a program takes them in lines, or the ring
-- loses them, 256 at a time.
use cocoapuffs_fpga.Prelude.{
  ℕ, ◌%◌, ◌≡◌, refl, sym, subst, ap, ◌∙◌, inl, inr, Bool-cases, bit_and, List, [], ◌∷◌, ◌++◌,
  append-nil, append_assoc, arith, length, length-append,
}
use native.Mathlib.Decide.{ℕ_discrete}
use cocoapuffs_fpga.Machine.{Machine}
use cocoapuffs_fpga.Uart.{uart_is_empty, buffer_size}
use cocoapuffs_fpga.Uart.Pending.{
  pending, pending_count, length-pending, push-IsValid, pending-push, pending-push_overflow,
}
use cocoapuffs_fpga.Uart.Account.{received_nothing, received_byte, Accounted, heard}
use cocoapuffs_fpga.Uart.Read.{Listened}
use cocoapuffs_fpga.Uart.Framed.{PortFrame}

-- Bytes that the ring has lost: each time that it was full, 256 of them.
abbrev pub IsLost : List ℕ → Type 0
IsLost lost = length lost % buffer_size ≡ 0

IsLost-append : (xs ys : List ℕ) → IsLost xs → IsLost ys → IsLost (xs ++ ys)
IsLost-append xs ys p q = omega (arith, length-append xs ys, p, q)

-- From `m` to `n` nothing was taken: what was received is still pending, or was lost.
abbrev pub Loses : Machine → Machine → Type 0
Loses m n =
    (gone : List ℕ) → Accounted gone m → (lost : List ℕ) × IsLost lost × Accounted (gone ++ lost) n

-- No loss.
pub keeps_all :
    (gone : List ℕ) {n : Machine}
    → Accounted gone n
    → (lost : List ℕ) × IsLost lost × Accounted (gone ++ lost) n
keeps_all gone {n} a = ([], refl, subst (λ g. Accounted g n) (sym (append-nil gone)) a)

pub Loses-trans : {m n o : Machine} → Loses m n → Loses n o → Loses m o
Loses-trans {o = o} p q gone a =
    let (xs, lost, b) = p gone a in
    let (ys, more, c) = q (gone ++ xs) b in
    (
      xs ++ ys,
      IsLost-append xs ys lost more,
      subst (λ g. Accounted g o) (append_assoc gone xs ys) c,
    )

pub heard-Loses : (v : ℕ) (rest : List ℕ) (m : Machine) → Loses m (heard v rest m)
heard-Loses v rest m gone a = elim (Bool-cases (uart_is_empty v)) [
  | inl e ↦
      keeps_all gone (rw e (record { valid = a.valid; all = received_nothing v m.trace e ∙ a.all }))
  | inr e ↦
      let x = bit_and v 0xff in
      let got = received_byte v m.trace e ∙ ap (λ (l : List ℕ). l ++ x ∷ []) a.all in
      elim (ℕ_discrete (pending_count m.uart_buf) 255) [
        | yes full ↦ (
          pending m.uart_buf ++ x ∷ [],
          omega (arith, length-append (pending m.uart_buf) (x ∷ []), length-pending m.uart_buf),
          rw e (record {
            valid = push-IsValid x a.valid;
            all =
                got
                ∙ (append_assoc gone (pending m.uart_buf) (x ∷ [])
                    ∙ (sym (append-nil _)
                        ∙ ap (λ l. (gone ++ (pending m.uart_buf ++ x ∷ [])) ++ l)
                            (sym (pending-push_overflow x a.valid full))));
          }),
        )
        | no spare ↦ keeps_all gone (
            rw e (record {
              valid = push-IsValid x a.valid;
              all =
                  got
                  ∙ (append_assoc gone (pending m.uart_buf) (x ∷ [])
                      ∙ ap (λ l. gone ++ l) (sym (pending-push x a.valid (omega (arith, spare)))));
            }))
      ]
]

-- What does not call Get takes nothing.
abbrev pub loss_port : PortFrame
loss_port = record {
  frame = record {
    Rel = Loses;
    same = λ m gone a. keeps_all gone a;
    also = λ p q. Loses-trans p q;
  };
  Gets = ⊥;
  on_heard = λ v rest m e. heard-Loses v rest m;
  on_load = λ never v rest m e. absurd never;
  on_store = λ v m gone a. keeps_all gone (record { valid = a.valid; all = a.all });
  on_pop = λ never m ne. absurd never;
}

-- Some bytes are these lines, one after the other, with lost bytes before, between and after them.
pub data Fed : List (List ℕ) → List ℕ → Type 0 where
  ends : (lost : List ℕ) → IsLost lost → Fed [] lost
  line :
      (lost taken rest : List ℕ) (lines : List (List ℕ))
      → IsLost lost
      → Fed lines rest
      → Fed (taken ∷ lines) (lost ++ (taken ++ rest))

Fed-before :
    {lines : List (List ℕ)} (xs : List ℕ) {bytes : List ℕ}
    → IsLost xs
    → Fed lines bytes
    → Fed lines (xs ++ bytes)
Fed-before xs gone (ends lost l) = ends (xs ++ lost) (IsLost-append xs lost gone l)
Fed-before xs gone (line lost taken rest lines l more) =
    subst (Fed (taken ∷ lines)) (append_assoc xs lost (taken ++ rest))
      (line (xs ++ lost) taken rest lines (IsLost-append xs lost gone l) more)

-- From `m` to `n` these lines were taken, and of what was received meanwhile the rest is lost.
abbrev pub Took : List (List ℕ) → Machine → Machine → Type 0
Took lines m n =
    (gone : List ℕ)
    → Accounted gone m
    → (bytes : List ℕ) × Fed lines bytes × Accounted (gone ++ bytes) n

pub Loses-Took : {m n : Machine} → Loses m n → Took [] m n
Loses-Took p gone a = let (lost, l, b) = p gone a in (lost, ends lost l, b)

pub Took-before :
    {lines : List (List ℕ)} {m n o : Machine} → Loses m n → Took lines n o → Took lines m o
Took-before {o = o} p q gone a =
    let (lost, l, b) = p gone a in
    let (bytes, fed, c) = q (gone ++ lost) b in
    (
      lost ++ bytes,
      Fed-before lost l fed,
      subst (λ g. Accounted g o) (append_assoc gone lost bytes) c,
    )

pub Took-line :
    {taken : List ℕ} {lines : List (List ℕ)} {m n o : Machine}
    → Listened taken m n
    → Took lines n o
    → Took (taken ∷ lines) m o
Took-line {taken} {lines} {o = o} p q gone a =
    let (bytes, fed, c) = q (gone ++ taken) (p.moved gone a) in
    (
      taken ++ bytes,
      line [] taken bytes lines refl fed,
      subst (λ g. Accounted g o) (append_assoc gone taken bytes) c,
    )
