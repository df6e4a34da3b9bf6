-- ===== src/Reg/Agreement.antt =====
-- The two builds of lib/reg.cc side by side: what a client reads through Reg on a board whose
-- registers are plain memory, and what it reads on the host.
use cocoapuffs_fpga.Prelude.{
  ℕ, ◌≡◌, sym, ap, ◌∙◌, Bool, true, ◌&&◌, Option, none, some, List, [], ◌∷◌, arith, ◌==◌,
  if◌then◌else◌,
}
use cocoapuffs_fpga.Machine.{
  Event, load, store, Machine, M, done, pure, bind-eq-done, done-machine, done-result, ◌>>=◌,
  load32, store32,
}
use cocoapuffs_fpga.Machine.Trace.{last_stored, load32-done}
use cocoapuffs_fpga.Machine.Frame.{Frame, Keeps, Keeps-bind, Keeps-load32, Keeps-done}
use cocoapuffs_fpga.Reg.{Reg, lib_reg_read, lib_reg_write, read, write}
use cocoapuffs_fpga.Reg.Mock.{MockRegs, mock_read, mock_write}
use cocoapuffs_fpga.Reg.Mock.Laws.{holds, mock_regs_refine}

-- One call of a client.
pub data Access : Type 0 where
  reading : Reg → Access
  writing : Reg → ℕ → Access

-- The status of a call, and the value where it has one.
abbrev pub Reply : Type 0
Reply = ℕ × Option ℕ

-- The calls in their order, on the board and on the host.
on_board_one : Access → M Reply
on_board_one (reading r) = read r >>= λ x. pure (x.0, some x.1)
on_board_one (writing r v) = write r v >>= λ status. pure (status, none)

unfoldable pub on_board : List Access → M (List Reply)
unfolding on_board_one
on_board [] = pure []
on_board (a ∷ calls) = on_board_one a >>= λ x. on_board calls >>= λ xs. pure (x ∷ xs)

on_host_one : Access → MockRegs → Reply × MockRegs
on_host_one (reading r) regs = let (x, regs') = mock_read r regs in ((x.0, some x.1), regs')
on_host_one (writing r v) regs =
    let (status, regs') = mock_write r v regs in ((status, none), regs')

unfoldable pub on_host : List Access → MockRegs → List Reply × MockRegs
unfolding on_host_one
on_host [] regs = ([], regs)
on_host (a ∷ calls) regs =
    let (x, regs') = on_host_one a regs in
    let (xs, regs'') = on_host calls regs' in (x ∷ xs, regs'')

-- A memory that is zero at first.
abbrev pub word_at : ℕ → List Event → ℕ
word_at address t = elim (last_stored address t) [ some v ↦ v | none ↦ 0 ]

abbrev pub plain : List Event → Bool
plain [] = true
plain (load a v ∷ t) = v == word_at a t && plain t
plain (_ ∷ t) = plain t

-- The registers of the host hold what the memory of the board holds.
abbrev pub Agree : MockRegs → Machine → Type 0
Agree regs m = (a : ℕ) → holds regs a ≡ word_at a m.trace

-- What is plain at the end was plain before.
abbrev plain_frame : Frame
plain_frame = record {
  Rel = λ m n. plain n.trace ≡ true → plain m.trace ≡ true;
  same = λ m p. p;
  also = λ p q h. p (q h);
}

load32-plain : (a : ℕ) → Keeps plain_frame (load32 a)
load32-plain a = Keeps-load32 plain_frame a λ v rest m e h. ground arith

store32-plain : (a v : ℕ) → Keeps plain_frame (store32 a v)
unfolding store32
store32-plain a v m h = h

on_board_one-plain : (a : Access) → Keeps plain_frame (on_board_one a)
unfolding on_board_one read write lib_reg_read lib_reg_write
on_board_one-plain (reading r) =
    Keeps-bind plain_frame (read r) _
      (Keeps-bind plain_frame (load32 r.address) _ (load32-plain r.address) λ v. plain_frame.same)
      λ x. plain_frame.same
on_board_one-plain (writing r v) =
    Keeps-bind plain_frame (write r v) _
      (Keeps-bind plain_frame (store32 r.address v) _ (store32-plain r.address v)
        λ _. plain_frame.same)
      λ x. plain_frame.same

on_board-plain : (calls : List Access) → Keeps plain_frame (on_board calls)
unfolding on_board
on_board-plain [] = plain_frame.same
on_board-plain (a ∷ calls) =
    Keeps-bind plain_frame (on_board_one a) _ (on_board_one-plain a)
      λ x. Keeps-bind plain_frame (on_board calls) _ (on_board-plain calls) λ xs. plain_frame.same

reading_lem :
    (r : Reg) (m : Machine) {x : Reply} {m' : Machine}
    → on_board_one (reading r) m ≡ done x m'
    → (v : ℕ) × (x ≡ (0, some v)) × (m'.trace ≡ load r.address v ∷ m.trace)
unfolding on_board_one read lib_reg_read
reading_lem r m h =
    let (y, k, got, last) = bind-eq-done (read r m) (λ x. pure (x.0, some x.1)) h in
    let (v, l, loaded, last') = bind-eq-done (load32 r.address m) (λ value. pure (0, value)) got in
    (
      v,
      sym (done-result last) ∙ ap (λ (z : ℕ × ℕ). (z.0, some z.1)) (sym (done-result last')),
      sym (ap (λ (n : Machine). n.trace) (done-machine last' ∙ done-machine last))
          ∙ (load32-done r.address m loaded).1,
    )

word_at-store :
    (a v b : ℕ) (t : List Event) → word_at b (store a v ∷ t) ≡ (if a == b then v else word_at b t)
word_at-store a v b t = ground arith

-- One call gives the same reply, and leaves the two in agreement.
one_agrees :
    (a : Access) (regs : MockRegs) (m : Machine) {x : Reply} {m' : Machine}
    → on_board_one a m ≡ done x m'
    → plain m'.trace ≡ true
    → Agree regs m
    → (x ≡ (on_host_one a regs).0) × Agree (on_host_one a regs).1 m'
unfolding on_board_one on_host_one write lib_reg_write store32
one_agrees (reading r) regs m {x} {m'} h ok agree =
    let (v, reply, seen) = reading_lem r m h in
    let now : (v == word_at r.address m.trace && plain m.trace) ≡ true = ap plain (sym seen) ∙ ok in
    let fresh : v ≡ word_at r.address m.trace = ground (arith, now) in
    (
      reply
          ∙ (ap (λ w. (0, some w)) (fresh ∙ sym (agree r.address))
              ∙ ap (λ (y : ℕ × ℕ). (y.0, some y.1)) (sym (mock_regs_refine r 0 0 regs).2)),
      λ b. (mock_regs_refine r 0 b regs).3 ∙ (agree b ∙ ap (word_at b) (sym seen)),
    )
one_agrees (writing r v) regs m {x} {m'} h ok agree = (
  sym (done-result h) ∙ ap (λ status. (status, none)) (sym (mock_regs_refine r v 0 regs).0),
  λ b.
      (mock_regs_refine r v b regs).1
      ∙ (ap (λ w. if r.address == b then v else w) (agree b)
          ∙ (sym (word_at-store r.address v b m.trace)
              ∙ ap (λ (n : Machine). word_at b n.trace) (done-machine h))),
)

-- A client that reads and writes registers through Reg gets the same replies on the host as on a
-- board whose registers hold what was stored last, and zero before, if they agree at its start: they
-- then agree again at its end.
pub board_and_host :
    (calls : List Access) (regs : MockRegs) (m : Machine) {xs : List Reply} {m' : Machine}
    → on_board calls m ≡ done xs m'
    → plain m'.trace ≡ true
    → Agree regs m
    → (xs ≡ (on_host calls regs).0) × Agree (on_host calls regs).1 m'
unfolding on_board on_host
board_and_host [] regs m h ok agree =
    (sym (done-result h), λ b. agree b ∙ ap (λ (n : Machine). word_at b n.trace) (done-machine h))
board_and_host (a ∷ calls) regs m {xs} {m'} h ok agree =
    let (x, k, one, more) = bind-eq-done (on_board_one a m) _ h in
    let (ys, n, others, last) = bind-eq-done (on_board calls k) (λ ys. pure (x ∷ ys)) more in
    let ok' : plain n.trace ≡ true = ap (λ (o : Machine). plain o.trace) (done-machine last) ∙ ok in
    let ok'' : plain k.trace ≡ true =
      Keeps-done plain_frame (on_board calls) k (on_board-plain calls) others ok' in
    let (same, agree') = one_agrees a regs m one ok'' agree in
    let (sames, agree'') = board_and_host calls (on_host_one a regs).1 k others ok' agree' in
    (
      sym (done-result last) ∙ (ap (λ y. y ∷ ys) same ∙ ap (◌∷◌ (on_host_one a regs).0) sames),
      λ b. agree'' b ∙ ap (λ (o : Machine). word_at b o.trace) (done-machine last),
    )
