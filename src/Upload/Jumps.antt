-- ===== src/Upload/Jumps.antt =====
-- When a program that receives a stream jumps, and what the memory then holds.
use cocoapuffs_fpga.Prelude.{
  ◌==◌, append_assoc, Bool, ℕ, ◌≡◌, refl, ap, ◌∙◌, ◌⊎◌, inr, true, false, List, [], ◌∷◌, ◌++◌, ◌||◌,
}
use cocoapuffs_fpga.Machine.{M, halted, bind, halt, ◌>>◌, Machine, Outcome, jump, load32, jump_to}
use cocoapuffs_fpga.Machine.Trace.{jumps, bytes_stored}
use cocoapuffs_fpga.Machine.Frame.{final, stage, Keeps, Keeps-load32}
use cocoapuffs_fpga.Uart.{Vsnprintf, uart_address, printme}
use cocoapuffs_fpga.Uart.Framed.{PortFrame, printme-Keeps}
use cocoapuffs_fpga.Ihex.{Record}
use cocoapuffs_fpga.Ihex.Framed.{LoaderFrame}
use cocoapuffs_fpga.Upload.{KkIhex}
use cocoapuffs_fpga.Upload.Received.{some_ends, all_sound}
use cocoapuffs_fpga.Upload.Stream.{records_of}
use cocoapuffs_fpga.Upload.Taken.{AllWhole, all_handed}
use cocoapuffs_fpga.Uart.Ledger.{Loses, Loses-trans, heard-Loses, keeps_all, Fed, loss_port}
use cocoapuffs_fpga.Uart.Account.{received, received_elsewhere, Accounted}
use cocoapuffs_fpga.Uart.Pending.{pending}

-- No jump.
abbrev pub jump_frame : LoaderFrame
jump_frame = record {
  port = record {
    frame = record {
      Rel = λ m n. jumps n.trace ≡ jumps m.trace;
      same = λ m. refl;
      also = λ p q. q ∙ p;
    };
    Gets = Unit {0};
    on_heard = λ v rest m e. refl;
    on_load = λ gets v rest m e. refl;
    on_store = λ v m. refl;
    on_pop = λ gets m ne. refl;
  };
  on_byte = λ a b m. refl;
}

-- No jump, no byte stored, and nothing taken from the port.
abbrev pub quiet : PortFrame
quiet = record {
  frame = record {
    Rel = λ m n.
        (jumps n.trace ≡ jumps m.trace) × (bytes_stored n.trace ≡ bytes_stored m.trace) × Loses m n;
    same = λ m. (refl, refl, loss_port.frame.same m);
    also = λ p q. (q.0 ∙ p.0, q.1 ∙ p.1, Loses-trans p.2 q.2);
  };
  Gets = ⊥;
  on_heard = λ v rest m e. (refl, refl, heard-Loses v rest m);
  on_load = λ never v rest m e. absurd never;
  on_store = λ v m. (refl, refl, loss_port.on_store v m);
  on_pop = λ never m ne. absurd never;
}

-- A load anywhere but at the port.
pub load32-quiet : (a : ℕ) → (a == uart_address) ≡ false → Keeps quiet.frame (load32 a)
load32-quiet a other = Keeps-load32 quiet.frame a λ v rest m e. (
  refl,
  refl,
  λ gone l.
      keeps_all gone
        (record { valid = l.valid; all = received_elsewhere a v m.trace other ∙ l.all }),
)

-- A quiet stage, and what follows it if it completes.
pub quiet_stage :
    {A B : Type 0} (P : Outcome B → Type 0) (m : Machine) (c : M A) (f : A → M B) (k : Machine)
    → ((o : Outcome B) → quiet.frame.Rel m (final o) → P o)
    → Keeps quiet.frame c
    → quiet.frame.Rel m k
    → ((a : A) (n : Machine) → quiet.frame.Rel m n → P (f a n))
    → P (bind (c k) f)
quiet_stage P m c f k stopped keeps before next =
    stage quiet.frame P m c f k stopped keeps before λ a n e q. next a n q

pub or_false : (b : Bool) → (b || false) ≡ b
or_false true = refl
or_false false = refl

-- `target` is where the program jumps, and `image_of` gives the bytes of its records.
module _ (vsnprintf : Vsnprintf) (kk : KkIhex) (target : ℕ)
    (image_of : List Record → List (ℕ × ℕ)) where
  -- A run from `m`, as far as it went: there was no jump; or there was one, to the target. Then,
  -- after `gone`, the port had handed over some whole lines and lost bytes, and more later; the
  -- records of these lines end the stream and have the right checksums, and the bytes stored are the
  -- bytes of these records.
  abbrev pub Jumped : List ℕ → Machine → Outcome (Unit {0}) → Type 0
  Jumped gone m o =
      (jumps (final o).trace ≡ jumps m.trace)
      ⊎ ((lines : List (List ℕ)) × (bytes later : List ℕ) × (received (final o).trace
            ≡ (gone ++ bytes) ++ later)
          × Fed lines bytes
          × AllWhole lines
          × (jumps (final o).trace ≡ jumps m.trace ++ target ∷ [])
          × (some_ends (records_of vsnprintf kk (all_handed lines)) ≡ true)
          × (all_sound (records_of vsnprintf kk (all_handed lines)) ≡ true)
          × (bytes_stored (final o).trace
              ≡ bytes_stored m.trace ++ image_of (records_of vsnprintf kk (all_handed lines))))

  -- The jump after a stream, and a last message.
  pub jump_out :
      (text gone : List ℕ) (m k : Machine) (lines : List (List ℕ)) (bytes lost : List ℕ)
      → Accounted ((gone ++ bytes) ++ lost) k
      → Fed lines bytes
      → AllWhole lines
      → jumps k.trace ≡ jumps m.trace
      → some_ends (records_of vsnprintf kk (all_handed lines)) ≡ true
      → all_sound (records_of vsnprintf kk (all_handed lines)) ≡ true
      → bytes_stored k.trace
        ≡ bytes_stored m.trace ++ image_of (records_of vsnprintf kk (all_handed lines))
      → Jumped gone m ((do jump_to target; printme text; halt) k)
  unfolding jump_to
  jump_out text gone m k lines bytes lost ledger fed whole j over sound memory =
      let k' : Machine = record k { trace = jump target ∷ k.trace } in
      let left : (o : Outcome (Unit {0})) → quiet.frame.Rel k' (final o) → Jumped gone m o = λ o q.
        let (more, l, after) =
          q.2 ((gone ++ bytes) ++ lost) (record { valid = ledger.valid; all = ledger.all }) in
        inr (
          lines,
          bytes,
          lost ++ (more ++ pending (final o).uart_buf),
          after.all
              ∙ (append_assoc ((gone ++ bytes) ++ lost) more (pending (final o).uart_buf)
                  ∙ append_assoc (gone ++ bytes) lost (more ++ pending (final o).uart_buf)),
          fed,
          whole,
          q.0 ∙ ap (λ l. l ++ target ∷ []) j,
          over,
          sound,
          q.1 ∙ memory,
        ) in
      quiet_stage (Jumped gone m) k' (printme text) (λ _. halt) k' left (printme-Keeps quiet text)
        (quiet.frame.same k') λ _ n q. left (halted n) q
