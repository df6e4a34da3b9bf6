-- ===== src/Uart/Served.antt =====
-- Runs on a port that always has room, with nothing saved: what the port answers, what the functions
-- of lib/uart/uart.cc return, and what they have taken, sent and stored then.
pub mod Line
pub mod Answered
pub mod Halted
use cocoapuffs_fpga.Prelude.{
  if◌then◌else◌, ◌==◌, false, ℕ, zero, suc, ◌+◌, ◌<◌, ◌≡◌, refl, sym, subst, ap, ◌∙◌, inl, inr,
  Bool, true, false, ◌&&◌, none, some, List, [], ◌∷◌, ◌++◌, append-nil, append_assoc, arith, length,
  ◌==◌, Bool-cases, bit_and, if◌then◌else◌, ltb, replicate, codes, literal,
}
use cocoapuffs_fpga.Prelude.Bits.{bit_and_low_byte}
use cocoapuffs_fpga.Machine.{
  Event, store, store32, UartBuf, Machine, M, done, halted, bind, pure, halt, ◌>>=◌, ◌>>◌, load32,
  store8,
}
use cocoapuffs_fpga.Machine.Trace.{sent_to, bytes_stored}
use cocoapuffs_fpga.Uart.{
  terminate, buffer_size, Formatted, Vsnprintf, kprintf, uart_address, uart_is_empty, uart_is_full,
  put, get, uart_getchar, uart_putchar, uart_print, printme,
}
use cocoapuffs_fpga.Uart.Status.{status_bits}
use cocoapuffs_fpga.Uart.Account.{received, received_byte, polled}
use cocoapuffs_fpga.Uart.Write.{put_room}
use cocoapuffs_fpga.Uart.Read.{get_byte}
use cocoapuffs_fpga.Uart.Print.{
  Documented, terminate_lem, c_string, print_more, print_end, c_string-end, c_string-more,
}

-- The answer of a port that has received nothing and has room.
abbrev pub room : ℕ
room = 0x100

-- The words stored anywhere but at the port, each with its address.
abbrev pub other_words : List Event → List (ℕ × ℕ)
other_words [] = []
other_words (store a v ∷ t) =
    if a == uart_address then other_words t else other_words t ++ (a, v) ∷ []
other_words (_ ∷ t) = other_words t

-- The bytes taken from the port, the characters sent to it, the bytes stored and the other words
-- stored, each with its address.
pub record Deed : Type 0 where
  pub got : List ℕ
  pub said : List ℕ
  pub stored : List (ℕ × ℕ)
  pub words : List (ℕ × ℕ)

abbrev pub idle : Deed
idle = record { got = []; said = []; stored = []; words = [] }

abbrev pub taking : List ℕ → Deed
taking line = record idle { got = line }

abbrev pub saying : List ℕ → Deed
saying text = record idle { said = text }

abbrev pub storing : List (ℕ × ℕ) → Deed
storing bytes = record idle { stored = bytes }

infixr 5 ◌&◌
abbrev pub ◌&◌ : Deed → Deed → Deed
◌&◌ d e = record {
  got = d.got ++ e.got;
  said = d.said ++ e.said;
  stored = d.stored ++ e.stored;
  words = d.words ++ e.words;
}

-- From `m` to `n` exactly `d` was done, and the saved bytes were left alone.
pub record Done (d : Deed) (m n : Machine) : Type 0 where
  pub same_buf : n.uart_buf ≡ m.uart_buf
  pub got : received n.trace ≡ received m.trace ++ d.got
  pub said : sent_to uart_address n.trace ≡ sent_to uart_address m.trace ++ d.said
  pub stored : bytes_stored n.trace ≡ bytes_stored m.trace ++ d.stored
  pub words : other_words n.trace ≡ other_words m.trace ++ d.words

pub Done-idle : (m : Machine) → Done idle m m
Done-idle m = record {
  same_buf = refl;
  got = sym (append-nil _);
  said = sym (append-nil _);
  stored = sym (append-nil _);
  words = sym (append-nil _);
}

pub Done-trans : {d e : Deed} {m n o : Machine} → Done d m n → Done e n o → Done (d & e) m o
Done-trans {d} {e} p q = record {
  same_buf = q.same_buf ∙ p.same_buf;
  got = q.got ∙ (ap (λ (l : List ℕ). l ++ e.got) p.got ∙ append_assoc _ d.got e.got);
  said = q.said ∙ (ap (λ (l : List ℕ). l ++ e.said) p.said ∙ append_assoc _ d.said e.said);
  stored =
      q.stored
      ∙ (ap (λ (l : List (ℕ × ℕ)). l ++ e.stored) p.stored ∙ append_assoc _ d.stored e.stored);
  words =
      q.words ∙ (ap (λ (l : List (ℕ × ℕ)). l ++ e.words) p.words ∙ append_assoc _ d.words e.words);
}

-- Nothing saved before, nothing saved after.
pub still_nothing :
    {d : Deed} {m n : Machine}
    → Done d m n
    → m.uart_buf.rd ≡ m.uart_buf.wr
    → n.uart_buf.rd ≡ n.uart_buf.wr
still_nothing p nothing =
    ap (λ (u : UartBuf). u.rd) p.same_buf ∙ (nothing ∙ sym (ap (λ (u : UartBuf). u.wr) p.same_buf))

-- With the answers `s` at hand and nothing saved, the run returns `a`, has done `d`, and has used
-- these answers up.
pub record Served {A : Type 0} (c : M A) (a : A) (d : Deed) (rest : List ℕ) (m : Machine)
    : Type 0 where
  pub end : Machine
  pub ran : c m ≡ done a end
  pub left : end.script ≡ rest
  pub did : Done d m end

pub record Serve {A : Type 0} (s : List ℕ) (c : M A) (a : A) (d : Deed) : Type 0 where
  pub serve :
      (m : Machine) (rest : List ℕ)
      → m.script ≡ s ++ rest
      → m.uart_buf.rd ≡ m.uart_buf.wr
      → Served c a d rest m

pub Serve-pure : {A : Type 0} (a : A) → Serve [] (pure a) a idle
Serve-pure a = record {
  serve = λ m rest e r. record { end = m; ran = refl; left = e; did = Done-idle m };
}

pub Serve-bind :
    {A B : Type 0} {s t : List ℕ} {d e : Deed} {a : A} {b : B} (c : M A) (f : A → M B)
    → Serve s c a d
    → Serve t (f a) b e
    → Serve (s ++ t) (c >>= f) b (d & e)
Serve-bind {s = s} {t = t} c f first next = record {
  serve = λ m rest script nothing.
      let x = first.serve m (t ++ rest) (script ∙ append_assoc s t rest) nothing in
      let y = next.serve x.end rest x.left (still_nothing x.did nothing) in
      record {
        end = y.end;
        ran = ap (λ o. bind o f) x.ran ∙ y.ran;
        left = y.left;
        did = Done-trans x.did y.did;
      };
}

-- A result that is worked on.
pub Serve-map :
    {A B : Type 0} {s : List ℕ} {d : Deed} {a : A} {b : B} (c : M A) (f : A → B)
    → f a ≡ b
    → Serve s c a d
    → Serve s (c >>= λ x. pure (f x)) b d
Serve-map c f e p = record {
  serve = λ m rest script nothing.
      let x = p.serve m rest script nothing in
      record {
        end = x.end;
        ran = ap (λ o. bind o (λ y. pure (f y))) x.ran ∙ ap (λ y. done y x.end) e;
        left = x.left;
        did = x.did;
      };
}

pub Serve-put : (c : ℕ) → Serve (room ∷ []) (put c) tt (saying (c ∷ []))
unfolding uart_is_full uart_is_empty
Serve-put c = record {
  serve = λ m rest e nothing. record {
    end = _;
    ran = put_room c m e refl;
    left = refl;
    did = record {
      same_buf = refl;
      got = sym (append-nil _);
      said = refl;
      stored = sym (append-nil _);
      words = sym (append-nil _);
    };
  };
}

-- The answer of a port that hands over the character `c`.
char_status : (c : ℕ) → c < 256 → (uart_is_empty c ≡ false) × (bit_and c 0xff ≡ c)
char_status c small = (ground (arith, status_bits c), omega (arith, bit_and_low_byte c))

pub Serve-get : (c : ℕ) → c < 256 → Serve (c ∷ []) get c (taking (c ∷ []))
Serve-get c small =
    let (byte, whole) = char_status c small in
    record {
      serve = λ m rest e nothing. record {
        end = polled c rest m;
        ran = get_byte m nothing e byte ∙ ap (λ x. done x (polled c rest m)) whole;
        left = refl;
        did = record {
          same_buf = refl;
          got = received_byte c m.trace byte ∙ ap (λ x. received m.trace ++ x ∷ []) whole;
          said = sym (append-nil _);
          stored = sym (append-nil _);
          words = sym (append-nil _);
        };
      };
    }

-- A word stored elsewhere.
pub Serve-store32 :
    (a v : ℕ)
    → (a == uart_address) ≡ false
    → Serve [] (store32 a v) tt (record idle { words = (a, v) ∷ [] })
unfolding store32
Serve-store32 a v other = record {
  serve = λ m rest e nothing. record {
    end = record m { trace = store a v ∷ m.trace };
    ran = refl;
    left = e;
    did = record {
      same_buf = refl;
      got = sym (append-nil _);
      said = rw other (sym (append-nil _));
      stored = sym (append-nil _);
      words = rw other;
    };
  };
}

pub Serve-store8 : (a b : ℕ) → Serve [] (store8 a b) tt (storing ((a, b) ∷ []))
unfolding store8
Serve-store8 a b = record {
  serve = λ m rest e nothing. record {
    end = _;
    ran = refl;
    left = e;
    did = record {
      same_buf = refl;
      got = sym (append-nil _);
      said = sym (append-nil _);
      stored = refl;
      words = sym (append-nil _);
    };
  };
}

-- The answers that a text takes.
abbrev pub rooms : List ℕ → List ℕ
rooms text = replicate (length text) room

-- One run for another that it is equal to.
Serve-eq :
    {A : Type 0} {s : List ℕ} {c k : M A} {a : A} {d : Deed}
    → ((m : Machine) → k m ≡ c m)
    → Serve s c a d
    → Serve s k a d
Serve-eq same p = record {
  serve = λ m rest e nothing.
      let x = p.serve m rest e nothing in
      record { end = x.end; ran = same m ∙ x.ran; left = x.left; did = x.did };
}

pub Serve-print :
    (str text : List ℕ)
    → c_string str ≡ some text
    → Serve (rooms text) (uart_print str) 0 (saying text)
Serve-print [] text spelled = cc
Serve-print (c ∷ str) text spelled = elim (Bool-cases (c == 0)) [
  | inl stop ↦
      subst (λ t. Serve (rooms t) (uart_print (c ∷ str)) 0 (saying t))
        (sym (c_string-end c str stop spelled))
        (Serve-eq (λ m. print_end c str m stop) (Serve-pure 0))
  | inr more ↦
      let (t, rest, split) = c_string-more c str more spelled in
      subst (λ t. Serve (rooms t) (uart_print (c ∷ str)) 0 (saying t)) (sym split)
        (Serve-eq (λ m. print_more c str m more)
          (Serve-bind (put c) (λ _. uart_print str) (Serve-put c) (Serve-print str t rest)))
]

pub Serve-printme :
    (str text : List ℕ)
    → c_string str ≡ some text
    → Serve (rooms text ++ rooms (codes "\r\n")) (printme str) tt (saying (text ++ codes "\r\n"))
unfolding printme
Serve-printme str text spelled = Serve-bind (uart_print str) _ (Serve-print str text spelled) (
    Serve-bind (uart_print (literal "\r\n")) (λ _. pure tt)
      (Serve-print (literal "\r\n") (codes "\r\n") refl) (Serve-pure tt))
