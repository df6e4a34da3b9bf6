-- ===== src/Uart/Served/Answered.antt =====
-- Runs on such a port for which the answers are not spelled out.
use cocoapuffs_fpga.Prelude.{ℕ, ◌≡◌, Bool, true, false, some, List, [], ◌++◌, if◌then◌else◌, codes}
use cocoapuffs_fpga.Machine.{M, pure, ◌>>=◌}
use cocoapuffs_fpga.Uart.{
  terminate, buffer_size, Formatted, Vsnprintf, kprintf, uart_print, printme,
}
use cocoapuffs_fpga.Uart.Print.{Documented, terminate_lem, c_string}
use cocoapuffs_fpga.Uart.Served.{rooms, Serve, Serve-pure, Serve-bind, Serve-print, Serve-printme}

-- Some answers are enough for a run that takes nothing from the port and stores `bytes`.
pub record Answered {A : Type 0} (c : M A) (bytes : List (ℕ × ℕ)) : Type 0 where
  pub result : A
  pub answers : List ℕ
  pub text : List ℕ
  pub served : Serve answers c result (record { got = []; said = text; stored = bytes; words = [] })

pub Answered-pure : {A : Type 0} (a : A) → Answered (pure a) []
Answered-pure a = record { result = a; answers = []; text = []; served = Serve-pure a }

pub Answered-bind :
    {A B : Type 0} {xs ys : List (ℕ × ℕ)} (c : M A) (f : A → M B)
    → Answered c xs
    → ((a : A) → Answered (f a) ys)
    → Answered (c >>= f) (xs ++ ys)
Answered-bind c f first next =
    let second = next first.result in
    record {
      result = second.result;
      answers = first.answers ++ second.answers;
      text = first.text ++ second.text;
      served = Serve-bind c f first.served second.served;
    }

pub Answered-if :
    {A : Type 0} {xs : List (ℕ × ℕ)} (b : Bool) (c k : M A)
    → Answered c xs
    → Answered k xs
    → Answered (if b then c else k) xs
Answered-if true c k p q = p
Answered-if false c k p q = q

pub Answered-printme : (str text : List ℕ) → c_string str ≡ some text → Answered (printme str) []
Answered-printme str text spelled = record {
  result = tt;
  answers = rooms text ++ rooms (codes "\r\n");
  text = text ++ codes "\r\n";
  served = Serve-printme str text spelled;
}

-- vsnprintf does what C documents.
abbrev pub Sensible : Vsnprintf → Type 0
Sensible vsnprintf =
    (format args : List ℕ) → (shown : List ℕ) × Documented (vsnprintf buffer_size format args) shown

pub Answered-kprintf :
    (vsnprintf : Vsnprintf) (format args : List ℕ)
    → Sensible vsnprintf
    → Answered (kprintf vsnprintf format args) []
unfolding kprintf
Answered-kprintf vsnprintf format args sensible =
    let r : Formatted = vsnprintf buffer_size format args in
    let (shown, documented) = sensible format args in
    record {
      result = r.ret;
      answers = rooms shown ++ [];
      text = shown ++ [];
      served =
          Serve-bind (uart_print (terminate r.ret r.buf)) (λ _. pure r.ret)
            (Serve-print (terminate r.ret r.buf) shown (terminate_lem r documented))
            (Serve-pure r.ret);
    }
