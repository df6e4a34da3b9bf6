-- ===== src/Uart/Framed.antt =====
-- The driver as the rest of a program sees it: a relation between machines that the accesses of the
-- driver keep is kept by all of lib/uart/uart.cc.
use cocoapuffs_fpga.Prelude.{
  Bool, if◌then◌else◌, ℕ, zero, suc, ◌≡◌, ◌≢◌, refl, sym, subst, Bool, List, [], ◌∷◌, ◌++◌, ◌==◌,
  literal,
}
use native.Mathlib.Decide.{ℕ_discrete}
use cocoapuffs_fpga.Machine.{done, bind-eq-done, done-machine, pure, Machine, store, store32}
use cocoapuffs_fpga.Machine.Frame.{
  Keeps-done, Frame, Keeps, final-if, Keeps-bind, Keeps-if, Keeps-until, final,
}
use cocoapuffs_fpga.Uart.Account.{
  heard, polled, can_write-heard, can_write_silent, get_async_saved, get_async-polled,
  get_async_silent,
}
use cocoapuffs_fpga.Uart.Pending.{pop}
use cocoapuffs_fpga.Uart.{
  buffer_size, uart_address, can_write, get_async, put_async, poll, put, get, uart_getchar,
  uart_putchar, uart_print, printme, Vsnprintf, printmef, kprintf, getline_loop, uart_getline,
}

-- The accesses of the driver keep the relation: the load of CanWrite, which may save a byte, and a
-- store; and if `Gets` holds, also the load of GetAsync, and a saved byte that is taken.
pub record PortFrame : Type 1 where
  pub frame : Frame
  pub Gets : Type 0
  pub on_heard :
      (v : ℕ) (rest : List ℕ) (m : Machine) → m.script ≡ v ∷ rest → frame.Rel m (heard v rest m)
  pub on_load :
      Gets
      → (v : ℕ) (rest : List ℕ) (m : Machine) → m.script ≡ v ∷ rest
      → frame.Rel m (polled v rest m)
  pub on_store :
      (v : ℕ) (m : Machine) → frame.Rel m (record m { trace = store uart_address v ∷ m.trace })
  pub on_pop :
      Gets
      → (m : Machine) → m.uart_buf.rd ≢ m.uart_buf.wr
      → frame.Rel m (record m { uart_buf = pop m.uart_buf })

module _ (p : PortFrame) where
  open p use {frame as r}

  can_write-Keeps : Keeps r can_write
  can_write-Keeps m = go m.script refl
    where
      go : (s : List ℕ) → m.script ≡ s → r.Rel m (final (can_write m))
      go [] e = subst (λ o. r.Rel m (final o)) (sym (can_write_silent m e)) (r.same m)
      go (v ∷ rest) e =
          subst (λ o. r.Rel m (final o)) (sym (can_write-heard m e)) (p.on_heard v rest m e)

  get_async-Keeps : p.Gets → Keeps r get_async
  get_async-Keeps gets m = elim (ℕ_discrete m.uart_buf.rd m.uart_buf.wr) [
    | yes same ↦ go m.script refl same
    | no ne ↦ subst (λ o. r.Rel m (final o)) (sym (get_async_saved m ne)) (p.on_pop gets m ne)
  ]
    where
      go :
          (s : List ℕ)
          → m.script ≡ s
          → m.uart_buf.rd ≡ m.uart_buf.wr
          → r.Rel m (final (get_async m))
      go [] e same = subst (λ o. r.Rel m (final o)) (sym (get_async_silent m same e)) (r.same m)
      go (v ∷ rest) e same =
          subst (λ o. r.Rel m (final o)) (sym (get_async-polled m same e))
            (p.on_load gets v rest m e)

  store-Keeps : (c : ℕ) → Keeps r (store32 uart_address c)
  unfolding store32
  store-Keeps c m = p.on_store c m

  pub put_async-Keeps : (c : ℕ) → Keeps r (put_async c)
  unfolding put_async
  put_async-Keeps c = Keeps-bind r can_write _ can_write-Keeps λ ok.
      Keeps-if r ok _ _ (Keeps-bind r (store32 uart_address c) _ (store-Keeps c) λ _ m. r.same m)
        (λ m. r.same m)

  pub put-Keeps : (c : ℕ) → Keeps r (put c)
  unfolding put
  put-Keeps c =
      Keeps-until r (poll (put_async c))
        (Keeps-bind r (put_async c) _ (put_async-Keeps c) λ ok m. r.same m)

  pub uart_putchar-Keeps : (c : ℕ) → Keeps r (uart_putchar c)
  unfolding uart_putchar
  uart_putchar-Keeps c = put-Keeps c

  get-Keeps : p.Gets → Keeps r get
  unfolding get
  get-Keeps gets = Keeps-until r get_async (get_async-Keeps gets)

  pub uart_print-Keeps : (str : List ℕ) → Keeps r (uart_print str)
  unfolding uart_print uart_putchar
  uart_print-Keeps [] m = r.same m
  uart_print-Keeps (c ∷ str) m =
      final-if r (c == 0) _ _ m (r.same m)
        (Keeps-bind r (put c) _ (put-Keeps c) (λ _. uart_print-Keeps str) m)

  pub printme-Keeps : (str : List ℕ) → Keeps r (printme str)
  unfolding printme
  printme-Keeps str = Keeps-bind r (uart_print str) _ (uart_print-Keeps str) λ _.
      Keeps-bind r (uart_print (literal "\r\n")) _ (uart_print-Keeps (literal "\r\n"))
        λ _ m. r.same m

  module _ (vsnprintf : Vsnprintf) where
    pub printmef-Keeps : (format args : List ℕ) → Keeps r (printmef vsnprintf format args)
    unfolding printmef
    printmef-Keeps format args = Keeps-bind r (printme _) _ (printme-Keeps _) λ _ m. r.same m

    pub kprintf-Keeps : (format args : List ℕ) → Keeps r (kprintf vsnprintf format args)
    unfolding kprintf
    kprintf-Keeps format args = Keeps-bind r (uart_print _) _ (uart_print-Keeps _) λ _ m. r.same m

  getline_loop-Keeps : p.Gets → (left : ℕ) (stored : List ℕ) → Keeps r (getline_loop left stored)
  unfolding getline_loop uart_getchar
  getline_loop-Keeps gets zero stored m = r.same m
  getline_loop-Keeps gets (suc left) stored m =
      Keeps-bind r get _ (get-Keeps gets)
        (λ c.
          Keeps-if r (c == b'\n') _ _ (λ m. r.same m)
            (getline_loop-Keeps gets left (stored ++ c ∷ [])))
        m

  pub uart_getline-Keeps : p.Gets → (size : ℕ) → Keeps r (uart_getline size)
  unfolding uart_getline
  uart_getline-Keeps gets size =
      Keeps-if r (size == 0) _ _ (λ m. r.same m)
        (Keeps-bind r (getline_loop size []) _ (getline_loop-Keeps gets size []) λ x m. r.same m)

  -- A uart_getline that completes, on a buffer of 256 bytes, has begun with a Get that completed.
  pub uart_getline_first :
      p.Gets
      → (m : Machine) {x : Bool × List ℕ} {m' : Machine} → uart_getline buffer_size m ≡ done x m'
      → (c : ℕ) × (k : Machine) × (get m ≡ done c k) × r.Rel k m'
  unfolding uart_getline getline_loop uart_getchar
  uart_getline_first gets m h =
      let (l, n, looped, last) = bind-eq-done (getline_loop buffer_size [] m) _ h in
      let (c, k, got, more) =
        bind-eq-done (get m)
          (λ c. if c == b'\n' then pure (c ∷ [], 255) else getline_loop 255 (c ∷ [])) looped in
      (
        c,
        k,
        got,
        subst (r.Rel k) (done-machine last) (
            Keeps-done r (if c == b'\n' then pure (c ∷ [], 255) else getline_loop 255 (c ∷ [])) k
              (Keeps-if r (c == b'\n') (pure (c ∷ [], 255)) (getline_loop 255 (c ∷ [])) r.same
                (getline_loop-Keeps gets 255 (c ∷ [])))
              more),
      )
