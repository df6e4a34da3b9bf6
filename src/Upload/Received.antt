-- ===== src/Upload/Received.antt =====
-- The effect of a sequence of records on the memory and the globals.
use cocoapuffs_fpga.Prelude.{
  ℕ, ◌+◌, ◌<◌, ◌≡◌, refl, sym, ap, ◌∙◌, Bool, true, false, not, ◌||◌, ◌&&◌, List, [], ◌∷◌, ◌++◌,
  append-nil, append_assoc, arith, length, length-append,
}
use cocoapuffs_fpga.Machine.{Machine}
use cocoapuffs_fpga.Machine.Trace.{bytes_stored}
use cocoapuffs_fpga.Ihex.{Record, Globals, dots_per_line}
use cocoapuffs_fpga.Ihex.Loaded.{image, ends, Loaded}

-- The bytes of several records, each with its address.
abbrev pub images : List Record → List (ℕ × ℕ)
images [] = []
images (r ∷ rs) = image r ++ images rs

pub images-append : (rs qs : List Record) → images (rs ++ qs) ≡ images rs ++ images qs
images-append [] qs = refl
images-append (r ∷ rs) qs =
    ap (λ l. image r ++ l) (images-append rs qs)
    ∙ sym (append_assoc (image r) (images rs) (images qs))

abbrev pub some_ends : List Record → Bool
some_ends [] = false
some_ends (r ∷ rs) = ends r || some_ends rs

pub some_ends-append : (rs qs : List Record) → some_ends (rs ++ qs) ≡ some_ends rs || some_ends qs
some_ends-append [] qs = refl
some_ends-append (r ∷ rs) qs = ground (arith, some_ends-append rs qs)

abbrev pub all_sound : List Record → Bool
all_sound [] = true
all_sound (r ∷ rs) = not r.checksum_error && all_sound rs

pub all_sound-append :
    (rs qs : List Record) → all_sound rs ≡ true → all_sound qs ≡ true → all_sound (rs ++ qs) ≡ true
all_sound-append [] qs p q = q
all_sound-append (r ∷ rs) qs p q = ground (arith, all_sound-append rs qs)

-- From `m` to `m'` the records `rs` were handled, all of them with the right checksum.
pub record Received (rs : List Record) (g : Globals) (m : Machine) (g' : Globals) (m' : Machine)
    : Type 0 where
  pub loaded : Loaded (images rs) (some_ends rs || g.eof) m g' m'
  pub sound : all_sound rs ≡ true
  pub lines : g'.line ≡ g.line + length rs

pub or_swap : (a b c : Bool) → (b || (a || c)) ≡ ((a || b) || c)
or_swap true true c = refl
or_swap true false c = refl
or_swap false b c = refl

pub Received-trans :
    {rs qs : List Record} {g0 g1 g2 : Globals} {m n o : Machine}
    → Received rs g0 m g1 n
    → Received qs g1 n g2 o
    → Received (rs ++ qs) g0 m g2 o
Received-trans {rs} {qs} {g0} {g1} {g2} {m} p q = record {
  loaded = record {
    memory =
        q.loaded.memory
        ∙ (ap (λ (l : List (ℕ × ℕ)). l ++ images qs) p.loaded.memory
            ∙ (append_assoc (bytes_stored m.trace) (images rs) (images qs)
                ∙ ap (λ (l : List (ℕ × ℕ)). bytes_stored m.trace ++ l)
                    (sym (images-append rs qs))));
    ended =
        q.loaded.ended
        ∙ (ap (λ b. some_ends qs || b) p.loaded.ended
            ∙ (or_swap (some_ends rs) (some_ends qs) g0.eof
                ∙ ap (λ b. b || g0.eof) (sym (some_ends-append rs qs))));
    dots = q.loaded.dots;
  };
  sound = all_sound-append rs qs p.sound q.sound;
  lines = omega (arith, p.lines, q.lines, length-append rs qs);
}

pub Received-nil : (g : Globals) (m : Machine) → g.dot_count < dots_per_line → Received [] g m g m
Received-nil g m small = record {
  loaded = record { memory = sym (append-nil (bytes_stored m.trace)); ended = refl; dots = small };
  sound = refl;
  lines = omega arith;
}

-- Steps before and after that store no byte.
pub Received-quiet :
    {rs : List Record} {g g' : Globals} {m m0 n0 n : Machine}
    → bytes_stored m0.trace ≡ bytes_stored m.trace
    → Received rs g m0 g' n0
    → bytes_stored n.trace ≡ bytes_stored n0.trace
    → Received rs g m g' n
Received-quiet {rs} before p after = record {
  loaded = record {
    memory = after ∙ (p.loaded.memory ∙ ap (λ (l : List (ℕ × ℕ)). l ++ images rs) before);
    ended = p.loaded.ended;
    dots = p.loaded.dots;
  };
  sound = p.sound;
  lines = p.lines;
}
