-- ===== src/Lpc/Progress.antt =====
-- pkg/lpc/oparser.go: the predicate on a parser that speaks of its line, its cursor and the model's
-- fuel, and the rules by which parsers put together satisfy it.
pub mod Scalars
pub mod Values
pub mod Lines
use native.Mathlib.Nat.{le_trans}
use viking_ftpd.Prelude.{
  ℕ, zero, suc, ◌+◌, ◌-◌, ◌<◌, ◌≤◌, ◌≡◌, refl, sym, ap, ◌∙◌, arith, Bool, true, false, ◌&&◌, Option,
  none, some, List, [], ◌∷◌, ◌==◌, ltb, if◌then◌else◌, length, get_or, take, drop, length-drop,
  Bytes, has_prefix, Bool-cases, inl, inr,
}
use viking_ftpd.Lpc.Cursor.{
  LineParser, LpcError, Result, ok, err, Parser, ◌>>=◌, continue, wrap_error, wrapped, peek,
  advance, accept, match_prefix, span_length, count_while, skip_spaces, is_space, position, look,
  slice_from, next_byte,
}

-- the model's own error, also under the wrappers
unfoldable pub is_fuel : LpcError → Bool
is_fuel LpcError.out_of_fuel = true
is_fuel (LpcError.in_array e) = is_fuel e
is_fuel (LpcError.in_map e) = is_fuel e
is_fuel (LpcError.bad_map_key e) = is_fuel e
is_fuel _ = false

module _ {A : Type 0} where
  -- `reach a` is the least position after the result `a`.
  abbrev pub Ends : (A → ℕ) → Result A → ℕ → Type 0
  Ends reach (ok a) end = reach a ≤ end
  Ends reach (err e) end = is_fuel e ≡ false

  pub record Runs (reach : A → ℕ) (p : LineParser) (r : Result A × LineParser) : Type 0 where
    pub same : r.1.s ≡ p.s
    pub forward : p.pos ≤ r.1.pos
    pub inside : r.1.pos ≤ length p.s
    pub ends : Ends reach r.0 r.1.pos

  pub Runs-ok :
      (reach : A → ℕ) (a : A) (p : LineParser)
      → p.pos ≤ length p.s
      → reach a ≤ p.pos
      → Runs reach p (ok a, p)
  Runs-ok reach a p h k = record { same = refl; forward = omega arith; inside = h; ends = k }

  pub Runs-err :
      (reach : A → ℕ) (e : LpcError) (p : LineParser)
      → p.pos ≤ length p.s
      → is_fuel e ≡ false
      → Runs reach p (err e, p)
  Runs-err reach e p h k = record { same = refl; forward = omega arith; inside = h; ends = k }

  pub Runs-advance :
      (reach : A → ℕ) (a : A) (p : LineParser) (n : ℕ)
      → p.pos + n ≤ length p.s
      → reach a ≤ p.pos + n
      → Runs reach p (ok a, advance n p)
  Runs-advance reach a p n h k = record { same = refl; forward = omega arith; inside = h; ends = k }

  -- a run that starts further on
  pub Runs-from :
      {reach : A → ℕ} {p : LineParser} (n : ℕ) (r : Result A × LineParser)
      → Runs reach (advance n p) r
      → Runs reach p r
  Runs-from {p = p} n r run = record {
    same = run.same;
    forward = omega (arith, run.forward);
    inside = run.inside;
    ends = run.ends;
  }

  pub Runs-if :
      (b : Bool) {reach : A → ℕ} {p : LineParser} (m k : Parser A)
      → (b ≡ true → Runs reach p (m p))
      → (b ≡ false → Runs reach p (k p))
      → Runs reach p ((if b then m else k) p)
  Runs-if true m k f g = f refl
  Runs-if false m k f g = g refl

  pub Runs-weaken :
      {far near : A → ℕ} {p : LineParser} (r : Result A × LineParser)
      → ((a : A) → near a ≤ far a)
      → Runs far p r
      → Runs near p r
  Runs-weaken (ok a, q) le r = record {
    same = r.same;
    forward = r.forward;
    inside = r.inside;
    ends = le_trans (le a) r.ends;
  }
  Runs-weaken (err e, q) le r = record {
    same = r.same;
    forward = r.forward;
    inside = r.inside;
    ends = r.ends;
  }

  pub Runs-wrap_error :
      (w : LpcError → LpcError) (m : Parser A) {reach : A → ℕ} {p : LineParser}
      → ((e : LpcError) → is_fuel e ≡ false → is_fuel (w e) ≡ false)
      → Runs reach p (m p)
      → Runs reach p (wrap_error w m p)
  unfolding wrap_error
  Runs-wrap_error w m {reach} {p} keep r = record {
    same = r.same;
    forward = r.forward;
    inside = r.inside;
    ends = wrapped_ends (m p).0 r.ends;
  }
    where
      wrapped_ends :
          (x : Result A) → Ends reach x (m p).1.pos → Ends reach (wrapped w x) (m p).1.pos
      wrapped_ends (ok a) h = h
      wrapped_ends (err e) h = keep e h

  -- What the rest of a `do` block may use of the part before it.
  abbrev pub After : (A → ℕ) → LineParser → A → LineParser → Type 0
  After reach p a q =
      (length q.s ≡ length p.s) × (reach a ≤ q.pos) × (p.pos ≤ q.pos) × (q.pos ≤ length q.s)

module _ {A B : Type 0} where
  Runs-continue :
      (r : Result A) (q : LineParser) (f : A → Parser B) {via : A → ℕ} {reach : B → ℕ}
      {p : LineParser}
      → Runs via p (r, q)
      → ((a : A) (q : LineParser) → After via p a q → Runs reach q (f a q))
      → Runs reach p (continue r f q)
  Runs-continue (err e) q f r k = record {
    same = r.same;
    forward = r.forward;
    inside = r.inside;
    ends = r.ends;
  }
  Runs-continue (ok a) q f {via} {reach} {p} r k =
      let bound : length p.s ≡ length q.s = ap length (sym r.same) in
      let later = k a q (sym bound, r.ends, r.forward, rw bound at r.inside) in
      record {
        same = later.same ∙ r.same;
        forward = omega (arith, r.forward, later.forward);
        inside = rw bound later.inside;
        ends = later.ends;
      }

  pub Runs-bind :
      (m : Parser A) (f : A → Parser B) {via : A → ℕ} {reach : B → ℕ} {p : LineParser}
      → Runs via p (m p)
      → ((a : A) (q : LineParser) → After via p a q → Runs reach q (f a q))
      → Runs reach p ((m >>= f) p)
  unfolding ◌>>=◌
  Runs-bind m f {p = p} r k = Runs-continue (m p).0 (m p).1 f r k

-- A byte other than 0 that is read at an index stands in the line.
in_line : (s : Bytes) (i b : ℕ) → (b == 0) ≡ false → (get_or s i 0 == b) ≡ true → i + 1 ≤ length s
in_line [] i b nz e = absurd (ground arith)
in_line (x ∷ s) zero b nz e = omega arith
in_line (x ∷ s) (suc i) b nz e = omega (arith, in_line s i b nz e)

-- The primitive moves.
pub accept-Runs :
    (b : ℕ) (p : LineParser)
    → (b == 0) ≡ false
    → p.pos ≤ length p.s
    → Runs (λ taken. if taken then suc p.pos else p.pos) p (accept b p)
unfolding accept peek
accept-Runs b p nz h = elim (Bool-cases (get_or p.s (p.pos + 0) 0 == b)) [
  | inl same ↦
      rw same
        (Runs-advance _ true p 1 (omega (arith, in_line p.s (p.pos + 0) b nz same)) (omega arith))
  | inr other ↦ rw other (Runs-ok _ false p h (omega arith))
]

has_prefix-length : (s prefix : Bytes) → has_prefix s prefix ≡ true → length prefix ≤ length s
unfolding has_prefix
has_prefix-length s [] h = omega arith
has_prefix-length [] (y ∷ ys) h = absurd (cc)
has_prefix-length (x ∷ xs) (y ∷ ys) h = ground (arith, has_prefix-length xs ys)

pub prefix_inside :
    (p : LineParser) (prefix : Bytes)
    → p.pos ≤ length p.s
    → has_prefix (drop p.pos p.s) prefix ≡ true
    → p.pos + length prefix ≤ length p.s
prefix_inside p prefix h e =
    omega (arith, has_prefix-length (drop p.pos p.s) prefix e, length-drop p.pos p.s)

pub match_prefix-Runs :
    (prefix : Bytes) (p : LineParser)
    → p.pos ≤ length p.s
    → Runs (λ taken. if taken then p.pos + length prefix else p.pos) p (match_prefix prefix p)
unfolding match_prefix
match_prefix-Runs prefix p h = elim (Bool-cases (has_prefix (drop p.pos p.s) prefix)) [
  | inl same ↦
      rw same (Runs-advance _ true p (length prefix) (prefix_inside p prefix h same) (omega arith))
  | inr other ↦ rw other (Runs-ok _ false p h (omega arith))
]

span_length-le : (test : ℕ → Bool) (s : Bytes) → span_length test s ≤ length s
unfolding span_length
span_length-le test [] = omega arith
span_length-le test (c ∷ s) = ground (arith, span_length-le test s)

pub count_while-Runs :
    (test : ℕ → Bool) (p : LineParser)
    → p.pos ≤ length p.s
    → Runs (λ n. p.pos + n) p (count_while test p)
unfolding count_while
count_while-Runs test p h =
    let n = span_length test (drop p.pos p.s) in
    Runs-advance _ n p n
      (omega (arith, span_length-le test (drop p.pos p.s), length-drop p.pos p.s)) (omega arith)

pub skip_spaces-Runs :
    (p : LineParser) → p.pos ≤ length p.s → Runs (λ n. p.pos + n) p (skip_spaces p)
unfolding skip_spaces
skip_spaces-Runs p h = count_while-Runs is_space p h

pub slice_from-Runs :
    (start : ℕ) (p : LineParser) → p.pos ≤ length p.s → Runs (λ _. p.pos) p (slice_from start p)
unfolding slice_from
slice_from-Runs start p h = Runs-ok _ _ p h (omega arith)
