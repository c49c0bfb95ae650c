-- ===== src/Lpc/Reads.antt =====
-- pkg/lpc/oparser.go: a parser that reads a piece of text off the front of what is left of a line,
-- and the rules by which such parsers are put together.
pub mod Scalars
pub mod Numbers
pub mod Fields
pub mod Starts
pub mod Primitives
pub mod Arrays
pub mod Mappings
pub mod Values
pub mod Lines
pub mod Breaks
pub mod Objects
use viking_ftpd.Prelude.{
  ℕ, zero, suc, ◌+◌, ◌-◌, ◌≡◌, refl, sym, ap, ◌∙◌, arith, Bool, true, false, Option, none, some, [],
  ◌∷◌, ◌++◌, ◌==◌, if◌then◌else◌, if_true, if_false, length, get_or, take, drop, drop-drop,
  get_or-drop, length-drop, take-append, drop-append, Bytes, has_prefix, All,
}
use viking_ftpd.Lpc.Cursor.{
  LineParser, LpcError, Result, ok, err, Parser, ◌>>=◌, continue, wrapped, wrap_error, peek,
  advance, accept, match_prefix, span_length, count_while, skip_spaces, is_space, look, slice_from,
  next_byte, pure,
}

-- the cursor at `i` in the line `s`
abbrev pub at : Bytes → ℕ → LineParser
at s i = record { s = s; pos = i }

module _ {A : Type 0} where
  -- Where `xs` is left of the line, the parser answers `a` and leaves `ys`.
  abbrev pub Reads : Parser A → Bytes → Bytes → A → Type 0
  Reads m xs ys a =
      (s : Bytes) (i : ℕ)
      → drop i s ≡ xs
      → (q : ℕ) × (m (at s i) ≡ (ok a, at s q)) × (drop q s ≡ ys)

  pub Reads-pure : (a : A) (xs : Bytes) → Reads (pure a) xs xs a
  Reads-pure a xs = λ s i h. (i, refl, h)

  pub Reads-wrap :
      (w : LpcError → LpcError) (m : Parser A) (xs ys : Bytes) (a : A)
      → Reads m xs ys a
      → Reads (wrap_error w m) xs ys a
  unfolding wrap_error
  Reads-wrap w m xs ys a r =
      λ s i h. let (q, e, k) = r s i h in (q, ap (λ c. (wrapped w c.0, c.1)) e, k)

module _ {A B : Type 0} where
  pub Reads-bind :
      (m : Parser A) (f : A → Parser B) (xs ys zs : Bytes) (a : A) (b : B)
      → Reads m xs ys a
      → Reads (f a) ys zs b
      → Reads (m >>= f) xs zs b
  unfolding ◌>>=◌
  Reads-bind m f xs ys zs a b r r' = λ s i h.
      let (q, e, k) = r s i h in
      let (t, e', k') = r' s q k in (t, ap (λ c. continue c.0 f c.1) e ∙ e', k')

-- the byte that is n ahead
pub peek-at : (s xs : Bytes) (i n : ℕ) → drop i s ≡ xs → peek (at s i) n ≡ get_or xs n 0
unfolding peek
peek-at s xs i n h = sym (get_or-drop i n s 0) ∙ ap (λ t. get_or t n 0) h

-- the place behind a piece that is read
pub drop-behind : (s xs ys : Bytes) (i n : ℕ) → drop i s ≡ xs → drop n xs ≡ ys → drop (i + n) s ≡ ys
drop-behind s xs ys i n h k = sym (drop-drop i n s) ∙ ap (drop n) h ∙ k

pub look-Reads : (n : ℕ) (xs : Bytes) → Reads (look n) xs xs (get_or xs n 0)
look-Reads n xs = λ s i h. (i, ap (λ c. (ok c, at s i)) (peek-at s xs i n h), h)

pub accept-at :
    (c : ℕ) (ys s : Bytes) (i : ℕ) → drop i s ≡ c ∷ ys → accept c (at s i) ≡ (ok true, at s (i + 1))
unfolding accept
accept-at c ys s i h =
    let test : (peek (at s i) 0 == c) ≡ true = ground (arith, peek-at s (c ∷ ys) i 0 h) in
    if_true test _ _

pub accept-Reads : (c : ℕ) (ys : Bytes) → Reads (accept c) (c ∷ ys) ys true
accept-Reads c ys = λ s i h. (i + 1, accept-at c ys s i h, drop-behind s (c ∷ ys) ys i 1 h refl)

pub accept-at_other :
    (c : ℕ) (xs s : Bytes) (i : ℕ)
    → (get_or xs 0 0 == c) ≡ false
    → drop i s ≡ xs
    → accept c (at s i) ≡ (ok false, at s i)
unfolding accept
accept-at_other c xs s i o h = if_false (ap (λ b. b == c) (peek-at s xs i 0 h) ∙ o) _ _

pub accept-other :
    (c : ℕ) (xs : Bytes) → (get_or xs 0 0 == c) ≡ false → Reads (accept c) xs xs false
accept-other c xs o = λ s i h. (i, accept-at_other c xs s i o h, h)

pub match_prefix-Reads :
    (ps xs ys : Bytes)
    → has_prefix xs ps ≡ true
    → drop (length ps) xs ≡ ys
    → Reads (match_prefix ps) xs ys true
unfolding match_prefix
match_prefix-Reads ps xs ys p d = λ s i h. (
  i + length ps,
  if_true (ap (λ t. has_prefix t ps) h ∙ p) _ _,
  drop-behind s xs ys i (length ps) h d,
)

pub match_prefix-other :
    (ps xs : Bytes) → has_prefix xs ps ≡ false → Reads (match_prefix ps) xs xs false
unfolding match_prefix
match_prefix-other ps xs p = λ s i h. (i, if_false (ap (λ t. has_prefix t ps) h ∙ p) _ _, h)

-- a run of bytes that pass a test, and the byte behind it that does not
abbrev pub Passes : (ℕ → Bool) → Bytes → Type 0
Passes test = All (λ c. test c ≡ true)

pub span_length-stop :
    (test : ℕ → Bool) (xs : Bytes) → test (get_or xs 0 0) ≡ false → span_length test xs ≡ 0
unfolding span_length
span_length-stop test [] h = refl
span_length-stop test (c ∷ s) h = if_false h _ _

pub span_length-append :
    (test : ℕ → Bool) (tok ys : Bytes)
    → Passes test tok
    → test (get_or ys 0 0) ≡ false
    → span_length test (tok ++ ys) ≡ length tok
unfolding span_length
span_length-append test [] ys p h = span_length-stop test ys h
span_length-append test (c ∷ tok) ys (p, ps) h =
    if_true p _ _ ∙ ap suc (span_length-append test tok ys ps h)

-- count_while at a run, with the place where it ends
pub count_while-at :
    (test : ℕ → Bool) (tok ys s : Bytes) (i : ℕ)
    → Passes test tok
    → test (get_or ys 0 0) ≡ false
    → drop i s ≡ tok ++ ys
    → count_while test (at s i) ≡ (ok (length tok), at s (i + length tok))
unfolding count_while
count_while-at test tok ys s i p h d =
    ap (λ n. (ok n, at s (i + n))) (ap (span_length test) d ∙ span_length-append test tok ys p h)

pub skip_spaces-Reads : (xs : Bytes) → is_space (get_or xs 0 0) ≡ false → Reads skip_spaces xs xs 0
unfolding skip_spaces
skip_spaces-Reads xs o =
    λ s i h. (i + 0, count_while-at is_space [] xs s i tt o h, drop-behind s xs xs i 0 h refl)

-- the token that ends at the cursor
pub slice_from-at :
    (tok ys s : Bytes) (i : ℕ)
    → drop i s ≡ tok ++ ys
    → slice_from i (at s (i + length tok)) ≡ (ok tok, at s (i + length tok))
unfolding slice_from
slice_from-at tok ys s i d =
    let size : i + length tok - i ≡ length tok = omega arith in
    ap (λ t. (ok t, at s (i + length tok)))
      (ap (λ n. take n (drop i s)) size ∙ ap (take (length tok)) d ∙ take-append tok ys)

pub drop-token : (tok ys s : Bytes) (i : ℕ) → drop i s ≡ tok ++ ys → drop (i + length tok) s ≡ ys
drop-token tok ys s i h = drop-behind s (tok ++ ys) ys i (length tok) h (drop-append tok ys)

-- a step, at its place
pub bind-at :
    {A B : Type 0} (m : Parser A) (f : A → Parser B) (p q : LineParser) (a : A)
    (r : Result B × LineParser)
    → m p ≡ (ok a, q)
    → f a q ≡ r
    → (m >>= f) p ≡ r
unfolding ◌>>=◌
bind-at m f p q a r e k = ap (λ c. continue c.0 f c.1) e ∙ k
