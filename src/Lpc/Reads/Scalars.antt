-- ===== src/Lpc/Reads/Scalars.antt =====
-- pkg/lpc/oparser.go: the parsers of strings, counts and numbers on the texts of the format.
use mathlib.Core.Path.{subst}
use mathlib.Core.List.{append_assoc, append-nil}
use viking_ftpd.Prelude.{
  ℕ, zero, suc, ◌+◌, ◌<◌, ◌≤◌, ◌≡◌, refl, sym, ap, ◌∙◌, arith, true, false, some, [], ◌∷◌, ◌++◌,
  ◌==◌, ltb, if_true, if_false, length, drop-cons, Bytes, Bool-cases, inl, inr, ==_iff, length-drop,
}
use viking_ftpd.Lpc.Cursor.{ok, Parser, ◌>>=◌, next_byte, accept}
use viking_ftpd.Lpc.Scalars.{
  escape_sequence, escaped_bytes, moved, escape, string_byte, string_round, string_body,
  rounds_left, string_loop, parse_string,
}
use viking_ftpd.Lpc.Printer.{print_char, print_chars, print_string}
use viking_ftpd.Lpc.Reads.{at, Reads, Reads-pure, Reads-bind, peek-at, drop-behind, accept-Reads}

next_byte-Reads : (c : ℕ) (ys : Bytes) → Reads next_byte (c ∷ ys) ys (some c)
unfolding next_byte
next_byte-Reads c ys = λ s i h.
    let (inside, here, rest) = drop-cons i s 0 h in
    let test : ltb i (length s) ≡ true = ground arith in
    (
      i + 1,
      if_true test _ _ ∙ ap (λ b. (ok (some b), at s (i + 1))) (peek-at s (c ∷ ys) i 0 h),
      drop-behind s (c ∷ ys) ys i 1 h refl,
    )

escaped_bytes-known :
    (c e : ℕ) (ys : Bytes) → escape_sequence c ≡ some e → escaped_bytes (c ∷ ys) ≡ ok (e ∷ [], 1)
unfolding escaped_bytes
escaped_bytes-known c e ys known = rw (known, escaped_bytes) refl

escape-Reads :
    (c e : ℕ) (ys : Bytes) → escape_sequence c ≡ some e → Reads escape (c ∷ ys) ys (e ∷ [])
unfolding escape moved
escape-Reads c e ys known = λ s i h. (
  i + 1,
  ap (λ t. moved (escaped_bytes t) (at s i)) h
      ∙ ap (λ o. moved o (at s i)) (escaped_bytes-known c e ys known),
  drop-behind s (c ∷ ys) ys i 1 h refl,
)

known_34 : (c : ℕ) → (c == 34) ≡ true → escape_sequence 34 ≡ some c
unfolding escape_sequence
known_34 c h = ap some (sym ((==_iff c 34).0 h))

known_92 : (c : ℕ) → (c == 92) ≡ true → escape_sequence 92 ≡ some c
unfolding escape_sequence
known_92 c h = ap some (sym ((==_iff c 92).0 h))

known_break : (c : ℕ) → (c == 10) ≡ true → escape_sequence b'n' ≡ some c
unfolding escape_sequence
known_break c h = ap some (sym ((==_iff c 10).0 h))

module _ (again : Bytes → Parser Bytes) (b xs ys text : Bytes) where
  abbrev round : Parser Bytes
  round = next_byte >>= λ o. string_round again b o

  -- what the next rounds read, behind `c`
  abbrev Continues : ℕ → Type 0
  Continues c = Reads (again (b ++ c ∷ [])) xs ys (b ++ c ∷ text)

  special-Reads :
      (shown c : ℕ)
      → escape_sequence shown ≡ some c
      → Continues c
      → Reads round (92 ∷ shown ∷ xs) ys (b ++ c ∷ text)
  unfolding string_byte
  special-Reads shown c known r =
      Reads-bind next_byte (string_round again b) (92 ∷ shown ∷ xs) (shown ∷ xs) ys (some 92)
        (b ++ c ∷ text) (next_byte-Reads 92 (shown ∷ xs))
        (Reads-bind escape (λ w. again (b ++ w)) (shown ∷ xs) xs ys (c ∷ []) (b ++ c ∷ text)
          (escape-Reads shown c xs known) r)

  plain-Reads :
      (c : ℕ)
      → (c == 34) ≡ false
      → (c == 92) ≡ false
      → (c == 10) ≡ false
      → Continues c
      → Reads round (c ∷ xs) ys (b ++ c ∷ text)
  unfolding string_byte
  plain-Reads c quote slash break r =
      Reads-bind next_byte (string_round again b) (c ∷ xs) xs ys (some c) (b ++ c ∷ text)
        (next_byte-Reads c xs)
        (subst (λ m. Reads m xs ys (b ++ c ∷ text))
          (sym (if_false quote _ _ ∙ if_false break _ _ ∙ if_false slash _ _)) r)

  char-Reads : (c : ℕ) → Continues c → Reads round (print_char c xs) ys (b ++ c ∷ text)
  unfolding print_char
  char-Reads c r = elim (Bool-cases (c == 34)) [
    | inl quote ↦
        subst Reads_char (sym (if_true quote _ _)) (special-Reads 34 c (known_34 c quote) r)
    | inr no_quote ↦ elim (Bool-cases (c == 92)) [
      | inl slash ↦
          subst Reads_char (sym (if_false no_quote _ _ ∙ if_true slash _ _))
            (special-Reads 92 c (known_92 c slash) r)
      | inr no_slash ↦ elim (Bool-cases (c == 10)) [
        | inl break ↦
            subst Reads_char
              (sym (if_false no_quote _ _ ∙ if_false no_slash _ _ ∙ if_true break _ _))
              (special-Reads b'n' c (known_break c break) r)
        | inr no_break ↦
            subst Reads_char
              (sym (if_false no_quote _ _ ∙ if_false no_slash _ _ ∙ if_false no_break _ _))
              (plain-Reads c no_quote no_slash no_break r)
      ]
    ]
  ]
    where
      Reads_char : Bytes → Type 0
      Reads_char t = Reads round t ys (b ++ c ∷ text)

-- the closing quote
close-Reads :
    (again : Bytes → Parser Bytes) (b rest : Bytes)
    → Reads (string_round again b (some 34)) rest rest b
unfolding string_byte
close-Reads again b rest = Reads-pure b rest

string_body-Reads :
    (n : ℕ) (b text rest : Bytes)
    → length text < n
    → Reads (string_body n b) (print_chars text rest) rest (b ++ text)
unfolding string_body print_chars
string_body-Reads zero b text rest h = absurd (omega arith)
string_body-Reads (suc n) b [] rest h =
    Reads-bind next_byte (string_round (string_body n) b) (34 ∷ rest) rest rest (some 34) (b ++ [])
      (next_byte-Reads 34 rest)
      (subst (λ t. Reads (string_round (string_body n) b (some 34)) rest rest t)
        (sym (append-nil b)) (close-Reads (string_body n) b rest))
string_body-Reads (suc n) b (c ∷ text) rest h =
    char-Reads (string_body n) b (print_chars text rest) rest text c (
      subst (λ t. Reads (string_body n (b ++ c ∷ [])) (print_chars text rest) rest t)
        (append_assoc b (c ∷ []) text) (string_body-Reads n (b ++ c ∷ []) text rest (omega arith)))

-- The text and its quotes are longer than the string.
print_char-length : (c : ℕ) (xs : Bytes) → suc (length xs) ≤ length (print_char c xs)
unfolding print_char
print_char-length c xs = ground arith

pub print_chars-length :
    (text rest : Bytes) → suc (length text + length rest) ≤ length (print_chars text rest)
unfolding print_chars
print_chars-length [] rest = omega arith
print_chars-length (c ∷ text) rest =
    omega (arith, print_char-length c (print_chars text rest), print_chars-length text rest)

string_loop-Reads : (text rest : Bytes) → Reads string_loop (print_chars text rest) rest text
unfolding rounds_left
string_loop-Reads text rest = λ s i h.
    string_body-Reads (rounds_left (at s i)) [] text rest
      (omega (arith, ap length h, length-drop i s, print_chars-length text rest)) s i h

pub parse_string-Reads : (text rest : Bytes) → Reads parse_string (print_string text rest) rest text
unfolding parse_string print_string
parse_string-Reads text rest =
    Reads-bind (accept 34) _ (34 ∷ print_chars text rest) (print_chars text rest) rest true text
      (accept-Reads 34 (print_chars text rest)) (string_loop-Reads text rest)
