-- ===== src/Logging/Values.antt =====
-- pkg/logging/types.go: a value that formatValue has written is read back.
use viking_ftpd.Prelude.{
  ℕ, ◌≡◌, refl, sym, ap, ◌∙◌, arith, Bool, true, false, none, some, [], ◌∷◌, ◌++◌, ◌==◌,
  if◌then◌else◌, if_true, if_false, Bytes, Bool-cases, inl, inr,
}
use mathlib.Core.List.{append_assoc}
use viking_ftpd.Logging.Lines.{neutral, neutralized, needs_quotes, escaped, format_value}
use viking_ftpd.Logging.Reader.{
  Place, key, start, bare, quoted, backslash, closed, next, meaning, Meaning, put, cut, Texts,
  prepend, means, read, has_equals, ends_in_backslash,
}

pub prepend-empty : (r : Texts) → prepend [] r ≡ r
unfolding prepend
prepend-empty none = refl
prepend-empty (some (w, ws)) = refl

pub prepend-prepend : (x y : Bytes) (r : Texts) → prepend x (prepend y r) ≡ prepend (x ++ y) r
unfolding prepend
prepend-prepend x y none = refl
prepend-prepend x y (some (w, ws)) = ap (λ s. some (s, ws)) (sym (append_assoc x y w))

-- a byte that is read as itself
read_put :
    (p q : Place) (c : ℕ) (x y t : Bytes) (r : Texts)
    → meaning p c ≡ put x
    → next p c ≡ q
    → read q t ≡ prepend y r
    → read p (c ∷ t) ≡ prepend (x ++ y) r
unfolding read means
read_put p q c x y t r m n h =
    ap (λ (e : Meaning). means e (read (next p c) t)) m
    ∙ ap (λ (e : Place). prepend x (read e t)) n
    ∙ ap (prepend x) h
    ∙ prepend-prepend x y r

pub read-key :
    (k t : Bytes)
    → has_equals k ≡ false
    → read key (k ++ b'=' ∷ t) ≡ prepend k (means cut (read start t))
unfolding read next meaning has_equals
read-key [] t h = sym (prepend-empty _)
read-key (c ∷ k) t h =
    let other : (c == b'=') ≡ false = ground arith in
    let rest : has_equals k ≡ false = ground arith in
    read_put key key c (c ∷ []) k (k ++ b'=' ∷ t) _ (if_false other _ _) (if_false other _ _)
      (read-key k t rest)

read-bare :
    (s t : Bytes)
    → needs_quotes (neutralized s) ≡ false
    → read bare (neutralized s ++ t) ≡ prepend (neutralized s) (read bare t)
unfolding next meaning neutralized needs_quotes
read-bare [] t h = sym (prepend-empty _)
read-bare (c ∷ s) t h =
    let no_blank : (neutral c == 32) ≡ false = ground arith in
    let no_end : (neutral c == 10) ≡ false = ground arith in
    let rest : needs_quotes (neutralized s) ≡ false = ground arith in
    read_put bare bare (neutral c) (neutral c ∷ []) (neutralized s) (neutralized s ++ t) _
      (if_false no_blank _ _ ∙ if_false no_end _ _) (if_false no_blank _ _ ∙ if_false no_end _ _)
      (read-bare s t rest)

-- whether a backslash was read and not yet told
abbrev waiting : Bool → Place
waiting b = if b then backslash else quoted

abbrev told : Bool → Bytes → Bytes
told b s = if b then 92 ∷ s else s

told-append : (b : Bool) (x y : Bytes) → told b x ++ y ≡ told b (x ++ y)
told-append true x y = refl
told-append false x y = refl

-- a quote in the value
read_quote :
    (b : Bool) (x : Bytes)
    → read (waiting b) (92 ∷ 34 ∷ x) ≡ prepend (told b (34 ∷ [])) (read quoted x)
unfolding read next meaning means
read_quote true x = prepend-prepend (92 ∷ []) (34 ∷ []) (read quoted x)
read_quote false x = prepend-empty _

-- a backslash in it
read_backslash :
    (b : Bool) (x : Bytes) → read (waiting b) (92 ∷ x) ≡ prepend (told b []) (read backslash x)
unfolding read next meaning means
read_backslash true x = refl
read_backslash false x = refl

-- any other byte
read_other :
    (b : Bool) (c : ℕ) (x y : Bytes) (r : Texts)
    → (c == 34) ≡ false
    → (c == 92) ≡ false
    → read quoted x ≡ prepend y r
    → read (waiting b) (c ∷ x) ≡ prepend (told b (c ∷ y)) r
unfolding next meaning
read_other true c x y r h k e =
    read_put backslash quoted c (92 ∷ c ∷ []) y x r (if_false h _ _ ∙ if_false k _ _)
      (if_false k _ _) e
read_other false c x y r h k e =
    read_put quoted quoted c (c ∷ []) y x r (if_false h _ _ ∙ if_false k _ _)
      (if_false h _ _ ∙ if_false k _ _) e

read-quoted :
    (b : Bool) (s t : Bytes)
    → ends_in_backslash b s ≡ false
    → read (waiting b) (escaped s ++ 34 ∷ t) ≡ prepend (told b s) (read closed t)
unfolding read next meaning means escaped ends_in_backslash
read-quoted true [] t h = absurd (cc)
read-quoted false [] t h = refl
read-quoted b (c ∷ s) t h = elim (Bool-cases (c == 34)) [
  | inl quote ↦
      let same : c ≡ 34 = ground arith in
      let other : false ≡ (c == 92) = ground arith in
      let last : ends_in_backslash false s ≡ false =
        ap (λ (e : Bool). ends_in_backslash e s) other ∙ h in
      ap (λ (x : Bytes). read (waiting b) (x ++ 34 ∷ t)) (if_true quote _ _)
      ∙ read_quote b (escaped s ++ 34 ∷ t)
      ∙ ap (prepend (told b (34 ∷ []))) (read-quoted false s t last)
      ∙ prepend-prepend (told b (34 ∷ [])) s (read closed t)
      ∙ ap (λ (x : Bytes). prepend x (read closed t)) (told-append b (34 ∷ []) s)
      ∙ ap (λ (d : ℕ). prepend (told b (d ∷ s)) (read closed t)) (sym same)
  | inr other ↦
      ap (λ (x : Bytes). read (waiting b) (x ++ 34 ∷ t)) (if_false other _ _)
      ∙ elim (Bool-cases (c == 92)) [
        | inl slash ↦
            let same : c ≡ 92 = ground arith in
            let last : ends_in_backslash true s ≡ false =
              ap (λ (e : Bool). ends_in_backslash e s) (sym slash) ∙ h in
            ap (λ (d : ℕ). read (waiting b) (d ∷ (escaped s ++ 34 ∷ t))) same
            ∙ read_backslash b (escaped s ++ 34 ∷ t)
            ∙ ap (prepend (told b [])) (read-quoted true s t last)
            ∙ prepend-prepend (told b []) (92 ∷ s) (read closed t)
            ∙ ap (λ (x : Bytes). prepend x (read closed t)) (told-append b [] (92 ∷ s))
            ∙ ap (λ (d : ℕ). prepend (told b (d ∷ s)) (read closed t)) (sym same)
        | inr no_slash ↦
            read_other b c (escaped s ++ 34 ∷ t) s (read closed t) other no_slash
              (read-quoted false s t (ap (λ (e : Bool). ends_in_backslash e s) (sym no_slash) ∙ h))
      ]
]

ends_in_backslash-neutralized :
    (b : Bool) (s : Bytes) → ends_in_backslash b (neutralized s) ≡ ends_in_backslash b s
unfolding neutralized ends_in_backslash
ends_in_backslash-neutralized b [] = refl
ends_in_backslash-neutralized b (c ∷ s) =
    let same : (neutral c == 92) ≡ (c == 92) = ground arith in
    ap (λ (e : Bool). ends_in_backslash e (neutralized s)) same
    ∙ ends_in_backslash-neutralized (c == 92) s

-- Whether a value was in quotes or not, the reader goes on in the same way behind it.
abbrev pub IsEnd : Bytes → Texts → Type 0
IsEnd t r = (read closed t ≡ r) × (read bare t ≡ r) × (read start t ≡ r)

read-unquoted :
    (v t : Bytes) (r : Texts)
    → IsEnd t r
    → needs_quotes (neutralized v) ≡ false
    → read start (neutralized v ++ t) ≡ prepend (neutralized v) r
unfolding next meaning neutralized needs_quotes
read-unquoted [] t r e h = e.2 ∙ sym (prepend-empty r)
read-unquoted (c ∷ s) t r e h =
    let no_quote : (neutral c == 34) ≡ false = ground arith in
    let no_blank : (neutral c == 32) ≡ false = ground arith in
    let no_end : (neutral c == 10) ≡ false = ground arith in
    let rest : needs_quotes (neutralized s) ≡ false = ground arith in
    read_put start bare (neutral c) (neutral c ∷ []) (neutralized s) (neutralized s ++ t) r
      (if_false no_quote _ _ ∙ if_false no_blank _ _ ∙ if_false no_end _ _)
      (if_false no_quote _ _ ∙ if_false no_blank _ _ ∙ if_false no_end _ _)
      (read-bare s t rest ∙ ap (prepend (neutralized s)) e.1)

pub read-value :
    (v t : Bytes) (r : Texts)
    → IsEnd t r
    → ends_in_backslash false v ≡ false
    → read start (format_value v ++ t) ≡ prepend (neutralized v) r
unfolding format_value read next meaning means
read-value v t r e h = elim (Bool-cases (needs_quotes (neutralized v))) [
  | inl wrapped ↦
      ap (λ (x : Bytes). read start (x ++ t)) (if_true wrapped _ _)
      ∙ prepend-empty _
      ∙ ap (read quoted) (append_assoc (escaped (neutralized v)) (34 ∷ []) t)
      ∙ read-quoted false (neutralized v) t (ends_in_backslash-neutralized false v ∙ h)
      ∙ ap (prepend (neutralized v)) e.0
  | inr naked ↦
      ap (λ (x : Bytes). read start (x ++ t)) (if_false naked _ _) ∙ read-unquoted v t r e naked
]
