-- ===== src/Lpc/Reads/Arrays.antt =====
-- pkg/lpc/oparser.go: parseArray on the text of an array, with a parser that reads its elements.
use mathlib.Core.Path.{subst}
use viking_ftpd.Prelude.{
  ℕ, suc, ◌<◌, ◌≡◌, refl, sym, ap, true, false, ◌∷◌, if_true, get_or, codes, has_prefix, Bytes, pos,
  eq_int_iff, ◌^◌,
}
use viking_ftpd.Lpc.Value.{Value, array, Items, end, item}
use viking_ftpd.Lpc.Cursor.{
  LpcError, Parser, accept, match_prefix, skip_spaces, wrap_error, is_digit,
}
use viking_ftpd.Lpc.Scalars.{parse_count}
use viking_ftpd.Lpc.Parser.{count_items, empty_array, array_items, array_body, parse_array}
use viking_ftpd.Lpc.Printer.{print_int, size_items}
use viking_ftpd.Lpc.Reads.{
  Reads, Reads-pure, Reads-wrap, Reads-bind, accept-Reads, match_prefix-Reads, match_prefix-other,
  skip_spaces-Reads,
}
use viking_ftpd.Lpc.Reads.Numbers.{parse_count-Reads}
use viking_ftpd.Lpc.Reads.Starts.{starts_value, starts_value-no_space, starts_value-no_end}

-- "})" in front of a rest
abbrev pub closing_array : Bytes → Bytes
closing_array rest = b'}' ∷ b')' ∷ rest

module _ {F : Type 0} (again : Parser (Value F)) (xs rest : Bytes) (v : Value F) where
  -- the last element, with its comma and the end
  pub last_item-Reads :
      (k : ℕ)
      → Reads again xs (b',' ∷ closing_array rest) v
      → Reads (array_items again (suc k)) xs rest (item v end)
  unfolding array_items has_prefix
  last_item-Reads k r =
      Reads-bind (wrap_error LpcError.in_array again) _ xs (b',' ∷ closing_array rest) rest v
        (item v end) (Reads-wrap LpcError.in_array again xs (b',' ∷ closing_array rest) v r)
        (Reads-bind skip_spaces _ (b',' ∷ closing_array rest) (b',' ∷ closing_array rest) rest 0
          (item v end) (skip_spaces-Reads (b',' ∷ closing_array rest) refl)
          (Reads-bind (accept b',') _ (b',' ∷ closing_array rest) (closing_array rest) rest true
            (item v end) (accept-Reads b',' (closing_array rest))
            (Reads-bind skip_spaces _ (closing_array rest) (closing_array rest) rest 0 (item v end)
              (skip_spaces-Reads (closing_array rest) refl)
              (Reads-bind (match_prefix (codes "})")) _ (closing_array rest) rest rest true
                (item v end) (match_prefix-Reads (codes "})") (closing_array rest) rest refl refl)
                (Reads-pure (item v end) rest)))))

  -- an element in front of others, whose text is `ys`
  pub next_item-Reads :
      (k : ℕ) (ys : Bytes) (vs : Items F)
      → starts_value (get_or ys 0 0) ≡ true
      → Reads again xs (b',' ∷ ys) v
      → Reads (array_items again k) ys rest vs
      → Reads (array_items again (suc k)) xs rest (item v vs)
  unfolding array_items
  next_item-Reads k ys vs starts r rs =
      Reads-bind (wrap_error LpcError.in_array again) _ xs (b',' ∷ ys) rest v (item v vs)
        (Reads-wrap LpcError.in_array again xs (b',' ∷ ys) v r)
        (Reads-bind skip_spaces _ (b',' ∷ ys) (b',' ∷ ys) rest 0 (item v vs)
          (skip_spaces-Reads (b',' ∷ ys) refl)
          (Reads-bind (accept b',') _ (b',' ∷ ys) ys rest true (item v vs) (accept-Reads b',' ys) (
            Reads-bind skip_spaces _ ys ys rest 0 (item v vs)
              (skip_spaces-Reads ys (starts_value-no_space (get_or ys 0 0) starts))
              (Reads-bind (match_prefix (codes "})")) _ ys ys rest false (item v vs)
                (match_prefix-other (codes "})") ys (starts_value-no_end ys starts).0)
                (Reads-bind (array_items again k) _ ys rest rest vs (item v vs) rs
                  (Reads-pure (item v vs) rest))))))

count-size : {F : Type 0} (vs : Items F) → count_items vs ≡ size_items vs
count-size end = refl
count-size (item v vs) = ap suc (count-size vs)

module _ {F : Type 0} (again : Parser (Value F)) (n : ℕ) (rest : Bytes) where
  -- what stands in front of the elements
  pub array_front-Reads :
      (size : ℕ) (ys : Bytes) (v : Value F)
      → size < 2 ^ 63
      → Reads (array_body again n (pos size)) ys rest v
      → Reads (parse_array again n) (b'(' ∷ b'{' ∷ print_int (pos size) (b'|' ∷ ys)) rest v
  unfolding parse_array has_prefix is_digit
  array_front-Reads size ys v small r =
      let zs : Bytes = print_int (pos size) (b'|' ∷ ys) in
      Reads-bind (match_prefix (codes "({")) _ (b'(' ∷ b'{' ∷ zs) zs rest true v
        (match_prefix-Reads (codes "({") (b'(' ∷ b'{' ∷ zs) zs refl refl)
        (Reads-bind (wrap_error LpcError.in_array parse_count) _ zs (b'|' ∷ ys) rest (pos size) v
          (Reads-wrap LpcError.in_array parse_count zs (b'|' ∷ ys) (pos size)
            (parse_count-Reads size (b'|' ∷ ys) small refl))
          (Reads-bind (accept b'|') _ (b'|' ∷ ys) ys rest true v (accept-Reads b'|' ys) r))

  pub empty_array-Reads : Reads (array_body again n (pos 0)) (closing_array rest) rest (array end)
  unfolding array_body empty_array has_prefix
  empty_array-Reads =
      Reads-bind skip_spaces _ (closing_array rest) (closing_array rest) rest 0 (array end)
        (skip_spaces-Reads (closing_array rest) refl)
        (Reads-bind empty_array _ (closing_array rest) rest rest true (array end)
          (Reads-bind (match_prefix (codes "})")) _ (closing_array rest) rest rest true true
            (match_prefix-Reads (codes "})") (closing_array rest) rest refl refl)
            (Reads-pure true rest))
          (Reads-pure (array end) rest))

  pub some_array-Reads :
      (ys : Bytes) (vs : Items F)
      → starts_value (get_or ys 0 0) ≡ true
      → Reads (array_items again n) ys rest vs
      → Reads (array_body again n (pos (size_items vs))) ys rest (array vs)
  unfolding array_body empty_array
  some_array-Reads ys vs starts r =
      let (no_end, no_comma, no_map) = starts_value-no_end ys starts in
      Reads-bind skip_spaces _ ys ys rest 0 (array vs)
        (skip_spaces-Reads ys (starts_value-no_space (get_or ys 0 0) starts))
        (Reads-bind empty_array _ ys ys rest false (array vs)
          (Reads-bind (match_prefix (codes "})")) _ ys ys ys false false
            (match_prefix-other (codes "})") ys no_end)
            (match_prefix-other (codes ",})") ys no_comma))
          (Reads-bind (array_items again n) _ ys rest rest vs (array vs) r (
            subst (λ p. Reads p rest rest (array vs))
              (sym (if_true ((eq_int_iff _ _).1 (ap pos (count-size vs))) _ _))
              (Reads-pure (array vs) rest))))
