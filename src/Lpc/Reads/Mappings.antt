-- ===== src/Lpc/Reads/Mappings.antt =====
-- pkg/lpc/oparser.go: parseMap on the text of a mapping, with a parser that reads its keys and values.
use mathlib.Core.Path.{subst}
use viking_ftpd.Prelude.{
  ℕ, suc, ◌<◌, ◌≡◌, refl, sym, true, false, some, ◌∷◌, if_true, get_or, codes, has_prefix, Bytes,
  pos, eq_int_iff, ◌^◌,
}
use viking_ftpd.Lpc.Value.{Float64, Value, str, mapping, Fields, empty, put}
use viking_ftpd.Lpc.Cursor.{
  LpcError, ok, Parser, accept, match_prefix, skip_spaces, wrap_error, is_digit,
}
use viking_ftpd.Lpc.Scalars.{answer, parse_count}
use viking_ftpd.Lpc.Parser.{
  key_text, entry_rest, parse_map_entry, store, map_entries, map_body, parse_map,
}
use viking_ftpd.Lpc.Printer.{print_int}
use viking_ftpd.Lpc.Reads.{
  Reads, Reads-pure, Reads-wrap, Reads-bind, accept-Reads, match_prefix-Reads, match_prefix-other,
  skip_spaces-Reads,
}
use viking_ftpd.Lpc.Reads.Numbers.{parse_count-Reads}
use viking_ftpd.Lpc.Reads.Starts.{starts_value, starts_value-no_space, starts_value-no_end}

-- "])" in front of a rest
abbrev pub closing_map : Bytes → Bytes
closing_map rest = b']' ∷ b')' ∷ rest

module _ {F : Type 0} ⦃fl : Float64 F⦄ (again : Parser (Value F)) (k xs ys zs : Bytes)
    (v : Value F) where
  entry_rest-Reads :
      Reads again ys (b',' ∷ zs) v
      → Reads (entry_rest again (some k)) (b':' ∷ ys) (b',' ∷ zs) (some (k, v))
  unfolding entry_rest
  entry_rest-Reads r =
      Reads-bind skip_spaces _ (b':' ∷ ys) (b':' ∷ ys) (b',' ∷ zs) 0 (some (k, v))
        (skip_spaces-Reads (b':' ∷ ys) refl)
        (Reads-bind (accept b':') _ (b':' ∷ ys) ys (b',' ∷ zs) true (some (k, v))
          (accept-Reads b':' ys)
          (Reads-bind again _ ys (b',' ∷ zs) (b',' ∷ zs) v (some (k, v)) r
            (Reads-pure (some (k, v)) (b',' ∷ zs))))

  -- the text `xs` of the key, ":", the text `ys` of the value, and what follows its comma
  pub entry-Reads :
      starts_value (get_or xs 0 0) ≡ true
      → Reads again xs (b':' ∷ ys) (str k)
      → Reads again ys (b',' ∷ zs) v
      → Reads (parse_map_entry again) xs (b',' ∷ zs) (some (k, v))
  unfolding parse_map_entry key_text
  entry-Reads starts r r' =
      Reads-bind skip_spaces _ xs xs (b',' ∷ zs) 0 (some (k, v))
        (skip_spaces-Reads xs (starts_value-no_space (get_or xs 0 0) starts))
        (Reads-bind (wrap_error LpcError.bad_map_key again) _ xs (b':' ∷ ys) (b',' ∷ zs) (str k)
          (some (k, v)) (Reads-wrap LpcError.bad_map_key again xs (b':' ∷ ys) (str k) r)
          (Reads-bind (answer (ok (some k))) (entry_rest again) (b':' ∷ ys) (b':' ∷ ys) (b',' ∷ zs)
            (some k) (some (k, v)) (Reads-pure (some k) (b':' ∷ ys)) (entry_rest-Reads r')))

module _ {F : Type 0} ⦃fl : Float64 F⦄ (again : Parser (Value F)) (k xs rest : Bytes)
    (v : Value F) where
  pub last_entry-Reads :
      (n total : ℕ) (acc : Fields F)
      → Reads (parse_map_entry again) xs (b',' ∷ closing_map rest) (some (k, v))
      → Reads (map_entries again (suc n) total acc) xs rest (suc total, put acc k v)
  unfolding map_entries store has_prefix
  last_entry-Reads n total acc r =
      let answered : ℕ × Fields F = (suc total, put acc k v) in
      Reads-bind (parse_map_entry again) _ xs (b',' ∷ closing_map rest) rest (some (k, v)) answered
        r
        (Reads-bind skip_spaces _ (b',' ∷ closing_map rest) (b',' ∷ closing_map rest) rest 0
          answered (skip_spaces-Reads (b',' ∷ closing_map rest) refl)
          (Reads-bind (accept b',') _ (b',' ∷ closing_map rest) (closing_map rest) rest true
            answered (accept-Reads b',' (closing_map rest))
            (Reads-bind skip_spaces _ (closing_map rest) (closing_map rest) rest 0 answered
              (skip_spaces-Reads (closing_map rest) refl)
              (Reads-bind (match_prefix (codes "])")) _ (closing_map rest) rest rest true answered
                (match_prefix-Reads (codes "])") (closing_map rest) rest refl refl)
                (Reads-pure answered rest)))))

  pub next_entry-Reads :
      (n total : ℕ) (acc : Fields F) (ys : Bytes) (answered : ℕ × Fields F)
      → starts_value (get_or ys 0 0) ≡ true
      → Reads (parse_map_entry again) xs (b',' ∷ ys) (some (k, v))
      → Reads (map_entries again n (suc total) (put acc k v)) ys rest answered
      → Reads (map_entries again (suc n) total acc) xs rest answered
  unfolding map_entries store
  next_entry-Reads n total acc ys answered starts r rs =
      let (no_end, no_comma, no_map) = starts_value-no_end ys starts in
      Reads-bind (parse_map_entry again) _ xs (b',' ∷ ys) rest (some (k, v)) answered r (
        Reads-bind skip_spaces _ (b',' ∷ ys) (b',' ∷ ys) rest 0 answered
          (skip_spaces-Reads (b',' ∷ ys) refl)
          (Reads-bind (accept b',') _ (b',' ∷ ys) ys rest true answered (accept-Reads b',' ys) (
            Reads-bind skip_spaces _ ys ys rest 0 answered
              (skip_spaces-Reads ys (starts_value-no_space (get_or ys 0 0) starts))
              (Reads-bind (match_prefix (codes "])")) _ ys ys rest false answered
                (match_prefix-other (codes "])") ys no_map) rs))))

module _ {F : Type 0} ⦃fl : Float64 F⦄ (again : Parser (Value F)) (n : ℕ) (rest : Bytes) where
  -- what stands in front of the entries
  pub map_front-Reads :
      (size : ℕ) (ys : Bytes) (v : Value F)
      → size < 2 ^ 63
      → Reads (map_body again n (pos size)) ys rest v
      → Reads (parse_map again n) (b'(' ∷ b'[' ∷ print_int (pos size) (b'|' ∷ ys)) rest v
  unfolding parse_map has_prefix is_digit
  map_front-Reads size ys v small r =
      let zs : Bytes = print_int (pos size) (b'|' ∷ ys) in
      Reads-bind (match_prefix (codes "([")) _ (b'(' ∷ b'[' ∷ zs) zs rest true v
        (match_prefix-Reads (codes "([") (b'(' ∷ b'[' ∷ zs) zs refl refl)
        (Reads-bind (wrap_error LpcError.in_map parse_count) _ zs (b'|' ∷ ys) rest (pos size) v
          (Reads-wrap LpcError.in_map parse_count zs (b'|' ∷ ys) (pos size)
            (parse_count-Reads size (b'|' ∷ ys) small refl))
          (Reads-bind (accept b'|') _ (b'|' ∷ ys) ys rest true v (accept-Reads b'|' ys) r))

  pub empty_map-Reads : Reads (map_body again n (pos 0)) (closing_map rest) rest (mapping empty)
  unfolding map_body has_prefix
  empty_map-Reads =
      Reads-bind skip_spaces _ (closing_map rest) (closing_map rest) rest 0 (mapping empty)
        (skip_spaces-Reads (closing_map rest) refl)
        (Reads-bind (match_prefix (codes "])")) _ (closing_map rest) rest rest true (mapping empty)
          (match_prefix-Reads (codes "])") (closing_map rest) rest refl refl)
          (Reads-pure (mapping empty) rest))

  pub some_map-Reads :
      (size : ℕ) (ys : Bytes) (m : Fields F)
      → starts_value (get_or ys 0 0) ≡ true
      → Reads (map_entries again n 0 empty) ys rest (size, m)
      → Reads (map_body again n (pos size)) ys rest (mapping m)
  unfolding map_body
  some_map-Reads size ys m starts r =
      let (no_end, no_comma, no_map) = starts_value-no_end ys starts in
      Reads-bind skip_spaces _ ys ys rest 0 (mapping m)
        (skip_spaces-Reads ys (starts_value-no_space (get_or ys 0 0) starts))
        (Reads-bind (match_prefix (codes "])")) _ ys ys rest false (mapping m)
          (match_prefix-other (codes "])") ys no_map)
          (Reads-bind (map_entries again n 0 empty) _ ys rest rest (size, m) (mapping m) r
            (subst (λ p. Reads p rest rest (mapping m))
              (sym (if_true ((eq_int_iff (pos size) (pos size)).1 refl) _ _))
              (Reads-pure (mapping m) rest))))
