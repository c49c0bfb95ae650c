-- ===== src/Lpc/Reads/Values.antt =====
-- pkg/lpc/oparser.go: parseValue on the texts of the values.
use mathlib.Core.Path.{subst}
use viking_ftpd.Prelude.{
  ℕ, zero, suc, ◌+◌, ◌≤◌, ◌<◌, refl, arith, ◌∷◌, length, length-append, Bytes, pos, ◌^◌,
}
use viking_ftpd.Lpc.Value.{
  Float64, Value, nil, int, float, str, permission, array, mapping, Items, end, item, Fields, empty,
  field, put,
}
use viking_ftpd.Lpc.Cursor.{is_digit, is_terminator}
use viking_ftpd.Lpc.Decimal.{itoa}
use viking_ftpd.Lpc.Parser.{array_items, array_body, map_entries, map_body, dispatch, parse_value}
use viking_ftpd.Lpc.Printer.{
  print_string, print_value, print_items, print_fields, size_items, size_fields, IsPrintable,
  ArePrintable, HavePrintable,
}
use viking_ftpd.Lpc.Reads.{Reads}
use viking_ftpd.Lpc.Reads.Scalars.{print_chars-length}
use viking_ftpd.Lpc.Reads.Fields.{put_all, put_all-empty, AreDistinct}
use viking_ftpd.Lpc.Reads.Starts.{starts_value, print_value-starts, print_value-length}
use viking_ftpd.Lpc.Reads.Primitives.{
  Stops, parser, text, step-Reads, nil-Reads, str-Reads, int-Reads,
}
use viking_ftpd.Lpc.Reads.Arrays.{
  closing_array, last_item-Reads, next_item-Reads, array_front-Reads, empty_array-Reads,
  some_array-Reads,
}
use viking_ftpd.Lpc.Reads.Mappings.{
  closing_map, entry-Reads, last_entry-Reads, next_entry-Reads, map_front-Reads, empty_map-Reads,
  some_map-Reads,
}

module _ {F : Type 0} where
  -- There is a byte for each element and each entry.
  print_items-size :
      (vs : Items F) (rest : Bytes) → size_items vs + length rest ≤ length (print_items vs rest)
  unfolding print_value
  print_items-size end rest = omega arith
  print_items-size (item v vs) rest =
      omega (arith, print_value-length v (b',' ∷ print_items vs rest), print_items-size vs rest)

  print_fields-size :
      (m : Fields F) (rest : Bytes) → size_fields m + length rest ≤ length (print_fields m rest)
  unfolding print_value print_string
  print_fields-size empty rest = omega arith
  print_fields-size (field k v m) rest = omega (
    arith,
    print_chars-length k (b':' ∷ print_value v (b',' ∷ print_fields m rest)),
    print_value-length v (b',' ∷ print_fields m rest),
    print_fields-size m rest,
  )

  HavePrintable-AreDistinct : (m : Fields F) → HavePrintable m → AreDistinct m
  unfolding IsPrintable
  HavePrintable-AreDistinct empty h = tt
  HavePrintable-AreDistinct (field k v m) (fresh, hv, hs) = (fresh, HavePrintable-AreDistinct m hs)

module _ {F : Type 0} ⦃fl : Float64 F⦄ where
  array-Reads :
      (n : ℕ) (vs : Items F) (rest : Bytes)
      → size_items vs < 2 ^ 63
      → Reads
          (array_body (parser n) n (pos (size_items vs)))
          (print_items vs (closing_array rest))
          rest
          (array vs)
      → Reads (parser (suc n)) (text (array vs) rest) rest (array vs)
  unfolding parse_value dispatch print_value starts_value is_digit
  array-Reads n vs rest small r =
      step-Reads (parser n) n (text (array vs) rest) rest (array vs) refl (
        array_front-Reads (parser n) n rest (size_items vs) (print_items vs (closing_array rest))
          (array vs) small r)

  map-Reads :
      (n : ℕ) (m : Fields F) (rest : Bytes)
      → size_fields m < 2 ^ 63
      → Reads
          (map_body (parser n) n (pos (size_fields m)))
          (print_fields m (closing_map rest))
          rest
          (mapping m)
      → Reads (parser (suc n)) (text (mapping m) rest) rest (mapping m)
  unfolding parse_value dispatch print_value starts_value is_digit
  map-Reads n m rest small r =
      step-Reads (parser n) n (text (mapping m) rest) rest (mapping m) refl (
        map_front-Reads (parser n) n rest (size_fields m) (print_fields m (closing_map rest))
          (mapping m) small r)

  -- what the loops over elements and entries read
  abbrev ItemsRead : Items F → ℕ → ℕ → Bytes → Type 0
  ItemsRead end n k rest = Unit
  ItemsRead (item v vs) n k rest =
      Reads (array_items (parser n) k) (print_items (item v vs) (closing_array rest)) rest
        (item v vs)

  abbrev FieldsRead : Fields F → ℕ → ℕ → ℕ → Fields F → Bytes → Type 0
  FieldsRead empty n k total acc rest = Unit
  FieldsRead (field j v m) n k total acc rest =
      Reads (map_entries (parser n) k total acc) (print_fields (field j v m) (closing_map rest))
        rest (total + size_fields (field j v m), put_all acc (field j v m))

  mutual
    unfolding print_value print_string IsPrintable is_terminator starts_value put_all

    pub value-Reads :
        (v : Value F)
        → IsPrintable v
        → (n : ℕ) (rest : Bytes) → Stops rest
        → length (text v rest) < n
        → Reads (parser n) (text v rest) rest v
    value-Reads v h zero rest stop l = absurd (omega arith)
    value-Reads nil h (suc n) rest stop l = nil-Reads n rest stop
    value-Reads (int m) h (suc n) rest stop l = int-Reads m n rest h stop
    value-Reads (str s) h (suc n) rest stop l = str-Reads s n rest
    value-Reads (float f) h (suc n) rest stop l = absurd h
    value-Reads (permission p) h (suc n) rest stop l = absurd h
    value-Reads (array end) h (suc n) rest stop l =
        array-Reads n end rest (omega arith) (empty_array-Reads (parser n) n rest)
    value-Reads (array (item v vs)) h (suc n) rest stop l =
        let ys : Bytes = print_items (item v vs) (closing_array rest) in
        let less : length ys < n =
          omega (arith, l, length-append (itoa (pos (size_items (item v vs)))) (b'|' ∷ ys)) in
        array-Reads n (item v vs) rest h.0 (
          some_array-Reads (parser n) n rest ys (item v vs)
            (print_value-starts v (b',' ∷ print_items vs (closing_array rest)) h.1.0)
            (items-Reads (item v vs) h.1 n n rest less
              (omega (arith, less, print_items-size (item v vs) (closing_array rest)))))
    value-Reads (mapping empty) h (suc n) rest stop l =
        map-Reads n empty rest (omega arith) (empty_map-Reads (parser n) n rest)
    value-Reads (mapping (field k v m)) h (suc n) rest stop l =
        let ys : Bytes = print_fields (field k v m) (closing_map rest) in
        let less : length ys < n =
          omega (arith, l, length-append (itoa (pos (size_fields (field k v m)))) (b'|' ∷ ys)) in
        map-Reads n (field k v m) rest h.0 (
          some_map-Reads (parser n) n rest (size_fields (field k v m)) ys (field k v m) refl (
            subst
              (λ t. Reads (map_entries (parser n) n 0 empty) ys rest (size_fields (field k v m), t))
              (put_all-empty (field k v m) (HavePrintable-AreDistinct (field k v m) h.1))
              (subst
                (λ t.
                  Reads (map_entries (parser n) n 0 empty) ys rest (t, put_all empty (field k v m)))
                (omega arith)
                (fields-Reads (field k v m) h.1 n n 0 empty rest less
                  (omega (arith, less, print_fields-size (field k v m) (closing_map rest)))))))

    items-Reads :
        (vs : Items F)
        → ArePrintable vs
        → (n k : ℕ) (rest : Bytes) → length (print_items vs (closing_array rest)) < n
        → size_items vs ≤ k
        → ItemsRead vs n k rest
    items-Reads end h n k rest l le = tt
    items-Reads (item v vs) h n zero rest l le = absurd (omega arith)
    items-Reads (item v end) h n (suc k) rest l le =
        last_item-Reads (parser n) (text v (b',' ∷ closing_array rest)) rest v k
          (value-Reads v h.0 n (b',' ∷ closing_array rest) refl l)
    items-Reads (item v (item w ws)) h n (suc k) rest l le =
        let ys : Bytes = print_items (item w ws) (closing_array rest) in
        next_item-Reads (parser n) (text v (b',' ∷ ys)) rest v k ys (item w ws)
          (print_value-starts w (b',' ∷ print_items ws (closing_array rest)) h.1.0)
          (value-Reads v h.0 n (b',' ∷ ys) refl l)
          (items-Reads (item w ws) h.1 n k rest (omega (arith, l, print_value-length v (b',' ∷ ys)))
            (omega (arith, le)))

    fields-Reads :
        (m : Fields F)
        → HavePrintable m
        → (n k total : ℕ) (acc : Fields F) (rest : Bytes)
        → length (print_fields m (closing_map rest)) < n
        → size_fields m ≤ k
        → FieldsRead m n k total acc rest
    fields-Reads empty h n k total acc rest l le = tt
    fields-Reads (field j v m) h n zero total acc rest l le = absurd (omega arith)
    fields-Reads (field j v m) h zero (suc k) total acc rest l le = absurd (omega arith)
    fields-Reads (field j v empty) h (suc n) (suc k) total acc rest l le =
        let ys : Bytes = text v (b',' ∷ closing_map rest) in
        let xs : Bytes = text {F = F} (str j) (b':' ∷ ys) in
        subst (λ t. Reads (map_entries (parser (suc n)) (suc k) total acc) xs rest (t, put acc j v))
          (omega arith)
          (last_entry-Reads (parser (suc n)) j xs rest v k total acc (
            entry-Reads (parser (suc n)) j xs ys (closing_map rest) v refl
              (str-Reads j n (b':' ∷ ys))
              (value-Reads v h.1 (suc n) (b',' ∷ closing_map rest) refl
                (omega (arith, l, print_chars-length j (b':' ∷ ys))))))
    fields-Reads (field j v (field i w m)) h (suc n) (suc k) total acc rest l le =
        let zs : Bytes = print_fields (field i w m) (closing_map rest) in
        let ys : Bytes = text v (b',' ∷ zs) in
        let xs : Bytes = text {F = F} (str j) (b':' ∷ ys) in
        let answered : ℕ × Fields F =
          (suc total + size_fields (field i w m), put_all (put acc j v) (field i w m)) in
        subst
          (λ t.
            Reads (map_entries (parser (suc n)) (suc k) total acc) xs rest
              (t, put_all (put acc j v) (field i w m)))
          (omega arith)
          (next_entry-Reads (parser (suc n)) j xs rest v k total acc zs answered refl
            (entry-Reads (parser (suc n)) j xs ys zs v refl (str-Reads j n (b':' ∷ ys)) (
              value-Reads v h.1 (suc n) (b',' ∷ zs) refl
                (omega (arith, l, print_chars-length j (b':' ∷ ys)))))
            (fields-Reads (field i w m) h.2 (suc n) k (suc total) (put acc j v) rest
              (omega (arith, l, print_chars-length j (b':' ∷ ys), print_value-length v (b',' ∷ zs)))
              (omega (arith, le))))
