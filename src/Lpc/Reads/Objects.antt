-- ===== src/Lpc/Reads/Objects.antt =====
-- pkg/lpc/oparser.go: ParseObject on the objects of the format.

use viking_ftpd.Prelude.{
  ℕ, suc, ◌≡◌, refl, ap, ◌∙◌, arith, Bool, true, false, [], ◌∷◌, ◌++◌, if_false, is_nil, Bytes,
  List,
}
use viking_ftpd.Paths.{split, cons_first}
use viking_ftpd.Lpc.Value.{Float64, Value, Fields, empty, field, put}
use viking_ftpd.Lpc.Cursor.{is_letter}
use viking_ftpd.Lpc.Printer.{print_line, print_object, IsPrintable, IsIdentifier, IsObject}
use viking_ftpd.Lpc.Object.{
  ParseResult, parsed, ◌>>=◌, is_skipped, collect, take_line, take_lines, conclude, parse_object,
}
use viking_ftpd.Lpc.Reads.Fields.{put_all, put_all-empty, AreDistinct}
use viking_ftpd.Lpc.Reads.Breaks.{NoBreak, print_line-NoBreak}
use viking_ftpd.Lpc.Reads.Lines.{parse_line-print_line}

-- strings.Split at the break behind the first line
split-line :
    (line rest : Bytes) → NoBreak line → split 10 (line ++ 10 ∷ rest) ≡ line ∷ split 10 rest
unfolding split
split-line [] rest h = refl
split-line (c ∷ line) rest (h, hs) = if_false h _ _ ∙ ap (cons_first c) (split-line line rest hs)

module _ {F : Type 0} ⦃fl : Float64 F⦄ (strict : Bool) where
  -- the lines of an object
  abbrev lines : Fields F → List Bytes
  lines empty = [] ∷ []
  lines (field k v m) = print_line k v ∷ lines m

  split-print_object : (m : Fields F) → IsObject m → split 10 (print_object m) ≡ lines m
  unfolding print_object split
  split-print_object empty h = refl
  split-print_object (field k v m) h =
      split-line (print_line k v) (print_object m) (print_line-NoBreak k v h.1)
      ∙ ap (λ ls. print_line k v ∷ ls) (split-print_object m h.3)

  printed-is_skipped :
      (k : Bytes) (v : Value F) → IsIdentifier k → is_skipped (print_line k v) ≡ false
  unfolding print_line is_letter
  printed-is_skipped [] v h = absurd h
  printed-is_skipped (c ∷ s) v h = let letter : is_letter c ≡ true = h.0 in ground arith

  take_line-printed :
      (n : ℕ) (k : Bytes) (v : Value F) (acc : ParseResult F)
      → IsIdentifier k
      → IsPrintable v
      → take_line strict n (print_line k v) acc
        ≡ parsed (record acc { object = put acc.object k v })
  unfolding take_line collect
  take_line-printed n k v acc name h =
      let (q, e) = parse_line-print_line k v name h in
      if_false (printed-is_skipped k v name) _ _ ∙ ap (λ r. collect strict n r acc) e

  take_lines-printed :
      (n : ℕ) (m : Fields F) (acc : ParseResult F)
      → IsObject m
      → take_lines strict n (lines m) acc ≡ parsed (record acc { object = put_all acc.object m })
  unfolding take_lines put_all
  take_lines-printed n empty acc h = refl
  take_lines-printed n (field k v m) acc h =
      ap (λ o. o >>= λ acc'. take_lines strict (suc n) (lines m) acc')
        (take_line-printed n k v acc h.1 h.2)
      ∙ take_lines-printed (suc n) m (record acc { object = put acc.object k v }) h.3

  object-AreDistinct : (m : Fields F) → IsObject m → AreDistinct m
  object-AreDistinct empty h = tt
  object-AreDistinct (field k v m) h = (h.0, object-AreDistinct m h.3)

  print_object-not_nil :
      (k : Bytes) (v : Value F) (m : Fields F)
      → IsIdentifier k
      → is_nil (print_object (field k v m)) ≡ false
  unfolding print_object print_line
  print_object-not_nil [] v m h = absurd h
  print_object-not_nil (c ∷ s) v m h = refl

  -- An object comes back from its text, in both modes and with no error: the lines of its variables,
  -- whatever the nesting of their values and whatever bytes their strings hold.
  pub parse_object-print_object :
      (k : Bytes) (v : Value F) (m : Fields F)
      → IsObject (field k v m)
      → parse_object strict (print_object (field k v m))
        ≡ parsed (record { object = field k v m; errors = [] })
  unfolding parse_object
  parse_object-print_object k v m h =
      let whole : Fields F = field k v m in
      if_false (print_object-not_nil k v m h.1) _ _
      ∙ ap (λ ls. take_lines strict 0 ls (record { object = empty; errors = [] }) >>= conclude)
          (split-print_object whole h)
      ∙ ap (λ o. o >>= conclude)
          (take_lines-printed 0 whole (record { object = empty; errors = [] }) h)
      ∙ ap (λ (x : Fields F). parsed (record { object = x; errors = [] }) >>= conclude)
          (put_all-empty whole (object-AreDistinct whole h))
