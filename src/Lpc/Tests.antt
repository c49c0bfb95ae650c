-- ===== src/Lpc/Tests.antt =====
-- Runs of the parser on small lines, and the theorems of pkg/lpc at concrete inputs. The floats are
-- their decimal texts.
use viking_ftpd.Prelude.{has_prefix, equal, [], ◌∷◌, ◌≡◌, refl, Bytes, codes, pos, negsuc}
use viking_ftpd.Prelude.{◌↔◌, List, arith, true, false}
use viking_ftpd.Paths.{split}
use viking_ftpd.Lpc.Object.{parse_object, parsed, ParseError}
use viking_ftpd.Lpc.Object.Modes.{parse_object-modes}
use viking_ftpd.Lpc.Object.Located.{AreLocated, parse_object-AreLocated}
use viking_ftpd.Lpc.Progress.{Runs}
use viking_ftpd.Lpc.Progress.Lines.{parse_line-Runs}
use viking_ftpd.Lpc.Value.{Fields}
use viking_ftpd.Lpc.Printer.{IsObject, IsPrintable, print_object, print_line, print_value}
use viking_ftpd.Lpc.Reads.Objects.{parse_object-print_object}
use viking_ftpd.Lpc.TextFloat.{text_floats}
use viking_ftpd.Lpc.Value.{
  Value, nil, int, float, str, array, mapping, Items, end, item, empty, field, put,
}
use viking_ftpd.Lpc.Cursor.{
  LineParser, LpcError, Result, ok, err, ◌>>=◌, accept, match_prefix, count_while, skip_spaces,
  slice_from, next_byte, wrap_error, is_letter, is_ident_char, is_digit, is_hex_digit,
  is_terminator, peek,
}
use viking_ftpd.Lpc.Decimal.{atoi, itoa}
use viking_ftpd.Lpc.Rune.{rune_after}
use viking_ftpd.Lpc.Scalars.{
  escape_sequence, escape, string_byte, string_body, rounds_left, parse_string, fraction, hex_tail,
  number_value, parse_number, parse_count, parse_identifier,
}
use viking_ftpd.Lpc.Parser.{
  parse_nil, array_items, array_body, parse_array, key_text, entry_rest, parse_map_entry, store,
  map_entries, map_body, parse_map, value_step, parse_value, parse_line,
}

abbrev start : Bytes → LineParser
start s = record { s = s; pos = 0 }

run : Bytes → Result (Bytes × Value Bytes)
unfolding parse_line parse_value value_step parse_string string_body string_byte rounds_left escape
    escape_sequence rune_after parse_number parse_count parse_identifier fraction hex_tail
    number_value atoi itoa parse_nil array_items array_body parse_array key_text entry_rest
    parse_map_entry store map_entries map_body parse_map ◌>>=◌ wrap_error accept match_prefix
    count_while skip_spaces slice_from next_byte is_letter is_ident_char is_digit is_hex_digit
    is_terminator peek has_prefix equal put
run s = (parse_line (start s)).0

abbrev one : Value Bytes → Items Bytes
one v = item v end

scalars :
    (run (codes "level -42") ≡ ok (codes "level", int (negsuc 41)))
    × (run (codes "rate 3.14=40091eb8") ≡ ok (codes "rate", float (codes "3.14")))
    × (run (codes "name \"a\\n\\zb\"") ≡ ok (codes "name", str (b'a' ∷ 10 ∷ b'z' ∷ b'b' ∷ [])))
    × (run (codes "gone nil") ≡ ok (codes "gone", nil))
unfolding run
scalars = (refl, refl, refl, refl)

nested :
    run (codes "m ([2|\"a\":({1|nil,}),7:([0|]),])")
    ≡ ok (
      codes "m",
      mapping (field (codes "a") (array (one nil)) (field (codes "7") (mapping empty) empty)),
    )
unfolding run
nested = refl

skipped_key :
    run (codes "m ([2|({0|}):1,\"b\":2])")
    ≡ ok (codes "m", mapping (field (codes "b") (int (pos 2)) empty))
unfolding run
skipped_key = refl

refused :
    (run (codes " level 1") ≡ err LpcError.leading_whitespace)
    × (run (codes "level  1") ≡ err LpcError.second_space)
    × (run (codes "a ({2|1})") ≡ err LpcError.wrong_array_size)
    × (run (codes "a \"x") ≡ err LpcError.unterminated_string)
    × (run (codes "a 9223372036854775808") ≡ err LpcError.invalid_integer)
    × (run (codes "_a 1") ≡ err LpcError.bad_identifier)
unfolding run
refused = (refl, refl, refl, refl, refl, refl)

parse_line-Runs_example :
    Runs (λ _. 0) (start (codes "a ({2|1})")) (parse_line {F = Bytes} (start (codes "a ({2|1})")))
parse_line-Runs_example = parse_line-Runs (start (codes "a ({2|1})")) (omega arith)

parse_object-AreLocated_example :
    AreLocated (split b'\n' (codes "a 1\nb")) (parse_object {F = Bytes} false (codes "a 1\nb"))
parse_object-AreLocated_example = parse_object-AreLocated Bytes false (codes "a 1\nb")

parse_object-modes_example :
    (parse_object {F = Bytes} true (codes "a 1\nb")
      ≡ parsed (record { object = field (codes "a") (int (pos 1)) empty; errors = [] }))
    ↔ ((parse_object {F = Bytes} false (codes "a 1\nb")
          ≡ parsed (record { object = field (codes "a") (int (pos 1)) empty; errors = [] }))
        × (◌≡◌ {A = List ParseError} [] []))
parse_object-modes_example =
    parse_object-modes (codes "a 1\nb")
      (record { object = field (codes "a") (int (pos 1)) empty; errors = [] })

-- a text with a quote, a backslash and a line break
abbrev awkward : Value Bytes
awkward = str (34 ∷ 92 ∷ 10 ∷ [])

-- a mapping with an array of -1 and that text, and an empty key
abbrev saved_access : Value Bytes
saved_access =
    mapping
      (field (codes "?") (array (item (int (negsuc 0)) (item awkward end))) (field [] nil empty))

abbrev saved : Fields Bytes
saved = field (codes "level") (int (pos 31)) (field (codes "access_map") saved_access empty)

saved-IsObject : IsObject saved
unfolding IsPrintable is_letter is_ident_char equal
saved-IsObject = (
  (refl, tt),
  (refl, (refl, (refl, (refl, (refl, tt))))),
  omega arith,
  (
    tt,
    (refl, (refl, (refl, (refl, (refl, (refl, (refl, (refl, (refl, (refl, tt)))))))))),
    (omega arith, ((refl, tt), (omega arith, (omega arith, (tt, tt))), (tt, tt, tt))),
    tt,
  ),
)

saved_text :
    print_object saved
    ≡ codes "level 31\naccess_map ([2|\"?\":({2|-1,\"\\\"\\\\\\n\",}),\"\":nil,])\n"
unfolding print_object print_line print_value itoa
saved_text = refl

parse_object-print_object_example :
    parse_object true (print_object saved) ≡ parsed (record { object = saved; errors = [] })
parse_object-print_object_example =
    parse_object-print_object true (codes "level") (int (pos 31))
      (field (codes "access_map") saved_access empty) saved-IsObject
