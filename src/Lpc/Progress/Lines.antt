-- ===== src/Lpc/Progress/Lines.antt =====
-- pkg/lpc/oparser.go: cursor and fuel of parseMapEntry, parseMap, parseValue and parseLine.
use viking_ftpd.Prelude.{
  ℕ, zero, suc, ◌+◌, ◌≤◌, ◌≡◌, refl, arith, Bool, true, false, not, ◌||◌, Option, none, some, [],
  ◌==◌, if◌then◌else◌, length, Bytes, codes, ℤ, pos, eq_int,
}
use viking_ftpd.Lpc.Value.{Float64, Value, nil, str, Fields, empty}
use viking_ftpd.Lpc.Cursor.{
  LineParser, LpcError, err, Parser, ◌>>=◌, fail, accept, match_prefix, skip_spaces, wrap_error,
  is_digit, look,
}
use viking_ftpd.Lpc.Scalars.{answer, parse_string, parse_count, parse_identifier}
use viking_ftpd.Lpc.Parser.{
  key_text, entry_rest, parse_map_entry, store, map_entries, map_body, parse_map, dispatch,
  value_step, parse_value, end_of_line, line_value, parse_line_on, parse_line,
}
use viking_ftpd.Lpc.Progress.{
  is_fuel, Runs, Runs-ok, Runs-err, Runs-if, After, Runs-bind, Runs-weaken, Runs-wrap_error,
  accept-Runs, match_prefix-Runs, skip_spaces-Runs,
}
use viking_ftpd.Lpc.Progress.Scalars.{
  Runs-answer, look-Runs, parse_string-Runs, parse_number-Runs, parse_count-Runs,
  parse_identifier-Runs,
}
use viking_ftpd.Lpc.Progress.Values.{
  Fueled, Reads, keep_in_map, keep_bad_map_key, parse_nil-Runs, parse_array-Runs,
}

module _ {F : Type 0} ⦃fl : Float64 F⦄ where
  key_text-error : (v : Value F) (e : LpcError) → key_text v ≡ err e → is_fuel e ≡ false
  unfolding key_text is_fuel
  key_text-error nil e h = absurd (cc)
  key_text-error v e h = ground arith

  entry_rest-Runs :
      (n : ℕ) (again : Parser (Value F)) (key : Option Bytes) (p : LineParser)
      → Reads n again
      → Fueled n p
      → Runs (λ _. p.pos) p (entry_rest again key p)
  unfolding entry_rest is_fuel
  entry_rest-Runs n again none p reads fuel =
      Runs-bind skip_spaces _ (skip_spaces-Runs p fuel.0) λ spaces q1 a1.
        Runs-bind (accept b':') _ (accept-Runs b':' q1 refl a1.3) λ colon q2 a2.
          Runs-if colon _ _
            (λ _.
              Runs-bind again _ (reads q2 (a2.3, omega arith))
                λ v q3 a3. Runs-ok _ none q3 a3.3 (omega arith))
            (λ _. Runs-ok _ none q2 a2.3 (omega arith))
  entry_rest-Runs n again (some key) p reads fuel =
      Runs-bind skip_spaces _ (skip_spaces-Runs p fuel.0) λ spaces q1 a1.
        Runs-bind (accept b':') _ (accept-Runs b':' q1 refl a1.3) λ colon q2 a2.
          Runs-if (not colon) _ _ (λ _. Runs-err _ LpcError.no_colon q2 a2.3 refl)
            (λ _.
              Runs-bind again _ (reads q2 (a2.3, omega arith))
                λ v q3 a3. Runs-ok _ (some (key, v)) q3 a3.3 (omega arith))

  parse_map_entry-Runs :
      (n : ℕ) (again : Parser (Value F)) (p : LineParser)
      → Reads n again
      → Fueled n p
      → Runs (λ _. suc p.pos) p (parse_map_entry again p)
  unfolding parse_map_entry
  parse_map_entry-Runs n again p reads fuel =
      Runs-bind skip_spaces _ (skip_spaces-Runs p fuel.0) λ spaces q1 a1.
        Runs-bind (wrap_error LpcError.bad_map_key again) _
          (Runs-wrap_error LpcError.bad_map_key again keep_bad_map_key
            (reads q1 (a1.3, omega arith)))
          λ raw q2 a2.
            Runs-bind (answer (key_text raw)) _ (Runs-answer _ q2 a2.3 (key_text-error raw))
              λ key q3 a3.
                Runs-weaken _ (λ _. omega arith)
                  (entry_rest-Runs n again key q3 reads (a3.3, omega arith))

  map_entries-Runs :
      (n N : ℕ) (again : Parser (Value F)) (total : ℕ) (result : Fields F) (p : LineParser)
      → Reads N again
      → Fueled N p
      → Fueled n p
      → Runs (λ _. p.pos) p (map_entries again n total result p)
  unfolding map_entries is_fuel
  map_entries-Runs zero N again total result p reads big small = absurd (omega arith)
  map_entries-Runs (suc n) N again total result p reads big small =
      Runs-bind (parse_map_entry again) _ (parse_map_entry-Runs N again p reads big) λ entry q1 a1.
        Runs-bind skip_spaces _ (skip_spaces-Runs q1 a1.3) λ spaces q2 a2.
          Runs-bind (accept b',') _ (accept-Runs b',' q2 refl a2.3) λ comma q3 a3.
            Runs-if comma _ _
              (λ _. Runs-bind skip_spaces _ (skip_spaces-Runs q3 a3.3) λ more q4 a4.
                Runs-bind (match_prefix (codes "])")) _ (match_prefix-Runs _ q4 a4.3)
                  λ closed q5 a5.
                    Runs-if closed _ _ (λ _. Runs-ok _ _ q5 a5.3 (omega arith))
                      (λ _.
                        Runs-weaken _ (λ _. omega arith)
                          (map_entries-Runs n N again (suc total) (store result entry) q5 reads
                            (a5.3, omega arith) (a5.3, omega arith))))
              (λ _.
                Runs-bind (match_prefix (codes "])")) _ (match_prefix-Runs _ q3 a3.3)
                  λ closed q4 a4.
                    Runs-if closed _ _ (λ _. Runs-ok _ _ q4 a4.3 (omega arith))
                      (λ _. Runs-err _ LpcError.no_map_end q4 a4.3 refl))

  map_body-Runs :
      (n : ℕ) (again : Parser (Value F)) (size : ℤ) (p : LineParser)
      → Reads n again
      → Fueled n p
      → Runs (λ _. p.pos) p (map_body again n size p)
  unfolding map_body is_fuel
  map_body-Runs n again size p reads fuel =
      Runs-bind skip_spaces _ (skip_spaces-Runs p fuel.0) λ spaces q1 a1.
        Runs-bind (match_prefix (codes "])")) _ (match_prefix-Runs (codes "])") q1 a1.3)
          λ nothing q2 a2.
            Runs-if nothing _ _
              (λ _.
                Runs-if (eq_int size (pos 0)) _ _ (λ _. Runs-ok _ _ q2 a2.3 (omega arith))
                  (λ _. Runs-err _ LpcError.map_not_empty q2 a2.3 refl))
              (λ _.
                Runs-bind (map_entries again n 0 empty) _
                  (map_entries-Runs n n again 0 empty q2 reads (a2.3, omega arith)
                    (a2.3, omega arith))
                  λ entries q3 a3.
                    Runs-if (eq_int (pos entries.0) size) _ _
                      (λ _. Runs-ok _ _ q3 a3.3 (omega arith))
                      (λ _. Runs-err _ LpcError.wrong_map_size q3 a3.3 refl))

  parse_map-Runs :
      (n : ℕ) (again : Parser (Value F)) (p : LineParser)
      → Reads n again
      → Fueled (suc n) p
      → Runs (λ _. suc p.pos) p (parse_map again n p)
  unfolding parse_map is_fuel
  parse_map-Runs n again p reads fuel =
      Runs-bind (match_prefix (codes "([")) _ (match_prefix-Runs (codes "([") p fuel.0) opened
    where
      inside :
          (q : LineParser)
          → length q.s ≡ length p.s
          → p.pos + 2 ≤ q.pos
          → q.pos ≤ length q.s
          → (size : ℤ)
          → Runs
              (λ _. suc p.pos)
              q
              ((accept b'|' >>= λ bar.
                  if not bar then fail LpcError.no_map_bar else map_body again n size)
                q)
      inside q same far h size = Runs-bind (accept b'|') _ (accept-Runs b'|' q refl h) λ bar q1 a1.
          Runs-if (not bar) _ _ (λ _. Runs-err _ LpcError.no_map_bar q1 a1.3 refl)
            (λ _.
              Runs-weaken _ (λ _. omega arith)
                (map_body-Runs n again size q1 reads (a1.3, omega arith)))

      opened :
          (b : Bool) (q : LineParser)
          → After (λ taken. if taken then p.pos + length (codes "([") else p.pos) p b q
          → Runs
              (λ _. suc p.pos)
              q
              ((if not b
                  then fail LpcError.no_map
                  else (wrap_error LpcError.in_map parse_count >>= λ size. accept b'|' >>= λ bar.
                      if not bar then fail LpcError.no_map_bar else map_body again n size))
                q)
      opened false q a = Runs-err _ LpcError.no_map q a.3 refl
      opened true q a =
          Runs-bind (wrap_error LpcError.in_map parse_count) _
            (Runs-wrap_error LpcError.in_map parse_count keep_in_map (parse_count-Runs q a.3))
            λ size q1 a1. inside q1 (omega arith) (omega arith) a1.3 size

  dispatch-Runs :
      (n b c : ℕ) (again : Parser (Value F)) (p : LineParser)
      → Reads n again
      → Fueled (suc n) p
      → Runs (λ _. suc p.pos) p (dispatch again n b c p)
  unfolding dispatch is_fuel
  dispatch-Runs n b c again p reads fuel =
      Runs-if (b == b'"') _ _
        (λ _.
          Runs-bind parse_string _ (parse_string-Runs p fuel.0)
            λ s q a. Runs-ok _ (str s) q a.3 a.1)
        (λ _.
          Runs-if (b == b'-' || is_digit b) _ _ (λ _. parse_number-Runs p fuel.0)
            (λ _.
              Runs-if (b == b'(') _ _
                (λ _.
                  Runs-if (c == b'{') _ _ (λ _. parse_array-Runs n again p reads fuel)
                    (λ _.
                      Runs-if (c == b'[') _ _ (λ _. parse_map-Runs n again p reads fuel)
                        (λ _. Runs-err _ LpcError.no_opener p fuel.0 refl)))
                (λ _.
                  Runs-if (b == b'n') _ _ (λ _. parse_nil-Runs p fuel.0)
                    (λ _. Runs-err _ LpcError.unexpected_character p fuel.0 refl))))

  parse_value-Reads : (n : ℕ) → Reads {F = F} n (parse_value n)
  unfolding parse_value value_step
  parse_value-Reads zero p fuel = absurd (omega arith)
  parse_value-Reads (suc n) p fuel =
      Runs-bind skip_spaces _ (skip_spaces-Runs p fuel.0) λ spaces q1 a1.
        Runs-bind (look 0) _ (look-Runs 0 q1 a1.3) λ b q2 a2.
          Runs-bind (look 1) _ (look-Runs 1 q2 a2.3) λ c q3 a3.
            Runs-weaken _ (λ _. omega arith)
              (dispatch-Runs n b c (parse_value n) q3 (parse_value-Reads n) (a3.3, omega arith))

  end_of_line-Runs :
      (key : Bytes) (value : Value F) (c : ℕ) (p : LineParser)
      → p.pos ≤ length p.s
      → Runs (λ _. p.pos) p (end_of_line key value c p)
  unfolding end_of_line is_fuel
  end_of_line-Runs key value c p h =
      Runs-if (c == b' ' || c == b'\t') _ _ (λ _. Runs-err _ LpcError.trailing_whitespace p h refl)
        (λ _.
          Runs-if (c == b'\n' || c == 0) _ _ (λ _. Runs-ok _ _ p h (omega arith))
            (λ _. Runs-err _ LpcError.no_end_of_line p h refl))

  line_value-Runs :
      (n : ℕ) (key : Bytes) (p : LineParser)
      → Fueled n p
      → Runs (λ _. p.pos) p (line_value {F = F} n key p)
  unfolding line_value is_fuel
  line_value-Runs n key p fuel =
      Runs-bind (accept b' ') _ (accept-Runs b' ' p refl fuel.0) λ space q1 a1.
        Runs-if (not space) _ _ (λ _. Runs-err _ LpcError.no_single_space q1 a1.3 refl)
          (λ _. Runs-bind (look 0) _ (look-Runs 0 q1 a1.3) λ next q2 a2.
            Runs-if (next == b' ' || next == b'\t') _ _
              (λ _. Runs-err _ LpcError.second_space q2 a2.3 refl)
              (λ _.
                Runs-bind (parse_value n) _ (parse_value-Reads n q2 (a2.3, omega arith))
                  λ value q3 a3. Runs-bind (look 0) _ (look-Runs 0 q3 a3.3) λ last q4 a4.
                    Runs-weaken _ (λ _. omega arith) (end_of_line-Runs key value last q4 a4.3)))

  parse_line_on-Runs :
      (n : ℕ) (p : LineParser) → Fueled n p → Runs (λ _. p.pos) p (parse_line_on {F = F} n p)
  unfolding parse_line_on is_fuel
  parse_line_on-Runs n p fuel = Runs-bind (look 0) _ (look-Runs 0 p fuel.0) λ first q a.
      Runs-if (first == b'#' || first == b'\n' || first == 0) _ _
        (λ _. Runs-ok _ ([], nil) q a.3 (omega arith))
        (λ _.
          Runs-if (first == b' ' || first == b'\t') _ _
            (λ _. Runs-err _ LpcError.leading_whitespace q a.3 refl)
            (λ _. Runs-bind parse_identifier _ (parse_identifier-Runs q a.3) λ key q1 a1.
              Runs-weaken _ (λ _. omega arith) (line_value-Runs n key q1 (a1.3, omega arith))))

  -- From any position in a line, parseLine returns: the cursor stays between that position and the
  -- end of the line, so no index or slice of the line is out of range, the line is not changed, and
  -- the result is a key and a value or an error of the source, never the end of the model's fuel.
  pub parse_line-Runs :
      (p : LineParser) → p.pos ≤ length p.s → Runs (λ _. p.pos) p (parse_line {F = F} p)
  unfolding parse_line
  parse_line-Runs p h = parse_line_on-Runs (suc (length p.s)) p (h, omega arith)
