-- ===== src/Lpc/Progress/Values.antt =====
-- pkg/lpc/oparser.go: cursor and fuel of parseArray and of the word nil.
use viking_ftpd.Prelude.{
  ℕ, zero, suc, ◌+◌, ◌<◌, ◌≤◌, ◌≡◌, refl, arith, Bool, true, false, not, if◌then◌else◌, length,
  drop, codes, has_prefix, ℤ, pos, eq_int, Bool-cases, inl, inr,
}
use viking_ftpd.Lpc.Value.{Value, nil}
use viking_ftpd.Lpc.Cursor.{
  LineParser, LpcError, Parser, ◌>>=◌, fail, peek, accept, match_prefix, skip_spaces, wrap_error,
  is_terminator,
}
use viking_ftpd.Lpc.Scalars.{parse_count}
use viking_ftpd.Lpc.Parser.{
  count_items, empty_array, parse_nil, array_items, array_body, parse_array,
}
use viking_ftpd.Lpc.Progress.{
  is_fuel, Runs, Runs-ok, Runs-err, Runs-advance, Runs-if, After, Runs-bind, Runs-weaken,
  Runs-wrap_error, accept-Runs, match_prefix-Runs, skip_spaces-Runs, prefix_inside,
}
use viking_ftpd.Lpc.Progress.Scalars.{parse_count-Runs}

-- The fuel `n` is more than what is left of the line.
abbrev pub Fueled : ℕ → LineParser → Type 0
Fueled n p = (p.pos ≤ length p.s) × (length p.s < n + p.pos)

keep_in_array : (e : LpcError) → is_fuel e ≡ false → is_fuel (LpcError.in_array e) ≡ false
unfolding is_fuel
keep_in_array e h = h

pub keep_in_map : (e : LpcError) → is_fuel e ≡ false → is_fuel (LpcError.in_map e) ≡ false
unfolding is_fuel
keep_in_map e h = h

pub keep_bad_map_key : (e : LpcError) → is_fuel e ≡ false → is_fuel (LpcError.bad_map_key e) ≡ false
unfolding is_fuel
keep_bad_map_key e h = h

empty_array-Runs : (p : LineParser) → p.pos ≤ length p.s → Runs (λ _. p.pos) p (empty_array p)
unfolding empty_array
empty_array-Runs p h =
    Runs-bind (match_prefix (codes "})")) _ (match_prefix-Runs (codes "})") p h) λ closed q after.
      Runs-if closed _ _ (λ _. Runs-ok _ true q after.3 after.2)
        (λ _.
          Runs-weaken _ (λ taken. low taken q p after.2)
            (match_prefix-Runs (codes ",})") q after.3))
  where
    low :
        (taken : Bool) (q p : LineParser)
        → p.pos ≤ q.pos
        → p.pos ≤ (if taken then q.pos + length (codes ",})") else q.pos)
    low true q p h = omega arith
    low false q p h = h

module _ {F : Type 0} where
  -- The recursive call reads a value, of one character at least, wherever it has the fuel.
  abbrev pub Reads : ℕ → Parser (Value F) → Type 0
  Reads n again = (q : LineParser) → Fueled n q → Runs (λ _. suc q.pos) q (again q)

  pub parse_nil-Runs :
      (p : LineParser) → p.pos ≤ length p.s → Runs (λ _. suc p.pos) p (parse_nil {F = F} p)
  unfolding parse_nil is_fuel
  parse_nil-Runs p h = elim (Bool-cases (has_prefix (drop p.pos p.s) (codes "nil"))) [
    | inr other ↦ rw other (Runs-err _ LpcError.invalid_nil p h refl)
    | inl same ↦ rw same (elim (Bool-cases (is_terminator (peek p 3))) [
      | inl ends ↦
          rw ends (Runs-advance _ nil p 3 (prefix_inside p (codes "nil") h same) (omega arith))
      | inr more ↦ rw more (Runs-err _ LpcError.invalid_nil p h refl)
    ])
  ]

  array_items-Runs :
      (n N : ℕ) (again : Parser (Value F)) (p : LineParser)
      → Reads N again
      → Fueled N p
      → Fueled n p
      → Runs (λ _. p.pos) p (array_items again n p)
  unfolding array_items is_fuel
  array_items-Runs zero N again p reads big small = absurd (omega arith)
  array_items-Runs (suc n) N again p reads big small =
      Runs-bind (wrap_error LpcError.in_array again) _
        (Runs-wrap_error LpcError.in_array again keep_in_array (reads p big))
        λ el q1 a1. Runs-bind skip_spaces _ (skip_spaces-Runs q1 a1.3) λ spaces q2 a2.
          Runs-bind (accept b',') _ (accept-Runs b',' q2 refl a2.3) λ comma q3 a3.
            Runs-if comma _ _
              (λ _. Runs-bind skip_spaces _ (skip_spaces-Runs q3 a3.3) λ more q4 a4.
                Runs-bind (match_prefix (codes "})")) _ (match_prefix-Runs _ q4 a4.3)
                  λ closed q5 a5.
                    Runs-if closed _ _ (λ _. Runs-ok _ _ q5 a5.3 (omega arith))
                      (λ _.
                        Runs-bind (array_items again n) _
                          (array_items-Runs n N again q5 reads (a5.3, omega arith)
                            (a5.3, omega arith))
                          λ rest q6 a6. Runs-ok _ _ q6 a6.3 (omega arith)))
              (λ _.
                Runs-bind (match_prefix (codes "})")) _ (match_prefix-Runs _ q3 a3.3)
                  λ closed q4 a4.
                    Runs-if closed _ _ (λ _. Runs-ok _ _ q4 a4.3 (omega arith))
                      (λ _. Runs-err _ LpcError.no_array_end q4 a4.3 refl))

  array_body-Runs :
      (n : ℕ) (again : Parser (Value F)) (size : ℤ) (p : LineParser)
      → Reads n again
      → Fueled n p
      → Runs (λ _. p.pos) p (array_body again n size p)
  unfolding array_body is_fuel
  array_body-Runs n again size p reads fuel =
      Runs-bind skip_spaces _ (skip_spaces-Runs p fuel.0) λ spaces q1 a1.
        Runs-bind empty_array _ (empty_array-Runs q1 a1.3) λ nothing q2 a2.
          Runs-if nothing _ _
            (λ _.
              Runs-if (eq_int size (pos 0)) _ _ (λ _. Runs-ok _ _ q2 a2.3 (omega arith))
                (λ _. Runs-err _ LpcError.array_not_empty q2 a2.3 refl))
            (λ _.
              Runs-bind (array_items again n) _
                (array_items-Runs n n again q2 reads (a2.3, omega arith) (a2.3, omega arith))
                λ elements q3 a3.
                  Runs-if (eq_int (pos (count_items elements)) size) _ _
                    (λ _. Runs-ok _ _ q3 a3.3 (omega arith))
                    (λ _. Runs-err _ LpcError.wrong_array_size q3 a3.3 refl))

  -- The opener is two bytes, so the elements have the fuel that is left.
  pub parse_array-Runs :
      (n : ℕ) (again : Parser (Value F)) (p : LineParser)
      → Reads n again
      → Fueled (suc n) p
      → Runs (λ _. suc p.pos) p (parse_array again n p)
  unfolding parse_array is_fuel
  parse_array-Runs n again p reads fuel =
      Runs-bind (match_prefix (codes "({")) _ (match_prefix-Runs (codes "({") p fuel.0) opened
    where
      inside :
          (q : LineParser)
          → length q.s ≡ length p.s
          → p.pos + 2 ≤ q.pos
          → q.pos ≤ length q.s
          → (size : ℤ)
          → Runs
              (λ _. suc p.pos)
              q
              ((accept b'|' >>= λ bar.
                  if not bar then fail LpcError.no_array_bar else array_body again n size)
                q)
      inside q same far h size = Runs-bind (accept b'|') _ (accept-Runs b'|' q refl h) λ bar q1 a1.
          Runs-if (not bar) _ _ (λ _. Runs-err _ LpcError.no_array_bar q1 a1.3 refl)
            (λ _.
              Runs-weaken _ (λ _. omega arith)
                (array_body-Runs n again size q1 reads (a1.3, omega arith)))

      opened :
          (b : Bool) (q : LineParser)
          → After (λ taken. if taken then p.pos + length (codes "({") else p.pos) p b q
          → Runs
              (λ _. suc p.pos)
              q
              ((if not b
                  then fail LpcError.no_array
                  else (wrap_error LpcError.in_array parse_count >>= λ size. accept b'|' >>= λ bar.
                      if not bar then fail LpcError.no_array_bar else array_body again n size))
                q)
      opened false q a = Runs-err _ LpcError.no_array q a.3 refl
      opened true q a =
          Runs-bind (wrap_error LpcError.in_array parse_count) _
            (Runs-wrap_error LpcError.in_array parse_count keep_in_array (parse_count-Runs q a.3))
            λ size q1 a1. inside q1 (omega arith) (omega arith) a1.3 size
