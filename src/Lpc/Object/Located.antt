-- ===== src/Lpc/Object/Located.antt =====
-- The positions in the errors of ParseObject in pkg/lpc/oparser.go.
use viking_ftpd.Prelude.{
  ℕ, ◌+◌, ◌<◌, ◌≤◌, ◌≡◌, refl, arith, ◌&&◌, not, Bool, true, false, List, [], ◌∷◌, ◌++◌, is_nil,
  Bytes, Bool-cases, inl, inr, length, drop, get_or, drop-cons, All, suc,
}
use viking_ftpd.Lpc.Value.{Float64, Value}
use viking_ftpd.Lpc.Cursor.{LineParser, Result, ok, err}
use viking_ftpd.Lpc.Parser.{parse_line}
use viking_ftpd.Lpc.Progress.{is_fuel, Runs}
use viking_ftpd.Lpc.Progress.Lines.{parse_line-Runs}
use viking_ftpd.Paths.{split}
use viking_ftpd.Lpc.Object.{
  ParseError, ParseResult, Outcome, parsed, failed, at, ◌>>=◌, is_skipped, collect, take_line,
  take_lines, conclude, parse_object, is_empty,
}

-- The error points into one of `lines`: at a character of it or just behind its last one; and it is an
-- error of the source.
pub record IsLocated (lines : List Bytes) (e : ParseError) : Type 0 where
  pub index : ℕ
  pub line_is : e.line ≡ index + 1
  pub line_exists : index < length lines
  pub column_pos : 1 ≤ e.column
  pub column_le : e.column ≤ length (get_or lines index []) + 1
  pub of_source : is_fuel e.reason ≡ false

All-concat :
    (lines : List Bytes) (es : List ParseError) (e : ParseError)
    → All (IsLocated lines) es
    → IsLocated lines e
    → All (IsLocated lines) (es ++ e ∷ [])
All-concat lines [] e h k = (k, tt)
All-concat lines (x ∷ es) e h k = (h.0, All-concat lines es e h.1 k)

module _ {F : Type 0} where
  -- Every error of the outcome is located in `lines`.
  abbrev pub AreLocated : List Bytes → Outcome (ParseResult F) → Type 0
  AreLocated lines (parsed r) = All (IsLocated lines) r.errors
  AreLocated lines (failed (at e)) = IsLocated lines e
  AreLocated lines (failed _) = Unit

module _ {F : Type 0} ⦃fl : Float64 F⦄ (lines : List Bytes) where
  collect-AreLocated :
      (strict : Bool) (n : ℕ) (r : Result (Bytes × Value F) × LineParser) (acc : ParseResult F)
      → n < length lines
      → Runs (λ _. 0) (record { s = get_or lines n []; pos = 0 }) r
      → All (IsLocated lines) acc.errors
      → AreLocated lines (collect strict n r acc)
  unfolding collect
  collect-AreLocated strict n (ok entry, p) acc h run es = es
  collect-AreLocated true n (err e, p) acc h run es = record {
    index = n;
    line_is = refl;
    line_exists = h;
    column_pos = omega arith;
    column_le = omega (arith, run.inside);
    of_source = run.ends;
  }
  collect-AreLocated false n (err e, p) acc h run es = All-concat lines acc.errors _ es (record {
    index = n;
    line_is = refl;
    line_exists = h;
    column_pos = omega arith;
    column_le = omega (arith, run.inside);
    of_source = run.ends;
  })

  take_lines-AreLocated :
      (strict : Bool) (n : ℕ) (rest : List Bytes) (acc : ParseResult F)
      → drop n lines ≡ rest
      → All (IsLocated lines) acc.errors
      → AreLocated lines (take_lines strict n rest acc)
  unfolding take_lines take_line
  take_lines-AreLocated strict n [] acc d es = es
  take_lines-AreLocated strict n (line ∷ rest) acc d es = elim (Bool-cases (is_skipped line)) [
    | inl skip ↦ rw skip (take_lines-AreLocated strict (suc n) rest acc behind.2 es)
    | inr read ↦ rw read (
        go (collect strict n _ acc) (collect-AreLocated strict n _ acc behind.0 run es)
          (λ acc'. take_lines-AreLocated strict (suc n) rest acc' behind.2))
  ]
    where
      behind : (n < length lines) × (get_or lines n [] ≡ line) × (drop (suc n) lines ≡ rest)
      behind = drop-cons n lines [] d

      run :
          Runs
            (λ _. 0)
            (record { s = get_or lines n []; pos = 0 })
            (parse_line {F = F} (record { s = line; pos = 0 }))
      run = rw behind.1 (parse_line-Runs (record { s = line; pos = 0 }) (omega arith))

      go :
          (o : Outcome (ParseResult F))
          → AreLocated lines o
          → ((acc' : ParseResult F)
              → All (IsLocated lines) acc'.errors
              → AreLocated lines (take_lines strict (suc n) rest acc'))
          → AreLocated lines (o >>= λ acc'. take_lines strict (suc n) rest acc')
      go (parsed acc') h k = k acc' h
      go (failed e) h k = h

module _ (F : Type 0) ⦃fl : Float64 F⦄ where
  conclude-AreLocated :
      (lines : List Bytes) (o : Outcome (ParseResult F))
      → AreLocated lines o
      → AreLocated lines (o >>= conclude)
  unfolding conclude
  conclude-AreLocated lines (parsed r) h =
      elim (Bool-cases (is_empty r.object && not (is_nil r.errors))) [
        | inl nothing ↦ rw nothing tt
        | inr some ↦ rw some h
      ]
  conclude-AreLocated lines (failed e) h = h

  -- In both modes, every error that ParseObject reports names a line of the input, counted from 1,
  -- and a column from 1 to one past the end of that line; and it is an error of the source.
  pub parse_object-AreLocated :
      (strict : Bool) (input : Bytes)
      → AreLocated (split b'\n' input) (parse_object {F = F} strict input)
  unfolding parse_object
  parse_object-AreLocated strict input = elim (Bool-cases (is_nil input)) [
    | inl nothing ↦ rw nothing tt
    | inr some ↦ rw some (
        conclude-AreLocated (split b'\n' input) _
          (take_lines-AreLocated (split b'\n' input) strict 0 (split b'\n' input) _ refl tt))
  ]
