-- ===== src/Lpc/Object/Modes.antt =====
-- The strict mode of ParseObject in pkg/lpc/oparser.go, against the mode that collects errors.
use mathlib.Core.List.{concat-ne-nil}
use viking_ftpd.Prelude.{
  ℕ, suc, ◌↔◌, ◌+◌, ◌≡◌, refl, ◌∙◌, ap, arith, true, false, List, [], ◌∷◌, ◌++◌, is_nil, Bytes,
  Bool-cases, inl, inr,
}
use viking_ftpd.Lpc.Value.{Float64, Value, empty}
use viking_ftpd.Lpc.Cursor.{LineParser, Result, ok, err}
use viking_ftpd.Paths.{split}
use viking_ftpd.Lpc.Object.{
  ParseResult, Outcome, parsed, failed, ◌>>=◌, is_skipped, collect, take_line, take_lines, conclude,
  parse_object,
}

>>=-parsed {ℓ κ} :
    {A : Type ℓ} {B : Type κ} (m : Outcome A) (f : A → Outcome B) {b : B}
    → (m >>= f) ≡ parsed b
    → (a : A) × (m ≡ parsed a) × (f a ≡ parsed b)
>>=-parsed (parsed a) f h = (a, refl, h)
>>=-parsed (failed e) f h = cc

module _ {F : Type 0} ⦃fl : Float64 F⦄ where
  -- A strict step that goes on is a lenient step, and adds no error.
  collect-strict :
      (n : ℕ) (r : Result (Bytes × Value F) × LineParser) (acc : ParseResult F)
      {out : ParseResult F}
      → collect true n r acc ≡ parsed out
      → (collect false n r acc ≡ parsed out) × (out.errors ≡ acc.errors)
  unfolding collect
  collect-strict n (ok entry, p) acc h = (h, ground arith)
  collect-strict n (err e, p) acc h = absurd (cc)

  take_line-strict :
      (n : ℕ) (line : Bytes) (acc : ParseResult F) {out : ParseResult F}
      → take_line true n line acc ≡ parsed out
      → (take_line false n line acc ≡ parsed out) × (out.errors ≡ acc.errors)
  unfolding take_line
  take_line-strict n line acc h = elim (Bool-cases (is_skipped line)) [
    | inl skip ↦ rw skip (rw skip at h, ground arith)
    | inr read ↦ rw read (collect-strict n _ acc (rw read at h))
  ]

  take_lines-strict :
      (n : ℕ) (lines : List Bytes) (acc : ParseResult F) {out : ParseResult F}
      → take_lines true n lines acc ≡ parsed out
      → (take_lines false n lines acc ≡ parsed out) × (out.errors ≡ acc.errors)
  unfolding take_lines
  take_lines-strict n [] acc h = (h, ground arith)
  take_lines-strict n (line ∷ lines) acc h =
      let (acc', one, rest) = >>=-parsed (take_line true n line acc) _ h in
      let (one', same) = take_line-strict n line acc one in
      let (rest', same') = take_lines-strict (suc n) lines acc' rest in
      (rw one' rest', same' ∙ same)

  -- A lenient step that ends without errors is a strict step, from a state without errors.
  collect-lenient :
      (n : ℕ) (r : Result (Bytes × Value F) × LineParser) (acc : ParseResult F)
      {out : ParseResult F}
      → collect false n r acc ≡ parsed out
      → out.errors ≡ []
      → (collect true n r acc ≡ parsed out) × (acc.errors ≡ [])
  unfolding collect
  collect-lenient n (ok entry, p) acc h none = (h, ground arith)
  collect-lenient n (err e, p) acc {out} h none =
      let added : acc.errors ++ record { line = n + 1; column = p.pos + 1; reason = e } ∷ []
          ≡ out.errors =
        ground arith in
      absurd (concat-ne-nil _ acc.errors (added ∙ none))

  take_line-lenient :
      (n : ℕ) (line : Bytes) (acc : ParseResult F) {out : ParseResult F}
      → take_line false n line acc ≡ parsed out
      → out.errors ≡ []
      → (take_line true n line acc ≡ parsed out) × (acc.errors ≡ [])
  unfolding take_line
  take_line-lenient n line acc h none = elim (Bool-cases (is_skipped line)) [
    | inl skip ↦ rw skip (rw skip at h, ground arith)
    | inr read ↦ rw read (collect-lenient n _ acc (rw read at h) none)
  ]

  take_lines-lenient :
      (n : ℕ) (lines : List Bytes) (acc : ParseResult F) {out : ParseResult F}
      → take_lines false n lines acc ≡ parsed out
      → out.errors ≡ []
      → (take_lines true n lines acc ≡ parsed out) × (acc.errors ≡ [])
  unfolding take_lines
  take_lines-lenient n [] acc h none = (h, ground arith)
  take_lines-lenient n (line ∷ lines) acc h none =
      let (acc', one, rest) = >>=-parsed (take_line false n line acc) _ h in
      let (rest', none') = take_lines-lenient (suc n) lines acc' rest none in
      let (one', none'') = take_line-lenient n line acc one none' in (rw one' rest', none'')

  conclude-eq : (r : ParseResult F) {out : ParseResult F} → conclude r ≡ parsed out → r ≡ out
  unfolding conclude
  conclude-eq r h = ground arith

  -- ParseObject in strict mode returns a result exactly if the mode that collects errors returns
  -- the same result with no error collected.
  pub parse_object-modes :
      (input : Bytes) (out : ParseResult F)
      → (parse_object true input ≡ parsed out)
        ↔ ((parse_object false input ≡ parsed out) × (out.errors ≡ []))
  unfolding parse_object
  parse_object-modes input out = elim (Bool-cases (is_nil input)) [
    | inl nothing ↦ rw nothing (λ h. absurd (cc), λ h. absurd (let x = h.0 in cc))
    | inr some ↦ rw some (strict, lenient)
  ]
    where
      start : ParseResult F
      start = record { object = empty; errors = [] }

      strict :
          (take_lines true 0 (split b'\n' input) start >>= conclude) ≡ parsed out
          → ((take_lines false 0 (split b'\n' input) start >>= conclude) ≡ parsed out)
            × (out.errors ≡ [])
      strict h =
          let (r, lines, last) =
            >>=-parsed (take_lines true 0 (split b'\n' input) start) conclude h in
          let (lines', none) = take_lines-strict 0 (split b'\n' input) start lines in
          (rw lines' last, rw (conclude-eq r last) at none)

      lenient :
          ((take_lines false 0 (split b'\n' input) start >>= conclude) ≡ parsed out)
            × (out.errors ≡ [])
          → (take_lines true 0 (split b'\n' input) start >>= conclude) ≡ parsed out
      lenient (h, none) =
          let (r, lines, last) =
            >>=-parsed (take_lines false 0 (split b'\n' input) start) conclude h in
          let same = conclude-eq r last in
          let (lines', _) =
            take_lines-lenient 0 (split b'\n' input) start lines (ap (λ r. r.errors) same ∙ none) in
          rw lines' last
