-- ===== src/Lpc/Object.antt =====
-- pkg/lpc/oparser.go: ObjectParser.ParseObject, over the lines of an object. The deferred recover is
-- not modelled.
pub mod Modes
pub mod Located
use viking_ftpd.Prelude.{
  ℕ, suc, ◌+◌, Bool, true, false, ◌&&◌, ◌||◌, not, List, [], ◌∷◌, ◌++◌, ◌==◌, if◌then◌else◌, is_nil,
  Bytes,
}
use viking_ftpd.Lpc.Value.{Float64, Value, Fields, empty, field, put}
use viking_ftpd.Lpc.Cursor.{LineParser, LpcError, Result, ok, err}
use viking_ftpd.Lpc.Parser.{parse_line}
use viking_ftpd.Paths.{split}

pub record ParseError : Type 0 where
  pub line : ℕ
  pub column : ℕ
  pub reason : LpcError

pub record ParseResult (F : Type 0) : Type 0 where
  pub object : Fields F
  pub errors : List ParseError

-- the errors of ParseObject: one located error in strict mode, or none of the lines was usable
pub data ObjectError : Type 0 where
  empty_input no_valid_entries : ObjectError
  at : ParseError → ObjectError

pub data Outcome {ℓ} (A : Type ℓ) : Type ℓ where
  parsed : A → Outcome A
  failed : ObjectError → Outcome A

module _ {ℓ κ} {A : Type ℓ} {B : Type κ} where
  infixl 5 ◌>>=◌
  abbrev pub ◌>>=◌ : Outcome A → (A → Outcome B) → Outcome B
  parsed a >>= f = f a
  failed e >>= f = failed e

-- a line that the loop passes over
abbrev pub is_skipped : Bytes → Bool
is_skipped [] = true
is_skipped (c ∷ _) = c == b'#'

abbrev pub is_empty : {F : Type 0} → Fields F → Bool
is_empty empty = true
is_empty (field _ _ _) = false

module _ {F : Type 0} ⦃fl : Float64 F⦄ where
  -- what the loop does with the answer of parseLine for line `n`, counted from 0
  unfoldable pub collect :
      Bool → ℕ → Result (Bytes × Value F) × LineParser → ParseResult F → Outcome (ParseResult F)
  collect strict n (ok entry, p) acc =
      parsed (record acc { object = put acc.object entry.0 entry.1 })
  collect strict n (err e, p) acc =
      let pe : ParseError = record { line = n + 1; column = p.pos + 1; reason = e } in
      if strict then failed (at pe) else parsed (record acc { errors = acc.errors ++ pe ∷ [] })

  unfoldable pub take_line : Bool → ℕ → Bytes → ParseResult F → Outcome (ParseResult F)
  unfolding collect
  take_line strict n line acc =
      if is_skipped line
      then parsed acc
      else collect strict n (parse_line (record { s = line; pos = 0 })) acc

  -- the loop over the lines, from number `n` on
  unfoldable pub take_lines : Bool → ℕ → List Bytes → ParseResult F → Outcome (ParseResult F)
  unfolding take_line
  take_lines strict n [] acc = parsed acc
  take_lines strict n (line ∷ lines) acc =
      take_line strict n line acc >>= λ acc'. take_lines strict (suc n) lines acc'

  -- the last test
  unfoldable pub conclude : ParseResult F → Outcome (ParseResult F)
  conclude r =
      if is_empty r.object && not (is_nil r.errors) then failed no_valid_entries else parsed r

  unfoldable pub parse_object : Bool → Bytes → Outcome (ParseResult F)
  unfolding take_lines conclude
  parse_object strict input =
      if is_nil input
      then failed empty_input
      else take_lines strict 0 (split b'\n' input) (record { object = empty; errors = [] })
        >>= conclude
