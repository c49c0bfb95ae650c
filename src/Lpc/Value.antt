-- ===== src/Lpc/Value.antt =====
-- The values that pkg/lpc/oparser.go produces: Go's interface{} with the dynamic types that the
-- program switches on. A map[string]interface{} is an association list in order of insertion.
use viking_ftpd.Prelude.{
  Option, none, some, ◌≡◌, refl, arith, if◌then◌else◌, Bytes, equal, equal_iff, ℤ,
}

-- What the program uses of float64, which is carried by `F`: strconv.ParseFloat(_, 64),
-- strconv.FormatFloat(_, 'f', -1, 64) and the conversion int(_).
pub record Float64 (F : Type 0) : Type 0 where
  pub parse_float : Bytes → Option F
  pub format_float : F → Bytes
  pub truncate : F → ℤ

-- `permission` is the Go type authorization.Permission, which the access code also accepts inside
-- a tree; the parser never produces it.
mutual
  pub data Value (F : Type 0) : Type 0 where
    nil : Value F
    int : ℤ → Value F
    float : F → Value F
    str : Bytes → Value F
    permission : ℤ → Value F
    array : Items F → Value F
    mapping : Fields F → Value F

  pub data Items (F : Type 0) : Type 0 where
    end : Items F
    item : Value F → Items F → Items F

  pub data Fields (F : Type 0) : Type 0 where
    empty : Fields F
    field : Bytes → Value F → Fields F → Fields F

module _ {F : Type 0} where
  -- m[k], with the comma-ok form's missing key as `none`
  unfoldable pub get : Fields F → Bytes → Option (Value F)
  get empty k = none
  get (field j v m) k = if equal j k then some v else get m k

  -- m[k] = v
  unfoldable pub put : Fields F → Bytes → Value F → Fields F
  put empty k v = field k v empty
  put (field j w m) k v = if equal j k then field j v m else field j w (put m k v)

  pub get-put :
      (m : Fields F) (k j : Bytes) (v : Value F)
      → get (put m k v) j ≡ (if equal k j then some v else get m j)
  unfolding get put
  get-put empty k j v = refl
  get-put (field i w m) k j v =
      ground (arith, equal_iff i k, equal_iff i j, equal_iff k j, get-put m k j v)
