-- ===== src/Authorization/Resolve/Bounds.antt =====
-- pkg/authorization/authorizer.go: the index with which resolveAccess reads `dfls`.
use viking_ftpd.Prelude.{ℕ, ◌<◌, ◌≡◌, refl, arith, Bool, List, [], ◌∷◌, length, is_nil, Bytes}
use viking_ftpd.Lpc.Value.{Float64}
use viking_ftpd.Authorization.Resolve.{Slot, consult, keep_last, walk}

keep_last-lt : (mapc j : ℕ) → 0 < mapc → keep_last mapc j < mapc
keep_last-lt mapc j h = ground arith

module _ {F : Type 0} ⦃fl : Float64 F⦄ where
  pub length-consult :
      (part : Bytes) (final : Bool) (slots : List (Slot F))
      → length (consult part final slots).0 ≡ length slots
  unfolding consult
  length-consult part final [] = refl
  length-consult part final (s ∷ rest) = ground (arith, length-consult part final rest)

  -- Over a list of maps that is not empty, the walk keeps their number, and the index that it ends
  -- with is below it.
  pub walk_bounds :
      (parts : List Bytes) (slots : List (Slot F)) (j : ℕ)
      → j < length slots
      → (length (walk parts slots j).0 ≡ length slots) × ((walk parts slots j).1 < length slots)
  unfolding walk
  walk_bounds [] slots j h = (refl, h)
  walk_bounds (part ∷ parts) slots j h =
      let after = consult part (is_nil parts) slots in
      let same : length after.0 ≡ length slots = length-consult part (is_nil parts) slots in
      let index : keep_last (length slots) after.1 < length slots =
        keep_last-lt (length slots) after.1 (omega arith) in
      let later = walk_bounds parts after.0 (keep_last (length slots) after.1) (omega arith) in
      (omega (arith, later.0), omega (arith, later.1))
