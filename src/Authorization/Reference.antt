-- ===== src/Authorization/Reference.antt =====
-- resources/access.c: eval_map and the evaluation loop of _get_access, the resolver of the MUD that
-- pkg/authorization ports. `none` is a run-time error of the MUD: an operation on a value of the
-- wrong type, or an index out of range. An absent key reads as 0.
pub mod Agrees
pub mod Loop
use viking_ftpd.Prelude.{
  ℕ, zero, suc, Bool, not, ◌&&◌, ◌||◌, Option, none, some, List, [], ◌∷◌, ◌==◌, if◌then◌else◌,
  length, is_nil, Bytes, codes, equal, ℤ, pos,
}
use viking_ftpd.Lpc.Value.{Value, nil, int, mapping, Fields, get}
use viking_ftpd.Authorization.Permission.{Permission}
use viking_ftpd.Authorization.Resolve.{Slot, is_zero, ruled_access}

-- a run-time error ends the evaluation
infixl 5 ◌>>=◌
abbrev pub ◌>>=◌ : {A B : Type 0} → Option A → (A → Option B) → Option B
some x >>= next = next x
none >>= next = none

module _ {F : Type 0} where
  -- an element of a mapping, used as a number
  unfoldable pub number_at : Option (Value F) → Option ℤ
  number_at none = some (pos 0)
  number_at (some (int p)) = some p
  number_at (some _) = none

  -- the inner ladder of eval_map, where the element `v` is a mapping
  unfoldable pub branch_acc : Fields F → ℤ → Bool → Option ℤ
  branch_acc v dfl final =
      if is_zero dfl
      then number_at (get v (codes "*"))
      else if final
      then (do
        acc2 ← number_at (get v (codes "."))
        some (if not (is_zero acc2) then acc2 else dfl))
      else (do
        acc2 ← number_at (get v (codes "*"))
        some (if not (is_zero acc2) then acc2 else dfl))

  -- `if (v = map[part])`, with `acc` set from the node's "*" or the default
  unfoldable pub element : Option (Value F) → ℤ → ℤ → Bool → Option (Slot F)
  unfolding branch_acc
  element none acc dfl final = some (record { tree = none; dfl = acc })
  element (some (int v)) acc dfl final =
      some (record { tree = none; dfl = if is_zero v then acc else v })
  element (some (mapping v)) acc dfl final = do
    level ← branch_acc v dfl final
    some (record { tree = some v; dfl = level })
  element (some _) acc dfl final = none

  unfoldable pub eval_map : Bytes → Slot F → Bool → Option (Slot F)
  unfolding element
  eval_map part s final = elim s.tree [
    | none ↦ some (record { tree = none; dfl = s.dfl })
    | some m ↦ do
      star ← number_at (get m (codes "*"))
      element (get m part) (if is_zero star then s.dfl else star) s.dfl final
  ]

  -- the inner loop of _get_access
  unfoldable pub consult : Bytes → Bool → List (Slot F) → Option (List (Slot F) × ℕ)
  consult part final [] = some ([], 0)
  consult part final (s ∷ rest) =
      let later = consult part final rest in
      eval_map part s final >>= λ s'.
      if not (is_zero s'.dfl)
      then some (s' ∷ rest, 0)
      else (later >>= λ after. some (s' ∷ after.0, suc after.1))

  -- the outer loop
  unfoldable pub walk : List Bytes → List (Slot F) → ℕ → Option (List (Slot F) × ℕ)
  walk [] slots j = some (slots, j)
  walk (part ∷ parts) slots j = do
    after ← consult part (is_nil parts) slots
    walk parts after.0 after.1

  -- dfls[j]
  abbrev pub level_at? : List (Slot F) → ℕ → Option ℤ
  level_at? [] j = none
  level_at? (s ∷ rest) zero = some s.dfl
  level_at? (s ∷ rest) (suc j) = level_at? rest j

  -- what follows the loops; the ruled access is the same test as in Go
  unfoldable pub conclude : Bytes → List Bytes → ℕ → List (Slot F) × ℕ → Option Permission
  conclude user parts mapc end = elim (ruled_access user parts (not (end.1 == 0) || mapc == 1)) [
    | some p ↦ some p
    | none ↦ level_at? end.0 end.1
  ]

  -- _get_access from the evaluation loop on
  unfoldable pub get_access : Bytes → List Bytes → List (Slot F) → Option Permission
  get_access user parts slots = walk parts slots 0 >>= λ end. conclude user parts (length slots) end
