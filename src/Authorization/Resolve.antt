-- ===== src/Authorization/Resolve.antt =====
-- pkg/authorization/authorizer.go: resolveAccess and evalMap, the walk over the ordered maps.
-- Go keeps two parallel slices, `cur` and `dfls`; here they are one list of slots. A slice that
-- evalMap writes through its index is a slot that the model returns.
pub mod Bounds
pub mod Priority
pub mod Answers
use viking_ftpd.Prelude.{
  ℕ, suc, ◌-◌, Bool, not, ◌&&◌, ◌||◌, Option, none, some, List, [], ◌∷◌, ◌++◌, map, ◌==◌, leb,
  if◌then◌else◌, length, is_nil, Bytes, codes, equal, ℤ, pos, eq_int,
}
use viking_ftpd.Lpc.Value.{Float64, Value, mapping, Fields, get}
use viking_ftpd.Authorization.Permission.{Permission, revoked, read, grant_grant}
use viking_ftpd.Authorization.Tree.{perm_int, star_val, dot_val}

-- One map's descent state: the subtree reached, or `none` once the map is exhausted, and the
-- level carried down.
pub record Slot (F : Type 0) : Type 0 where
  pub tree : Option (Fields F)
  pub dfl : ℤ

abbrev pub is_zero : ℤ → Bool
is_zero x = eq_int x (pos 0)

-- `if j >= mapc { j = mapc - 1 }`
abbrev pub keep_last : ℕ → ℕ → ℕ
keep_last mapc j = if leb mapc j then mapc - 1 else j

module _ {F : Type 0} ⦃fl : Float64 F⦄ where
  -- the switch of evalMap on a branch
  unfoldable pub branch_level : Fields F → ℤ → Bool → ℤ
  branch_level sub dfl final =
      if is_zero dfl
      then star_val sub
      else if final
      then (let d = dot_val sub in if not (is_zero d) then d else dfl)
      else (let s = star_val sub in if not (is_zero s) then s else dfl)

  -- the type assertion on the value found, and what follows it
  unfoldable pub eval_found : Value F → ℤ → Bool → Slot F
  unfolding branch_level
  eval_found (mapping sub) dfl final = record { tree = some sub; dfl = branch_level sub dfl final }
  eval_found v dfl final = record { tree = none; dfl = perm_int v }

  unfoldable pub eval_node : Bytes → Fields F → ℤ → Bool → Slot F
  unfolding eval_found
  eval_node part m dfl final =
      let acc = if is_zero (star_val m) then dfl else star_val m in
      elim (get m part) [
        | none ↦ record { tree = none; dfl = acc }
        | some v ↦ eval_found v dfl final
      ]

  unfoldable pub eval_map : Bytes → Slot F → Bool → Slot F
  unfolding eval_node
  eval_map part s final = elim s.tree [
    | none ↦ record { tree = none; dfl = s.dfl }
    | some m ↦ eval_node part m s.dfl final
  ]

  -- The loop over the maps for one component: the slots after it, and `j`.
  unfoldable pub consult : Bytes → Bool → List (Slot F) → List (Slot F) × ℕ
  consult part final [] = ([], 0)
  consult part final (s ∷ rest) =
      let s' = eval_map part s final in
      let later = consult part final rest in
      if not (is_zero s'.dfl) then (s' ∷ rest, 0) else (s' ∷ later.0, suc later.1)

  -- the loop over the components
  unfoldable pub walk : List Bytes → List (Slot F) → ℕ → List (Slot F) × ℕ
  walk [] slots j = (slots, j)
  walk (part ∷ parts) slots j =
      let after = consult part (is_nil parts) slots in
      walk parts after.0 (keep_last (length slots) after.1)

  -- accessMap[name].(map[string]interface{}), appended if it is one
  abbrev pub as_map : Option (Value F) → List (Fields F)
  as_map (some (mapping m)) = m ∷ []
  as_map _ = []

  unfoldable pub map_named : Fields F → Bytes → List (Fields F)
  map_named am name = as_map (get am name)

  unfoldable pub group_maps : Fields F → List Bytes → List (Fields F)
  group_maps am [] = []
  group_maps am (g ∷ gs) = map_named am g ++ group_maps am gs

  unfoldable pub collect_maps : Fields F → Bytes → List Bytes → List (Fields F)
  collect_maps am user groups =
      map_named am user ++ (group_maps am groups ++ map_named am (codes "*"))

  abbrev pub start_slot : Fields F → Slot F
  start_slot m = record { tree = some m; dfl = star_val m }

  -- dfls[j]
  abbrev pub level_at : List (Slot F) → ℕ → ℤ
  level_at [] j = pos 0
  level_at (s ∷ rest) ℕ.zero = s.dfl
  level_at (s ∷ rest) (suc j) = level_at rest j

-- The ruled access: own directory, and "open" directories, unless map 0 decided.
unfoldable pub ruled_access : Bytes → List Bytes → Bool → Option Permission
ruled_access user (root ∷ owner ∷ rest) applies =
    if (equal root (codes "d") || equal root (codes "players")) && applies
    then (if equal owner user then some grant_grant else elim rest [
      | third ∷ _ ↦ (if equal third (codes "open") then some read else none)
      | [] ↦ none
    ])
    else none
ruled_access user _ applies = none

module _ {F : Type 0} ⦃fl : Float64 F⦄ where
  -- what follows the loops, on the slots and the index that they end with
  unfoldable pub conclude : Bytes → List Bytes → ℕ → List (Slot F) × ℕ → Permission
  unfolding ruled_access
  conclude user parts mapc end =
      let applies = not (end.1 == 0) || mapc == 1 in
      elim (ruled_access user parts applies) [ some p ↦ p | none ↦ level_at end.0 end.1 ]

  -- what follows the collection of the maps, on the slots that they start as
  unfoldable pub resolve_slots : Bytes → List Bytes → List (Slot F) → Permission
  unfolding conclude
  resolve_slots user parts slots = conclude user parts (length slots) (walk parts slots 0)

  unfoldable pub resolve_access : Fields F → Bytes → List Bytes → List Bytes → Permission
  unfolding resolve_slots
  resolve_access am user groups parts =
      let maps = collect_maps am user groups in
      if is_nil maps then revoked else resolve_slots user parts (map start_slot maps)
