-- ===== src/Authorization/Tree.antt =====
-- The raw access tree: pkg/authorization/access_tree_builder.go, and the readers of one node at
-- the end of pkg/authorization/authorizer.go.
pub mod Valid
use viking_ftpd.Prelude.{not, Option, none, some, if◌then◌else◌, Bytes, codes, equal, ℤ, pos}
use viking_ftpd.Lpc.Value.{
  Float64, Value, int, float, str, permission, array, mapping, Items, end, item, Fields, empty,
  field, get,
}
use viking_ftpd.Authorization.Permission.{Permission, is_valid}

-- The errors of the builder, one for each message.
pub data TreeError : Type 0 where
  no_access_map unexpected_list bad_group_name bad_format out_of_range : TreeError

pub data Checked {ℓ} (A : Type ℓ) : Type ℓ where
  ok : A → Checked A
  err : TreeError → Checked A

-- `if err != nil { return err }`
infixl 5 ◌>>=◌ ◌>>◌
abbrev pub ◌>>=◌ : {A B : Type 0} → Checked A → (A → Checked B) → Checked B
err e >>= next = err e
ok x >>= next = next x

abbrev pub ◌>>◌ : {B : Type 0} → Checked (Unit {0}) → Checked B → Checked B
checked >> next = checked >>= λ _. next

-- the test behind parsePermission's switch
check_range : Permission → Checked Permission
unfolding is_valid
check_range p = if not (is_valid p) then err TreeError.out_of_range else ok p

module _ {F : Type 0} where
  -- the loop over a "?" list
  unfoldable pub check_groups : Items F → Checked (Unit {0})
  check_groups end = ok tt
  check_groups (item (str g) gs) = check_groups gs
  check_groups (item _ gs) = err TreeError.bad_group_name

module _ {F : Type 0} ⦃fl : Float64 F⦄ where
  unfoldable pub perm_int : Value F → ℤ
  perm_int (int x) = x
  perm_int (float x) = fl.truncate x
  perm_int (permission x) = x
  perm_int _ = pos 0

  -- permInt(m[k]): a missing key reads as nil.
  abbrev pub perm_at : Option (Value F) → ℤ
  perm_at none = pos 0
  perm_at (some v) = perm_int v

  unfoldable pub star_val : Fields F → ℤ
  star_val m = perm_at (get m (codes "*"))

  unfoldable pub dot_val : Fields F → ℤ
  dot_val m = perm_at (get m (codes "."))

  unfoldable pub parse_permission : Value F → Checked Permission
  unfolding check_range
  parse_permission (float v) = check_range (fl.truncate v)
  parse_permission (int v) = check_range v
  parse_permission (permission v) = check_range v
  parse_permission _ = err TreeError.bad_format

  -- the default case of validateNode's switch
  unfoldable pub check_leaf : Value F → Checked (Unit {0})
  unfolding parse_permission
  check_leaf v = do p ← parse_permission v; ok tt

  -- `validate_value` is the body of validateNode's loop, `validate_node` the loop.
  unfoldable mutual
    unfolding check_leaf check_groups

    pub validate_value : Bytes → Value F → Checked (Unit {0})
    validate_value key (mapping v) = validate_node v
    validate_value key (array v) =
        if not (equal key (codes "?")) then err TreeError.unexpected_list else check_groups v
    validate_value key v = check_leaf v

    pub validate_node : Fields F → Checked (Unit {0})
    validate_node empty = ok tt
    validate_node (field key v rest) = validate_value key v >> validate_node rest

  -- raw["access_map"].(map[string]interface{}), validated
  abbrev pub validated : Option (Value F) → Checked (Fields F)
  validated (some (mapping m)) = validate_node m >> ok m
  validated _ = err TreeError.no_access_map

  unfoldable pub load_access_map : Fields F → Checked (Fields F)
  load_access_map raw = validated (get raw (codes "access_map"))
