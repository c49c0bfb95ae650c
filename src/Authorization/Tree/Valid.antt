-- ===== src/Authorization/Tree/Valid.antt =====
-- The trees that validateNode of pkg/authorization/access_tree_builder.go accepts. They are more than
-- those of docs/viking_access_tree.md: "?" may hold a level or a subtree, "*" and "." a subtree, and a
-- level may be a number with a fraction.
use mathlib.Core.Path.{subst₂}
use viking_ftpd.Prelude.{
  ◌≤◌, ◌≡◌, refl, arith, true, some, inl, inr, ◌↔◌, Bytes, codes, equal, equal_iff, ℤ, pos, negsuc,
  if◌then◌else◌, not, Bool-cases,
}
use viking_ftpd.Lpc.Value.{
  Float64, Value, nil, int, float, str, permission, array, mapping, Items, end, item, Fields, empty,
  field, get,
}
use viking_ftpd.Authorization.Permission.{is_valid}
use viking_ftpd.Authorization.Tree.{
  Checked, ok, err, TreeError, check_range, check_leaf, check_groups, validate_value, validate_node,
  ◌>>◌, ◌>>=◌,
}

-- REVOKED, or READ to GRANT_GRANT
abbrev pub IsLevel : ℤ → Type 0
IsLevel (pos n) = (1 ≤ n) × (n ≤ 5)
IsLevel (negsuc n) = n ≡ 0

module _ {F : Type 0} where
  -- a list of group names
  abbrev pub AreNames : Items F → Type 0
  AreNames end = Unit
  AreNames (item (str g) gs) = AreNames gs
  AreNames (item _ gs) = ⊥

  -- A tree whose leaves satisfy `P`: below a node stand nodes, leaves, and lists of group names
  -- under the key "?".
  unfoldable mutual
    pub ValueIsTree : (Value F → Type 0) → Bytes → Value F → Type 0
    ValueIsTree P key (mapping m) = IsTree P m
    ValueIsTree P key (array names) = (key ≡ codes "?") × AreNames names
    ValueIsTree P key v = P v

    pub IsTree : (Value F → Type 0) → Fields F → Type 0
    IsTree P empty = Unit
    IsTree P (field key v rest) = ValueIsTree P key v × IsTree P rest

  pub ValueIsTree-get :
      (P : Value F → Type 0) (m : Fields F) (k : Bytes) {v : Value F}
      → IsTree P m
      → get m k ≡ some v
      → ValueIsTree P k v
  unfolding get IsTree
  ValueIsTree-get P empty k t e = absurd (cc)
  ValueIsTree-get P (field j w m) k {v} t e = elim (Bool-cases (equal j k)) [
    | inl same ↦
        let value : w ≡ v = ground arith in
        subst₂ (ValueIsTree P) ((equal_iff j k).0 same) value t.0
    | inr other ↦ ValueIsTree-get P m k t.1 (rw other at e)
  ]

module _ {F : Type 0} ⦃fl : Float64 F⦄ where
  -- A leaf that Go reads as a level: a number of any of the three types.
  abbrev pub IsLeaf : Value F → Type 0
  IsLeaf (int p) = IsLevel p
  IsLeaf (float x) = IsLevel (fl.truncate x)
  IsLeaf (permission p) = IsLevel p
  IsLeaf _ = ⊥

  -- A leaf of the MUD's own tree.
  abbrev pub IsIntLeaf : Value F → Type 0
  IsIntLeaf (int p) = IsLevel p
  IsIntLeaf _ = ⊥

pub is_valid_iff : (p : ℤ) → (is_valid p ≡ true) ↔ IsLevel p
unfolding is_valid
is_valid_iff (pos n) = ground arith
is_valid_iff (negsuc n) = ground arith

-- A level that passes the range test of parsePermission is a defined one, and the other way round.
check_range-IsLevel : (p : ℤ) → check_range p ≡ ok p → IsLevel p
unfolding check_range
check_range-IsLevel p h = (is_valid_iff p).0 (ground arith)

>>-iff :
    (a b : Checked (Unit {0})) {A B : Type 0}
    → ((a ≡ ok tt) ↔ A)
    → ((b ≡ ok tt) ↔ B)
    → ((a >> b) ≡ ok tt) ↔ (A × B)
>>-iff (ok u) b f g = (λ h. (f.0 refl, g.0 h), λ h. g.1 h.1)
>>-iff (err e) b f g = (λ h. absurd (cc), λ h. absurd (let x = f.1 h.0 in cc))

check_range-bind : (p : ℤ) → ((check_range p >>= λ _. ok (tt {0})) ≡ ok tt) ↔ IsLevel p
unfolding check_range
check_range-bind p = (λ h. (is_valid_iff p).0 (ground arith), λ l. rw ((is_valid_iff p).1 l) refl)

module _ {F : Type 0} where
  check_groups_iff : (gs : Items F) → (check_groups gs ≡ ok tt) ↔ AreNames gs
  unfolding check_groups
  check_groups_iff end = (λ _. tt, λ _. refl)
  check_groups_iff (item (str g) gs) = check_groups_iff gs
  check_groups_iff (item _ gs) = (λ h. absurd (cc), λ h. absurd h)

  list_iff :
      (key : Bytes) (v : Items F)
      → ((if not (equal key (codes "?")) then err TreeError.unexpected_list else check_groups v)
          ≡ ok tt)
        ↔ ((key ≡ codes "?") × AreNames v)
  list_iff key v = elim (Bool-cases (equal key (codes "?"))) [
    | inl same ↦
        rw same (
          λ h. ((equal_iff key _).0 same, (check_groups_iff v).0 h),
          λ h. (check_groups_iff v).1 h.1,
        )
    | inr other ↦ rw other (λ h. absurd (cc), λ h. absurd (let x = (equal_iff key _).1 h.0 in cc))
  ]

module _ {F : Type 0} ⦃fl : Float64 F⦄ where
  mutual
    unfolding validate_node IsTree check_leaf

    validate_value_iff :
        (key : Bytes) (v : Value F) → (validate_value key v ≡ ok tt) ↔ ValueIsTree IsLeaf key v
    validate_value_iff key (mapping m) = validate_node_iff m
    validate_value_iff key (array v) = list_iff key v
    validate_value_iff key (int p) = check_range-bind p
    validate_value_iff key (float x) = check_range-bind (fl.truncate x)
    validate_value_iff key (permission p) = check_range-bind p
    validate_value_iff key nil = (λ h. absurd (cc), λ h. absurd h)
    validate_value_iff key (str s) = (λ h. absurd (cc), λ h. absurd h)

    validate_node_iff : (m : Fields F) → (validate_node m ≡ ok tt) ↔ IsTree IsLeaf m
    validate_node_iff empty = (λ _. tt, λ _. refl)
    validate_node_iff (field key v rest) =
        >>-iff _ _ (validate_value_iff key v) (validate_node_iff rest)

  -- validateNode accepts a node exactly if every leaf at any depth, whatever its key, is a number that
  -- Go truncates to a defined level, and every list stands under "?" and holds strings alone.
  pub validate_node-IsTree : (m : Fields F) → (validate_node m ≡ ok tt) ↔ IsTree IsLeaf m
  validate_node-IsTree m = validate_node_iff m
