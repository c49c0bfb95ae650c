-- ===== src/Authorization/Reference/Agrees.antt =====
-- eval_map of resources/access.c and its loop over the maps, against those of the Go code.
use mathlib.Core.Path.{subst₂}
use viking_ftpd.Prelude.{
  ℕ, ◌≡◌, refl, arith, ◌<◌, ◌⊎◌, Bool, true, false, ◌||◌, inl, inr, Option, none, some, List, [],
  ◌∷◌, length, Bytes, codes, equal, equal_iff, ℤ, pos, negsuc, All, Bool-cases, Option-cases,
}
use viking_ftpd.Lpc.Value.{
  Float64, Value, nil, int, float, str, permission, array, mapping, Fields, empty, field, get,
}
use viking_ftpd.Authorization.Tree
use viking_ftpd.Authorization.Tree.{perm_int, star_val, dot_val}
use viking_ftpd.Authorization.Tree.Valid.{IsLevel}
use viking_ftpd.Authorization.Resolve
use viking_ftpd.Authorization.Resolve.{Slot, is_zero, branch_level, eval_node, eval_found}
use viking_ftpd.Authorization.Reference.{number_at, branch_acc, element, eval_map, consult}

-- the keys that name no directory entry
abbrev pub is_special : Bytes → Bool
is_special k = equal k (codes "*") || equal k (codes ".") || equal k (codes "?")

-- The grammar of docs/viking_access_tree.md: levels under any key but "?", subtrees under names,
-- and a list under "?".
module _ {F : Type 0} where
  unfoldable mutual
    pub ValueIsAccess : Bytes → Value F → Type 0
    ValueIsAccess key (mapping m) = (is_special key ≡ false) × IsAccessTree m
    ValueIsAccess key (int p) = (equal key (codes "?") ≡ false) × IsLevel p
    ValueIsAccess key (array names) = equal key (codes "?") ≡ true
    ValueIsAccess key _ = ⊥

    pub IsAccessTree : Fields F → Type 0
    IsAccessTree empty = Unit
    IsAccessTree (field key v rest) = ValueIsAccess key v × IsAccessTree rest

  ValueIsAccess-get :
      (m : Fields F) (k : Bytes) {v : Value F}
      → IsAccessTree m
      → get m k ≡ some v
      → ValueIsAccess k v
  unfolding get IsAccessTree
  ValueIsAccess-get empty k t e = absurd (cc)
  ValueIsAccess-get (field j w m) k {v} t e = elim (Bool-cases (equal j k)) [
    | inl same ↦
        let value : w ≡ v = ground arith in subst₂ ValueIsAccess ((equal_iff j k).0 same) value t.0
    | inr other ↦ ValueIsAccess-get m k t.1 (rw other at e)
  ]

module _ {F : Type 0} ⦃fl : Float64 F⦄ where
  number_of :
      (key : Bytes) (o : Option (Value F))
      → is_special key ≡ true
      → equal key (codes "?") ≡ false
      → ((v : Value F) → o ≡ some v → ValueIsAccess key v)
      → number_at o ≡ some (Tree.perm_at o)
  unfolding number_at perm_int IsAccessTree
  number_of key none s q h = refl
  number_of key (some (int p)) s q h = refl
  number_of key (some (mapping m)) s q h = absurd (let x = (h (mapping m) refl).0 in cc)
  number_of key (some (array a)) s q h = absurd (let x = h (array a) refl in cc)
  number_of key (some nil) s q h = absurd (h nil refl)
  number_of key (some (float a)) s q h = absurd (h (float a) refl)
  number_of key (some (str a)) s q h = absurd (h (str a) refl)
  number_of key (some (permission a)) s q h = absurd (h (permission a) refl)

  number-star : (m : Fields F) → IsAccessTree m → number_at (get m (codes "*")) ≡ some (star_val m)
  unfolding star_val equal
  number-star m t = number_of (codes "*") _ refl refl (λ v e. ValueIsAccess-get m _ t e)

  number-dot : (m : Fields F) → IsAccessTree m → number_at (get m (codes ".")) ≡ some (dot_val m)
  unfolding dot_val equal
  number-dot m t = number_of (codes ".") _ refl refl (λ v e. ValueIsAccess-get m _ t e)

  branch_acc-eq :
      (sub : Fields F) (dfl : ℤ) (final : Bool)
      → IsAccessTree sub
      → branch_acc sub dfl final ≡ some (branch_level sub dfl final)
  unfolding branch_acc branch_level
  branch_acc-eq sub dfl final t = ground (arith, number-star sub t, number-dot sub t)

  abbrev pub IsAccess? : Option (Fields F) → Type 0
  IsAccess? none = Unit
  IsAccess? (some m) = IsAccessTree m

  -- What a slot may hold while the maps are documented trees.
  abbrev pub IsAccessSlot : Slot F → Type 0
  IsAccessSlot s = IsAccess? s.tree

  element-eq :
      (part : Bytes) (o : Option (Value F)) (acc dfl : ℤ) (final : Bool)
      → equal part (codes "?") ≡ false
      → ((v : Value F) → o ≡ some v → ValueIsAccess part v)
      → element o acc dfl final
        ≡ some
            (elim o [ none ↦ record { tree = none; dfl = acc } | some v ↦ eval_found v dfl final ])
  unfolding element eval_found perm_int IsAccessTree
  element-eq part none acc dfl final q h = refl
  element-eq part (some (int (pos p))) acc dfl final q h =
      let l = (h (int (pos p)) refl).1 in ground arith
  element-eq part (some (int (negsuc p))) acc dfl final q h = refl
  element-eq part (some (mapping m)) acc dfl final q h =
      rw (branch_acc-eq m dfl final (h (mapping m) refl).1)
  element-eq part (some (array a)) acc dfl final q h = absurd (let x = h (array a) refl in cc)
  element-eq part (some nil) acc dfl final q h = absurd (h nil refl)
  element-eq part (some (float a)) acc dfl final q h = absurd (h (float a) refl)
  element-eq part (some (str a)) acc dfl final q h = absurd (h (str a) refl)
  element-eq part (some (permission a)) acc dfl final q h = absurd (h (permission a) refl)

  -- One component in one map: the MUD's eval_map meets no error and returns the slot that evalMap
  -- returns, on a documented tree and for any component but "?".
  pub eval_map-eq :
      (part : Bytes) (s : Slot F) (final : Bool)
      → equal part (codes "?") ≡ false
      → IsAccessSlot s
      → eval_map part s final ≡ some (Resolve.eval_map part s final)
  unfolding eval_map Resolve.eval_map eval_node
  eval_map-eq part s final q t = elim (Option-cases s.tree) [
    | inl e ↦ rw e refl
    | inr (m, e) ↦
        let tree : IsAccessTree m = rw e at t in
        rw (e, number-star m tree)
          (element-eq part (get m part) _ s.dfl final q (λ v. ValueIsAccess-get m part tree))
  ]

  found-IsAccessSlot :
      (part : Bytes) (v : Value F) (dfl : ℤ) (final : Bool)
      → ValueIsAccess part v
      → IsAccessSlot (eval_found v dfl final)
  unfolding eval_found IsAccessTree
  found-IsAccessSlot part (mapping sub) dfl final t = t.1
  found-IsAccessSlot part v dfl final t = tt

  eval_node-IsAccessSlot :
      (part : Bytes) (m : Fields F) (dfl : ℤ) (final : Bool)
      → IsAccessTree m
      → IsAccessSlot (eval_node part m dfl final)
  unfolding eval_node
  eval_node-IsAccessSlot part m dfl final t = elim (Option-cases (get m part)) [
    | inl e ↦ rw (e, eval_node) tt
    | inr (v, e) ↦
        rw (e, eval_node) (found-IsAccessSlot part v dfl final (ValueIsAccess-get m part t e))
  ]

  eval_map-IsAccessSlot :
      (part : Bytes) (s : Slot F) (final : Bool)
      → IsAccessSlot s
      → IsAccessSlot (Resolve.eval_map part s final)
  unfolding Resolve.eval_map eval_node
  eval_map-IsAccessSlot part s final t = elim (Option-cases s.tree) [
    | inl e ↦ rw e tt
    | inr (m, e) ↦ rw e (eval_node-IsAccessSlot part m s.dfl final (rw e at t))
  ]

  pub consult-eq :
      (part : Bytes) (final : Bool) (slots : List (Slot F))
      → equal part (codes "?") ≡ false
      → All IsAccessSlot slots
      → consult part final slots ≡ some (Resolve.consult part final slots)
  unfolding consult Resolve.consult
  consult-eq part final [] q t = refl
  consult-eq part final (s ∷ rest) q t =
      rw (eval_map-eq part s final q t.0, consult-eq part final rest q t.1) (ground arith)

  pub consult-IsAccessSlot :
      (part : Bytes) (final : Bool) (slots : List (Slot F))
      → All IsAccessSlot slots
      → All IsAccessSlot (Resolve.consult part final slots).0
  unfolding Resolve.consult
  consult-IsAccessSlot part final [] t = tt
  consult-IsAccessSlot part final (s ∷ rest) t =
      elim (Bool-cases (is_zero (Resolve.eval_map part s final).dfl)) [
        | inl z ↦
            rw z (eval_map-IsAccessSlot part s final t.0, consult-IsAccessSlot part final rest t.1)
        | inr nz ↦ rw nz (eval_map-IsAccessSlot part s final t.0, t.1)
      ]

  -- The index of the MUD's loop: in range, or one past the last map if none decided.
  abbrev pub Index : List (Slot F) → ℕ → Type 0
  Index slots j = (j < length slots) ⊎ ((j ≡ length slots) × All (λ s. is_zero s.dfl ≡ true) slots)

  pub consult-Index :
      (part : Bytes) (final : Bool) (slots : List (Slot F))
      → Index (Resolve.consult part final slots).0 (Resolve.consult part final slots).1
  unfolding Resolve.consult
  consult-Index part final [] = inr (refl, tt)
  consult-Index part final (s ∷ rest) =
      elim (Bool-cases (is_zero (Resolve.eval_map part s final).dfl)) [
        | inl z ↦ rw z (elim (consult-Index part final rest) [
          | inl less ↦ inl (omega arith)
          | inr (same, zeros) ↦ inr (omega arith, (z, zeros))
        ])
        | inr nz ↦ rw nz (inl (omega arith))
      ]
