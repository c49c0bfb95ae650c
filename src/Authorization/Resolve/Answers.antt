-- ===== src/Authorization/Resolve/Answers.antt =====
-- pkg/authorization/authorizer.go: the levels that resolveAccess answers with.
use viking_ftpd.Prelude.{
  ℕ, suc, ◌≤◌, ◌≡◌, refl, arith, Bool, true, false, none, some, List, [], ◌∷◌, ◌++◌, map, Bytes,
  codes, if◌then◌else◌, is_nil, length, not, ℤ, pos, negsuc, Option-cases, Bool-cases, inl, inr,
  All, ◌==◌, ◌||◌,
}
use viking_ftpd.Lpc.Value.{
  Float64, Value, nil, int, float, str, permission, array, mapping, Fields, get,
}
use viking_ftpd.Authorization.Permission.{Permission}
use viking_ftpd.Authorization.Tree.{perm_int, perm_at, star_val, dot_val}
use viking_ftpd.Authorization.Tree.Valid.{IsTree, IsLeaf, IsLevel, ValueIsTree, ValueIsTree-get}
use viking_ftpd.Authorization.Resolve.{
  Slot, is_zero, branch_level, eval_found, eval_node, eval_map, consult, walk, as_map, map_named,
  group_maps, collect_maps, start_slot, level_at, ruled_access, conclude, resolve_slots,
  resolve_access,
}

-- Revoked, 0 for no answer, or a level up to GRANT_GRANT
abbrev pub IsAnswer : ℤ → Type 0
IsAnswer (pos n) = n ≤ 5
IsAnswer (negsuc n) = n ≡ 0

IsLevel-IsAnswer : (x : ℤ) → IsLevel x → IsAnswer x
IsLevel-IsAnswer (pos n) h = h.1
IsLevel-IsAnswer (negsuc n) h = h

if-IsAnswer : (b : Bool) (x y : ℤ) → IsAnswer x → IsAnswer y → IsAnswer (if b then x else y)
if-IsAnswer true x y h k = h
if-IsAnswer false x y h k = k

All-append : {A : Type 0} (P : A → Type 0) (xs ys : List A) → All P xs → All P ys → All P (xs ++ ys)
All-append P [] ys h k = k
All-append P (x ∷ xs) ys h k = (h.0, All-append P xs ys h.1 k)

ruled_access-IsAnswer :
    (user : Bytes) (parts : List Bytes) (applies : Bool) {p : Permission}
    → ruled_access user parts applies ≡ some p
    → IsAnswer p
unfolding ruled_access
ruled_access-IsAnswer user [] applies h = absurd (cc)
ruled_access-IsAnswer user (root ∷ []) applies h = absurd (cc)
ruled_access-IsAnswer user (root ∷ owner ∷ []) applies h = ground arith
ruled_access-IsAnswer user (root ∷ owner ∷ third ∷ rest) applies h = ground arith

module _ {F : Type 0} ⦃fl : Float64 F⦄ where
  perm_int-IsAnswer : (key : Bytes) (v : Value F) → ValueIsTree IsLeaf key v → IsAnswer (perm_int v)
  unfolding perm_int IsTree
  perm_int-IsAnswer key (int x) h = IsLevel-IsAnswer x h
  perm_int-IsAnswer key (float x) h = IsLevel-IsAnswer (fl.truncate x) h
  perm_int-IsAnswer key (permission x) h = IsLevel-IsAnswer x h
  perm_int-IsAnswer key nil h = omega arith
  perm_int-IsAnswer key (str s) h = omega arith
  perm_int-IsAnswer key (array s) h = omega arith
  perm_int-IsAnswer key (mapping s) h = omega arith

  perm_at-IsAnswer : (key : Bytes) (m : Fields F) → IsTree IsLeaf m → IsAnswer (perm_at (get m key))
  perm_at-IsAnswer key m t = elim (Option-cases (get m key)) [
    | inl missing ↦ rw missing (omega arith)
    | inr (v, at) ↦ rw at (perm_int-IsAnswer key v (ValueIsTree-get IsLeaf m key t at))
  ]

  -- a map's descent state on a tree that the builder accepts
  abbrev pub IsSound : Slot F → Type 0
  IsSound s = elim s.tree [ none ↦ Unit | some m ↦ IsTree IsLeaf m ] × IsAnswer s.dfl

  eval_found-IsSound :
      (key : Bytes) (v : Value F) (dfl : ℤ) (final : Bool)
      → ValueIsTree IsLeaf key v
      → IsAnswer dfl
      → IsSound (eval_found v dfl final)
  unfolding eval_found branch_level star_val dot_val IsTree
  eval_found-IsSound key (mapping sub) dfl final t h =
      let star = perm_at-IsAnswer (codes "*") sub t in
      let dot = perm_at-IsAnswer (codes ".") sub t in
      (
        t,
        if-IsAnswer (is_zero dfl) _ _ star
            (if-IsAnswer final _ _ (if-IsAnswer _ _ _ dot h) (if-IsAnswer _ _ _ star h)),
      )
  eval_found-IsSound key nil dfl final t h = (tt, perm_int-IsAnswer key nil t)
  eval_found-IsSound key (int x) dfl final t h = (tt, perm_int-IsAnswer key (int x) t)
  eval_found-IsSound key (float x) dfl final t h = (tt, perm_int-IsAnswer key (float x) t)
  eval_found-IsSound key (str x) dfl final t h = (tt, perm_int-IsAnswer key (str x) t)
  eval_found-IsSound key (permission x) dfl final t h = (tt, perm_int-IsAnswer key (permission x) t)
  eval_found-IsSound key (array x) dfl final t h = (tt, perm_int-IsAnswer key (array x) t)

  eval_node-IsSound :
      (part : Bytes) (m : Fields F) (dfl : ℤ) (final : Bool)
      → IsTree IsLeaf m
      → IsAnswer dfl
      → IsSound (eval_node part m dfl final)
  unfolding eval_node star_val
  eval_node-IsSound part m dfl final t h =
      let acc : IsAnswer (if is_zero (star_val m) then dfl else star_val m) =
        if-IsAnswer (is_zero (star_val m)) _ _ h (perm_at-IsAnswer (codes "*") m t) in
      elim (Option-cases (get m part)) [
        | inl missing ↦ rw (missing, eval_node) (tt, acc)
        | inr (v, at) ↦
            rw (at, eval_node)
              (eval_found-IsSound part v dfl final (ValueIsTree-get IsLeaf m part t at) h)
      ]

  eval_map-IsSound :
      (part : Bytes) (s : Slot F) (final : Bool) → IsSound s → IsSound (eval_map part s final)
  unfolding eval_map
  eval_map-IsSound part s final (t, h) = elim (Option-cases s.tree) [
    | inl gone ↦ rw (gone, eval_map) (tt, h)
    | inr (m, at) ↦ rw (at, eval_map) (eval_node-IsSound part m s.dfl final (rw at at t) h)
  ]

  consult-IsSound :
      (part : Bytes) (final : Bool) (slots : List (Slot F))
      → All IsSound slots
      → All IsSound (consult part final slots).0
  unfolding consult
  consult-IsSound part final [] h = tt
  consult-IsSound part final (s ∷ rest) (h, hs) =
      let here = eval_map-IsSound part s final h in
      let later = consult-IsSound part final rest hs in
      elim (Bool-cases (is_zero (eval_map part s final).dfl)) [
        | inl z ↦ rw z (here, later)
        | inr nz ↦ rw nz (here, hs)
      ]

  walk-IsSound :
      (parts : List Bytes) (slots : List (Slot F)) (j : ℕ)
      → All IsSound slots
      → All IsSound (walk parts slots j).0
  unfolding walk
  walk-IsSound [] slots j h = h
  walk-IsSound (part ∷ parts) slots j h =
      walk-IsSound parts _ _ (consult-IsSound part (is_nil parts) slots h)

  level_at-IsAnswer :
      (slots : List (Slot F)) (j : ℕ) → All IsSound slots → IsAnswer (level_at slots j)
  level_at-IsAnswer [] j h = omega arith
  level_at-IsAnswer (s ∷ rest) ℕ.zero h = h.0.1
  level_at-IsAnswer (s ∷ rest) (suc j) h = level_at-IsAnswer rest j h.1

  as_map-IsTree :
      (name : Bytes) (v : Value F)
      → ValueIsTree IsLeaf name v
      → All (IsTree IsLeaf) (as_map (some v))
  unfolding IsTree
  as_map-IsTree name (mapping m) t = (t, tt)
  as_map-IsTree name nil t = tt
  as_map-IsTree name (int x) t = tt
  as_map-IsTree name (float x) t = tt
  as_map-IsTree name (str x) t = tt
  as_map-IsTree name (permission x) t = tt
  as_map-IsTree name (array x) t = tt

  map_named-IsTree :
      (am : Fields F) (name : Bytes) → IsTree IsLeaf am → All (IsTree IsLeaf) (map_named am name)
  unfolding map_named
  map_named-IsTree am name t = elim (Option-cases (get am name)) [
    | inl missing ↦ rw missing tt
    | inr (v, at) ↦ rw at (as_map-IsTree name v (ValueIsTree-get IsLeaf am name t at))
  ]

  group_maps-IsTree :
      (am : Fields F) (gs : List Bytes) → IsTree IsLeaf am → All (IsTree IsLeaf) (group_maps am gs)
  unfolding group_maps
  group_maps-IsTree am [] t = tt
  group_maps-IsTree am (g ∷ gs) t =
      All-append (IsTree IsLeaf) _ _ (map_named-IsTree am g t) (group_maps-IsTree am gs t)

  collect_maps-IsTree :
      (am : Fields F) (user : Bytes) (gs : List Bytes)
      → IsTree IsLeaf am
      → All (IsTree IsLeaf) (collect_maps am user gs)
  unfolding collect_maps
  collect_maps-IsTree am user gs t = All-append (IsTree IsLeaf) _ _ (map_named-IsTree am user t) (
      All-append (IsTree IsLeaf) _ _ (group_maps-IsTree am gs t)
        (map_named-IsTree am (codes "*") t))

  start_slots-IsSound :
      (maps : List (Fields F)) → All (IsTree IsLeaf) maps → All IsSound (map start_slot maps)
  unfolding star_val
  start_slots-IsSound [] t = tt
  start_slots-IsSound (m ∷ ms) (t, ts) =
      ((t, perm_at-IsAnswer (codes "*") m t), start_slots-IsSound ms ts)

  conclude-IsAnswer :
      (user : Bytes) (parts : List Bytes) (n : ℕ) (end : List (Slot F) × ℕ)
      → All IsSound end.0
      → IsAnswer (conclude user parts n end)
  unfolding conclude
  conclude-IsAnswer user parts n end h =
      elim (Option-cases (ruled_access user parts (not (end.1 == 0) || n == 1))) [
        | inl unruled ↦ rw (unruled, conclude) (level_at-IsAnswer end.0 end.1 h)
        | inr (p, ruled) ↦ rw (ruled, conclude) (ruled_access-IsAnswer user parts _ ruled)
      ]

  -- On an access map that the builder accepted, resolveAccess answers with Revoked, with 0, or with
  -- one of the levels READ to GRANT_GRANT, for every user, every list of groups and every path.
  pub resolve_access-IsAnswer :
      (am : Fields F) (user : Bytes) (groups parts : List Bytes)
      → IsTree IsLeaf am
      → IsAnswer (resolve_access am user groups parts)
  unfolding resolve_access resolve_slots
  resolve_access-IsAnswer am user groups parts t =
      let slots = map start_slot (collect_maps am user groups) in
      if-IsAnswer (is_nil (collect_maps am user groups)) _ _ refl (
        conclude-IsAnswer user parts (length slots) (walk parts slots 0) (
          walk-IsSound parts slots 0
            (start_slots-IsSound _ (collect_maps-IsTree am user groups t))))
