-- ===== src/Authorization/Reference/Loop.antt =====
-- The loops of _get_access in resources/access.c, against those of resolveAccess.
use viking_ftpd.Prelude.{
  ℕ, zero, suc, ◌≡◌, refl, arith, ◌<◌, ◌⊎◌, inl, inr, true, false, not, ◌||◌, none, some, List, [],
  ◌∷◌, ◌==◌, length, is_nil, Bytes, codes, equal, pos, eq_int_iff, All, Option-cases,
}
use viking_ftpd.Lpc.Value.{Float64}
use viking_ftpd.Authorization.Resolve
use viking_ftpd.Authorization.Resolve.{
  Slot, is_zero, keep_last, level_at, ruled_access, resolve_slots,
}
use viking_ftpd.Authorization.Resolve.Bounds.{length-consult}
use viking_ftpd.Authorization.Reference.{walk, level_at?, conclude, get_access}
use viking_ftpd.Authorization.Reference.Agrees.{
  IsAccessSlot, consult-eq, consult-IsAccessSlot, Index, consult-Index,
}

-- No component of the path is "?".
abbrev pub NamesEntries : List Bytes → Type 0
NamesEntries = All (λ part. equal part (codes "?") ≡ false)

same_rule : (n j : ℕ) → 0 < n → (not (keep_last n j == 0) || n == 1) ≡ (not (j == 0) || n == 1)
same_rule n j h = ground arith

module _ {F : Type 0} ⦃fl : Float64 F⦄ where
  -- What the two walks have in common when the MUD's starts with index `j`.
  record SameWalk (parts : List Bytes) (slots : List (Slot F)) (j : ℕ) : Type 0 where
    end : List (Slot F)
    index : ℕ
    reference_is : walk parts slots j ≡ some (end, index)
    port_is :
        Resolve.walk parts slots (keep_last (length slots) j) ≡ (end, keep_last (length end) index)
    in_range : Index end index
    count : length end ≡ length slots

  walk-SameWalk :
      (parts : List Bytes) (slots : List (Slot F)) (j : ℕ)
      → NamesEntries parts
      → All IsAccessSlot slots
      → Index slots j
      → SameWalk parts slots j
  unfolding walk Resolve.walk
  walk-SameWalk [] slots j q t i = record {
    end = slots;
    index = j;
    reference_is = refl;
    port_is = refl;
    in_range = i;
    count = refl;
  }
  walk-SameWalk (part ∷ parts) slots j q t i =
      let after = Resolve.consult part (is_nil parts) slots in
      let same : length after.0 ≡ length slots = length-consult part (is_nil parts) slots in
      let later : SameWalk parts after.0 after.1 =
        walk-SameWalk parts after.0 after.1 q.1 (consult-IsAccessSlot part (is_nil parts) slots t)
          (consult-Index part (is_nil parts) slots) in
      record {
        end = later.end;
        index = later.index;
        reference_is = rw (consult-eq part (is_nil parts) slots q.0 t) later.reference_is;
        port_is = rw (← same) later.port_is;
        in_range = later.in_range;
        count = omega (arith, later.count);
      }

  level_at?-in_range :
      (slots : List (Slot F)) (j : ℕ)
      → j < length slots
      → level_at? slots j ≡ some (level_at slots j)
  level_at?-in_range [] j h = absurd (omega arith)
  level_at?-in_range (s ∷ rest) zero h = refl
  level_at?-in_range (s ∷ rest) (suc j) h = level_at?-in_range rest j (omega arith)

  level_at?-past : (slots : List (Slot F)) → level_at? slots (length slots) ≡ none
  level_at?-past [] = refl
  level_at?-past (s ∷ rest) = level_at?-past rest

  level_at-zeros :
      (slots : List (Slot F)) (j : ℕ)
      → All (λ s. is_zero s.dfl ≡ true) slots
      → level_at slots j ≡ pos 0
  level_at-zeros [] j z = refl
  level_at-zeros (s ∷ rest) zero z = (eq_int_iff s.dfl (pos 0)).0 z.0
  level_at-zeros (s ∷ rest) (suc j) z = level_at-zeros rest j z.1

  -- the last lines of both functions, at the index that the MUD's walk ended with
  level-eq :
      (slots : List (Slot F)) (j : ℕ)
      → Index slots j
      → (level_at? slots j ≡ some (level_at slots (keep_last (length slots) j)))
        ⊎ ((level_at? slots j ≡ none) × (level_at slots (keep_last (length slots) j) ≡ pos 0))
  level-eq slots j (inl less) =
      let same : keep_last (length slots) j ≡ j = ground arith in
      inl (rw same (level_at?-in_range slots j less))
  level-eq slots j (inr (past, zeros)) =
      inr (rw past (level_at?-past slots), level_at-zeros slots _ zeros)

  -- the two answers, from walks that ended alike
  conclude-eq :
      (user : Bytes) (parts : List Bytes) (mapc : ℕ) (end : List (Slot F)) (j : ℕ)
      → 0 < mapc
      → length end ≡ mapc
      → Index end j
      → (conclude user parts mapc (end, j)
          ≡ some (Resolve.conclude user parts mapc (end, keep_last (length end) j)))
        ⊎ ((conclude user parts mapc (end, j) ≡ none)
            × (Resolve.conclude user parts mapc (end, keep_last (length end) j) ≡ pos 0))
  unfolding conclude Resolve.conclude
  conclude-eq user parts mapc end j h count i =
      let rule : (not (keep_last (length end) j == 0) || mapc == 1) ≡ (not (j == 0) || mapc == 1) =
        rw count (same_rule mapc j h) in
      elim (Option-cases (ruled_access user parts (not (j == 0) || mapc == 1))) [
        | inl e ↦ rw (conclude, e, Resolve.conclude, rule, e) (level-eq end j i)
        | inr (p, e) ↦ rw (conclude, e, Resolve.conclude, rule, e) (inl refl)
      ]

  -- On documented access trees, for a path without a component "?" and at least one map, the
  -- MUD's _get_access, from its evaluation loop on, returns the level that resolveAccess returns; or
  -- it indexes one past its last map, because no map decided the last component, and resolveAccess
  -- returns 0, no access.
  pub get_access-eq :
      (user : Bytes) (parts : List Bytes) (slots : List (Slot F))
      → NamesEntries parts
      → All IsAccessSlot slots
      → 0 < length slots
      → (get_access user parts slots ≡ some (resolve_slots user parts slots))
        ⊎ ((get_access user parts slots ≡ none) × (resolve_slots user parts slots ≡ pos 0))
  unfolding get_access resolve_slots conclude
  get_access-eq user parts slots q t h =
      let both = walk-SameWalk parts slots 0 q t (inl h) in
      let start : keep_last (length slots) 0 ≡ 0 = ground arith in
      let port : Resolve.walk parts slots 0 ≡ (both.end, keep_last (length both.end) both.index) =
        rw start at both.port_is in
      rw (both.reference_is, resolve_slots, port)
        (conclude-eq user parts (length slots) both.end both.index h both.count both.in_range)
