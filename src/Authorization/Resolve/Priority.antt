-- ===== src/Authorization/Resolve/Priority.antt =====
-- pkg/authorization/authorizer.go: the order of the maps in resolveAccess.
use viking_ftpd.Prelude.{
  ℕ, suc, ◌≡◌, refl, ap, Bool, true, false, ◌⊎◌, inl, inr, List, [], ◌∷◌, ◌++◌, Bool-cases, length,
  Bytes, map, All,
}
use viking_ftpd.Lpc.Value.{Float64}
use viking_ftpd.Authorization.Resolve.{Slot, is_zero, eval_map, consult}

-- `before` did not decide the component, `winner` did, and `after` was not consulted.
pub record Decided {F : Type 0} ⦃fl : Float64 F⦄ (part : Bytes) (final : Bool)
    (slots : List (Slot F)) (result : List (Slot F) × ℕ) : Type 0 where
  pub before : List (Slot F)
  pub winner : Slot F
  pub after : List (Slot F)
  pub splits : slots ≡ before ++ winner ∷ after
  pub undecided : All (λ s. is_zero (eval_map part s final).dfl ≡ true) before
  pub decides : is_zero (eval_map part winner final).dfl ≡ false
  pub slots_are :
      result.0 ≡ map (λ s. eval_map part s final) before ++ eval_map part winner final ∷ after
  pub index_is : result.1 ≡ length before

module _ {F : Type 0} ⦃fl : Float64 F⦄ where
  Decided-cons :
      (part : Bytes) (final : Bool) (s : Slot F) (rest : List (Slot F))
      → is_zero (eval_map part s final).dfl ≡ true
      → Decided part final rest (consult part final rest)
      → Decided part final (s ∷ rest) (consult part final (s ∷ rest))
  unfolding consult
  Decided-cons part final s rest zero_here d = record {
    before = s ∷ d.before;
    winner = d.winner;
    after = d.after;
    splits = ap (◌∷◌ s) d.splits;
    undecided = (zero_here, d.undecided);
    decides = d.decides;
    slots_are = rw zero_here (ap (◌∷◌ (eval_map part s final)) d.slots_are);
    index_is = rw zero_here (ap suc d.index_is);
  }

  -- For one component, either every map is consulted and none decides, and the index is the number
  -- of maps; or the first map with a level other than 0 decides, the index is its position, and the
  -- maps behind it keep their state.
  pub consult_first :
      (part : Bytes) (final : Bool) (slots : List (Slot F))
      → ((All (λ s. is_zero (eval_map part s final).dfl ≡ true) slots)
          × ((consult part final slots).0 ≡ map (λ s. eval_map part s final) slots)
          × ((consult part final slots).1 ≡ length slots))
        ⊎ Decided part final slots (consult part final slots)
  unfolding consult
  consult_first part final [] = inl (tt, refl, refl)
  consult_first part final (s ∷ rest) = elim (Bool-cases (is_zero (eval_map part s final).dfl)) [
    | inl z ↦ elim (consult_first part final rest) [
      | inl (none, same, count) ↦
          inl ((z, none), rw z (ap (◌∷◌ (eval_map part s final)) same), rw z (ap suc count))
      | inr d ↦ inr (Decided-cons part final s rest z d)
    ]
    | inr nz ↦ inr (record {
      before = [];
      winner = s;
      after = rest;
      splits = refl;
      undecided = tt;
      decides = nz;
      slots_are = rw nz;
      index_is = rw nz;
    })
  ]
