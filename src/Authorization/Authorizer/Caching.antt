-- ===== src/Authorization/Authorizer/Caching.antt =====
-- pkg/authorization/authorizer.go: where a cached access map comes from, and failed refreshes.
use mathlib.Core.Path.{subst}
use mathlib.Core.List.{Memᴰ}
use viking_ftpd.Prelude.{
  ℕ, ◌+◌, ◌<◌, ◌≡◌, refl, sym, ap, ◌⊎◌, inl, inr, arith, ◌∙◌, true, false, Option, none, some, List,
  [], ◌∷◌, leb, Bytes, codes, Bool-cases, Option-cases,
}
use viking_ftpd.Lpc.Value.{
  Float64, Value, nil, int, float, str, permission, array, mapping, Fields, get,
}
use viking_ftpd.Authorization.Permission.{revoked}
use viking_ftpd.Authorization.Tree.{
  TreeError, Checked, ok, err, load_access_map, validate_node, validated,
}
use viking_ftpd.Authorization.Tree.Valid.{IsTree, IsLeaf, validate_node-IsTree}
use viking_ftpd.Authorization.Authorizer.{
  Surroundings, Authorizer, new_authorizer, needs_refresh, refresh_cache, ensure_fresh_cache,
  resolve_permission, user_groups, user_explicit_groups,
}

checked-cases :
    {A : Type 0} (c : Checked A) → ((x : A) × (c ≡ ok x)) ⊎ ((e : TreeError) × (c ≡ err e))
checked-cases (ok x) = inl (x, refl)
checked-cases (err e) = inr (e, refl)

some-inj : {A : Type 0} {x y : A} → some x ≡ some y → x ≡ y
some-inj e = cc

not_old : (n d now : ℕ) → leb (n + d) now ≡ false → now < n + d
not_old n d now h = ground arith

module _ {F : Type 0} ⦃fl : Float64 F⦄ where
  -- The source's answer holds a tree that validateNode accepts under "access_map", and it is `m`.
  abbrev pub Offers : Surroundings F → Fields F → Type 0
  Offers env m =
      (raw : Fields F) × (env.access_data ≡ some raw)
      × (get raw (codes "access_map") ≡ some (mapping m))
      × IsTree IsLeaf m

  validated-mapping :
      (v : Option (Value F)) {m : Fields F}
      → validated v ≡ ok m
      → (v ≡ some (mapping m)) × IsTree IsLeaf m
  validated-mapping (some (mapping n)) {m} h = elim (checked-cases (validate_node n)) [
    | inl (u, fine) ↦
        let same : n ≡ m = ground (arith, fine) in
        (
          ap (λ x. some (mapping x)) same,
          subst (IsTree IsLeaf) same ((validate_node-IsTree n).0 fine),
        )
    | inr (e, bad) ↦ absurd (let x = rw bad at h in cc)
  ]
  validated-mapping (some nil) h = absurd (cc)
  validated-mapping (some (int x)) h = absurd (cc)
  validated-mapping (some (float x)) h = absurd (cc)
  validated-mapping (some (str x)) h = absurd (cc)
  validated-mapping (some (permission x)) h = absurd (cc)
  validated-mapping (some (array x)) h = absurd (cc)
  validated-mapping none h = absurd (cc)

  -- the authorizer after one call of its API, whichever it was
  pub data Called (env : Surroundings F) (a : Authorizer F) : Authorizer F → Type 0 where
    asked : (u p : Bytes) → Called env a (resolve_permission env a u p).1
    grouped : (u : Bytes) → Called env a (user_groups env a u).1
    explicitly : (u : Bytes) → Called env a (user_explicit_groups env a u).1

  -- The authorizers reached from a new one by calls, with the surroundings of the calls, latest first.
  pub data Reached (d : ℕ) : List (Surroundings F) → Authorizer F → Type 0 where
    fresh : Reached d [] (new_authorizer d)
    call :
        {envs : List (Surroundings F)} {a b : Authorizer F} (env : Surroundings F)
        → Reached d envs a
        → Called env a b
        → Reached d (env ∷ envs) b

  Called-ensure :
      (env : Surroundings F) (a : Authorizer F) {b : Authorizer F}
      → Called env a b
      → b ≡ (ensure_fresh_cache env a).1
  unfolding resolve_permission user_groups user_explicit_groups
  Called-ensure env a (asked u p) = refl
  Called-ensure env a (grouped u) = refl
  Called-ensure env a (explicitly u) = refl

  -- What a refresh does: it keeps the state and reports a failure, or it installs an offered map.
  refresh_cache-cases :
      (env : Surroundings F) (a : Authorizer F)
      → (refresh_cache env a ≡ (false, a))
        ⊎ ((m : Fields F) × Offers env m
            × (refresh_cache env a
                ≡ (true, record a { access_map = some m; last_refresh = env.refreshed_at })))
  unfolding refresh_cache load_access_map
  refresh_cache-cases env a = elim (Option-cases env.access_data) [
    | inl missing ↦ inl (rw missing refl)
    | inr (raw, some_raw) ↦ elim (checked-cases (validated (get raw (codes "access_map")))) [
      | inl (m, fine) ↦
          let (at, tree) = validated-mapping _ fine in
          inr (m, (raw, some_raw, at, tree), rw (some_raw, fine) refl)
      | inr (e, bad) ↦ inl (rw (some_raw, bad) refl)
    ]
  ]

  -- Whatever the call: it keeps the state, or it installs a map offered in that very call.
  Called-cases :
      (env : Surroundings F) (a : Authorizer F) {b : Authorizer F}
      → Called env a b
      → (b ≡ a)
        ⊎ ((m : Fields F) × Offers env m
            × (b ≡ record a { access_map = some m; last_refresh = env.refreshed_at }))
  unfolding ensure_fresh_cache
  Called-cases env a c = elim (Bool-cases (needs_refresh env.now a)) [
    | inl stale ↦ elim (refresh_cache-cases env a) [
      | inl same ↦ inl (Called-ensure env a c ∙ rw (stale, same) refl)
      | inr (m, offered, new) ↦ inr (m, offered, Called-ensure env a c ∙ rw (stale, new) refl)
    ]
    | inr cached ↦ inl (Called-ensure env a c ∙ rw cached refl)
  ]

  cached-map :
      (now : ℕ) (a : Authorizer F)
      → needs_refresh now a ≡ false
      → (m : Fields F) × (a.access_map ≡ some m) × (now < a.last_refresh + a.cache_duration)
  unfolding needs_refresh
  cached-map now a h = elim (Option-cases a.access_map) [
    | inl missing ↦ absurd (let x = rw missing at h in cc)
    | inr (m, at) ↦ (m, at, not_old a.last_refresh a.cache_duration now (rw at at h))
  ]

  -- After any calls on a new authorizer, a cached map was offered by the source in one of those
  -- calls, under "access_map", so it has the shape that validateNode accepts: every leaf is a defined
  -- level, and every list stands under "?" and holds strings alone. The time kept with it is the time
  -- of that refresh.
  pub cache-Offered :
      {d : ℕ} {envs : List (Surroundings F)} {a : Authorizer F} {m : Fields F}
      → Reached d envs a
      → a.access_map ≡ some m
      → (env : Surroundings F) × Memᴰ env envs × Offers env m × (a.last_refresh ≡ env.refreshed_at)
  unfolding new_authorizer
  cache-Offered {m = m} fresh h = absurd (cc)
  cache-Offered {m = m} (call {envs} {a} {b} env r c) h = elim (Called-cases env a c) [
    | inl same ↦
        let (first, there, offered, time) =
          cache-Offered r (ap (λ x. x.access_map) (sym same) ∙ h) in
        (first, Memᴰ.tail there, offered, ap (λ x. x.last_refresh) same ∙ time)
    | inr (n, offered, new) ↦
        let map_is : n ≡ m = some-inj (ap (λ x. x.access_map) (sym new) ∙ h) in
        (env, Memᴰ.head refl, subst (Offers env) map_is offered, ap (λ x. x.last_refresh) new)
  ]

  -- A call that has a map to answer from either keeps a cached one, whose age is below the
  -- cache's duration, or has just installed the one that the source offers.
  pub ensure_fresh_cache-age :
      (env : Surroundings F) (a : Authorizer F)
      → (ensure_fresh_cache env a).0 ≡ true
      → let b = (ensure_fresh_cache env a).1 in
        (m : Fields F) × (b.access_map ≡ some m)
        × (((b ≡ a) × (env.now < a.last_refresh + a.cache_duration))
            ⊎ (Offers env m × (b.last_refresh ≡ env.refreshed_at)))
  unfolding ensure_fresh_cache
  ensure_fresh_cache-age env a h = elim (Bool-cases (needs_refresh env.now a)) [
    | inl stale ↦ elim (refresh_cache-cases env a) [
      | inl same ↦ absurd (let x = rw (stale, same) at h in cc)
      | inr (m, offered, new) ↦ rw (stale, new) (m, refl, inr (offered, refl))
    ]
    | inr cached ↦
        let (m, at, young) = cached-map env.now a cached in rw cached (m, at, inl (refl, young))
  ]

  -- Fail closed: when the cache needs a refresh and the source has no acceptable tree to offer, every
  -- permission is Revoked and every group list is empty, and the state is as it was.
  pub resolve_permission-fail_closed :
      (env : Surroundings F) (a : Authorizer F) (u p : Bytes)
      → needs_refresh env.now a ≡ true
      → ((m : Fields F) → ¬ Offers env m)
      → (resolve_permission env a u p ≡ (revoked, a))
        × (user_groups env a u ≡ ([], a))
        × (user_explicit_groups env a u ≡ ([], a))
  unfolding resolve_permission ensure_fresh_cache user_groups user_explicit_groups
  resolve_permission-fail_closed env a u p stale nothing = elim (refresh_cache-cases env a) [
    | inl same ↦ (rw (stale, same) refl, rw (stale, same) refl, rw (stale, same) refl)
    | inr (m, offered, new) ↦ absurd (nothing m offered)
  ]
