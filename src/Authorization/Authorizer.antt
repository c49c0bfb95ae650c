-- ===== src/Authorization/Authorizer.antt =====
-- pkg/authorization/authorizer.go: the Authorizer, its cached access map, and its answers. The locks
-- guard single reads and writes of the two fields and are not modelled; a call is one step on the
-- state. What the call reads from outside is its `Surroundings`.
pub mod Caching
pub mod Answers
use viking_ftpd.Prelude.{
  ℕ, ◌+◌, Bool, true, false, not, ◌&&◌, ◌||◌, Option, none, some, List, [], ◌∷◌, ◌++◌, leb,
  if◌then◌else◌, Bytes, codes, ℤ, le_int, eq_int,
}
use viking_ftpd.Lpc.Value.{
  Float64, Value, nil, int, float, str, permission, array, mapping, Items, end, item, Fields, get,
}
use viking_ftpd.Paths.{split_path}
use viking_ftpd.Users.Types.{User, Loaded, loaded, not_loaded, junior_arch, elder, archwizard}
use viking_ftpd.Authorization.Permission.{Permission, revoked, read, can_read, can_write, can_grant}
use viking_ftpd.Authorization.Tree.{Checked, ok, err, load_access_map}
use viking_ftpd.Authorization.Resolve.{map_named, resolve_access}

-- What one call reads of the clock and of its two sources: the time at the test of the cache, the
-- time at its refresh, the answer of AccessSource.LoadAccessData (`none` for an error), and
-- users.Source.LoadUser.
pub record Surroundings (F : Type 0) : Type 0 where
  pub now : ℕ
  pub refreshed_at : ℕ
  pub access_data : Option (Fields F)
  pub load_user : Bytes → Loaded User

pub record Authorizer (F : Type 0) : Type 0 where
  pub cache_duration : ℕ
  pub access_map : Option (Fields F)
  pub last_refresh : ℕ

module _ {F : Type 0} where
  unfoldable pub new_authorizer : ℕ → Authorizer F
  new_authorizer d = record { cache_duration = d; access_map = none; last_refresh = 0 }

  -- the strings of the "?" list
  unfoldable pub group_names : Items F → List Bytes
  group_names end = []
  group_names (item (str g) gs) = g ∷ group_names gs
  group_names (item _ gs) = group_names gs

  abbrev pub names_of : Option (Value F) → List Bytes
  names_of (some (array raw)) = group_names raw
  names_of _ = []

  unfoldable pub explicit_groups : Fields F → Bytes → List Bytes
  unfolding group_names
  explicit_groups am username = elim (get am username) [
    | some (mapping um) ↦ names_of (get um (codes "?"))
    | _ ↦ []
  ]

  -- accessMap[name].(map[string]interface{}) is one
  abbrev pub is_mapping : Option (Value F) → Bool
  is_mapping (some (mapping m)) = true
  is_mapping _ = false

  -- the group that a user's level implies
  unfoldable pub level_groups : Fields F → ℤ → List Bytes
  level_groups am level =
      if is_mapping (get am (codes "Arch_full")) && le_int archwizard level
      then codes "Arch_full" ∷ []
      else if is_mapping (get am (codes "Arch_junior"))
          && le_int junior_arch level
          && not (eq_int level elder)
      then codes "Arch_junior" ∷ []
      else []

  unfoldable pub resolve_groups : (Bytes → Loaded User) → Fields F → Bytes → List Bytes
  unfolding explicit_groups level_groups
  resolve_groups load_user am username =
      explicit_groups am username
      ++ elim (load_user username) [ loaded user ↦ level_groups am user.level | not_loaded e ↦ [] ]

module _ {F : Type 0} ⦃fl : Float64 F⦄ where
  -- `a.accessMap == nil || time.Since(a.lastRefresh) >= a.cacheDuration`
  unfoldable pub needs_refresh : ℕ → Authorizer F → Bool
  needs_refresh now a = elim a.access_map [
    | none ↦ true
    | some m ↦ leb (a.last_refresh + a.cache_duration) now
  ]

  abbrev pub install : ℕ → Authorizer F → Checked (Fields F) → Bool × Authorizer F
  install at a (ok m) = (true, record a { access_map = some m; last_refresh = at })
  install at a (err e) = (false, a)

  -- refreshCache; the flag is `err == nil`
  unfoldable pub refresh_cache : Surroundings F → Authorizer F → Bool × Authorizer F
  refresh_cache env a = elim env.access_data [
    | none ↦ (false, a)
    | some raw ↦ install env.refreshed_at a (load_access_map raw)
  ]

  unfoldable pub ensure_fresh_cache : Surroundings F → Authorizer F → Bool × Authorizer F
  unfolding needs_refresh refresh_cache
  ensure_fresh_cache env a = if needs_refresh env.now a then refresh_cache env a else (true, a)

  -- the level for a given access map, with what grants nothing normalized to Revoked
  unfoldable pub permission_in : Surroundings F → Fields F → Bytes → Bytes → Permission
  unfolding resolve_groups
  permission_in env am username filepath =
      let perm =
        resolve_access am username (resolve_groups env.load_user am username)
          (split_path filepath) in
      if not (le_int read perm) then revoked else perm

  abbrev pub permission_by : Surroundings F → Option (Fields F) → Bytes → Bytes → Permission
  permission_by env none username filepath = revoked
  permission_by env (some am) username filepath = permission_in env am username filepath

  unfoldable pub resolve_permission :
      Surroundings F → Authorizer F → Bytes → Bytes → Permission × Authorizer F
  unfolding ensure_fresh_cache permission_in
  resolve_permission env a username filepath =
      let (fresh, a') = ensure_fresh_cache env a in
      (if fresh then permission_by env a'.access_map username filepath else revoked, a')

  -- HasPermission
  unfoldable pub has_permission :
      Surroundings F → Authorizer F → Bytes → Bytes → Permission → Bool × Authorizer F
  unfolding resolve_permission
  has_permission env a username filepath required =
      let (perm, a') = resolve_permission env a username filepath in (le_int required perm, a')

  -- CanRead, CanWrite and CanGrant
  unfoldable pub user_can_read : Surroundings F → Authorizer F → Bytes → Bytes → Bool × Authorizer F
  unfolding resolve_permission can_read
  user_can_read env a username filepath =
      let (perm, a') = resolve_permission env a username filepath in (can_read perm, a')

  unfoldable pub user_can_write :
      Surroundings F → Authorizer F → Bytes → Bytes → Bool × Authorizer F
  unfolding resolve_permission can_write
  user_can_write env a username filepath =
      let (perm, a') = resolve_permission env a username filepath in (can_write perm, a')

  unfoldable pub user_can_grant :
      Surroundings F → Authorizer F → Bytes → Bytes → Bool × Authorizer F
  unfolding resolve_permission can_grant
  user_can_grant env a username filepath =
      let (perm, a') = resolve_permission env a username filepath in (can_grant perm, a')

  abbrev pub groups_by : Surroundings F → Option (Fields F) → Bytes → List Bytes
  groups_by env none username = []
  groups_by env (some am) username = resolve_groups env.load_user am username

  -- ResolveGroups
  unfoldable pub user_groups : Surroundings F → Authorizer F → Bytes → List Bytes × Authorizer F
  unfolding ensure_fresh_cache
  user_groups env a username =
      let (fresh, a') = ensure_fresh_cache env a in
      (if fresh then groups_by env a'.access_map username else [], a')

  -- GetExplicitGroups
  unfoldable pub user_explicit_groups :
      Surroundings F → Authorizer F → Bytes → List Bytes × Authorizer F
  unfolding ensure_fresh_cache
  user_explicit_groups env a username =
      let (fresh, a') = ensure_fresh_cache env a in
      (
        if fresh
            then elim a'.access_map [ none ↦ [] | some am ↦ explicit_groups am username ]
            else [],
        a',
      )
