-- ===== src/Users/Repository.antt =====
-- pkg/users/repository.go: the cache of users. A call is one step; the locks are not modelled.
pub mod Age
mod Tests
use viking_ftpd.Prelude.{
  ℕ, ◌+◌, ◌<◌, ◌≡◌, refl, sym, ap, ◌∙◌, arith, Bool, true, false, Option, none, some, List, [], ◌∷◌,
  ltb, if◌then◌else◌, Bytes, equal, equal_iff, Bool-cases, Option-cases, ◌⊎◌, inl, inr,
}
use viking_ftpd.Users.Types.{User, Loaded, loaded, not_loaded, LoadError}

-- What one call reads of the clock, at the test of the cache and at the store, and of the source.
pub record Surroundings : Type 0 where
  pub now : ℕ
  pub refreshed_at : ℕ
  pub load_user : Bytes → Loaded User

-- A missing key of lastRefresh reads as the zero time.
pub record Repository : Type 0 where
  pub cache_duration : ℕ
  pub cache : Bytes → Option User
  pub last_refresh : Bytes → ℕ

unfoldable pub new_repository : ℕ → Repository
new_repository d = record { cache_duration = d; cache = λ _. none; last_refresh = λ _. 0 }

-- m[k] = v
abbrev pub update {ℓ} : {V : Type ℓ} → (Bytes → V) → Bytes → V → Bytes → V
update m k v j = if equal k j then v else m j

-- the two assignments under the lock
unfoldable pub remember : Surroundings → Repository → Bytes → User → Repository
remember env r name user = record r {
  cache = update r.cache name (some user);
  last_refresh = update r.last_refresh name env.refreshed_at;
}

-- LoadUser, and the store of its user
abbrev pub keep : Surroundings → Repository → Bytes → Loaded User → Loaded User × Repository
keep env r name (loaded user) = (loaded user, remember env r name user)
keep env r name (not_loaded e) = (not_loaded e, r)

abbrev pub load_and_keep : Surroundings → Repository → Bytes → Loaded User × Repository
load_and_keep env r name = keep env r name (env.load_user name)

-- `exists && time.Since(lastRefresh) < r.cacheDuration`
abbrev pub is_young : Surroundings → Repository → Bytes → Bool
is_young env r name = ltb env.now (r.last_refresh name + r.cache_duration)

abbrev pub get_cached : Surroundings → Repository → Bytes → Option User → Loaded User × Repository
get_cached env r name none = load_and_keep env r name
get_cached env r name (some user) =
    if is_young env r name then (loaded user, r) else load_and_keep env r name

unfoldable pub get_user : Surroundings → Repository → Bytes → Loaded User × Repository
unfolding remember
get_user env r name = get_cached env r name (r.cache name)

-- RefreshUser; `none` is a nil error.
unfoldable pub refresh_user : Surroundings → Repository → Bytes → Option LoadError × Repository
unfolding remember
refresh_user env r name =
    let (answer, r') = load_and_keep env r name in
    (elim answer [ loaded user ↦ none | not_loaded e ↦ some e ], r')

abbrev pub existence : Loaded User → Loaded Bool
existence (loaded user) = loaded true
existence (not_loaded LoadError.user_not_found) = loaded false
existence (not_loaded e) = not_loaded e

unfoldable pub user_exists : Surroundings → Repository → Bytes → Loaded Bool × Repository
unfolding get_user
user_exists env r name = let (answer, r') = get_user env r name in (existence answer, r')
