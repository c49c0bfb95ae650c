-- ===== src/Users/Repository/Age.antt =====
-- pkg/users/repository.go: the age of the users that GetUser returns.
use mathlib.Core.List.{Memᴰ}
use viking_ftpd.Prelude.{
  ℕ, ◌+◌, ◌<◌, ◌≡◌, refl, sym, ap, ◌∙◌, arith, true, some, List, [], ◌∷◌, ltb, Bytes, equal,
  equal_iff, Bool-cases, Option-cases, ◌⊎◌, inl, inr,
}
use viking_ftpd.Users.Types.{User, Loaded, loaded, not_loaded}
use viking_ftpd.Users.Repository.{
  Surroundings, Repository, new_repository, update, remember, keep, is_young, get_user,
  refresh_user, user_exists,
}

-- the repository after one call of its API, whichever it was
pub data Called (env : Surroundings) (r : Repository) : Repository → Type 0 where
  got : (name : Bytes) → Called env r (get_user env r name).1
  refreshed : (name : Bytes) → Called env r (refresh_user env r name).1
  asked : (name : Bytes) → Called env r (user_exists env r name).1

-- The repositories reached from a new one by calls, with their surroundings, latest first.
pub data Reached : List Surroundings → Repository → Type 0 where
  fresh : (d : ℕ) → Reached [] (new_repository d)
  call :
      {envs : List Surroundings} {r r' : Repository} (env : Surroundings)
      → Reached envs r
      → Called env r r'
      → Reached (env ∷ envs) r'

-- A call keeps the repository, or stores the user that the source gave in that call.
Steps : Surroundings → Repository → Repository → Type 0
Steps env r r' =
    (r' ≡ r)
    ⊎ ((name : Bytes) × (user : User) × (env.load_user name ≡ loaded user)
        × (r' ≡ remember env r name user))

keep-Steps :
    (env : Surroundings) (r : Repository) (name : Bytes) (answer : Loaded User)
    → env.load_user name ≡ answer
    → Steps env r (keep env r name answer).1
unfolding Steps
keep-Steps env r name (loaded user) e = inr (name, user, e, refl)
keep-Steps env r name (not_loaded x) e = inl refl

get_user-Steps :
    (env : Surroundings) (r : Repository) (name : Bytes) → Steps env r (get_user env r name).1
unfolding get_user
get_user-Steps env r name = elim (Option-cases (r.cache name)) [
  | inl absent ↦ rw absent (keep-Steps env r name (env.load_user name) refl)
  | inr (user, at) ↦ rw at (elim (Bool-cases (is_young env r name)) [
    | inl young ↦ rw young (unfold Steps in inl refl)
    | inr old ↦ rw old (keep-Steps env r name (env.load_user name) refl)
  ])
]

Called-Steps :
    (env : Surroundings) (r : Repository) {r' : Repository} → Called env r r' → Steps env r r'
unfolding refresh_user user_exists
Called-Steps env r (got name) = get_user-Steps env r name
Called-Steps env r (refreshed name) = keep-Steps env r name (env.load_user name) refl
Called-Steps env r (asked name) = get_user-Steps env r name

-- A cached user is what the source gave for that name in one of the calls, at the time kept with it.
cache-Sourced :
    {envs : List Surroundings} {r : Repository} (name : Bytes) {user : User}
    → Reached envs r
    → r.cache name ≡ some user
    → (env : Surroundings) × Memᴰ env envs
      × (env.load_user name ≡ loaded user)
      × (r.last_refresh name ≡ env.refreshed_at)
unfolding new_repository Steps remember
cache-Sourced name (fresh d) h = absurd (cc)
cache-Sourced name {user} (call {envs} {r} {r'} env reached c) h = elim (Called-Steps env r c) [
  | inl same ↦
      let (first, there, given, time) =
        cache-Sourced name reached (ap (λ x. x.cache name) (sym same) ∙ h) in
      (first, Memᴰ.tail there, given, ap (λ x. x.last_refresh name) same ∙ time)
  | inr (k, u, given, new) ↦
      let stored : update r.cache k (some u) name ≡ some user =
        ap (λ x. x.cache name) (sym new) ∙ h in
      let time : r'.last_refresh name ≡ update r.last_refresh k env.refreshed_at name =
        ap (λ x. x.last_refresh name) new in
      elim (Bool-cases (equal k name)) [
        | inl hit ↦
            let same : k ≡ name = (equal_iff k name).0 hit in
            let its : some u ≡ some user = rw hit at stored in
            let when : r'.last_refresh name ≡ env.refreshed_at = rw hit at time in
            (env, Memᴰ.head refl, cc, when)
        | inr miss ↦
            let its : r.cache name ≡ some user = rw miss at stored in
            let when : r'.last_refresh name ≡ r.last_refresh name = rw miss at time in
            let (first, there, gave, at) = cache-Sourced name reached its in
            (first, Memᴰ.tail there, gave, when ∙ at)
      ]
]

keep-answer :
    (env : Surroundings) (r : Repository) (name : Bytes) (answer : Loaded User)
    → (keep env r name answer).0 ≡ answer
keep-answer env r name (loaded user) = refl
keep-answer env r name (not_loaded e) = refl

young_lem : (now a b d : ℕ) → a ≡ b → ltb now (a + d) ≡ true → now < b + d
young_lem now a b d e h = ground arith

-- After any calls on a new repository, a user that GetUser returns is what the source gave for that
-- name, either in this very call or in an earlier one, less than the cache's duration before.
pub get_user-age :
    {envs : List Surroundings} {r : Repository} {user : User}
    → Reached envs r
    → (env : Surroundings) (name : Bytes) → (get_user env r name).0 ≡ loaded user
    → (source : Surroundings) × Memᴰ source (env ∷ envs)
      × (source.load_user name ≡ loaded user)
      × ((source ≡ env) ⊎ (env.now < source.refreshed_at + r.cache_duration))
unfolding get_user
get_user-age {envs} {r} {user} reached env name h = elim (Option-cases (r.cache name)) [
  | inl absent ↦ (
    env,
    Memᴰ.head refl,
    sym (keep-answer env r name (env.load_user name)) ∙ rw absent at h,
    inl refl,
  )
  | inr (cached, at) ↦ elim (Bool-cases (is_young env r name)) [
    | inl young ↦
        let same : loaded cached ≡ loaded user = rw (at, young) at h in
        let (first, there, gave, time) = cache-Sourced name reached at in
        (
          first,
          Memᴰ.tail there,
          gave ∙ same,
          inr (
              young_lem env.now (r.last_refresh name) first.refreshed_at r.cache_duration time
                young),
        )
    | inr old ↦ (
      env,
      Memᴰ.head refl,
      sym (keep-answer env r name (env.load_user name)) ∙ rw (at, old) at h,
      inl refl,
    )
  ]
]
