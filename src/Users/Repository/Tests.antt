-- ===== src/Users/Repository/Tests.antt =====
-- The repository at concrete inputs.
use mathlib.Core.List.{Memᴰ}
use viking_ftpd.Prelude.{◌+◌, ◌<◌, ◌≡◌, refl, [], ◌∷◌, codes, equal, pos, ◌⊎◌}
use viking_ftpd.Users.Types.{User, loaded}
use viking_ftpd.Users.Repository.{Surroundings, Repository, new_repository, get_user, remember}
use viking_ftpd.Users.Repository.Age.{fresh, call, got, get_user-age}

abbrev frogo : User
frogo = record { username = codes "frogo"; password_hash = codes "x"; level = pos 31 }

abbrev first_call : Surroundings
first_call = record { now = 10; refreshed_at = 11; load_user = λ _. loaded frogo }

abbrev later_call : Surroundings
later_call = record first_call { now = 20 }

abbrev warm : Repository
warm = (get_user first_call (new_repository 60) (codes "frogo")).1

get_user-age_example :
    (source : Surroundings) × Memᴰ source (later_call ∷ first_call ∷ [])
    × (source.load_user (codes "frogo") ≡ loaded frogo)
    × ((source ≡ later_call) ⊎ (later_call.now < source.refreshed_at + warm.cache_duration))
unfolding get_user new_repository remember equal
get_user-age_example =
    get_user-age (call first_call (fresh 60) (got (codes "frogo"))) later_call (codes "frogo") refl
