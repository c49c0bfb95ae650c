-- ===== src/Authorization/Tests.antt =====
-- The authorizer on a small access map, and the theorems about it at concrete inputs.
use viking_ftpd.Prelude.{
  ◌+◌, ◌<◌, ◌≡◌, refl, arith, ◌⊎◌, ◌↔◌, none, some, List, [], ◌∷◌, Bytes, codes, equal, pos, negsuc,
}
use mathlib.Core.List.{Memᴰ}
use viking_ftpd.Lpc.TextFloat.{text_floats}
use viking_ftpd.Lpc.Value.{int, str, array, mapping, end, item, Fields, empty, field, get}
use viking_ftpd.Users.Types.{LoadError, not_loaded}
use viking_ftpd.Authorization.Permission.{write}
use viking_ftpd.Authorization.Tree.{
  ok, validate_node, check_leaf, check_groups, parse_permission, load_access_map, star_val,
  perm_int,
}
use viking_ftpd.Authorization.Tree.Valid.{IsTree, IsLeaf, IsLevel, validate_node-IsTree}
use viking_ftpd.Authorization.Resolve
use viking_ftpd.Authorization.Resolve.{
  Slot, is_zero, start_slot, consult, walk, resolve_access, resolve_slots,
}
use viking_ftpd.Authorization.Reference
use viking_ftpd.Authorization.Reference.Agrees.{IsAccessTree}
use viking_ftpd.Authorization.Reference.Loop.{get_access-eq}
use viking_ftpd.Authorization.Authorizer.{
  Surroundings, Authorizer, new_authorizer, ensure_fresh_cache, resolve_permission,
}
use viking_ftpd.Authorization.Authorizer.Caching.{
  Offers, Reached, fresh, call, asked, cache-Offered, ensure_fresh_cache-age,
}
use viking_ftpd.Authorization.Authorizer.Answers.{resolve_permission-IsLevel}

-- alice's own map: read below /players, write to bob's directory, a member of Staff
abbrev alice_map : Fields Bytes
alice_map =
    field (codes "players")
      (mapping (field (codes "*") (int (pos 1)) (field (codes "bob") (int (pos 3)) empty)))
      (field (codes "?") (array (item (str (codes "Staff")) end)) empty)

abbrev all_map : Fields Bytes
all_map = field (codes "*") (int (pos 1)) (field (codes "secure") (int (negsuc 0)) empty)

abbrev access_map : Fields Bytes
access_map = field (codes "alice") (mapping alice_map) (
    field (codes "Staff") (mapping (field (codes "log") (int (pos 3)) empty))
      (field (codes "*") (mapping all_map) empty))

abbrev raw_data : Fields Bytes
raw_data = field (codes "access_map") (mapping access_map) empty

abbrev morning : Surroundings Bytes
morning = record {
  now = 100;
  refreshed_at = 101;
  access_data = some raw_data;
  load_user = λ _. not_loaded LoadError.user_not_found;
}

-- the source cannot be read
abbrev outage : Surroundings Bytes
outage = record morning { now = 400; access_data = none }

abbrev slots : List (Slot Bytes)
slots =
    record { tree = some alice_map; dfl = pos 0 } ∷ record { tree = some all_map; dfl = pos 1 } ∷ []

abbrev bobs : List Bytes
bobs = codes "players" ∷ codes "bob" ∷ []

alice_map-IsAccessTree : IsAccessTree alice_map
unfolding IsAccessTree equal
alice_map-IsAccessTree = (
  (refl, ((refl, (omega arith, omega arith)), ((refl, (omega arith, omega arith)), tt))),
  (refl, tt),
)

all_map-IsAccessTree : IsAccessTree all_map
unfolding IsAccessTree equal
all_map-IsAccessTree = ((refl, (omega arith, omega arith)), ((refl, refl), tt))

get_access-eq_example :
    (Reference.get_access (codes "alice") bobs slots
      ≡ some (resolve_slots (codes "alice") bobs slots))
    ⊎ ((Reference.get_access (codes "alice") bobs slots ≡ none)
        × (resolve_slots (codes "alice") bobs slots ≡ pos 0))
unfolding equal IsAccessTree
get_access-eq_example =
    get_access-eq (codes "alice") bobs slots (refl, (refl, tt))
      (alice_map-IsAccessTree, (all_map-IsAccessTree, tt)) (omega arith)

-- alice may write to bob's directory, by both resolvers
bobs_level :
    (Reference.get_access (codes "alice") bobs slots ≡ some write)
    × (resolve_slots (codes "alice") bobs slots ≡ write)
unfolding Reference.get_access resolve_slots Reference.walk Reference.consult Reference.eval_map
    Reference.number_at get equal Reference.conclude walk consult Resolve.eval_map star_val perm_int
bobs_level = (refl, refl)

validate_node-IsTree_example : (validate_node access_map ≡ ok tt) ↔ IsTree IsLeaf access_map
validate_node-IsTree_example = validate_node-IsTree access_map

access_map-IsTree : IsTree IsLeaf access_map
unfolding validate_node check_leaf check_groups parse_permission equal
access_map-IsTree = (validate_node-IsTree access_map).0 refl

abbrev asked_once : Authorizer Bytes
asked_once = (resolve_permission morning (new_authorizer 300) (codes "alice") (codes "/log")).1

asked_once-Reached : Reached 300 (morning ∷ []) asked_once
asked_once-Reached = call morning fresh (asked (codes "alice") (codes "/log"))

cache-Offered_example :
    (env : Surroundings Bytes) × Memᴰ env (morning ∷ [])
    × Offers env access_map
    × (asked_once.last_refresh ≡ env.refreshed_at)
unfolding resolve_permission new_authorizer load_access_map get equal validate_node
cache-Offered_example = cache-Offered asked_once-Reached refl

resolve_permission-IsLevel_example :
    IsLevel (resolve_permission outage asked_once (codes "alice") (codes "/players/bob")).0
resolve_permission-IsLevel_example =
    resolve_permission-IsLevel asked_once-Reached outage (codes "alice") (codes "/players/bob")

ensure_fresh_cache-age_example :
    (m : Fields Bytes) × ((ensure_fresh_cache morning (new_authorizer 300)).1.access_map ≡ some m)
    × ((((ensure_fresh_cache morning (new_authorizer 300)).1 ≡ new_authorizer 300)
          × (morning.now
              < (new_authorizer {F = Bytes} 300).last_refresh
                + (new_authorizer {F = Bytes} 300).cache_duration))
        ⊎ (Offers morning m
            × ((ensure_fresh_cache morning (new_authorizer 300)).1.last_refresh
                ≡ morning.refreshed_at)))
unfolding ensure_fresh_cache new_authorizer load_access_map get equal validate_node
ensure_fresh_cache-age_example = ensure_fresh_cache-age morning (new_authorizer 300) refl
