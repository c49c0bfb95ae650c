-- ===== src/Users/MemorySource.antt =====
-- pkg/users/memory_source.go: users in a map, here a function. The mutex is not modelled.
use viking_ftpd.Prelude.{Option, none, some, if◌then◌else◌, Bytes, equal}
use viking_ftpd.Users.Types.{User, Loaded, loaded, not_loaded, LoadError}

pub record MemorySource : Type 0 where
  pub users : Bytes → Option User

abbrev pub new_memory_source : MemorySource
new_memory_source = record { users = λ name. none }

abbrev pub found_user : Option User → Loaded User
found_user none = not_loaded LoadError.user_not_found
found_user (some user) = loaded user

abbrev pub load_from_memory : MemorySource → Bytes → Loaded User
load_from_memory s username = found_user (s.users username)

unfoldable pub add_user : User → MemorySource → MemorySource
unfolding equal
add_user user s = record s {
  users = λ name. if equal user.username name then some user else s.users name;
}

unfoldable pub remove_user : Bytes → MemorySource → MemorySource
unfolding equal
remove_user username s = record s {
  users = λ name. if equal username name then none else s.users name;
}
