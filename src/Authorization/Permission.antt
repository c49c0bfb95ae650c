-- ===== src/Authorization/Permission.antt =====
-- pkg/authorization/types.go: the permission levels.
use viking_ftpd.Prelude.{Bool, ◌&&◌, ◌||◌, ℤ, pos, negsuc, le_int, eq_int}

-- type Permission int
abbrev pub Permission : Type 0
Permission = ℤ

abbrev pub revoked : Permission
revoked = negsuc 0

abbrev pub read : Permission
read = pos 1

abbrev pub grant_read : Permission
grant_read = pos 2

abbrev pub write : Permission
write = pos 3

abbrev pub grant_write : Permission
grant_write = pos 4

abbrev pub grant_grant : Permission
grant_grant = pos 5

unfoldable pub is_valid : Permission → Bool
is_valid p = eq_int p revoked || (le_int read p && le_int p grant_grant)

unfoldable pub can_read : Permission → Bool
can_read p = le_int read p

unfoldable pub can_write : Permission → Bool
can_write p = le_int write p

unfoldable pub can_grant : Permission → Bool
can_grant p = le_int grant_grant p
