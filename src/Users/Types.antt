-- ===== src/Users/Types.antt =====
-- pkg/users/types.go and errors.go.
use viking_ftpd.Prelude.{Bytes, ℤ, pos}

pub record User : Type 0 where
  pub username : Bytes
  pub password_hash : Bytes
  pub level : ℤ

abbrev pub mortal_first : ℤ
mortal_first = pos 1

abbrev pub junior_arch : ℤ
junior_arch = pos 40

abbrev pub elder : ℤ
elder = pos 42

abbrev pub archwizard : ℤ
archwizard = pos 45

-- What LoadUser may report: the two errors that callers compare with, a read error, a parse error.
pub data LoadError : Type 0 where
  user_not_found invalid_hash unreadable unparsable : LoadError

pub data Loaded {ℓ} (A : Type ℓ) : Type ℓ where
  loaded : A → Loaded A
  not_loaded : LoadError → Loaded A
