-- ===== src/Authentication/Verifiers.antt =====
-- pkg/authentication/multiverifier.go, argon2id.go and unixcrypt.go. The packages crypt, argon2 and
-- base64 are parameters.
pub mod Phc
use viking_ftpd.Prelude.{
  ℕ, suc, ◌+◌, ◌*◌, ◌%◌, ◌^◌, Bool, true, false, not, ◌&&◌, ◌||◌, Option, none, some, List, [], ◌∷◌,
  ◌==◌, if◌then◌else◌, is_nil, ltb, leb, length, get_or, take, drop, Bytes, codes, equal,
  has_prefix, ℤ, pos, negsuc,
}
use viking_ftpd.Paths.{split}
use viking_ftpd.Lpc.Decimal.{atoi}

-- type argon2Params
pub record Argon2Params : Type 0 where
  pub memory : ℕ
  pub time : ℕ
  pub threads : ℕ

abbrev pub default_params : Argon2Params
default_params = record { memory = 64 * 1024; time = 2; threads = 1 }

-- what the verifiers call: crypt.Crypt, argon2.IDKey and the decoder of base64
pub record Algorithms : Type 0 where
  pub crypt : Bytes → Bytes → Option Bytes
  pub id_key : Bytes → Bytes → Argon2Params → ℕ → Bytes
  pub decode : Bytes → Option Bytes

abbrev pub behind_byte : ℕ → Option (Bytes × Bytes) → Option (Bytes × Bytes)
behind_byte c none = none
behind_byte c (some (key, val)) = some (c ∷ key, val)

-- strings.SplitN(kv, "=", 2): the text before the first "=" and behind it; none if there is none
unfoldable pub cut : Bytes → Option (Bytes × Bytes)
cut [] = none
cut (c ∷ s) = let rest = cut s in if c == b'=' then some ([], s) else behind_byte c rest

-- one parameter; a value that is no positive number is passed over
abbrev pub set_memory : Option ℤ → Argon2Params → Argon2Params
set_memory (some (pos (suc n))) params = record params { memory = suc n % 2 ^ 32 }
set_memory _ params = params

abbrev pub set_time : Option ℤ → Argon2Params → Argon2Params
set_time (some (pos (suc n))) params = record params { time = suc n % 2 ^ 32 }
set_time _ params = params

abbrev pub set_threads : Option ℤ → Argon2Params → Argon2Params
set_threads (some (pos (suc n))) params =
    if ltb (suc n) 256 then record params { threads = suc n } else params
set_threads _ params = params

-- the switch on the key
abbrev pub set_param : Option (Bytes × Bytes) → Argon2Params → Argon2Params
set_param none params = params
set_param (some (key, val)) params =
    if equal key (codes "m")
    then set_memory (atoi val) params
    else (if equal key (codes "t")
        then set_time (atoi val) params
        else (if equal key (codes "p") then set_threads (atoi val) params else params))

-- the loop over the parameters
unfoldable pub parse_params : List Bytes → Argon2Params → Argon2Params
unfolding cut atoi equal
parse_params [] params = params
parse_params (kv ∷ rest) params =
    parse_params rest (if is_nil kv then params else set_param (cut kv) params)

-- what parsePHCArgon2ID returns without an error
pub record PhcHash : Type 0 where
  pub params : Argon2Params
  pub salt : Bytes
  pub hash : Bytes

-- the two texts in base64; an empty hash is an error
abbrev pub decoded : Argon2Params → Option Bytes → Option Bytes → Option PhcHash
decoded params (some salt) (some (c ∷ hash)) =
    some (record { params = params; salt = salt; hash = c ∷ hash })
decoded params _ _ = none

-- parts[i] for an index in range
abbrev pub part : List Bytes → ℕ → Bytes
part parts i = get_or parts i []

-- behind the optional version
abbrev pub parse_fields : Algorithms → List Bytes → Bool → ℕ → Option PhcHash
parse_fields alg parts has_version idx =
    if (has_version && ltb (length parts) 6)
      || ((not has_version && ltb (length parts) 5)
          || (leb (length parts) (idx + 1) || leb (length parts) (idx + 2)))
    then none
    else decoded (parse_params (split b',' (part parts idx)) default_params)
        (alg.decode (part parts (idx + 1))) (alg.decode (part parts (idx + 2)))

-- parsePHCArgon2ID; none is an error
unfoldable pub parse_phc : Algorithms → Bytes → Option PhcHash
unfolding split equal has_prefix parse_params
parse_phc alg s =
    let parts = split b'$' s in
    if ltb (length parts) 5 || not (equal (part parts 1) (codes "argon2id"))
    then none
    else (if has_prefix (part parts 2) (codes "v=")
        then (if equal (drop 2 (part parts 2)) (codes "19")
            then parse_fields alg parts true 3
            else none)
        else parse_fields alg parts false 2)

abbrev pub matches : Algorithms → Bytes → Option PhcHash → Bool
matches alg password none = false
matches alg password (some h) = equal (alg.id_key password h.salt h.params (length h.hash)) h.hash

-- Argon2ID.VerifyPassword: true for no error
unfoldable pub verify_argon2 : Algorithms → Bytes → Bytes → Bool
unfolding parse_phc equal
verify_argon2 alg password hashed = matches alg password (parse_phc alg hashed)

abbrev pub is_computed : Option Bytes → Bytes → Bool
is_computed none hashed = false
is_computed (some computed) hashed = equal computed hashed

-- UnixCrypt.VerifyPassword, with the salt in the first two bytes
unfoldable pub verify_unix : Algorithms → Bytes → Bytes → Bool
unfolding equal
verify_unix alg password hashed =
    if ltb (length hashed) 2 then false else is_computed (alg.crypt password (take 2 hashed)) hashed

-- MultiVerifier.VerifyPassword
unfoldable pub verify_password : Algorithms → Bytes → Bytes → Bool
unfolding has_prefix verify_argon2 verify_unix
verify_password alg password hashed =
    if has_prefix hashed (codes "$argon2id$")
    then verify_argon2 alg password hashed
    else verify_unix alg password hashed
