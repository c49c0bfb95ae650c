-- ===== src/Authentication/Tests.antt =====
-- The authenticator at concrete inputs.
use viking_ftpd.Prelude.{refl, arith, ◌++◌, ◌≡◌, ◌↔◌, true, some, [], ◌∷◌, Bytes, codes, equal, pos}
use viking_ftpd.Users.Types.{User, loaded}
use viking_ftpd.Authentication.Verifiers.{Argon2Params, Algorithms, verify_password}
use viking_ftpd.Authentication.Verifiers.Phc.{
  print_phc, has_byte, InRange, verify_password-print_phc,
}
use viking_ftpd.Authentication.Authenticator.{authenticate, authenticate_lem}

abbrev frogo : User
frogo = record { username = codes "frogo"; password_hash = codes "x"; level = pos 31 }

authenticate_lem_example :
    (((authenticate (λ _. loaded frogo) equal (codes "frogo") (codes "x")).answer ≡ some frogo)
      ↔ ((loaded frogo ≡ loaded frogo) × (equal (codes "x") (codes "x") ≡ true)))
    × ((hash : Bytes) × ((authenticate
            (λ _. loaded frogo)
            equal
            (codes "frogo")
            (codes "x")).verified
          ≡ (codes "x", hash) ∷ []))
authenticate_lem_example =
    authenticate_lem (λ _. loaded frogo) equal (codes "frogo") (codes "x") frogo

-- a key that is only the password with the salt before it, and no base64
abbrev plain : Algorithms
plain = record {
  crypt = λ password salt. some (salt ++ password);
  id_key = λ password salt params n. salt ++ password;
  decode = λ text. some text;
}

abbrev usual : Argon2Params
usual = record { memory = 65536; time = 2; threads = 1 }

usual-InRange : InRange usual
usual-InRange = record {
  memory = (omega arith, omega arith);
  time = (omega arith, omega arith);
  threads = (omega arith, omega arith);
}

verify_password-print_phc_example :
    verify_password plain (codes "b") (print_phc usual (codes "a") (codes "ab"))
    ≡ equal (codes "ab") (codes "ab")
unfolding has_byte
verify_password-print_phc_example =
    verify_password-print_phc plain (codes "b") usual (codes "a") (codes "ab") (codes "a") b'a'
      (codes "b") usual-InRange refl refl refl refl
