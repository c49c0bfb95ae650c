-- ===== src/Authentication/Authenticator.antt =====
-- pkg/authentication/authenticator.go. The source of users and the interface PasswordHashVerifier are
-- functions; the calls of the verifier are part of the result.
use viking_ftpd.Prelude.{
  ◌≡◌, refl, ap, sym, ◌∙◌, ◌↔◌, Bool, true, false, Option, none, some, List, [], ◌∷◌, Bytes, codes,
  Bool-cases, inl, inr,
}
use viking_ftpd.Users.Types.{User, Loaded, loaded, not_loaded}

-- `answer` is none for ErrInvalidCredentials; `verified` lists the passwords and hashes that the
-- verifier was called with.
pub record Attempt : Type 0 where
  pub answer : Option User
  pub verified : List (Bytes × Bytes)

abbrev pub dummy_hash : Bytes
dummy_hash = codes "$2a$10$N9qo8uLOickgx2ZMRZoMye1NW8k3xPGLhpMeE.f0aK5bPHQu3CcI2"

abbrev pub hash_of : Loaded User → Bytes
hash_of (loaded user) = user.password_hash
hash_of (not_loaded e) = dummy_hash

-- `userExists && passwordErr == nil`
abbrev pub accepted : Loaded User → Bool → Option User
accepted (loaded user) true = some user
accepted _ _ = none

unfoldable pub authenticate :
    (Bytes → Loaded User) → (Bytes → Bytes → Bool) → Bytes → Bytes → Attempt
authenticate load_user verify username password =
    let found = load_user username in
    let hash = hash_of found in
    record { answer = accepted found (verify password hash); verified = (password, hash) ∷ [] }

accepted-loaded :
    (found : Loaded User) (user : User) (password : Bytes) (verify : Bytes → Bytes → Bool)
    → (accepted found (verify password (hash_of found)) ≡ some user)
      ↔ ((found ≡ loaded user) × (verify password user.password_hash ≡ true))
accepted-loaded (not_loaded e) user password verify =
    (λ h. absurd (cc), λ h. absurd (let x = h.0 in cc))
accepted-loaded (loaded u) user password verify =
    elim (Bool-cases (verify password u.password_hash)) [
      | inl right ↦ rw right (
        λ h.
            let same : u ≡ user = cc in
            (ap loaded same, ap (λ x. verify password x.password_hash) (sym same) ∙ right),
        λ h. let same : loaded u ≡ loaded user = h.0 in cc,
      )
      | inr wrong ↦ rw wrong (
        λ h. absurd (cc),
        λ h. absurd (
            let at : loaded u ≡ loaded user = h.0 in
            let same : u ≡ user = cc in
            let no : verify password user.password_hash ≡ false =
              ap (λ x. verify password x.password_hash) (sym same) ∙ wrong in
            let yes_ = h.1 in cc),
      )
    ]

-- A client is let in as a user exactly if the source has that user under the given name and the
-- verifier accepts the password for the user's hash; and whatever the outcome, the verifier is
-- called once, with the given password.
pub authenticate_lem :
    (load_user : Bytes → Loaded User) (verify : Bytes → Bytes → Bool) (username password : Bytes)
    (user : User)
    → (((authenticate load_user verify username password).answer ≡ some user)
        ↔ ((load_user username ≡ loaded user) × (verify password user.password_hash ≡ true)))
      × ((hash : Bytes) × ((authenticate load_user verify username password).verified
            ≡ (password, hash) ∷ []))
unfolding authenticate
authenticate_lem load_user verify username password user =
    (accepted-loaded (load_user username) user password verify, (_, refl))
