-- ===== src/Authentication/Verifiers/Phc.antt =====
-- pkg/authentication/argon2id.go: the PHC format, as its comment gives it, against the parser.
use viking_ftpd.Prelude.{
  ℕ, zero, suc, ◌%◌, ◌^◌, ◌<◌, ◌≤◌, ◌≡◌, refl, ap, ◌∙◌, arith, Bool, true, false, ◌||◌, some, List,
  [], ◌∷◌, ◌++◌, ◌==◌, if_true, ltb, length, Bytes, codes, equal, has_prefix, pos, All,
}
use viking_ftpd.Paths.{split}
use viking_ftpd.Lpc.Cursor.{is_digit}
use viking_ftpd.Lpc.Decimal.{itoa}
use viking_ftpd.Lpc.DecimalRoundtrip.{AreDigits, itoa-AreDigits, atoi-itoa}
use viking_ftpd.Authentication.Verifiers.{
  Argon2Params, default_params, Algorithms, cut, set_memory, set_time, set_threads, parse_params,
  parse_phc, matches, verify_argon2, verify_password,
}

-- strings.Join
abbrev pub join_with : ℕ → List Bytes → Bytes
join_with sep [] = []
join_with sep (x ∷ []) = x
join_with sep (x ∷ y ∷ rest) = x ++ sep ∷ join_with sep (y ∷ rest)

-- the byte is in the text
unfoldable pub has_byte : ℕ → Bytes → Bool
has_byte sep [] = false
has_byte sep (c ∷ s) = c == sep || has_byte sep s

split-last : (sep : ℕ) (x : Bytes) → has_byte sep x ≡ false → split sep x ≡ x ∷ []
unfolding split has_byte
split-last sep [] h = refl
split-last sep (c ∷ x) h = ground (arith, split-last sep x)

split-first :
    (sep : ℕ) (x rest : Bytes)
    → has_byte sep x ≡ false
    → split sep (x ++ sep ∷ rest) ≡ x ∷ split sep rest
unfolding split has_byte
split-first sep [] rest h = ground arith
split-first sep (c ∷ x) rest h = ground (arith, split-first sep x rest)

split-join_with :
    (sep : ℕ) (x : Bytes) (xs : List Bytes)
    → All (λ t. has_byte sep t ≡ false) (x ∷ xs)
    → split sep (join_with sep (x ∷ xs)) ≡ x ∷ xs
split-join_with sep x [] (h, hs) = split-last sep x h
split-join_with sep x (y ∷ rest) (h, hs) =
    split-first sep x (join_with sep (y ∷ rest)) h ∙ ap (λ t. x ∷ t) (split-join_with sep y rest hs)

has_byte-append :
    (sep : ℕ) (x y : Bytes)
    → has_byte sep x ≡ false
    → has_byte sep y ≡ false
    → has_byte sep (x ++ y) ≡ false
unfolding has_byte
has_byte-append sep [] y h k = k
has_byte-append sep (c ∷ x) y h k = ground (arith, has_byte-append sep x y)

digits-has_byte :
    (sep : ℕ) (s : Bytes) → is_digit sep ≡ false → AreDigits s → has_byte sep s ≡ false
unfolding has_byte is_digit
digits-has_byte sep [] h k = refl
digits-has_byte sep (c ∷ s) h (k, ks) = ground (arith, digits-has_byte sep s h ks)

-- a number of the format
abbrev pub number : ℕ → Bytes
number n = itoa (pos n)

-- the three parameters as they are written
abbrev pub printed : Argon2Params → List Bytes
printed p =
    (codes "m=" ++ number p.memory)
    ∷ (codes "t=" ++ number p.time)
    ∷ (codes "p=" ++ number p.threads)
    ∷ []

-- the text of a hash, with the salt and the hash in base64
unfoldable pub print_phc : Argon2Params → Bytes → Bytes → Bytes
print_phc p salt hash =
    join_with b'$'
      ([] ∷ codes "argon2id" ∷ codes "v=19" ∷ join_with b',' (printed p) ∷ salt ∷ hash ∷ [])

-- the numbers that the format allows
pub record InRange (p : Argon2Params) : Type 0 where
  pub memory : (1 ≤ p.memory) × (p.memory < 2 ^ 32)
  pub time : (1 ≤ p.time) × (p.time < 2 ^ 32)
  pub threads : (1 ≤ p.threads) × (p.threads < 256)

set_memory-some :
    (n : ℕ) (p : Argon2Params)
    → 1 ≤ n
    → n < 2 ^ 32
    → set_memory (some (pos n)) p ≡ record p { memory = n }
set_memory-some zero p h k = absurd (omega arith)
set_memory-some (suc n) p h k =
    let same : suc n % 2 ^ 32 ≡ suc n = omega arith in ap (λ m. record p { memory = m }) same

set_time-some :
    (n : ℕ) (p : Argon2Params)
    → 1 ≤ n
    → n < 2 ^ 32
    → set_time (some (pos n)) p ≡ record p { time = n }
set_time-some zero p h k = absurd (omega arith)
set_time-some (suc n) p h k =
    let same : suc n % 2 ^ 32 ≡ suc n = omega arith in ap (λ m. record p { time = m }) same

set_threads-some :
    (n : ℕ) (p : Argon2Params)
    → 1 ≤ n
    → n < 256
    → set_threads (some (pos n)) p ≡ record p { threads = n }
set_threads-some zero p h k = absurd (omega arith)
set_threads-some (suc n) p h k =
    let small : ltb (suc n) 256 ≡ true = ground arith in
    if_true small (record p { threads = suc n }) p

parse_params-print : (p q : Argon2Params) → InRange p → parse_params (printed p) q ≡ p
unfolding parse_params cut equal
parse_params-print p q r =
    let m = atoi-itoa p.memory (omega (arith, r.memory.1)) in
    let t = atoi-itoa p.time (omega (arith, r.time.1)) in
    let n = atoi-itoa p.threads (omega (arith, r.threads.1)) in
    rw (m, t, n, set_memory-some p.memory q r.memory.0 r.memory.1)
      (ap (set_threads (some (pos p.threads)))
          (set_time-some p.time (record q { memory = p.memory }) r.time.0 r.time.1)
        ∙ set_threads-some p.threads (record q { memory = p.memory; time = p.time }) r.threads.0
            r.threads.1)

-- a parameter of two bytes and a number lacks a byte
param-has_byte :
    (sep : ℕ) (key : Bytes) (n : ℕ)
    → is_digit sep ≡ false
    → has_byte sep key ≡ false
    → has_byte sep (key ++ number n) ≡ false
param-has_byte sep key n h k =
    has_byte-append sep key (number n) k (digits-has_byte sep (number n) h (itoa-AreDigits n))

printed-has_byte : (p : Argon2Params) → has_byte b'$' (join_with b',' (printed p)) ≡ false
unfolding has_byte is_digit
printed-has_byte p =
    has_byte-append b'$' (codes "m=" ++ number p.memory) _
      (param-has_byte b'$' (codes "m=") p.memory refl refl)
      (has_byte-append b'$' (codes "t=" ++ number p.time) _
        (param-has_byte b'$' (codes "t=") p.time refl refl)
        (param-has_byte b'$' (codes "p=") p.threads refl refl))

split-printed : (p : Argon2Params) → split b',' (join_with b',' (printed p)) ≡ printed p
unfolding has_byte is_digit
split-printed p =
    split-join_with b',' (codes "m=" ++ number p.memory)
      ((codes "t=" ++ number p.time) ∷ (codes "p=" ++ number p.threads) ∷ [])
      (
        param-has_byte b',' (codes "m=") p.memory refl refl,
        (
          param-has_byte b',' (codes "t=") p.time refl refl,
          (param-has_byte b',' (codes "p=") p.threads refl refl, tt),
        ),
      )

split-print_phc :
    (p : Argon2Params) (salt hash : Bytes)
    → has_byte b'$' salt ≡ false
    → has_byte b'$' hash ≡ false
    → split b'$' (print_phc p salt hash)
      ≡ [] ∷ codes "argon2id" ∷ codes "v=19" ∷ join_with b',' (printed p) ∷ salt ∷ hash ∷ []
unfolding print_phc has_byte
split-print_phc p salt hash h k =
    split-join_with b'$' []
      (codes "argon2id" ∷ codes "v=19" ∷ join_with b',' (printed p) ∷ salt ∷ hash ∷ [])
      (refl, (refl, (refl, (printed-has_byte p, (h, (k, tt))))))

parse_phc-print_phc :
    (alg : Algorithms) (p : Argon2Params) (salt hash salt_bytes : Bytes) (c : ℕ)
    (hash_bytes : Bytes)
    → InRange p
    → has_byte b'$' salt ≡ false
    → has_byte b'$' hash ≡ false
    → alg.decode salt ≡ some salt_bytes
    → alg.decode hash ≡ some (c ∷ hash_bytes)
    → parse_phc alg (print_phc p salt hash)
      ≡ some (record { params = p; salt = salt_bytes; hash = c ∷ hash_bytes })
unfolding parse_phc has_prefix equal
parse_phc-print_phc alg p salt hash salt_bytes c hash_bytes r h k ds dh =
    rw
      (
        split-print_phc p salt hash h k,
        ds,
        dh,
        split-printed p,
        parse_params-print p default_params r,
      )
      refl

prefix-print_phc :
    (p : Argon2Params) (salt hash : Bytes)
    → has_prefix (print_phc p salt hash) (codes "$argon2id$") ≡ true
unfolding has_prefix print_phc
prefix-print_phc p salt hash = refl

-- A password is accepted against a hash in the PHC format exactly if argon2 derives the hash's bytes
-- from it with the salt, the parameters and the length that the text gives: the multi-verifier sends
-- such a text to the Argon2id verifier, and the parser reads back what the format's printer writes,
-- for memory and time below 2^32 and at most 255 threads.
pub verify_password-print_phc :
    (alg : Algorithms) (password : Bytes) (p : Argon2Params) (salt hash salt_bytes : Bytes) (c : ℕ)
    (hash_bytes : Bytes)
    → InRange p
    → has_byte b'$' salt ≡ false
    → has_byte b'$' hash ≡ false
    → alg.decode salt ≡ some salt_bytes
    → alg.decode hash ≡ some (c ∷ hash_bytes)
    → verify_password alg password (print_phc p salt hash)
      ≡ equal (alg.id_key password salt_bytes p (length (c ∷ hash_bytes))) (c ∷ hash_bytes)
unfolding verify_password verify_argon2
verify_password-print_phc alg password p salt hash salt_bytes c hash_bytes r h k ds dh =
    if_true (prefix-print_phc p salt hash) (verify_argon2 alg password (print_phc p salt hash)) _
    ∙ ap (matches alg password)
        (parse_phc-print_phc alg p salt hash salt_bytes c hash_bytes r h k ds dh)
