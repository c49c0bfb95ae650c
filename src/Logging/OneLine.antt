-- ===== src/Logging/OneLine.antt =====
-- pkg/logging/types.go and logger_access.go: no value splits a line of the access log.
use mathlib.Core.List.{append_assoc}
use viking_ftpd.Prelude.{
  ℕ, ◌≡◌, refl, sym, arith, Bool, false, ◌||◌, List, [], ◌∷◌, ◌++◌, ◌==◌, Bytes, codes, All,
  Bool-cases, inl, inr,
}
use viking_ftpd.Logging.Lines.{
  neutral, neutralized, needs_quotes, escaped, format_value, pair, pairs, joined, ended, optional,
  log_access, log_auth,
}

-- "\n", "\r" or "\t"
abbrev pub is_control : ℕ → Bool
is_control c = c == 10 || (c == 13 || c == 9)

-- a text without these
abbrev pub IsPlain : Bytes → Type 0
IsPlain = All (λ c. is_control c ≡ false)

neutral_lem : (c : ℕ) → is_control (neutral c) ≡ false
neutral_lem c = ground arith

neutralized-IsPlain : (s : Bytes) → IsPlain (neutralized s)
unfolding neutralized
neutralized-IsPlain [] = tt
neutralized-IsPlain (c ∷ s) = (neutral_lem c, neutralized-IsPlain s)

append-IsPlain : (x y : Bytes) → IsPlain x → IsPlain y → IsPlain (x ++ y)
append-IsPlain [] y h k = k
append-IsPlain (c ∷ x) y (h, hs) k = (h, append-IsPlain x y hs k)

escaped-IsPlain : (s : Bytes) → IsPlain s → IsPlain (escaped s)
unfolding escaped
escaped-IsPlain [] h = tt
escaped-IsPlain (c ∷ s) (h, hs) = elim (Bool-cases (c == 34)) [
  | inl quote ↦ rw quote (refl, (refl, escaped-IsPlain s hs))
  | inr other ↦ rw other (h, escaped-IsPlain s hs)
]

format_value-IsPlain : (s : Bytes) → IsPlain (format_value s)
unfolding format_value
format_value-IsPlain s =
    let plain = neutralized-IsPlain s in
    elim (Bool-cases (needs_quotes (neutralized s))) [
      | inl quoted ↦ rw quoted (
        refl,
        append-IsPlain (escaped (neutralized s)) (34 ∷ []) (escaped-IsPlain (neutralized s) plain)
            (refl, tt),
      )
      | inr bare ↦ rw bare plain
    ]

pair-IsPlain : (key value : Bytes) → IsPlain key → IsPlain (pair key value)
pair-IsPlain key value h =
    append-IsPlain key (b'=' ∷ format_value value) h (refl, format_value-IsPlain value)

-- The keys of the details are plain; the program writes them as literals.
abbrev pub HasPlainKeys : List Bytes → Type 0
HasPlainKeys [] = Unit
HasPlainKeys (key ∷ []) = Unit
HasPlainKeys (key ∷ value ∷ rest) = IsPlain key × HasPlainKeys rest

pairs-IsPlain : (details : List Bytes) → HasPlainKeys details → All IsPlain (pairs details)
unfolding pairs
pairs-IsPlain [] h = tt
pairs-IsPlain (key ∷ []) h = tt
pairs-IsPlain (key ∷ value ∷ rest) (h, hs) = (pair-IsPlain key value h, pairs-IsPlain rest hs)

joined-IsPlain : (xs : List Bytes) → All IsPlain xs → IsPlain (joined xs)
unfolding joined
joined-IsPlain [] h = tt
joined-IsPlain (x ∷ []) (h, hs) = h
joined-IsPlain (x ∷ y ∷ rest) (h, hs) =
    append-IsPlain x (32 ∷ joined (y ∷ rest)) h (refl, joined-IsPlain (y ∷ rest) hs)

optional-IsPlain :
    (key value : Bytes) (rest : List Bytes)
    → IsPlain key
    → All IsPlain rest
    → All IsPlain (optional key value ++ rest)
optional-IsPlain key [] rest h k = k
optional-IsPlain key (c ∷ value) rest h k = (pair-IsPlain key (c ∷ value) h, k)

-- one line: a plain text and the end of the line
abbrev pub IsOneLine : Bytes → Type 0
IsOneLine line = (body : Bytes) × (line ≡ body ++ (10 ∷ [])) × IsPlain body

line-IsOneLine :
    (timestamp : Bytes) (parts : List Bytes)
    → IsPlain timestamp
    → All IsPlain parts
    → IsOneLine (ended timestamp parts)
line-IsOneLine timestamp parts h k = (
  timestamp ++ (32 ∷ joined parts),
  sym (append_assoc timestamp (32 ∷ joined parts) (10 ∷ [])),
  append-IsPlain timestamp (32 ∷ joined parts) h (refl, joined-IsPlain parts k),
)

-- Whatever bytes a client puts into a name, a path or another value, each call of LogAccess and of
-- LogAuth writes exactly one line: the line ends where its text ends, and no line break, carriage
-- return or tab stands in it before, if none stands in the time and in the keys of the details.
pub log-IsOneLine :
    (timestamp operation user path status : Bytes) (details : List Bytes)
    → IsPlain timestamp
    → HasPlainKeys details
    → IsOneLine (log_access timestamp operation user path status details)
      × IsOneLine (log_auth timestamp operation user status details)
unfolding log_access log_auth
log-IsOneLine timestamp operation user path status details h k =
    let op : IsPlain (pair (codes "op") operation) =
      pair-IsPlain (codes "op") operation (refl, (refl, tt)) in
    let ends : All IsPlain (pair (codes "status") status ∷ pairs details) = (
      pair-IsPlain (codes "status") status (refl, (refl, (refl, (refl, (refl, (refl, tt)))))),
      pairs-IsPlain details k,
    ) in
    let user_key : IsPlain (codes "user") = (refl, (refl, (refl, (refl, tt)))) in
    let path_key : IsPlain (codes "path") = (refl, (refl, (refl, (refl, tt)))) in
    (
      line-IsOneLine timestamp
          (pair (codes "op") operation
            ∷ (optional (codes "user") user
                ++ (optional (codes "path") path
                    ++ (pair (codes "status") status ∷ pairs details))))
          h
          (
            op,
            optional-IsPlain (codes "user") user _ user_key
                (optional-IsPlain (codes "path") path _ path_key ends),
          ),
      line-IsOneLine timestamp
          (pair (codes "op") operation
            ∷ (optional (codes "user") user ++ (pair (codes "status") status ∷ pairs details)))
          h (op, optional-IsPlain (codes "user") user _ user_key ends),
    )
