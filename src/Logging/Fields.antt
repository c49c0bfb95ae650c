-- ===== src/Logging/Fields.antt =====
-- pkg/logging/logger_access.go: the fields of an access line, and what a reader gets of them.
use viking_ftpd.Prelude.{
  ◌≡◌, refl, ap, ◌∙◌, false, some, List, [], ◌∷◌, ◌++◌, map, if◌then◌else◌, is_nil, length, drop,
  drop-append, Bytes, codes, All,
}
use mathlib.Core.List.{append_assoc, append-nil}
use viking_ftpd.Logging.Lines.{
  neutralized, format_value, pair, pairs, joined, ended, optional, log_access, log_auth,
}
use viking_ftpd.Logging.Reader.{
  key, next, meaning, cut, Texts, prepend, means, finish, read, all_texts, read_texts, read_line,
  has_equals, ends_in_backslash,
}
use viking_ftpd.Logging.Values.{read-key, IsEnd, read-value}

abbrev pub Entry : Type 0
Entry = Bytes × Bytes

-- the fields of a call, in the order of the line: those of the user and the path only if there are
-- any, and a last key without a value not at all
abbrev present : Bytes → Bytes → List Entry
present k v = if is_nil v then [] else (k, v) ∷ []

unfoldable pub paired : List Bytes → List Entry
paired [] = []
paired (k ∷ []) = []
paired (k ∷ v ∷ rest) = (k, v) ∷ paired rest

unfoldable pub access_entries : Bytes → Bytes → Bytes → Bytes → List Bytes → List Entry
unfolding paired
access_entries operation user path status details =
    (codes "op", operation)
    ∷ (present (codes "user") user
        ++ (present (codes "path") path ++ ((codes "status", status) ∷ paired details)))

unfoldable pub auth_entries : Bytes → Bytes → Bytes → List Bytes → List Entry
unfolding paired
auth_entries operation user status details =
    (codes "op", operation)
    ∷ (present (codes "user") user ++ ((codes "status", status) ∷ paired details))

-- the keys and the values, in turn, with blanks for control characters in a value
unfoldable pub texts : List Entry → List Bytes
unfolding neutralized
texts [] = []
texts ((k, v) ∷ es) = k ∷ neutralized v ∷ texts es

-- a value without a backslash at its end, behind a key without "="
abbrev pub IsUnescaped : Bytes → Type 0
IsUnescaped v = ends_in_backslash false v ≡ false

abbrev pub IsReadable : Entry → Type 0
IsReadable e = (has_equals e.0 ≡ false) × IsUnescaped e.1

read-pair :
    (k v t : Bytes) (ws : List Bytes)
    → IsReadable (k, v)
    → IsEnd t (some ([], ws))
    → read key (pair k v ++ t) ≡ some (k, neutralized v ∷ ws)
unfolding prepend means
read-pair k v t ws h e =
    ap (read key) (append_assoc k (61 ∷ format_value v) t)
    ∙ read-key k (format_value v ++ t) h.0
    ∙ ap (λ (r : Texts). prepend k (means cut r)) (read-value v t _ e h.1)
    ∙ ap (λ (x : Bytes). some (k ++ [], x ∷ ws)) (append-nil (neutralized v))
    ∙ ap (λ (x : Bytes). some (x, neutralized v ∷ ws)) (append-nil k)

abbrev written : Entry → Bytes
written e = pair e.0 e.1

read-entries :
    (k v : Bytes) (es : List Entry)
    → IsReadable (k, v)
    → All IsReadable es
    → read key (joined (map written ((k, v) ∷ es)) ++ (10 ∷ []))
      ≡ some (k, neutralized v ∷ texts es)
unfolding read next meaning prepend means finish joined texts
read-entries k v [] h hs = read-pair k v (10 ∷ []) [] h (refl, refl, refl)
read-entries k v ((l, w) ∷ es) h hs =
    let rest = joined (map written ((l, w) ∷ es)) in
    let later = read-entries l w es hs.0 hs.1 in
    let end = ap (means cut) later in
    ap (read key) (append_assoc (pair k v) (32 ∷ rest) (10 ∷ []))
    ∙ read-pair k v (32 ∷ (rest ++ (10 ∷ []))) (l ∷ neutralized w ∷ texts es) h (end, end, end)

written-paired : (details : List Bytes) → pairs details ≡ map written (paired details)
unfolding pairs paired
written-paired [] = refl
written-paired (k ∷ []) = refl
written-paired (k ∷ v ∷ rest) = ap (λ xs. pair k v ∷ xs) (written-paired rest)

written-present :
    (k v : Bytes) (xs : List Bytes) (es : List Entry)
    → xs ≡ map written es
    → optional k v ++ xs ≡ map written (present k v ++ es)
written-present k [] xs es h = h
written-present k (c ∷ v) xs es h = ap (λ ys. pair k (c ∷ v) ∷ ys) h

present-IsReadable :
    (k v : Bytes) (es : List Entry)
    → IsReadable (k, v)
    → All IsReadable es
    → All IsReadable (present k v ++ es)
present-IsReadable k [] es h hs = hs
present-IsReadable k (c ∷ v) es h hs = (h, hs)

read_line-ended :
    (timestamp k v : Bytes) (xs : List Bytes) (es : List Entry)
    → xs ≡ map written es
    → IsReadable (k, v)
    → All IsReadable es
    → read_line (length timestamp) (ended timestamp (pair k v ∷ xs)) ≡ some (texts ((k, v) ∷ es))
unfolding read_line texts
read_line-ended timestamp k v xs es e h hs =
    ap (λ (x : Bytes). read_texts (drop 1 x)) (drop-append timestamp _)
    ∙ ap (λ (ys : List Bytes). read_texts (joined (pair k v ∷ ys) ++ (10 ∷ []))) e
    ∙ ap all_texts (read-entries k v es h hs)

-- The access log can be read back: where no value ends in a backslash and no key of the details
-- holds "=", a reader that ends a quoted value at the first quote without a backslash before it gets
-- from each line of LogAccess and of LogAuth the fields of the call, each with its whole value, in
-- order and no other, with blanks for the control characters in a value.
pub log-read_line :
    (timestamp operation user path status : Bytes) (details : List Bytes)
    → All IsUnescaped (operation ∷ user ∷ path ∷ status ∷ [])
    → All IsReadable (paired details)
    → (read_line (length timestamp) (log_access timestamp operation user path status details)
        ≡ some (texts (access_entries operation user path status details)))
      × (read_line (length timestamp) (log_auth timestamp operation user status details)
          ≡ some (texts (auth_entries operation user status details)))
unfolding log_access log_auth access_entries auth_entries has_equals
log-read_line timestamp operation user path status details (o, (u, (p, (s, hs)))) k =
    let ends = ap (λ xs. pair (codes "status") status ∷ xs) (written-paired details) in
    let all_paths = present-IsReadable (codes "path") path _ (refl, p) ((refl, s), k) in
    (
      read_line-ended timestamp (codes "op") operation _ _
          (written-present (codes "user") user _ _ (written-present (codes "path") path _ _ ends))
          (refl, o) (present-IsReadable (codes "user") user _ (refl, u) all_paths),
      read_line-ended timestamp (codes "op") operation _ _
          (written-present (codes "user") user _ _ ends) (refl, o)
          (present-IsReadable (codes "user") user _ (refl, u) ((refl, s), k)),
    )
