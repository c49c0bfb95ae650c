-- ===== src/Logging/Reader.antt =====
-- pkg/logging/types.go and logger_access.go: what a reader of the access log makes of a line, where a
-- value that begins with a quote ends at the next quote without a backslash before it.
use viking_ftpd.Prelude.{
  ℕ, Bool, false, ◌||◌, Option, none, some, List, [], ◌∷◌, ◌++◌, ◌==◌, if◌then◌else◌, drop, Bytes,
}

-- where the reader stands: in a key, before a value, in a bare one, in quotes, behind a backslash in
-- quotes, behind the closing quote, or behind the line
pub data Place : Type 0 where
  key : Place
  start : Place
  bare : Place
  quoted : Place
  backslash : Place
  closed : Place
  done : Place
  broken : Place

-- behind a value that is not in quotes: a blank, the end of the line, or more of it
abbrev after_bare : ℕ → Place
after_bare c = if c == 32 then key else (if c == 10 then done else bare)

-- the place behind a byte
unfoldable pub next : Place → ℕ → Place
next key c = if c == b'=' then start else key
next start c = if c == 34 then quoted else after_bare c
next bare c = after_bare c
next quoted c = if c == 34 then closed else (if c == 92 then backslash else quoted)
next backslash c = if c == 92 then backslash else quoted
next closed c = if c == 32 then key else (if c == 10 then done else broken)
next done c = broken
next broken c = broken

-- what a byte means: bytes of the text that is being read, or the end of it
pub data Meaning : Type 0 where
  put : Bytes → Meaning
  cut : Meaning

abbrev ends_bare : ℕ → Meaning
ends_bare c = if c == 32 then cut else (if c == 10 then put [] else put (c ∷ []))

unfoldable pub meaning : Place → ℕ → Meaning
meaning key c = if c == b'=' then cut else put (c ∷ [])
meaning start c = if c == 34 then put [] else ends_bare c
meaning bare c = ends_bare c
meaning quoted c = if c == 34 then put [] else (if c == 92 then put [] else put (c ∷ []))
meaning backslash c =
    if c == 34 then put (34 ∷ []) else (if c == 92 then put (92 ∷ []) else put (92 ∷ c ∷ []))
meaning closed c = if c == 32 then cut else put []
meaning done c = put []
meaning broken c = put []

-- the rest of the text that is being read, and the texts behind it
abbrev pub Texts : Type 0
Texts = Option (Bytes × List Bytes)

unfoldable pub prepend : Bytes → Texts → Texts
prepend s none = none
prepend s (some (x, xs)) = some (s ++ x, xs)

unfoldable pub means : Meaning → Texts → Texts
unfolding prepend
means (put s) r = prepend s r
means cut none = none
means cut (some (x, xs)) = some ([], x ∷ xs)

-- a line is read to its end, and no further
unfoldable pub finish : Place → Texts
finish key = none
finish start = none
finish bare = none
finish quoted = none
finish backslash = none
finish closed = none
finish done = some ([], [])
finish broken = none

unfoldable pub read : Place → Bytes → Texts
unfolding next meaning means finish
read p [] = finish p
read p (c ∷ s) = means (meaning p c) (read (next p c) s)

abbrev pub all_texts : Texts → Option (List Bytes)
all_texts none = none
all_texts (some (x, xs)) = some (x ∷ xs)

-- the fields of a line
abbrev pub read_texts : Bytes → Option (List Bytes)
read_texts line = all_texts (read key line)

-- The keys and values of a line, in turn, behind a time of the given length and a blank.
unfoldable pub read_line : ℕ → Bytes → Option (List Bytes)
unfolding read
read_line n line = read_texts (drop 1 (drop n line))

-- no "=" in a key
unfoldable pub has_equals : Bytes → Bool
has_equals [] = false
has_equals (c ∷ s) = c == b'=' || has_equals s

-- whether the last byte is a backslash, or the one before the text if it is empty
unfoldable pub ends_in_backslash : Bool → Bytes → Bool
ends_in_backslash b [] = b
ends_in_backslash b (c ∷ s) = ends_in_backslash (c == 92) s
