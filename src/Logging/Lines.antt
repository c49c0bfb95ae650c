-- ===== src/Logging/Lines.antt =====
-- pkg/logging/types.go, logger_access.go and logger_app.go: the lines that the loggers write. The
-- text that fmt makes of a value, the time and strings.Fields are parameters.
use viking_ftpd.Prelude.{
  ℕ, Bool, false, not, ◌||◌, Option, none, some, List, [], ◌∷◌, ◌++◌, map, ◌==◌, if◌then◌else◌,
  is_nil, leb, Bytes, codes, equal,
}
use viking_ftpd.Logging.RotatingWriter.{LogFiles, RotatingWriter, close_writer}

-- strings.ReplaceAll for "\n", "\r" and "\t" by a blank
abbrev pub neutral : ℕ → ℕ
neutral c = if c == 10 || (c == 13 || c == 9) then 32 else c

unfoldable pub neutralized : Bytes → Bytes
neutralized [] = []
neutralized (c ∷ s) = neutral c ∷ neutralized s

-- strings.ContainsAny(s, " =\"")
unfoldable pub needs_quotes : Bytes → Bool
needs_quotes [] = false
needs_quotes (c ∷ s) = (c == 32 || (c == b'=' || c == 34)) || needs_quotes s

-- a backslash before each quote
unfoldable pub escaped : Bytes → Bytes
escaped [] = []
escaped (c ∷ s) = let rest = escaped s in if c == 34 then 92 ∷ 34 ∷ rest else c ∷ rest

-- formatValue on the text of a value
unfoldable pub format_value : Bytes → Bytes
unfolding neutralized needs_quotes escaped
format_value text =
    let s = neutralized text in if needs_quotes s then (34 ∷ escaped s) ++ 34 ∷ [] else s

-- fmt.Sprintf("%s=%s", key, formatValue(value))
abbrev pub pair : Bytes → Bytes → Bytes
pair key value = key ++ b'=' ∷ format_value value

-- the loop over the details: a last key without a value is left out
unfoldable pub pairs : List Bytes → List Bytes
pairs [] = []
pairs (key ∷ []) = []
pairs (key ∷ value ∷ rest) = pair key value ∷ pairs rest

-- strings.Join(parts, " ")
unfoldable pub joined : List Bytes → Bytes
joined [] = []
joined (x ∷ []) = x
joined (x ∷ y ∷ rest) = x ++ 32 ∷ joined (y ∷ rest)

-- a field that is left out if it is empty
abbrev pub optional : Bytes → Bytes → List Bytes
optional key value = if is_nil value then [] else pair key value ∷ []

-- `"%s %s"` of the time and the parts, with the end of the line
abbrev pub ended : Bytes → List Bytes → Bytes
ended timestamp parts = timestamp ++ (32 ∷ (joined parts ++ (10 ∷ [])))

-- LogAccess: the line, with the end that the package log puts behind it
unfoldable pub log_access : Bytes → Bytes → Bytes → Bytes → Bytes → List Bytes → Bytes
unfolding pairs joined
log_access timestamp operation user path status details = ended timestamp (
    pair (codes "op") operation
    ∷ (optional (codes "user") user
        ++ (optional (codes "path") path ++ (pair (codes "status") status ∷ pairs details))))

-- LogAuth
unfoldable pub log_auth : Bytes → Bytes → Bytes → Bytes → List Bytes → Bytes
unfolding pairs joined
log_auth timestamp operation user status details = ended timestamp (
    pair (codes "op") operation
    ∷ (optional (codes "user") user ++ (pair (codes "status") status ∷ pairs details)))

-- the levels of shouldLog; an unknown one counts as debug
unfoldable pub level_number : Bytes → ℕ
level_number level =
    if equal level (codes "info")
    then 1
    else (if equal level (codes "warn")
        then 2
        else (if equal level (codes "error")
            then 3
            else (if equal level (codes "panic") then 4 else 0)))

abbrev pub should_log : Bytes → Bytes → Bool
should_log own level = leb (level_number own) (level_number level)

-- AppLogger.IsDebug
abbrev pub is_debug : Bytes → Bool
is_debug own = equal own (codes "debug")

-- toString: the control characters, and then a single blank between words
abbrev pub to_string : (Bytes → List Bytes) → Bytes → Bytes
to_string fields text = joined (fields (neutralized text))

-- AppLogger.log: none where the level is below the logger's
unfoldable pub log_app :
    (Bytes → List Bytes) → Bytes → Bytes → Bytes → Bytes → List Bytes → Option Bytes
unfolding pairs joined level_number
log_app fields timestamp own level message keyvals =
    if not (should_log own level)
    then none
    else some (
        timestamp
        ++ (32
            ∷ (level
                ++ (codes ": "
                    ++ (message
                        ++ (32
                            ∷ (joined (pairs (map (to_string fields) keyvals)) ++ (10 ∷ []))))))))

-- Debug, Info, Warn, Error and Panic; With gives the same logger
abbrev pub log_debug : (Bytes → List Bytes) → Bytes → Bytes → Bytes → List Bytes → Option Bytes
log_debug fields timestamp own = log_app fields timestamp own (codes "debug")

abbrev pub log_info : (Bytes → List Bytes) → Bytes → Bytes → Bytes → List Bytes → Option Bytes
log_info fields timestamp own = log_app fields timestamp own (codes "info")

abbrev pub log_warn : (Bytes → List Bytes) → Bytes → Bytes → Bytes → List Bytes → Option Bytes
log_warn fields timestamp own = log_app fields timestamp own (codes "warn")

abbrev pub log_error : (Bytes → List Bytes) → Bytes → Bytes → Bytes → List Bytes → Option Bytes
log_error fields timestamp own = log_app fields timestamp own (codes "error")

abbrev pub log_panic : (Bytes → List Bytes) → Bytes → Bytes → Bytes → List Bytes → Option Bytes
log_panic fields timestamp own = log_app fields timestamp own (codes "panic")

-- Close of both loggers: nothing without a file; none is a panic
abbrev pub as_writer : {W F : Type 0} → Option (F × W) → Option (Option F × W)
as_writer none = none
as_writer (some (w, d)) = some (some w, d)

abbrev pub close_logger :
    {W F I E : Type 0}
    → LogFiles W F I E
    → Option (RotatingWriter F)
    → W
    → Option (Option (RotatingWriter F) × W)
close_logger fs none d = some (none, d)
close_logger fs (some w) d = as_writer (close_writer fs w d)
