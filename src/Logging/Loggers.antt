-- ===== src/Logging/Loggers.antt =====
-- pkg/logging/types.go, with the constructors of logger_app.go and logger_access.go: the global
-- loggers. filepath.Dir, filepath.Base and the text for an archive's name are parameters.
pub mod Handles
use viking_ftpd.Prelude.{
  ℕ, suc, ◌+◌, ◌≡◌, refl, sym, ap, ◌∙◌, arith, Option, none, some, if◌then◌else◌, is_nil, Bytes,
  codes, Bool, true, false,
}
use viking_ftpd.Vfs.Session.{Outcome, ok, err}
use viking_ftpd.Logging.RotatingWriter.{LogFiles, RotatingWriter, new_writer}
use viking_ftpd.Logging.Lines.{close_logger}

-- type AppLogger, and accessLogger, which is its writer
pub record AppLogger (F : Type 0) : Type 0 where
  pub level : Bytes
  pub writer : Option (RotatingWriter F)

-- the variables App and Access
pub record Globals (F : Type 0) : Type 0 where
  pub app : AppLogger F
  pub access : Option (RotatingWriter F)

-- the package's init: loggers without a file
abbrev pub initial : {F : Type 0} → Globals F
initial = record { app = record { level = codes "info"; writer = none }; access = none }

module _ {W F I E : Type 0} (fs : LogFiles W F I E) (dirname basename : Bytes → Bytes)
    (t : Bytes) where
  abbrev pub writer_of :
      Outcome E (Unit {0}) × (RotatingWriter F × W) → Outcome E (Option (RotatingWriter F)) × W
  writer_of (err e, (w, d)) = (err e, d)
  writer_of (ok x, (w, d)) = (ok (some w), d)

  -- NewAccessLogger, and NewAppLogger without its level: no file for an empty path
  unfoldable pub new_logger : Bytes → ℕ → W → Outcome E (Option (RotatingWriter F)) × W
  unfolding new_writer
  new_logger path max_size d =
      if is_nil path
      then (ok none, d)
      else writer_of (new_writer fs t path (dirname path) (basename path) max_size d)

  -- the two Close calls of Initialize and of Shutdown, the access logger's first
  abbrev pub with_closed :
      Option (RotatingWriter F)
      → Option (Option (RotatingWriter F) × W)
      → Option (Option (RotatingWriter F) × (Option (RotatingWriter F) × W))
  with_closed access none = none
  with_closed access (some closed) = some (access, closed)

  abbrev pub close_app :
      Option (RotatingWriter F)
      → Option (Option (RotatingWriter F) × W)
      → Option (Option (RotatingWriter F) × (Option (RotatingWriter F) × W))
  close_app app none = none
  close_app app (some (access, d)) = with_closed access (close_logger fs app d)

  abbrev pub close_both :
      Globals F → W → Option (Option (RotatingWriter F) × (Option (RotatingWriter F) × W))
  close_both g d = close_app g.app.writer (close_logger fs g.access d)

  -- the new loggers take the place of the closed ones
  abbrev pub installed :
      Globals F
      → Option (Option (RotatingWriter F) × (Option (RotatingWriter F) × W))
      → Option (Outcome E (Unit {0}) × (Globals F × W))
  installed new none = none
  installed new (some (access, (app, d))) = some (ok tt, (new, d))

  abbrev pub replaced :
      Bytes
      → Option (RotatingWriter F)
      → Globals F
      → Outcome E (Option (RotatingWriter F)) × W
      → Option (Outcome E (Unit {0}) × (Globals F × W))
  replaced level access g (err e, d) = some (err e, (g, d))
  replaced level access g (ok app, d) =
      installed (record { app = record { level = level; writer = app }; access = access })
        (close_both g d)

  abbrev pub with_access :
      Bytes
      → Bytes
      → ℕ
      → Globals F
      → Outcome E (Option (RotatingWriter F)) × W
      → Option (Outcome E (Unit {0}) × (Globals F × W))
  with_access app_path level max_size g (err e, d) = some (err e, (g, d))
  with_access app_path level max_size g (ok access, d) =
      replaced level access g (new_logger app_path max_size d)

  -- Initialize; none is a panic
  unfoldable pub initialize :
      Bytes → Bytes → Bytes → ℕ → Globals F → W → Option (Outcome E (Unit {0}) × (Globals F × W))
  unfolding new_logger
  initialize access_path app_path level max_size g d =
      with_access app_path (if is_nil level then codes "info" else level) max_size g
        (new_logger access_path max_size d)

  -- Shutdown, behind which the variables still hold the closed loggers; none is a panic
  abbrev pub shut :
      Globals F
      → Option (Option (RotatingWriter F) × (Option (RotatingWriter F) × W))
      → Option (Globals F × W)
  shut g none = none
  shut g (some (access, (app, d))) =
      some (record { app = record { level = g.app.level; writer = app }; access = access }, d)

  unfoldable pub shutdown_loggers : Globals F → W → Option (Globals F × W)
  shutdown_loggers g d = shut g (close_both g d)
