-- ===== src/Logging/Loggers/Handles.antt =====
-- pkg/logging/types.go: which files the global loggers have open.
use mathlib.Core.Path.{subst}
use viking_ftpd.Prelude.{
  ℕ, ◌+◌, ◌≡◌, refl, ap, arith, true, false, Option, none, some, if◌then◌else◌, is_nil, Bytes,
  codes, Bool-cases, inl, inr,
}
use viking_ftpd.Vfs.Session.{Outcome, ok, err}
use viking_ftpd.Logging.RotatingWriter.{LogFiles, RotatingWriter, new_writer}
use viking_ftpd.Logging.Lines.{close_logger}
use viking_ftpd.Logging.Settings.{settings, new_writer-settings}
use viking_ftpd.Logging.Handles.{
  IsCounting, held, IsOpening, close_file-opens, new_writer-IsOpening,
}
use viking_ftpd.Logging.Loggers.{
  Globals, writer_of, new_logger, with_closed, close_app, close_both, installed, replaced,
  with_access, initialize, shut, shutdown_loggers,
}

-- the weight of a logger's file, and of both
abbrev pub files : {F : Type 0} → (F → ℕ) → Option (RotatingWriter F) → ℕ
files weight none = 0
files weight (some w) = held weight w.f

abbrev pub all_files : {F : Type 0} → (F → ℕ) → Globals F → ℕ
all_files weight g = files weight g.access + files weight g.app.writer

-- Close has not been called.
abbrev pub IsRunning : {F : Type 0} → Option (RotatingWriter F) → Type 0
IsRunning none = Unit
IsRunning (some w) = w.stopped ≡ false

abbrev pub AreRunning : {F : Type 0} → Globals F → Type 0
AreRunning g = IsRunning g.access × IsRunning g.app.writer

-- a running logger for a path, which writes to no file if the path is empty
abbrev pub IsAt : {F : Type 0} → Bytes → ℕ → Option (RotatingWriter F) → Type 0
IsAt path max_size none = is_nil path ≡ true
IsAt path max_size (some w) =
    (is_nil path ≡ false) × (w.path ≡ path) × (w.max_size ≡ max_size) × (w.stopped ≡ false)

module _ {W F I E : Type 0} (fs : LogFiles W F I E) (weight : F → ℕ) (opens : W → ℕ)
    (counting : IsCounting fs weight opens) (dirname basename : Bytes → Bytes) (t : Bytes) where
  -- a Close without a panic
  abbrev IsClosed : ℕ → Option (Option (RotatingWriter F) × W) → Type 0
  IsClosed base none = ⊥
  IsClosed base (some (w, d)) = opens d ≡ base

  close_logger-IsClosed :
      (base : ℕ) (w : Option (RotatingWriter F)) (d : W)
      → IsRunning w
      → opens d ≡ base + files weight w
      → IsClosed base (close_logger fs w d)
  close_logger-IsClosed base none d running h = omega (arith, h)
  close_logger-IsClosed base (some w) d running h =
      rw running (close_file-opens fs weight opens counting base w.f d h)

  -- both are closed, without a panic
  abbrev AreClosed :
      ℕ → Option (Option (RotatingWriter F) × (Option (RotatingWriter F) × W)) → Type 0
  AreClosed base none = ⊥
  AreClosed base (some (access, (app, d))) = opens d ≡ base

  with_closed-AreClosed :
      (base : ℕ) (access : Option (RotatingWriter F)) (c : Option (Option (RotatingWriter F) × W))
      → IsClosed base c
      → AreClosed base (with_closed fs dirname basename t access c)
  with_closed-AreClosed base access none h = h
  with_closed-AreClosed base access (some (app, d)) h = h

  close_app-AreClosed :
      (base : ℕ) (app : Option (RotatingWriter F)) (c : Option (Option (RotatingWriter F) × W))
      → IsRunning app
      → IsClosed (base + files weight app) c
      → AreClosed base (close_app fs dirname basename t app c)
  close_app-AreClosed base app none running h = h
  close_app-AreClosed base app (some (access, d)) running h =
      with_closed-AreClosed base access (close_logger fs app d)
        (close_logger-IsClosed base app d running h)

  close_both-AreClosed :
      (base : ℕ) (g : Globals F) (d : W)
      → AreRunning g
      → opens d ≡ base + all_files weight g
      → AreClosed base (close_both fs dirname basename t g d)
  close_both-AreClosed base g d running h =
      close_app-AreClosed base g.app.writer (close_logger fs g.access d) running.1 (
        close_logger-IsClosed (base + files weight g.app.writer) g.access d running.0
          (omega (arith, h)))

  abbrev IsMade : Bytes → ℕ → ℕ → Outcome E (Option (RotatingWriter F)) × W → Type 0
  IsMade path max_size base (err e, d) = opens d ≡ base
  IsMade path max_size base (ok w, d) = (opens d ≡ base + files weight w) × IsAt path max_size w

  writer_of-IsMade :
      (path : Bytes) (max_size base : ℕ) (r : Outcome E (Unit {0}) × (RotatingWriter F × W))
      → is_nil path ≡ false
      → IsOpening fs weight opens counting base r
      → settings r.1.0 ≡ (path, max_size, false)
      → IsMade path max_size base (writer_of fs dirname basename t r)
  writer_of-IsMade path max_size base (err e, (w, d)) given h same = h.1
  writer_of-IsMade path max_size base (ok x, (w, d)) given h same =
      (h, (given, ap (λ s. s.0) same, ap (λ s. s.1) same, ap (λ s. s.2) same))

  new_logger-IsMade :
      (path : Bytes) (max_size : ℕ) (d : W)
      → IsMade path max_size (opens d) (new_logger fs dirname basename t path max_size d)
  unfolding new_logger
  new_logger-IsMade path max_size d = elim (Bool-cases (is_nil path)) [
    | inl no_path ↦ rw no_path (omega arith, no_path)
    | inr given ↦ rw given (
        writer_of-IsMade path max_size (opens d)
          (new_writer fs t path (dirname path) (basename path) max_size d) given
          (new_writer-IsOpening fs weight opens counting t path (dirname path) (basename path)
            max_size d)
          (new_writer-settings fs t path (dirname path) (basename path) max_size d))
  ]

  -- the file that an Initialize may leave open after an error
  abbrev pub IsLeft : Bytes → Option (RotatingWriter F) → Type 0
  IsLeft path none = Unit
  IsLeft path (some w) = w.path ≡ path

  -- What Initialize leaves, with the two paths, the level and the maximum size that it is given; none
  -- is a panic.
  abbrev pub IsReplaced :
      Bytes
      → Bytes
      → Bytes
      → ℕ
      → ℕ
      → Globals F
      → Option (Outcome E (Unit {0}) × (Globals F × W))
      → Type 0
  IsReplaced access_path app_path level max_size base g none = ⊥
  IsReplaced access_path app_path level max_size base g (some (ok x, (g', d))) =
      IsAt access_path max_size g'.access
      × IsAt app_path max_size g'.app.writer
      × (g'.app.level ≡ (if is_nil level then codes "info" else level))
      × (opens d ≡ base + all_files weight g')
  IsReplaced access_path app_path level max_size base g (some (err e, (g', d))) =
      (g' ≡ g)
      × (left : Option (RotatingWriter F)) × IsLeft access_path left
      × (opens d ≡ base + all_files weight g + files weight left)

  IsAt-IsRunning :
      (path : Bytes) (max_size : ℕ) (w : Option (RotatingWriter F))
      → IsAt path max_size w
      → IsRunning w
  IsAt-IsRunning path max_size none h = tt
  IsAt-IsRunning path max_size (some w) h = h.3

  module _ (access_path app_path level : Bytes) (max_size base : ℕ) (g : Globals F)
      (running : AreRunning g) where
    installed-IsReplaced :
        (access app : Option (RotatingWriter F))
        (c : Option (Option (RotatingWriter F) × (Option (RotatingWriter F) × W)))
        → IsAt access_path max_size access
        → IsAt app_path max_size app
        → AreClosed (base + (files weight access + files weight app)) c
        → IsReplaced access_path app_path level max_size base g (
            installed fs dirname basename t
              (record {
                app = record { level = if is_nil level then codes "info" else level; writer = app };
                access = access;
              })
              c)
    installed-IsReplaced access app none at_access at_app h = h
    installed-IsReplaced access app (some (a, (b, d))) at_access at_app h =
        (at_access, at_app, refl, h)

    replaced-IsReplaced :
        (access : Option (RotatingWriter F)) (c : Outcome E (Option (RotatingWriter F)) × W)
        → IsAt access_path max_size access
        → IsMade app_path max_size (base + all_files weight g + files weight access) c
        → IsReplaced access_path app_path level max_size base g (
            replaced fs dirname basename t
              (if is_nil level then codes "info" else level)
              access
              g
              c)
    replaced-IsReplaced none (err e, d) at_access h = (refl, none, tt, h)
    replaced-IsReplaced (some w) (err e, d) at_access h = (refl, some w, at_access.1, h)
    replaced-IsReplaced access (ok app, d) at_access h =
        installed-IsReplaced access app (close_both fs dirname basename t g d) at_access h.1 (
          close_both-AreClosed (base + (files weight access + files weight app)) g d running
            (omega (arith, h.0)))

    with_access-IsReplaced :
        (c : Outcome E (Option (RotatingWriter F)) × W)
        → IsMade access_path max_size (base + all_files weight g) c
        → IsReplaced access_path app_path level max_size base g (
            with_access fs dirname basename t app_path
              (if is_nil level then codes "info" else level)
              max_size
              g
              c)
    with_access-IsReplaced (err e, d) h = (refl, none, tt, omega (arith, h))
    with_access-IsReplaced (ok access, d) h =
        replaced-IsReplaced access (new_logger fs dirname basename t app_path max_size d) h.1 (
          subst
            (λ n. IsMade app_path max_size n (new_logger fs dirname basename t app_path max_size d))
            h.0 (new_logger-IsMade app_path max_size d))

  -- Shutdown returns, with `base` files open.
  abbrev pub IsShut : ℕ → Option (Globals F × W) → Type 0
  IsShut base none = ⊥
  IsShut base (some (g, d)) = opens d ≡ base

  shut-IsShut :
      (base : ℕ) (g : Globals F)
      (c : Option (Option (RotatingWriter F) × (Option (RotatingWriter F) × W)))
      → AreClosed base c
      → IsShut base (shut fs dirname basename t g c)
  shut-IsShut base g none h = h
  shut-IsShut base g (some (a, (b, d))) h = h

  -- For loggers that are not closed, Initialize changes both or none, and neither it nor Shutdown
  -- panics. After a success the access logger writes to the first path, the application logger to the
  -- second, or to no file if the path is empty, with the given maximum size and the given level, or
  -- "info" for none; their files are open and the old loggers' are closed. After an error the loggers
  -- are the old ones, with their files open, and at most one more file, a new one for the access
  -- logger. Shutdown closes the loggers' files, and no others. This holds of the number of open files
  -- among any that one may single out.
  pub initialize-IsReplaced :
      (access_path app_path level : Bytes) (max_size base : ℕ) (g : Globals F) (d : W)
      → AreRunning g
      → opens d ≡ base + all_files weight g
      → IsReplaced access_path app_path level max_size base g
          (initialize fs dirname basename t access_path app_path level max_size g d)
        × IsShut base (shutdown_loggers fs dirname basename t g d)
  unfolding initialize shutdown_loggers
  initialize-IsReplaced access_path app_path level max_size base g d running h = (
    with_access-IsReplaced access_path app_path level max_size base g running
        (new_logger fs dirname basename t access_path max_size d)
        (subst
          (λ n.
            IsMade access_path max_size n (new_logger fs dirname basename t access_path max_size d))
          h (new_logger-IsMade access_path max_size d)),
    shut-IsShut base g (close_both fs dirname basename t g d)
        (close_both-AreClosed base g d running h),
  )
