-- ===== src/Logging/RotatingWriter.antt =====
-- pkg/logging/rotating_writer.go. The package os is a parameter, and so is the text that time.Now
-- gives for an archive's name. Every method runs under the lock, and so is one step. Sizes of int64
-- stand in ℕ.
use viking_ftpd.Prelude.{
  ℕ, ◌+◌, ◌-◌, Bool, true, false, Option, none, some, ◌++◌, ◌∷◌, if◌then◌else◌, ltb, leb, length,
  Bytes, codes,
}
use viking_ftpd.Paths.{join}
use viking_ftpd.Vfs.Session.{Outcome, ok, err}

-- What the writer calls of os and of os.File: `W` is the state of the disk, `F` an open file, `I` an
-- os.FileInfo. The two openings are for appending, and for a new or emptied file. A write returns
-- the number of bytes written, and an error.
pub record LogFiles (W F I E : Type 0) : Type 0 where
  pub mkdir_all : Bytes → W → Outcome E (Unit {0}) × W
  pub open_append : Bytes → W → Outcome E F × W
  pub open_new : Bytes → W → Outcome E F × W
  pub rename : Bytes → Bytes → W → W
  pub lstat : Bytes → W → Outcome E I
  pub stat : F → W → Outcome E I
  pub same_file : I → I → Bool
  pub size : I → ℕ
  pub write : F → Bytes → W → (ℕ × Option E) × W
  pub close : F → W → W
  pub err_invalid : E

-- type RotatingWriter
pub record RotatingWriter (F : Type 0) : Type 0 where
  pub f : Option F
  pub path : Bytes
  pub dir : Bytes
  pub base : Bytes
  pub max_size : ℕ
  pub approx_size : ℕ
  pub stopped : Bool

module _ {W F I E : Type 0} (fs : LogFiles W F I E) where
  -- `if w.f != nil { _ = w.f.Close(); w.f = nil }`
  abbrev pub close_file : Option F → W → W
  close_file none d = d
  close_file (some f) d = fs.close f d

  -- openForAppendLocked behind the opening: the size of the file, or its Close after an error
  abbrev pub with_size :
      RotatingWriter F → F → W → Outcome E I → Outcome E (Unit {0}) × (RotatingWriter F × W)
  with_size w f d (err e) = (err e, (w, fs.close f d))
  with_size w f d (ok fi) = (ok tt, (record w { f = some f; approx_size = fs.size fi }, d))

  abbrev pub opened :
      RotatingWriter F → Outcome E F × W → Outcome E (Unit {0}) × (RotatingWriter F × W)
  opened w (err e, d) = (err e, (w, d))
  opened w (ok f, d) = with_size w f d (fs.stat f d)

  abbrev pub open_in :
      RotatingWriter F → Outcome E (Unit {0}) × W → Outcome E (Unit {0}) × (RotatingWriter F × W)
  open_in w (err e, d) = (err e, (w, d))
  open_in w (ok x, d) = opened w (fs.open_append w.path d)

  -- openForAppendLocked
  unfoldable pub open_for_append :
      RotatingWriter F → W → Outcome E (Unit {0}) × (RotatingWriter F × W)
  open_for_append w d = open_in w (fs.mkdir_all w.dir d)

  abbrev pub old_dir : RotatingWriter F → Bytes
  old_dir w = join w.dir (codes "old")

  -- rotateLocked behind the new file
  abbrev pub renewed :
      RotatingWriter F → Outcome E F × W → Outcome E (Unit {0}) × (RotatingWriter F × W)
  renewed w (err e, d) = (err e, (w, d))
  renewed w (ok f, d) = (ok tt, (record w { f = some f; approx_size = 0 }, d))

  -- the rename to the archive, whose error is ignored
  abbrev pub archive :
      Bytes
      → RotatingWriter F
      → Outcome E (Unit {0}) × W
      → Outcome E (Unit {0}) × (RotatingWriter F × W)
  archive timestamp w (err e, d) = (err e, (w, d))
  archive timestamp w (ok x, d) =
      let archive_path = join (old_dir w) (w.base ++ b'.' ∷ timestamp) in
      renewed w (fs.open_new w.path (fs.rename w.path archive_path d))

  -- rotateLocked
  unfoldable pub rotate :
      Bytes → RotatingWriter F → W → Outcome E (Unit {0}) × (RotatingWriter F × W)
  unfolding join
  rotate timestamp w d =
      archive timestamp (record w { f = none }) (fs.mkdir_all (old_dir w) (close_file w.f d))

  -- w.f.Write; a write to a nil file is os.ErrInvalid
  abbrev pub write_file : Option F → Bytes → W → (ℕ × Option E) × W
  write_file none p d = ((0, some fs.err_invalid), d)
  write_file (some f) p d = fs.write f p d

  -- the bytes written are counted
  abbrev pub counted :
      RotatingWriter F → (ℕ × Option E) × W → (ℕ × Option E) × (RotatingWriter F × W)
  counted w ((n, e), d) = ((n, e), (record w { approx_size = w.approx_size + n }, d))

  abbrev pub write_rotated :
      Bytes
      → Outcome E (Unit {0}) × (RotatingWriter F × W)
      → (ℕ × Option E) × (RotatingWriter F × W)
  write_rotated p (err e, (w, d)) = ((0, some e), (w, d))
  write_rotated p (ok x, (w, d)) = counted w (write_file w.f p d)

  -- Write
  unfoldable pub write_log :
      Bytes → Bytes → RotatingWriter F → W → (ℕ × Option E) × (RotatingWriter F × W)
  unfolding rotate
  write_log timestamp p w d =
      if leb w.max_size (w.approx_size + length p)
      then write_rotated p (rotate timestamp w d)
      else counted w (write_file w.f p d)

  -- reopenLocked
  unfoldable pub reopen : RotatingWriter F → W → Outcome E (Unit {0}) × (RotatingWriter F × W)
  unfolding open_for_append
  reopen w d = open_for_append (record w { f = none }) (close_file w.f d)

  -- sameFileAsPath; an error counts as another file
  abbrev pub same_infos : Outcome E I → Outcome E I → Bool
  same_infos (ok fi_path) (ok fi_open) = fs.same_file fi_open fi_path
  same_infos _ _ = false

  -- abs64(a - b)
  abbrev pub distance : ℕ → ℕ → ℕ
  distance a b = (a - b) + (b - a)

  -- a drift of more than 8 KB is corrected
  abbrev pub corrected :
      RotatingWriter F → W → Outcome E I → Outcome E (Unit {0}) × (RotatingWriter F × W)
  corrected w d (err e) = reopen w d
  corrected w d (ok fi) =
      if ltb 8192 (distance (fs.size fi) w.approx_size)
      then (ok tt, (record w { approx_size = fs.size fi }, d))
      else (ok tt, (w, d))

  abbrev pub verify_file :
      RotatingWriter F → W → Option F → Outcome E (Unit {0}) × (RotatingWriter F × W)
  verify_file w d none = open_for_append w d
  verify_file w d (some f) =
      if same_infos (fs.lstat w.path d) (fs.stat f d)
      then corrected w d (fs.stat f d)
      else reopen w d

  -- verifyLocked
  unfoldable pub verify : RotatingWriter F → W → Outcome E (Unit {0}) × (RotatingWriter F × W)
  unfolding reopen open_for_append
  verify w d = verify_file w d w.f

  abbrev pub begin_fresh :
      Bytes
      → Outcome E (Unit {0}) × (RotatingWriter F × W)
      → Outcome E (Unit {0}) × (RotatingWriter F × W)
  begin_fresh timestamp (err e, (w, d)) = (err e, (w, d))
  begin_fresh timestamp (ok x, (w, d)) =
      if leb w.max_size w.approx_size then rotate timestamp w d else (ok tt, (w, d))

  -- NewRotatingWriter up to its goroutine, which calls verifyLocked at each tick; `dir` and `base` are
  -- filepath.Dir and filepath.Base of the path.
  unfoldable pub new_writer :
      Bytes → Bytes → Bytes → Bytes → ℕ → W → Outcome E (Unit {0}) × (RotatingWriter F × W)
  unfolding rotate open_for_append
  new_writer timestamp path dir base max_size d = begin_fresh timestamp (
      open_for_append
        (record {
          f = none;
          path = path;
          dir = dir;
          base = base;
          max_size = max_size;
          approx_size = 0;
          stopped = false;
        })
        d)

  -- Close; none is the panic of close(w.stopCh) on a closed channel. The goroutine ends with it.
  abbrev pub close_writer : RotatingWriter F → W → Option (RotatingWriter F × W)
  close_writer w d =
      if w.stopped then none else some (record w { stopped = true }, close_file w.f d)
