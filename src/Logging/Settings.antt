-- ===== src/Logging/Settings.antt =====
-- pkg/logging/rotating_writer.go: what no call of a log writer changes.
use viking_ftpd.Prelude.{
  ℕ, ◌≡◌, refl, ◌∙◌, Bool, false, Option, none, some, ltb, leb, length, ◌+◌, Bytes, Bool-cases, inl,
  inr,
}
use viking_ftpd.Vfs.Session.{Outcome, ok, err}
use viking_ftpd.Logging.RotatingWriter.{
  LogFiles, RotatingWriter, with_size, opened, open_in, open_for_append, renewed, archive, rotate,
  write_rotated, write_log, reopen, same_infos, distance, corrected, verify_file, verify,
  close_file, old_dir, begin_fresh, new_writer,
}

-- the path, the maximum size, and whether stopCh is closed
abbrev pub settings : {F : Type 0} → RotatingWriter F → Bytes × ℕ × Bool
settings w = (w.path, w.max_size, w.stopped)

module _ {W F I E : Type 0} (fs : LogFiles W F I E) where
  opened-settings :
      (w : RotatingWriter F) (c : Outcome E F × W) → settings (opened fs w c).1.0 ≡ settings w
  opened-settings w (err e, d) = refl
  opened-settings w (ok f, d) = sized (fs.stat f d)
    where
      sized : (o : Outcome E I) → settings (with_size fs w f d o).1.0 ≡ settings w
      sized (err e) = refl
      sized (ok fi) = refl

  open_in-settings :
      (w : RotatingWriter F) (c : Outcome E (Unit {0}) × W)
      → settings (open_in fs w c).1.0 ≡ settings w
  open_in-settings w (err e, d) = refl
  open_in-settings w (ok x, d) = opened-settings w (fs.open_append w.path d)

  open_for_append-settings :
      (w : RotatingWriter F) (d : W) → settings (open_for_append fs w d).1.0 ≡ settings w
  unfolding open_for_append
  open_for_append-settings w d = open_in-settings w (fs.mkdir_all w.dir d)

  renewed-settings :
      (w : RotatingWriter F) (c : Outcome E F × W) → settings (renewed fs w c).1.0 ≡ settings w
  renewed-settings w (err e, d) = refl
  renewed-settings w (ok f, d) = refl

  archive-settings :
      (t : Bytes) (w : RotatingWriter F) (c : Outcome E (Unit {0}) × W)
      → settings (archive fs t w c).1.0 ≡ settings w
  archive-settings t w (err e, d) = refl
  archive-settings t w (ok x, d) = renewed-settings w (fs.open_new w.path (fs.rename w.path _ d))

  rotate-settings :
      (t : Bytes) (w : RotatingWriter F) (d : W) → settings (rotate fs t w d).1.0 ≡ settings w
  unfolding rotate
  rotate-settings t w d =
      archive-settings t (record w { f = none }) (fs.mkdir_all (old_dir fs w) (close_file fs w.f d))

  write_rotated-settings :
      (p : Bytes) (c : Outcome E (Unit {0}) × (RotatingWriter F × W))
      → settings (write_rotated fs p c).1.0 ≡ settings c.1.0
  write_rotated-settings p (err e, s) = refl
  write_rotated-settings p (ok x, s) = refl

  pub write_log-settings :
      (t p : Bytes) (w : RotatingWriter F) (d : W)
      → settings (write_log fs t p w d).1.0 ≡ settings w
  unfolding write_log
  write_log-settings t p w d = elim (Bool-cases (leb w.max_size (w.approx_size + length p))) [
    | inl full ↦ rw full (write_rotated-settings p (rotate fs t w d) ∙ rotate-settings t w d)
    | inr room ↦ rw room refl
  ]

  reopen-settings : (w : RotatingWriter F) (d : W) → settings (reopen fs w d).1.0 ≡ settings w
  unfolding reopen
  reopen-settings w d = open_for_append-settings (record w { f = none }) (close_file fs w.f d)

  corrected-settings :
      (w : RotatingWriter F) (d : W) (o : Outcome E I)
      → settings (corrected fs w d o).1.0 ≡ settings w
  corrected-settings w d (err e) = reopen-settings w d
  corrected-settings w d (ok fi) =
      elim (Bool-cases (ltb 8192 (distance fs (fs.size fi) w.approx_size))) [
        | inl far ↦ rw far refl
        | inr near ↦ rw near refl
      ]

  verify_file-settings :
      (w : RotatingWriter F) (d : W) (o : Option F)
      → settings (verify_file fs w d o).1.0 ≡ settings w
  verify_file-settings w d none = open_for_append-settings w d
  verify_file-settings w d (some f) =
      elim (Bool-cases (same_infos fs (fs.lstat w.path d) (fs.stat f d))) [
        | inl same ↦ rw same (corrected-settings w d (fs.stat f d))
        | inr other ↦ rw other (reopen-settings w d)
      ]

  pub verify-settings : (w : RotatingWriter F) (d : W) → settings (verify fs w d).1.0 ≡ settings w
  unfolding verify
  verify-settings w d = verify_file-settings w d w.f

  begin_fresh-settings :
      (t : Bytes) (c : Outcome E (Unit {0}) × (RotatingWriter F × W))
      → settings (begin_fresh fs t c).1.0 ≡ settings c.1.0
  begin_fresh-settings t (err e, s) = refl
  begin_fresh-settings t (ok x, (w, d)) = elim (Bool-cases (leb w.max_size w.approx_size)) [
    | inl full ↦ rw full (rotate-settings t w d)
    | inr room ↦ rw room refl
  ]

  pub new_writer-settings :
      (t path dir base_name : Bytes) (max_size : ℕ) (d : W)
      → settings (new_writer fs t path dir base_name max_size d).1.0 ≡ (path, max_size, false)
  unfolding new_writer
  new_writer-settings t path dir base_name max_size d =
      let fresh : RotatingWriter F = record {
        f = none;
        path = path;
        dir = dir;
        base = base_name;
        max_size = max_size;
        approx_size = 0;
        stopped = false;
      } in
      begin_fresh-settings t (open_for_append fs fresh d) ∙ open_for_append-settings fresh d
