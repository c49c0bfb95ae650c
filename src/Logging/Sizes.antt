-- ===== src/Logging/Sizes.antt =====
-- pkg/logging/rotating_writer.go: what the counter of bytes says of the open file.
use viking_ftpd.Prelude.{
  ℕ, ◌+◌, ◌≤◌, ◌<◌, ◌≡◌, ◌⊎◌, refl, arith, Option, none, some, ltb-false, leb-false, ltb, leb,
  length, Bytes, Bool-cases, inl, inr,
}
use viking_ftpd.Vfs.Session.{Outcome, ok, err}
use viking_ftpd.Logging.RotatingWriter.{
  LogFiles, RotatingWriter, with_size, opened, open_in, open_for_append, renewed, archive, rotate,
  write_file, counted, write_rotated, write_log, reopen, same_infos, distance, corrected,
  verify_file, verify, close_file, old_dir,
}

module _ {W F I E : Type 0} (fs : LogFiles W F I E) where
  -- os.File.Write reports no more bytes than it was given.
  abbrev pub WritesAtMost : Type 0
  WritesAtMost = (f : F) (p : Bytes) (d : W) → (fs.write f p d).0.0 ≤ length p

  -- The counter is below the maximum, or nothing but the last write stands in the file.
  abbrev pub IsSmall : Bytes → RotatingWriter F → Type 0
  IsSmall p w = (w.approx_size < w.max_size) ⊎ (w.approx_size ≤ length p)

  write_file-le :
      WritesAtMost → (f : Option F) (p : Bytes) (d : W) → (write_file fs f p d).0.0 ≤ length p
  write_file-le most none p d = omega arith
  write_file-le most (some f) p d = most f p d

  -- The writer has a file open, and the counter is within 8 KB of the size of that file.
  abbrev pub IsTracked : RotatingWriter F → W → Type 0
  IsTracked w d =
      (f : F) × (fi : I) × (w.f ≡ some f)
      × (fs.stat f d ≡ ok fi)
      × (distance fs (fs.size fi) w.approx_size ≤ 8192)

  -- an attempt to open a file: on success, the file is tracked
  abbrev pub IsOpened : Outcome E (Unit {0}) × (RotatingWriter F × W) → Type 0
  IsOpened (err e, s) = Unit
  IsOpened (ok x, (w, d)) = IsTracked w d

  -- a write: on success, the counter is small
  abbrev pub IsWritten : Bytes → (ℕ × Option E) × (RotatingWriter F × W) → Type 0
  IsWritten p ((n, some e), s) = Unit
  IsWritten p ((n, none), (w, d)) = IsSmall p w

  with_size-IsOpened :
      (w : RotatingWriter F) (f : F) (d : W) (o : Outcome E I)
      → fs.stat f d ≡ o
      → IsOpened (with_size fs w f d o)
  with_size-IsOpened w f d (err e) h = tt
  with_size-IsOpened w f d (ok fi) h = (f, fi, refl, h, omega arith)

  opened-IsOpened : (w : RotatingWriter F) (c : Outcome E F × W) → IsOpened (opened fs w c)
  opened-IsOpened w (err e, d) = tt
  opened-IsOpened w (ok f, d) = with_size-IsOpened w f d (fs.stat f d) refl

  open_in-IsOpened :
      (w : RotatingWriter F) (c : Outcome E (Unit {0}) × W) → IsOpened (open_in fs w c)
  open_in-IsOpened w (err e, d) = tt
  open_in-IsOpened w (ok x, d) = opened-IsOpened w (fs.open_append w.path d)

  reopen-IsOpened : (w : RotatingWriter F) (d : W) → IsOpened (reopen fs w d)
  unfolding reopen open_for_append
  reopen-IsOpened w d =
      open_in-IsOpened (record w { f = none }) (fs.mkdir_all w.dir (close_file fs w.f d))

  corrected-IsOpened :
      (w : RotatingWriter F) (f : F) (d : W) (o : Outcome E I)
      → w.f ≡ some f
      → fs.stat f d ≡ o
      → IsOpened (corrected fs w d o)
  corrected-IsOpened w f d (err e) h k = reopen-IsOpened w d
  corrected-IsOpened w f d (ok fi) h k =
      elim (Bool-cases (ltb 8192 (distance fs (fs.size fi) w.approx_size))) [
        | inl far ↦ rw far (f, fi, h, k, omega arith)
        | inr near ↦
            rw near (f, fi, h, k, ltb-false 8192 (distance fs (fs.size fi) w.approx_size) near)
      ]

  verify_file-IsOpened :
      (w : RotatingWriter F) (d : W) (o : Option F) → w.f ≡ o → IsOpened (verify_file fs w d o)
  unfolding open_for_append
  verify_file-IsOpened w d none h = open_in-IsOpened w (fs.mkdir_all w.dir d)
  verify_file-IsOpened w d (some f) h =
      elim (Bool-cases (same_infos fs (fs.lstat w.path d) (fs.stat f d))) [
        | inl same ↦ rw same (corrected-IsOpened w f d (fs.stat f d) h refl)
        | inr other ↦ rw other (reopen-IsOpened w d)
      ]

  counted-IsWritten :
      (w : RotatingWriter F) (p : Bytes) (c : (ℕ × Option E) × W)
      → c.0.0 ≤ length p
      → (w.approx_size + length p < w.max_size) ⊎ (w.approx_size ≡ 0)
      → IsWritten p (counted fs w c)
  counted-IsWritten w p ((n, some e), d) h k = tt
  counted-IsWritten w p ((n, none), d) h (inl room) = inl (omega arith)
  counted-IsWritten w p ((n, none), d) h (inr empty) = inr (omega arith)

  -- what follows a rotation
  abbrev IsEmptied : Outcome E (Unit {0}) × (RotatingWriter F × W) → Type 0
  IsEmptied (err e, s) = Unit
  IsEmptied (ok x, (w, d)) = w.approx_size ≡ 0

  renewed-IsEmptied : (w : RotatingWriter F) (c : Outcome E F × W) → IsEmptied (renewed fs w c)
  renewed-IsEmptied w (err e, d) = tt
  renewed-IsEmptied w (ok f, d) = refl

  archive-IsEmptied :
      (t : Bytes) (w : RotatingWriter F) (c : Outcome E (Unit {0}) × W)
      → IsEmptied (archive fs t w c)
  archive-IsEmptied t w (err e, d) = tt
  archive-IsEmptied t w (ok x, d) = renewed-IsEmptied w _

  rotate-IsEmptied : (t : Bytes) (w : RotatingWriter F) (d : W) → IsEmptied (rotate fs t w d)
  unfolding rotate
  rotate-IsEmptied t w d =
      archive-IsEmptied t (record w { f = none })
        (fs.mkdir_all (old_dir fs w) (close_file fs w.f d))

  write_rotated-IsWritten :
      WritesAtMost
      → (p : Bytes) (c : Outcome E (Unit {0}) × (RotatingWriter F × W)) → IsEmptied c
      → IsWritten p (write_rotated fs p c)
  write_rotated-IsWritten most p (err e, (w, d)) h = tt
  write_rotated-IsWritten most p (ok x, (w, d)) h =
      counted-IsWritten w p (write_file fs w.f p d) (write_file-le most w.f p d) (inr h)

  write_log-IsWritten :
      WritesAtMost
      → (t p : Bytes) (w : RotatingWriter F) (d : W) → IsWritten p (write_log fs t p w d)
  unfolding write_log
  write_log-IsWritten most t p w d = elim (Bool-cases (leb w.max_size (w.approx_size + length p))) [
    | inl full ↦ rw full (write_rotated-IsWritten most p (rotate fs t w d) (rotate-IsEmptied t w d))
    | inr room ↦ rw room (
        counted-IsWritten w p (write_file fs w.f p d) (write_file-le most w.f p d)
          (inl (leb-false w.max_size (w.approx_size + length p) room)))
  ]

-- the two calls that a log file gets over and over
pub data LogCall : Type 0 where
  write_call : Bytes → Bytes → LogCall
  tick : LogCall

-- what a call leaves behind when it succeeds
abbrev pub IsBounded :
    {W F I E : Type 0} → LogFiles W F I E → LogCall → RotatingWriter F → W → Type 0
IsBounded fs (write_call timestamp p) w d = IsWritten fs p (write_log fs timestamp p w d)
IsBounded fs tick w d = IsOpened fs (verify fs w d)

-- Whatever happened to the file before: after a Write without an error the counter is below the
-- maximum, unless that write alone fills the file; after a verification without an error the writer
-- has an open file, and the counter is within 8 KB of the size of that file.
pub log_call-IsBounded :
    {W F I E : Type 0} (fs : LogFiles W F I E)
    → WritesAtMost fs
    → (c : LogCall) (w : RotatingWriter F) (d : W) → IsBounded fs c w d
unfolding verify
log_call-IsBounded fs most (write_call t p) w d = write_log-IsWritten fs most t p w d
log_call-IsBounded fs most tick w d = verify_file-IsOpened fs w d w.f refl
