-- ===== src/Status/Atomic.antt =====
-- pkg/status/writer.go: what a reader of a status file may see, on a filesystem with the documented
-- behaviour of os.WriteFile, os.Rename and os.Remove.
use viking_ftpd.Prelude.{
  ◌≡◌, ◌≢◌, refl, sym, ap, ◌∙◌, arith, Option, some, ◌++◌, length, length-append, Bytes, codes,
}
use viking_ftpd.Vfs.Session.{Outcome, ok, err}
use viking_ftpd.Status.Writer.{StatusFiles, cleaned_up, renamed, atomic_write}

-- `read` is the content of a file, none if there is none.
pub record IsDisk {W E : Type 0} (fs : StatusFiles W E) (read : Bytes → W → Option Bytes)
    : Type 0 where
  pub write_same :
      (p c : Bytes) (d : W)
      → (fs.write_file p c d).0 ≡ ok tt
      → read p (fs.write_file p c d).1 ≡ some c
  pub write_other : (p q c : Bytes) (d : W) → p ≢ q → read q (fs.write_file p c d).1 ≡ read q d
  pub rename_moves :
      (p q : Bytes) (d : W) → (fs.rename p q d).0 ≡ ok tt → read q (fs.rename p q d).1 ≡ read p d
  pub rename_fails :
      (p q r : Bytes) (d : W) (e : E)
      → (fs.rename p q d).0 ≡ err e
      → read r (fs.rename p q d).1 ≡ read r d
  pub remove_other : (p q : Bytes) (d : W) → p ≢ q → read q (fs.remove p d) ≡ read q d

longer-ne : (p : Bytes) → p ++ codes ".tmp" ≢ p
longer-ne p h =
    let size : length (p ++ codes ".tmp") ≡ length p = ap length h in
    absurd (omega (arith, size, length-append p (codes ".tmp")))

module _ {W E : Type 0} (fs : StatusFiles W E) (read : Bytes → W → Option Bytes) where
  -- On success the file holds the content; after an error it holds what it held before.
  abbrev pub IsAllOrNothing : Bytes → Bytes → W → Outcome E (Unit {0}) × W → Type 0
  IsAllOrNothing path content before (ok x, d) = read path d ≡ some content
  IsAllOrNothing path content before (err e, d) = read path d ≡ read path before

  rename-step :
      IsDisk fs read
      → (path content : Bytes) (before d : W) → read (path ++ codes ".tmp") d ≡ some content
      → read path d ≡ read path before
      → (c : Outcome E (Unit {0}) × W) → fs.rename (path ++ codes ".tmp") path d ≡ c
      → IsAllOrNothing path content before (cleaned_up fs (path ++ codes ".tmp") c)
  rename-step disk path content before d h k (ok tt, d1) e =
      ap (λ c. read path c.1) (sym e)
      ∙ disk.rename_moves (path ++ codes ".tmp") path d (ap (λ c. c.0) e)
      ∙ h
  rename-step disk path content before d h k (err x, d1) e =
      disk.remove_other (path ++ codes ".tmp") path d1 (longer-ne path)
      ∙ ap (λ c. read path c.1) (sym e)
      ∙ disk.rename_fails (path ++ codes ".tmp") path path d x (ap (λ c. c.0) e)
      ∙ k

  write-step :
      IsDisk fs read
      → (path content : Bytes) (before : W) → (c : Outcome E (Unit {0}) × W)
      → fs.write_file (path ++ codes ".tmp") content before ≡ c
      → IsAllOrNothing path content before (renamed fs (path ++ codes ".tmp") path c)
  write-step disk path content before (err x, d) e =
      ap (λ c. read path c.1) (sym e)
      ∙ disk.write_other (path ++ codes ".tmp") path content before (longer-ne path)
  write-step disk path content before (ok tt, d) e =
      rename-step disk path content before d
        (ap (λ c. read (path ++ codes ".tmp") c.1) (sym e)
          ∙ disk.write_same (path ++ codes ".tmp") content before (ap (λ c. c.0) e))
        (ap (λ c. read path c.1) (sym e)
          ∙ disk.write_other (path ++ codes ".tmp") path content before (longer-ne path))
        (fs.rename (path ++ codes ".tmp") path d) refl

  -- A status file is written whole or not at all: after a success it holds the new content, and after
  -- an error, of the writing or of the rename, it holds what it held before.
  pub atomic_write-IsAllOrNothing :
      IsDisk fs read
      → (path content : Bytes) (before : W)
      → IsAllOrNothing path content before (atomic_write fs path content before)
  unfolding atomic_write
  atomic_write-IsAllOrNothing disk path content before =
      write-step disk path content before (fs.write_file (path ++ codes ".tmp") content before) refl
