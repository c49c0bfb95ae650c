-- ===== src/Vfs/Operations.antt =====
-- pkg/vfs/vfs.go: every operation of the FS, with its permission check, its call of the wrapped
-- filesystem and its access-log lines.
use viking_ftpd.Prelude.{
  ℕ, Bool, true, false, not, List, [], ◌∷◌, if◌then◌else◌, length, is_nil, Bytes, codes, ℤ,
}
use viking_ftpd.Paths.{clean, join}
use viking_ftpd.Vfs.Bits.{is_write_flag, clamp_perm, create_flags}
use viking_ftpd.Vfs.Listing.{FileInfo, sort_by_name}
use viking_ftpd.Vfs.Session.{
  Outcome, ok, err, Afero, Fs, Detail, Status, World, log, may_read, may_write, on_disk, refuse,
}

module _ {S W H T E : Type 0} where
  -- the lines after a write: an "error" line with the error, or a "success" line with the mode
  abbrev pub written :
      {A : Type 0}
      → Fs S W H T E
      → Bytes
      → Bytes
      → List (Detail E)
      → Outcome E A × World S W E
      → Outcome E A × World S W E
  written f op path kv (ok x, w) =
      (ok x, log f op path Status.success (Detail.mode (codes "write") ∷ kv) w)
  written f op path kv (err e, w) = (err e, log f op path Status.failed (Detail.error e ∷ kv) w)

  -- the operations that need write permission for one path
  abbrev pub write_op :
      {A : Type 0}
      → Fs S W H T E
      → Bytes
      → Bytes
      → (W → Outcome E A × W)
      → World S W E
      → Outcome E A × World S W E
  write_op f op path call w =
      let (allowed, w1) = may_write f path w in
      if not allowed then refuse f op path [] w1 else written f op path [] (on_disk call w1)

  unfoldable pub stat : Fs S W H T E → Bytes → World S W E → Outcome E FileInfo × World S W E
  stat f path w =
      let (allowed, w1) = may_read f path w in
      if not allowed then refuse f (codes "stat") path [] w1 else on_disk (f.fs.stat path) w1

  -- the size on the "success" line of an open file; 0 if its Stat fails
  abbrev pub sized :
      Fs S W H T E → Bytes → H → Outcome E FileInfo × World S W E → Outcome E H × World S W E
  sized f path file (ok fi, w) =
      (ok file, log f (codes "open") path Status.success (Detail.size fi.size ∷ []) w)
  sized f path file (err e, w) =
      (ok file, log f (codes "open") path Status.success (Detail.size 0 ∷ []) w)

  abbrev pub opened : Fs S W H T E → Bytes → Outcome E H × World S W E → Outcome E H × World S W E
  opened f path (ok file, w) = sized f path file (on_disk (f.fs.file_stat file) w)
  opened f path (err e, w) =
      (err e, log f (codes "open") path Status.failed (Detail.error e ∷ []) w)

  unfoldable pub open_reading : Fs S W H T E → Bytes → World S W E → Outcome E H × World S W E
  open_reading f path w =
      let (allowed, w1) = may_read f path w in
      if not allowed
      then refuse f (codes "open") path [] w1
      else opened f path (on_disk (f.fs.open_reading path) w1)

  -- what follows OpenFile's call of the wrapped filesystem
  abbrev pub opened_as :
      Fs S W H T E → Bytes → Bool → Outcome E H × World S W E → Outcome E H × World S W E
  opened_as f path true (ok file, w) =
      (ok file, log f (codes "open") path Status.success (Detail.mode (codes "write") ∷ []) w)
  opened_as f path false (ok file, w) = sized f path file (on_disk (f.fs.file_stat file) w)
  opened_as f path true (err e, w) =
      (err e, log f (codes "open") path Status.failed (Detail.mode (codes "write") ∷ []) w)
  opened_as f path false (err e, w) =
      (err e, log f (codes "open") path Status.failed (Detail.mode (codes "read") ∷ []) w)

  unfoldable pub open_file : Fs S W H T E → Bytes → ℕ → ℕ → World S W E → Outcome E H × World S W E
  unfolding is_write_flag clamp_perm
  open_file f path flag perm w =
      let writing = is_write_flag flag in
      let (allowed, w1) = if writing then may_write f path w else may_read f path w in
      if not allowed
      then refuse f (codes "open") path [] w1
      else opened_as f path writing (on_disk (f.fs.open_file path flag (clamp_perm perm)) w1)

  -- what follows Create's call of the wrapped filesystem
  abbrev pub created : Fs S W H T E → Bytes → Outcome E H × World S W E → Outcome E H × World S W E
  created f path outcome = written f (codes "create") path [] outcome

  abbrev pub closed : Fs S W H T E → H → World S W E → World S W E
  closed f file w = record w { disk = f.fs.close file w.disk }

  unfoldable pub create : Fs S W H T E → Bytes → World S W E → Outcome E H × World S W E
  unfolding clamp_perm
  create f path w =
      let (allowed, w1) = may_write f path w in
      if not allowed
      then refuse f (codes "create") path [] w1
      else created f path (on_disk (f.fs.open_file path create_flags (clamp_perm 511)) w1)

  -- the lines after the entries are read, and the deferred Close
  abbrev pub listed :
      Fs S W H T E
      → Bytes
      → H
      → Outcome E (List FileInfo) × World S W E
      → Outcome E (List FileInfo) × World S W E
  listed f path file (ok entries, w) =
      let sorted = sort_by_name entries in
      let counted = Detail.count (length sorted) ∷ [] in
      (ok sorted, closed f file (log f (codes "readdir") path Status.success counted w))
  listed f path file (err e, w) =
      (err e, closed f file (log f (codes "readdir") path Status.failed (Detail.error e ∷ []) w))

  abbrev pub read_entries :
      Fs S W H T E → Bytes → Outcome E H × World S W E → Outcome E (List FileInfo) × World S W E
  read_entries f path (ok file, w) = listed f path file (on_disk (f.fs.readdir file) w)
  read_entries f path (err e, w) =
      (err e, log f (codes "readdir") path Status.failed (Detail.error e ∷ []) w)

  unfoldable pub read_dir_sorted :
      Fs S W H T E → Bytes → World S W E → Outcome E (List FileInfo) × World S W E
  read_dir_sorted f path w =
      let (allowed, w1) = may_read f path w in
      if not allowed
      then refuse f (codes "readdir") path [] w1
      else read_entries f path (on_disk (f.fs.open_reading path) w1)

  unfoldable pub mkdir : Fs S W H T E → Bytes → ℕ → World S W E → Outcome E (Unit {0}) × World S W E
  mkdir f path perm w = write_op f (codes "mkdir") path (f.fs.mkdir path perm) w

  unfoldable pub mkdir_all :
      Fs S W H T E → Bytes → ℕ → World S W E → Outcome E (Unit {0}) × World S W E
  mkdir_all f path perm w = write_op f (codes "mkdir") path (f.fs.mkdir_all path perm) w

  unfoldable pub remove : Fs S W H T E → Bytes → World S W E → Outcome E (Unit {0}) × World S W E
  remove f path w = write_op f (codes "remove") path (f.fs.remove path) w

  unfoldable pub remove_all :
      Fs S W H T E → Bytes → World S W E → Outcome E (Unit {0}) × World S W E
  remove_all f path w = write_op f (codes "remove") path (f.fs.remove_all path) w

  -- The test `||` does not ask about the target when the source is refused.
  unfoldable pub rename :
      Fs S W H T E → Bytes → Bytes → World S W E → Outcome E (Unit {0}) × World S W E
  rename f old_path new_path w =
      let (from, w1) = may_write f old_path w in
      let (both, w2) = if from then may_write f new_path w1 else (false, w1) in
      let target = Detail.to new_path ∷ [] in
      if not both
      then refuse f (codes "rename") old_path target w2
      else written f (codes "rename") old_path target (on_disk (f.fs.rename old_path new_path) w2)

  unfoldable pub chmod : Fs S W H T E → Bytes → ℕ → World S W E → Outcome E (Unit {0}) × World S W E
  chmod f path mode w = write_op f (codes "chmod") path (f.fs.chmod path mode) w

  unfoldable pub chown :
      Fs S W H T E → Bytes → ℤ → ℤ → World S W E → Outcome E (Unit {0}) × World S W E
  chown f path uid gid w = write_op f (codes "chown") path (f.fs.chown path uid gid) w

  unfoldable pub chtimes :
      Fs S W H T E → Bytes → T → T → World S W E → Outcome E (Unit {0}) × World S W E
  chtimes f path atime mtime w = write_op f (codes "chtimes") path (f.fs.chtimes path atime mtime) w

-- `err == nil && info.IsDir()`
abbrev pub found_dir : {E : Type 0} → Outcome E FileInfo → Bool
found_dir (ok info) = info.is_dir
found_dir (err e) = false

module _ {W H T E : Type 0} where
  -- ResolveHome; `sprintf` is fmt.Sprintf on the pattern and the user, and `jail` the filesystem
  -- rooted at the directory.
  unfoldable pub resolve_home :
      Afero W H T E → (Bytes → Bytes → Bytes) → Bytes → Bytes → W → Bytes × W
  unfolding clean join
  resolve_home jail sprintf pattern user d =
      if is_nil pattern
      then (codes "/", d)
      else (let home = clean (sprintf pattern user) in
          let (info, d1) = jail.stat home d in
          (if found_dir info then join (codes "/") home else codes "/", d1))
