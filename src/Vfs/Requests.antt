-- ===== src/Vfs/Requests.antt =====
-- The calls that a protocol server makes of a session's FS, as data, and the permissions that each
-- one needs, said without the code: the package comment and the methods' comments of
-- pkg/vfs/vfs.go.
use viking_ftpd.Prelude.{ℕ, Bool, true, false, List, [], ◌∷◌, if◌then◌else◌, Bytes, codes, ℤ}
use viking_ftpd.Vfs.Bits.{is_write_flag}
use viking_ftpd.Vfs.Listing.{FileInfo}
use viking_ftpd.Vfs.Session.{Outcome, ok, err, Fs, World, Detail}
use viking_ftpd.Vfs.Operations.{
  stat, open_reading, open_file, create, read_dir_sorted, mkdir, mkdir_all, remove, remove_all,
  rename, chmod, chown, chtimes,
}

pub data Request (T : Type 0) : Type 0 where
  stat_of open_of create_of list_of remove_of remove_all_of : Bytes → Request T
  open_file_of : Bytes → ℕ → ℕ → Request T
  mkdir_of mkdir_all_of chmod_of : Bytes → ℕ → Request T
  rename_of : Bytes → Bytes → Request T
  chown_of : Bytes → ℤ → ℤ → Request T
  chtimes_of : Bytes → T → T → Request T

pub data Need : Type 0 where
  reading writing : Bytes → Need

module _ {T : Type 0} where
  unfoldable pub needs : Request T → List Need
  needs (stat_of p) = reading p ∷ []
  needs (open_of p) = reading p ∷ []
  needs (list_of p) = reading p ∷ []
  needs (open_file_of p flag perm) = (if is_write_flag flag then writing p else reading p) ∷ []
  needs (rename_of p q) = writing p ∷ writing q ∷ []
  needs (create_of p) = writing p ∷ []
  needs (remove_of p) = writing p ∷ []
  needs (remove_all_of p) = writing p ∷ []
  needs (mkdir_of p perm) = writing p ∷ []
  needs (mkdir_all_of p perm) = writing p ∷ []
  needs (chmod_of p mode) = writing p ∷ []
  needs (chown_of p uid gid) = writing p ∷ []
  needs (chtimes_of p atime mtime) = writing p ∷ []

  -- the operation's word, its path and its further details in the access log
  unfoldable pub op_of : Request T → Bytes
  op_of (stat_of p) = codes "stat"
  op_of (open_of p) = codes "open"
  op_of (list_of p) = codes "readdir"
  op_of (open_file_of p flag perm) = codes "open"
  op_of (rename_of p q) = codes "rename"
  op_of (create_of p) = codes "create"
  op_of (remove_of p) = codes "remove"
  op_of (remove_all_of p) = codes "remove"
  op_of (mkdir_of p perm) = codes "mkdir"
  op_of (mkdir_all_of p perm) = codes "mkdir"
  op_of (chmod_of p mode) = codes "chmod"
  op_of (chown_of p uid gid) = codes "chown"
  op_of (chtimes_of p atime mtime) = codes "chtimes"

  unfoldable pub path_of : Request T → Bytes
  path_of (stat_of p) = p
  path_of (open_of p) = p
  path_of (list_of p) = p
  path_of (open_file_of p flag perm) = p
  path_of (rename_of p q) = p
  path_of (create_of p) = p
  path_of (remove_of p) = p
  path_of (remove_all_of p) = p
  path_of (mkdir_of p perm) = p
  path_of (mkdir_all_of p perm) = p
  path_of (chmod_of p mode) = p
  path_of (chown_of p uid gid) = p
  path_of (chtimes_of p atime mtime) = p

  abbrev pub target_of : {E : Type 0} → Request T → List (Detail E)
  target_of (rename_of p q) = Detail.to q ∷ []
  target_of _ = []

-- what a call returns beside its error: nothing, what Stat tells, an open file, or a listing
pub data Answer (H : Type 0) : Type 0 where
  nothing : Answer H
  info : FileInfo → Answer H
  handle : H → Answer H
  listing : List FileInfo → Answer H

-- the value of an outcome as an answer
abbrev pub answered :
    {S W H E A : Type 0}
    → (A → Answer H)
    → Outcome E A × World S W E
    → Outcome E (Answer H) × World S W E
answered answer (ok x, w) = (ok (answer x), w)
answered answer (err e, w) = (err e, w)

abbrev pub no_value : {H : Type 0} → Unit {0} → Answer H
no_value x = Answer.nothing

module _ {S W H T E : Type 0} where
  abbrev pub ask : Fs S W H T E → Need → S → Bool × S
  ask f (reading p) s = f.authz.can_read f.user p s
  ask f (writing p) s = f.authz.can_write f.user p s

  -- The answers to all needs, in order, up to the first refusal.
  unfoldable pub ask_all : Fs S W H T E → List Need → S → Bool × S
  ask_all f [] s = (true, s)
  ask_all f (n ∷ ns) s =
      let (given, s') = ask f n s in if given then ask_all f ns s' else (false, s')

  unfoldable pub perform :
      Fs S W H T E → Request T → World S W E → Outcome E (Answer H) × World S W E
  unfolding stat open_reading open_file create read_dir_sorted mkdir mkdir_all remove remove_all
      rename chmod chown chtimes
  perform f (stat_of p) w = answered Answer.info (stat f p w)
  perform f (open_of p) w = answered Answer.handle (open_reading f p w)
  perform f (list_of p) w = answered Answer.listing (read_dir_sorted f p w)
  perform f (open_file_of p flag perm) w = answered Answer.handle (open_file f p flag perm w)
  perform f (rename_of p q) w = answered no_value (rename f p q w)
  perform f (create_of p) w = answered Answer.handle (create f p w)
  perform f (remove_of p) w = answered no_value (remove f p w)
  perform f (remove_all_of p) w = answered no_value (remove_all f p w)
  perform f (mkdir_of p perm) w = answered no_value (mkdir f p perm w)
  perform f (mkdir_all_of p perm) w = answered no_value (mkdir_all f p perm w)
  perform f (chmod_of p mode) w = answered no_value (chmod f p mode w)
  perform f (chown_of p uid gid) w = answered no_value (chown f p uid gid w)
  perform f (chtimes_of p atime mtime) w = answered no_value (chtimes f p atime mtime w)
