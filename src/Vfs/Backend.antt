-- ===== src/Vfs/Backend.antt =====
-- What a permitted call of an FS should do, said without the code of pkg/vfs/vfs.go: the calls of
-- the wrapped filesystem, and the line in the access log.
use mathlib.Core.List.{Perm}
use viking_ftpd.Prelude.{◌≡◌, Bool, true, false, List, ◌∷◌, if◌then◌else◌}
use viking_ftpd.Vfs.Bits.{is_write_flag, clamp_perm, create_flags}
use viking_ftpd.Vfs.Listing.{IsSorted}
use viking_ftpd.Vfs.Session.{Outcome, ok, err, Afero, Fs, Detail, Status, Line, World, line}
use viking_ftpd.Vfs.Requests.{
  Request, stat_of, open_of, create_of, list_of, remove_of, remove_all_of, open_file_of, mkdir_of,
  mkdir_all_of, chmod_of, rename_of, chown_of, chtimes_of, op_of, path_of, Answer, no_value,
}

abbrev pub status_of : {E A : Type 0} → Outcome E A → Status
status_of (ok x) = Status.success
status_of (err e) = Status.failed

-- the answer of a call, after a last step on its value
abbrev pub finish : {W E A B : Type 0} → (A → B) → (A → W → W) → Outcome E A × W → Outcome E B × W
finish answer step (ok x, d) = (ok (answer x), step x d)
finish answer step (err e, d) = (err e, d)

-- the answer of a call, and nothing else
abbrev pub answer_of : {W E A B : Type 0} → (A → B) → Outcome E A × W → Outcome E B × W
answer_of answer = finish answer (λ _ x. x)

abbrev pub is_stat : {T : Type 0} → Request T → Bool
is_stat (stat_of p) = true
is_stat _ = false

abbrev pub at : {S W E : Type 0} → S → List (Line E) → W → World S W E
at s lines d = record { authority = s; disk = d; access_log = lines }

module _ {W H T E : Type 0} where
  -- an open file's Stat
  abbrev pub sizing : Afero W H T E → H → W → W
  sizing fs file d = (fs.file_stat file d).1

  -- Readdir and Close
  abbrev pub reading_entries : Afero W H T E → Outcome E H × W → Outcome E (Answer H) × W
  reading_entries fs (ok file, d) =
      let (entries, d1) = fs.readdir file d in
      ((answer_of Answer.listing (entries, d1)).0, fs.close file d1)
  reading_entries fs (err e, d) = (err e, d)

  -- the calls of the wrapped filesystem that a permitted request stands for
  unfoldable pub backend : Afero W H T E → Request T → W → Outcome E (Answer H) × W
  backend fs (stat_of p) d = answer_of Answer.info (fs.stat p d)
  backend fs (open_of p) d = finish Answer.handle (sizing fs) (fs.open_reading p d)
  backend fs (list_of p) d = reading_entries fs (fs.open_reading p d)
  backend fs (open_file_of p flag perm) d =
      finish Answer.handle (if is_write_flag flag then (λ _ x. x) else sizing fs)
        (fs.open_file p flag (clamp_perm perm) d)
  backend fs (create_of p) d =
      answer_of Answer.handle (fs.open_file p create_flags (clamp_perm 511) d)
  backend fs (rename_of p q) d = answer_of no_value (fs.rename p q d)
  backend fs (remove_of p) d = answer_of no_value (fs.remove p d)
  backend fs (remove_all_of p) d = answer_of no_value (fs.remove_all p d)
  backend fs (mkdir_of p perm) d = answer_of no_value (fs.mkdir p perm d)
  backend fs (mkdir_all_of p perm) d = answer_of no_value (fs.mkdir_all p perm d)
  backend fs (chmod_of p mode) d = answer_of no_value (fs.chmod p mode d)
  backend fs (chown_of p uid gid) d = answer_of no_value (fs.chown p uid gid d)
  backend fs (chtimes_of p atime mtime) d = answer_of no_value (fs.chtimes p atime mtime d)

module _ {H : Type 0} where
  -- A listing holds the entries that were read, in the order of their names; any other answer is the
  -- value itself.
  abbrev pub SameAnswer : Answer H → Answer H → Type 0
  SameAnswer (Answer.listing xs) (Answer.listing entries) = IsSorted xs × Perm xs entries
  SameAnswer a b = a ≡ b

  abbrev pub SameOutcome : {E : Type 0} → Outcome E (Answer H) → Outcome E (Answer H) → Type 0
  SameOutcome (ok a) (ok b) = SameAnswer a b
  SameOutcome a b = a ≡ b

module _ {S W H T E : Type 0} where
  -- The access log after a served call: a Stat writes no line; any other call writes one, with the
  -- word, the user, the path and the status of the result, and some details.
  abbrev pub IsLogged :
      Fs S W H T E → Request T → Outcome E (Answer H) → List (Line E) → List (Line E) → Type 0
  IsLogged f r o before after =
      if is_stat r
      then after ≡ before
      else ((kv : List (Detail E)) × (after
            ≡ line f (op_of r) (path_of r) (status_of o) kv ∷ before))

  -- `result` is a served call: the outcome `b` of the wrapped filesystem, the authority `s`, and
  -- the line in the log.
  pub record Served (f : Fs S W H T E) (r : Request T) (b : Outcome E (Answer H) × W) (s : S)
      (before : List (Line E)) (result : Outcome E (Answer H) × World S W E) : Type 0 where
    pub outcome_is : SameOutcome result.0 b.0
    pub disk_is : result.1.disk ≡ b.1
    pub authority_is : result.1.authority ≡ s
    pub log_is : IsLogged f r b.0 before result.1.access_log
