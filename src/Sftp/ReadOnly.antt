-- ===== src/Sftp/ReadOnly.antt =====
-- pkg/sftpserver/handlers.go for a user whom the Authorizer refuses every write.
use viking_ftpd.Prelude.{
  ℕ, ℤ, ◌≡◌, refl, Bool, true, false, ◌||◌, if◌then◌else◌, Bytes, codes, equal, Bool-cases, inl,
  inr,
}
use viking_ftpd.Vfs.Bits.{is_write_flag, bit_and}
use viking_ftpd.Vfs.Session.{Outcome, ok, err, Fs, World}
use viking_ftpd.Vfs.Operations.{open_file, chmod, chtimes, rename, remove, mkdir}
use viking_ftpd.Vfs.Requests.{
  Request, open_file_of, mkdir_of, remove_of, rename_of, chmod_of, chtimes_of, needs, ask_all,
  perform, answered, Answer, no_value,
}
use viking_ftpd.Vfs.Policy.{perform-refused}
use viking_ftpd.Vfs.ReadOnly.{NeverWrites, is_reading, writing-refused, as_pair}
use viking_ftpd.Sftp.Handlers.{
  SftpError, Surroundings, SftpRequest, translate_error, translated, truncated, set_size,
  set_permissions, set_times, setstat, filecmd, then_next, to_int64,
}

module _ {S W H T E : Type 0} (env : Surroundings T E) (f : Fs S W H T E) where
  -- os.ErrPermission is a permission error and no "not exist" error.
  abbrev pub KnowsPermission : Type 0
  KnowsPermission =
      (env.is_not_exist f.fs.err_permission ≡ false)
      × (env.is_permission f.fs.err_permission ≡ true)

  -- the answer is "permission denied", and the disk is as it was
  abbrev pub IsRefused : {A : Type 0} → World S W E → Outcome SftpError A × World S W E → Type 0
  IsRefused w c = (c.0 ≡ err SftpError.permission_denied) × (c.1.disk ≡ w.disk)

  -- a call of the FS that is refused
  abbrev IsDenied : {A : Type 0} → World S W E → Outcome E A × World S W E → Type 0
  IsDenied w c = (c.0 ≡ err f.fs.err_permission) × (c.1.disk ≡ w.disk)

  translated-IsRefused :
      {A : Type 0}
      → KnowsPermission
      → (w : World S W E) (c : Outcome E A × World S W E) → IsDenied w c
      → IsRefused w (translated env c)
  unfolding translate_error
  translated-IsRefused known w (ok x, w1) denied = absurd (let y = denied.0 in cc)
  translated-IsRefused known w (err e, w1) denied =
      let same : e ≡ f.fs.err_permission = let y = denied.0 in cc in
      (rw (same, known.0, known.1) refl, denied.1)

  answered-IsDenied :
      {A : Type 0} (answer : A → Answer H) (w : World S W E) (c : Outcome E A × World S W E)
      → IsDenied w (answered answer c)
      → IsDenied w c
  answered-IsDenied answer w (ok x, w1) denied = absurd (let y = denied.0 in cc)
  answered-IsDenied answer w (err e, w1) denied = (let y = denied.0 in cc, denied.1)

  perform-IsDenied :
      NeverWrites f
      → (r : Request T) (w : World S W E) → is_reading r ≡ false
      → IsDenied w (perform f r w)
  perform-IsDenied never r w writes =
      rw
        (perform-refused f r w (
          as_pair (ask_all f (needs r) w.authority) (writing-refused f never r w.authority writes)))
        (refl, refl)

  open_file-IsDenied :
      NeverWrites f
      → (p : Bytes) (flag m : ℕ) (w : World S W E) → is_write_flag flag ≡ true
      → IsDenied w (open_file f p flag m w)
  unfolding perform
  open_file-IsDenied never p flag m w writes =
      answered-IsDenied Answer.handle w (open_file f p flag m w)
        (perform-IsDenied never (open_file_of p flag m) w (rw writes refl))

  truncated-IsDenied :
      (n : ℤ) (w : World S W E) (c : Outcome E H × World S W E)
      → IsDenied w c
      → IsDenied w (truncated f n c)
  truncated-IsDenied n w (ok file, w1) denied = absurd (let y = denied.0 in cc)
  truncated-IsDenied n w (err e, w1) denied = (let y = denied.0 in cc, denied.1)

  -- refused if it is asked for, and else without any effect
  abbrev pub IsRefusedIf : Bool → World S W E → Outcome SftpError (Unit {0}) × World S W E → Type 0
  IsRefusedIf asked w c = if asked then IsRefused w c else c ≡ (ok tt, w)

  size-part :
      KnowsPermission
      → NeverWrites f
      → (r : SftpRequest) (w : World S W E) → IsRefusedIf r.has_size w (set_size env f r w)
  unfolding is_write_flag bit_and
  size-part known never r w = elim (Bool-cases r.has_size) [
    | inl asked ↦ rw asked (
        translated-IsRefused known w _ (
          truncated-IsDenied (to_int64 r.size) w _
            (open_file-IsDenied never r.filepath 1 0 w refl)))
    | inr no_ ↦ rw no_ refl
  ]

  permissions-part :
      KnowsPermission
      → NeverWrites f
      → (r : SftpRequest) (w : World S W E)
      → IsRefusedIf r.has_permissions w (set_permissions env f r w)
  unfolding perform
  permissions-part known never r w = elim (Bool-cases r.has_permissions) [
    | inl asked ↦ rw asked (
        translated-IsRefused known w _ (
          answered-IsDenied no_value w (chmod f r.filepath (bit_and 32 r.mode 511) w)
            (perform-IsDenied never (chmod_of r.filepath (bit_and 32 r.mode 511)) w refl)))
    | inr no_ ↦ rw no_ refl
  ]

  times-part :
      KnowsPermission
      → NeverWrites f
      → (r : SftpRequest) (w : World S W E) → IsRefusedIf r.has_acmodtime w (set_times env f r w)
  unfolding perform
  times-part known never r w = elim (Bool-cases r.has_acmodtime) [
    | inl asked ↦ rw asked (
        translated-IsRefused known w _ (
          answered-IsDenied no_value w
            (chtimes f r.filepath (env.unix r.atime) (env.unix r.mtime) w)
            (perform-IsDenied never (chtimes_of r.filepath (env.unix r.atime) (env.unix r.mtime)) w
              refl)))
    | inr no_ ↦ rw no_ refl
  ]

  -- the first part that is asked for decides
  then_next-IsRefusedIf :
      (asked later : Bool) (w : World S W E) (c : Outcome SftpError (Unit {0}) × World S W E)
      (next : World S W E → Outcome SftpError (Unit {0}) × World S W E)
      → IsRefusedIf asked w c
      → IsRefusedIf later w (next w)
      → IsRefusedIf (asked || later) w (then_next c next)
  then_next-IsRefusedIf true later w (ok x, w1) next h k = absurd (let y = h.0 in cc)
  then_next-IsRefusedIf true later w (err e, w1) next h k = h
  then_next-IsRefusedIf false later w c next h k = rw h k

  setstat-IsRefusedIf :
      KnowsPermission
      → NeverWrites f
      → (r : SftpRequest) (w : World S W E)
      → IsRefusedIf (r.has_size || (r.has_permissions || r.has_acmodtime)) w (setstat env f r w)
  unfolding setstat
  setstat-IsRefusedIf known never r w =
      then_next-IsRefusedIf r.has_size (r.has_permissions || r.has_acmodtime) w (set_size env f r w)
        _ (size-part known never r w)
        (then_next-IsRefusedIf r.has_permissions r.has_acmodtime w (set_permissions env f r w) _
          (permissions-part known never r w) (times-part known never r w))

  -- the other methods that change the disk
  abbrev pub changes_names : Bytes → Bool
  changes_names m =
      (equal m (codes "Rename") || equal m (codes "PosixRename"))
      || ((equal m (codes "Remove") || equal m (codes "Rmdir")) || equal m (codes "Mkdir"))

  -- A command of a user whom the Authorizer refuses every write leaves the disk as it is. A Setstat
  -- of a size, of permissions or of times, a rename, a removal and a Mkdir are answered "permission
  -- denied"; a Setstat of nothing else succeeds without any effect; any other method, such as
  -- Symlink, is answered "unsupported" without a question to the Authorizer.
  pub filecmd-IsRefused :
      KnowsPermission
      → NeverWrites f
      → (r : SftpRequest) (w : World S W E)
      → if equal r.method (codes "Setstat")
        then IsRefusedIf
            (r.has_size || (r.has_permissions || r.has_acmodtime))
            w
            (filecmd env f r w)
        else (if changes_names r.method
            then IsRefused w (filecmd env f r w)
            else filecmd env f r w ≡ (err SftpError.op_unsupported, w))
  unfolding filecmd setstat perform
  filecmd-IsRefused known never r w =
      let renamed = translated-IsRefused known w _ (
        answered-IsDenied no_value w (rename f r.filepath r.target w)
          (perform-IsDenied never (rename_of r.filepath r.target) w refl)) in
      let removed = translated-IsRefused known w _ (
        answered-IsDenied no_value w (remove f r.filepath w)
          (perform-IsDenied never (remove_of r.filepath) w refl)) in
      let made = translated-IsRefused known w _ (
        answered-IsDenied no_value w (mkdir f r.filepath 493 w)
          (perform-IsDenied never (mkdir_of r.filepath 493) w refl)) in
      elim (Bool-cases (equal r.method (codes "Setstat"))) [
        | inl a ↦ rw a (setstat-IsRefusedIf known never r w)
        | inr a ↦
            rw a
              (elim (Bool-cases
                (equal r.method (codes "Rename") || equal r.method (codes "PosixRename"))) [
                  | inl b ↦ rw b renamed
                  | inr b ↦
                      rw b
                        (elim (Bool-cases
                          (equal r.method (codes "Remove") || equal r.method (codes "Rmdir"))) [
                            | inl c ↦ rw c removed
                            | inr c ↦ rw c (elim (Bool-cases (equal r.method (codes "Mkdir"))) [
                              | inl d ↦ rw d made
                              | inr d ↦ rw d refl
                            ])
                          ])
                ])
      ]
