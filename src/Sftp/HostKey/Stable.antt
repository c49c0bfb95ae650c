-- ===== src/Sftp/HostKey/Stable.antt =====
-- pkg/sftpserver/hostkey.go: what a client sees of the host key over restarts of the server.
use viking_ftpd.Prelude.{
  ℕ, ◌%◌, ◌≡◌, refl, sym, ap, ◌∙◌, true, false, ◌==◌, Bytes, Bool-cases, inl, inr, if_true,
  if_false, ==_iff,
}
use viking_ftpd.Vfs.Session.{Outcome, ok, err}
use viking_ftpd.Sftp.HostKey.{
  KeyFiles, KeyFormat, HostKeyError, IsKeyDisk, checked_key, parsed_key, written_key, encoded_key,
  generated_key, key_of, load_or_generate_host_key,
}

module _ {W K S E : Type 0} (fs : KeyFiles W E) (ssh : KeyFormat K S E) where
  abbrev load : Outcome E K → Bytes → W → Outcome (HostKeyError E) S × W
  load = load_or_generate_host_key fs ssh

  -- a later start on the disk that an answer leaves, with whatever key it would generate
  abbrev pub IsRepeated : Bytes → Outcome (HostKeyError E) S × W → Type 0
  IsRepeated path (err e, d) = Unit
  IsRepeated path (ok s, d) =
      (later : Outcome E K) → load_or_generate_host_key fs ssh later path d ≡ (ok s, d)

  key_of-readable :
      (later : Outcome E K) (path text : Bytes) (d : W)
      → fs.read_file path d ≡ ok text
      → load later path d ≡ (checked_key fs ssh text (fs.permissions path d), d)
  unfolding load_or_generate_host_key
  key_of-readable later path text d h = ap (key_of fs ssh later path d) h

  checked-IsRepeated :
      (path text : Bytes) (d : W)
      → fs.read_file path d ≡ ok text
      → (r : Outcome (HostKeyError E) S) → checked_key fs ssh text (fs.permissions path d) ≡ r
      → IsRepeated path (r, d)
  checked-IsRepeated path text d h (err e) k = tt
  checked-IsRepeated path text d h (ok s) k =
      λ later. key_of-readable later path text d h ∙ ap (λ r. (r, d)) k

  -- the file that the generation has written is read back as the key that was returned
  written-IsRepeated :
      IsKeyDisk fs ssh
      → (path text : Bytes) (k : K) (before : W) (e : E) → fs.read_file path before ≡ err e
      → fs.is_not_exist e ≡ true
      → ssh.marshal k ≡ ok text
      → (w : Outcome E (Unit {0}) × W) → fs.write_file path text 384 before ≡ w
      → (o : Outcome E S) → ssh.signer_of k ≡ o
      → IsRepeated path (written_key fs ssh k w)
  written-IsRepeated disk path text k before e h missing coded (err x, d) wrote o signed = tt
  written-IsRepeated disk path text k before e h missing coded (ok x, d) wrote (err y) signed =
      rw signed tt
  written-IsRepeated disk path text k before e h missing coded (ok x, d) wrote (ok s) signed =
      let fine : (fs.write_file path text 384 before).0 ≡ ok tt = ap (λ c. c.0) wrote in
      let after : (fs.write_file path text 384 before).1 ≡ d = ap (λ c. c.1) wrote in
      let holds : fs.read_file path d ≡ ok text =
        ap (fs.read_file path) (sym after) ∙ disk.write_read path text before fine in
      let (mode, is_mode, private) = disk.write_permissions path text before e h missing fine in
      let accepted : checked_key fs ssh text (fs.permissions path d) ≡ ok s =
        ap (λ x. checked_key fs ssh text (fs.permissions path x)) (sym after)
        ∙ ap (checked_key fs ssh text) is_mode
        ∙ if_true ((==_iff (mode % 64) 0).1 private) (parsed_key fs ssh (ssh.parse text))
            (err (HostKeyError.insecure mode))
        ∙ ap (parsed_key fs ssh) (disk.marshal_parse k text coded ∙ signed) in
      rw signed (checked-IsRepeated path text d holds (ok s) accepted)

  encoded-IsRepeated :
      IsKeyDisk fs ssh
      → (path : Bytes) (k : K) (d : W) (e : E) → fs.read_file path d ≡ err e
      → fs.is_not_exist e ≡ true
      → (o : Outcome E Bytes) → ssh.marshal k ≡ o
      → IsRepeated path (encoded_key fs ssh path k d o)
  encoded-IsRepeated disk path k d e h missing (err x) coded = tt
  encoded-IsRepeated disk path k d e h missing (ok text) coded =
      written-IsRepeated disk path text k d e h missing coded (fs.write_file path text 384 d) refl
        (ssh.signer_of k) refl

  generated-IsRepeated :
      IsKeyDisk fs ssh
      → (generated : Outcome E K) (path : Bytes) (d : W) (e : E) → fs.read_file path d ≡ err e
      → fs.is_not_exist e ≡ true
      → IsRepeated path (generated_key fs ssh path d generated)
  generated-IsRepeated disk (err x) path d e h missing = tt
  generated-IsRepeated disk (ok k) path d e h missing =
      encoded-IsRepeated disk path k d e h missing (ssh.marshal k) refl

  key_of-IsRepeated :
      IsKeyDisk fs ssh
      → (generated : Outcome E K) (path : Bytes) (d : W) → (o : Outcome E Bytes)
      → fs.read_file path d ≡ o
      → IsRepeated path (key_of fs ssh generated path d o)
  key_of-IsRepeated disk generated path d (ok text) h =
      checked-IsRepeated path text d h (checked_key fs ssh text (fs.permissions path d)) refl
  key_of-IsRepeated disk generated path d (err e) h = elim (Bool-cases (fs.is_not_exist e)) [
    | inl missing ↦ rw missing (generated-IsRepeated disk generated path d e h missing)
    | inr there ↦ rw there tt
  ]

  -- A key file that can be read is never written.
  abbrev pub IsKept : Bytes → W → Outcome (HostKeyError E) S × W → Type 0
  IsKept path before r = (text : Bytes) → fs.read_file path before ≡ ok text → r.1 ≡ before

  -- A key file that the group or others may use is refused, whatever it holds.
  abbrev pub IsPrivate : Bytes → W → Outcome (HostKeyError E) S × W → Type 0
  IsPrivate path before r =
      (text : Bytes) (mode : ℕ)
      → fs.read_file path before ≡ ok text
      → fs.permissions path before ≡ ok mode
      → (mode % 64 == 0) ≡ false
      → r.0 ≡ err (HostKeyError.insecure mode)

  -- The host key is stable: the key that a start returns is returned by each later start on the disk
  -- that it leaves, whatever key that one would generate, and the disk stays as it is; a key file that
  -- can be read is never written; and one that the group or others may use is refused.
  pub load_or_generate_host_key-IsRepeated :
      IsKeyDisk fs ssh
      → (generated : Outcome E K) (path : Bytes) (d : W)
      → IsRepeated path (load_or_generate_host_key fs ssh generated path d)
        × IsKept path d (load_or_generate_host_key fs ssh generated path d)
        × IsPrivate path d (load_or_generate_host_key fs ssh generated path d)
  load_or_generate_host_key-IsRepeated disk generated path d = (
    unfold load_or_generate_host_key in
        key_of-IsRepeated disk generated path d (fs.read_file path d) refl,
    λ text h. ap (λ r. r.1) (key_of-readable generated path text d h),
    λ text mode h is_mode open_to.
        ap (λ r. r.0) (key_of-readable generated path text d h)
        ∙ ap (checked_key fs ssh text) is_mode
        ∙ if_false open_to (parsed_key fs ssh (ssh.parse text)) (err (HostKeyError.insecure mode)),
  )
