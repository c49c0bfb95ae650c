-- ===== src/Vfs/Policy.antt =====
-- The access policy of pkg/vfs/vfs.go: what a refused call does.
use viking_ftpd.Prelude.{
  ◌≡◌, refl, sym, ◌∙◌, ap, Bool, true, false, [], ◌∷◌, if◌then◌else◌, Bytes, Bool-cases, inl, inr,
}
use viking_ftpd.Vfs.Bits.{is_write_flag}
use viking_ftpd.Vfs.Session.{err, Fs, Detail, Status, World, line}
use viking_ftpd.Vfs.Operations.{
  stat, open_reading, open_file, create, read_dir_sorted, mkdir, mkdir_all, remove, remove_all,
  rename, chmod, chown, chtimes,
}
use viking_ftpd.Vfs.Requests.{
  Request, Need, needs, op_of, path_of, target_of, ask_all, ask, perform,
}

-- one answer decides
single_answer : {S : Type 0} (a : Bool × S) → a ≡ (if a.0 then (true, a.1) else (false, a.1))
single_answer (true, s) = refl
single_answer (false, s) = refl

module _ {S W H T E : Type 0} where
  -- the world after a refusal
  abbrev pub refused : Fs S W H T E → Request T → S → World S W E → World S W E
  refused f r s w = record w {
    authority = s;
    access_log =
        line f (op_of r) (path_of r) Status.denied (Detail.error f.fs.err_permission ∷ target_of r)
        ∷ w.access_log;
  }

  pub single :
      (f : Fs S W H T E) (n : Need) (s : S) {b : Bool} {s' : S}
      → ask_all f (n ∷ []) s ≡ (b, s')
      → ask f n s ≡ (b, s')
  unfolding ask_all
  single f n s h = single_answer (ask f n s) ∙ h

  -- the two questions of a rename
  pub second :
      (f : Fs S W H T E) (p q : Bytes) (s0 : S) {b : Bool} {s : S}
      → (ask f (Need.writing p) s0).0 ≡ true
      → ask_all f (Need.writing p ∷ Need.writing q ∷ []) s0 ≡ (b, s)
      → ask_all f (Need.writing q ∷ []) (ask f (Need.writing p) s0).1 ≡ (b, s)
  unfolding ask_all
  second f p q s0 given h = rw given at h

  first_refused :
      (f : Fs S W H T E) (p q : Bytes) (s0 : S) {b : Bool} {s : S}
      → (ask f (Need.writing p) s0).0 ≡ false
      → ask_all f (Need.writing p ∷ Need.writing q ∷ []) s0 ≡ (b, s)
      → (ask f (Need.writing p) s0).1 ≡ s
  unfolding ask_all
  first_refused f p q s0 not_given h = ap (λ x. x.1) (rw not_given at h)

  -- A call whose permissions are not all given reports os.ErrPermission and writes one "denied" line
  -- with the user, the path and the protocol; the disk and the earlier lines stay as they are. The
  -- permissions are those that `needs` lists, asked for in order up to the first refusal.
  pub perform-refused :
      (f : Fs S W H T E) (r : Request T) (w : World S W E) {s : S}
      → ask_all f (needs r) w.authority ≡ (false, s)
      → perform f r w ≡ (err f.fs.err_permission, refused f r s w)
  unfolding perform needs op_of path_of stat open_reading open_file create read_dir_sorted mkdir
      mkdir_all remove remove_all rename chmod chown chtimes
  perform-refused f (Request.stat_of p) w h = rw (single f _ _ h) refl
  perform-refused f (Request.open_of p) w h = rw (single f _ _ h) refl
  perform-refused f (Request.list_of p) w h = rw (single f _ _ h) refl
  perform-refused f (Request.create_of p) w h = rw (single f _ _ h) refl
  perform-refused f (Request.remove_of p) w h = rw (single f _ _ h) refl
  perform-refused f (Request.remove_all_of p) w h = rw (single f _ _ h) refl
  perform-refused f (Request.mkdir_of p m) w h = rw (single f _ _ h) refl
  perform-refused f (Request.mkdir_all_of p m) w h = rw (single f _ _ h) refl
  perform-refused f (Request.chmod_of p m) w h = rw (single f _ _ h) refl
  perform-refused f (Request.chown_of p u g) w h = rw (single f _ _ h) refl
  perform-refused f (Request.chtimes_of p a m) w h = rw (single f _ _ h) refl
  perform-refused f (Request.open_file_of p flag m) w h = elim (Bool-cases (is_write_flag flag)) [
    | inl writes ↦ rw (writes, single f (Need.writing p) _ (rw writes at h)) refl
    | inr reads ↦ rw (reads, single f (Need.reading p) _ (rw reads at h)) refl
  ]
  perform-refused f (Request.rename_of p q) w {s} h =
      let from = f.authz.can_write f.user p w.authority in
      elim (Bool-cases from.0) [
        | inl given ↦
            rw (given, single f (Need.writing q) from.1 (second f p q w.authority given h)) refl
        | inr not_given ↦ rw (not_given, sym (first_refused f p q w.authority not_given h)) refl
      ]
