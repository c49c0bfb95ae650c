-- ===== src/Vfs/Serving.antt =====
-- The permitted calls of pkg/vfs/vfs.go, against Vfs/Backend.
use viking_ftpd.Prelude.{
  ℕ, ◌≡◌, refl, Bool, true, false, List, [], ◌∷◌, if◌then◌else◌, Bytes, codes, Bool-cases, length,
  inl, inr,
}
use viking_ftpd.Vfs.Bits.{is_write_flag, clamp_perm, create_flags}
use viking_ftpd.Vfs.Listing.{FileInfo, sort_by_name, sort_by_name-IsSorted}
use viking_ftpd.Vfs.Session.{Outcome, ok, err, Fs, Detail, Line, World}
use viking_ftpd.Vfs.Operations.{
  stat, open_reading, open_file, create, read_dir_sorted, mkdir, mkdir_all, remove, remove_all,
  rename, chmod, chown, chtimes, opened, opened_as, sized, written, created, listed, read_entries,
}
use viking_ftpd.Vfs.Requests.{
  Request, stat_of, open_of, create_of, list_of, remove_of, remove_all_of, open_file_of, mkdir_of,
  mkdir_all_of, chmod_of, rename_of, chown_of, chtimes_of, reading, writing, needs, op_of, path_of,
  ask_all, ask, perform, answered, no_value, Answer,
}
use viking_ftpd.Vfs.Policy.{single, second}
use viking_ftpd.Vfs.Backend.{
  finish, answer_of, is_stat, at, sizing, reading_entries, backend, Served,
}

module _ {S W H T E : Type 0} where
  written-Served :
      (f : Fs S W H T E) (r : Request T) (kv : List (Detail E)) (s : S) (lines : List (Line E))
      → is_stat r ≡ false
      → (c : Outcome E (Unit {0}) × W)
      → Served f r
          (answer_of no_value c)
          s
          lines
          (answered no_value (written f (op_of r) (path_of r) kv (c.0, at s lines c.1)))
  written-Served f r kv s lines logs (ok x, d) = record {
    outcome_is = refl;
    disk_is = refl;
    authority_is = refl;
    log_is = rw logs (Detail.mode (codes "write") ∷ kv, refl);
  }
  written-Served f r kv s lines logs (err e, d) = record {
    outcome_is = refl;
    disk_is = refl;
    authority_is = refl;
    log_is = rw logs (Detail.error e ∷ kv, refl);
  }

  stat-Served :
      (f : Fs S W H T E) (p : Bytes) (s : S) (lines : List (Line E)) (c : Outcome E FileInfo × W)
      → Served f
          (stat_of p)
          (answer_of Answer.info c)
          s
          lines
          (answered Answer.info (c.0, at s lines c.1))
  stat-Served f p s lines (ok x, d) = record {
    outcome_is = refl;
    disk_is = refl;
    authority_is = refl;
    log_is = refl;
  }
  stat-Served f p s lines (err e, d) = record {
    outcome_is = refl;
    disk_is = refl;
    authority_is = refl;
    log_is = refl;
  }

  create-Served :
      (f : Fs S W H T E) (p : Bytes) (s : S) (lines : List (Line E)) (c : Outcome E H × W)
      → Served f
          (create_of p)
          (answer_of Answer.handle c)
          s
          lines
          (answered Answer.handle (created f p (c.0, at s lines c.1)))
  unfolding op_of path_of
  create-Served f p s lines (ok x, d) = record {
    outcome_is = refl;
    disk_is = refl;
    authority_is = refl;
    log_is = (Detail.mode (codes "write") ∷ [], refl);
  }
  create-Served f p s lines (err e, d) = record {
    outcome_is = refl;
    disk_is = refl;
    authority_is = refl;
    log_is = (Detail.error e ∷ [], refl);
  }

  sized-Served :
      (f : Fs S W H T E) (r : Request T) (file : H) (s : S) (lines : List (Line E))
      → is_stat r ≡ false
      → op_of r ≡ codes "open"
      → (c : Outcome E FileInfo × W)
      → Served f r
          (ok (Answer.handle file), c.1)
          s
          lines
          (answered Answer.handle (sized f (path_of r) file (c.0, at s lines c.1)))
  sized-Served f r file s lines logs word (ok fi, d) = record {
    outcome_is = refl;
    disk_is = refl;
    authority_is = refl;
    log_is = rw (logs, word) (Detail.size fi.size ∷ [], refl);
  }
  sized-Served f r file s lines logs word (err e, d) = record {
    outcome_is = refl;
    disk_is = refl;
    authority_is = refl;
    log_is = rw (logs, word) (Detail.size 0 ∷ [], refl);
  }

  open-Served :
      (f : Fs S W H T E) (p : Bytes) (s : S) (lines : List (Line E)) (c : Outcome E H × W)
      → Served f
          (open_of p)
          (finish Answer.handle (sizing f.fs) c)
          s
          lines
          (answered Answer.handle (opened f p (c.0, at s lines c.1)))
  unfolding op_of path_of
  open-Served f p s lines (ok x, d) =
      sized-Served f (open_of p) x s lines refl refl (f.fs.file_stat x d)
  open-Served f p s lines (err e, d) = record {
    outcome_is = refl;
    disk_is = refl;
    authority_is = refl;
    log_is = (Detail.error e ∷ [], refl);
  }

  open_file-Served :
      (f : Fs S W H T E) (p : Bytes) (flag m : ℕ) (writes : Bool) (s : S) (lines : List (Line E))
      (c : Outcome E H × W)
      → Served f
          (open_file_of p flag m)
          (finish Answer.handle (if writes then (λ _ x. x) else sizing f.fs) c)
          s
          lines
          (answered Answer.handle (opened_as f p writes (c.0, at s lines c.1)))
  unfolding op_of path_of
  open_file-Served f p flag m false s lines (ok x, d) =
      sized-Served f (open_file_of p flag m) x s lines refl refl (f.fs.file_stat x d)
  open_file-Served f p flag m false s lines (err e, d) = record {
    outcome_is = refl;
    disk_is = refl;
    authority_is = refl;
    log_is = (Detail.mode (codes "read") ∷ [], refl);
  }
  open_file-Served f p flag m true s lines (ok x, d) = record {
    outcome_is = refl;
    disk_is = refl;
    authority_is = refl;
    log_is = (Detail.mode (codes "write") ∷ [], refl);
  }
  open_file-Served f p flag m true s lines (err e, d) = record {
    outcome_is = refl;
    disk_is = refl;
    authority_is = refl;
    log_is = (Detail.mode (codes "write") ∷ [], refl);
  }

  listed-Served :
      (f : Fs S W H T E) (p : Bytes) (file : H) (s : S) (lines : List (Line E))
      (c : Outcome E (List FileInfo) × W)
      → Served f
          (list_of p)
          ((answer_of Answer.listing c).0, f.fs.close file c.1)
          s
          lines
          (answered Answer.listing (listed f p file (c.0, at s lines c.1)))
  unfolding op_of path_of
  listed-Served f p file s lines (ok x, d) = record {
    outcome_is = sort_by_name-IsSorted x;
    disk_is = refl;
    authority_is = refl;
    log_is = (Detail.count (length (sort_by_name x)) ∷ [], refl);
  }
  listed-Served f p file s lines (err e, d) = record {
    outcome_is = refl;
    disk_is = refl;
    authority_is = refl;
    log_is = (Detail.error e ∷ [], refl);
  }

  list-Served :
      (f : Fs S W H T E) (p : Bytes) (s : S) (lines : List (Line E)) (c : Outcome E H × W)
      → Served f
          (list_of p)
          (reading_entries f.fs c)
          s
          lines
          (answered Answer.listing (read_entries f p (c.0, at s lines c.1)))
  unfolding op_of path_of
  list-Served f p s lines (ok x, d) = listed-Served f p x s lines (f.fs.readdir x d)
  list-Served f p s lines (err e, d) = record {
    outcome_is = refl;
    disk_is = refl;
    authority_is = refl;
    log_is = (Detail.error e ∷ [], refl);
  }

  first_given :
      (f : Fs S W H T E) (p q : Bytes) (s0 : S) {s : S}
      → (ask f (writing p) s0).0 ≡ false
      → ask_all f (writing p ∷ writing q ∷ []) s0 ≡ (true, s)
      → ⊥
  unfolding ask_all
  first_given f p q s0 not_given h = let x = rw not_given at h in cc

  -- A call whose permissions are all given makes exactly the calls of the wrapped filesystem that
  -- `backend` lists, with the clamped mode for a file that it creates, and reports their error or
  -- returns their value: what Stat tells, the open file, or the entries read, in the order of their
  -- names. It writes one "success" or "error" line after the result; a Stat writes none.
  pub perform-Served :
      (f : Fs S W H T E) (r : Request T) (w : World S W E) {s : S}
      → ask_all f (needs r) w.authority ≡ (true, s)
      → Served f r (backend f.fs r w.disk) s w.access_log (perform f r w)
  unfolding backend perform needs op_of path_of stat open_reading open_file create read_dir_sorted
      mkdir mkdir_all remove remove_all rename chmod chown chtimes
  perform-Served f (remove_of p) w h =
      rw (single f _ _ h) (written-Served f (remove_of p) [] _ w.access_log refl _)
  perform-Served f (remove_all_of p) w h =
      rw (single f _ _ h) (written-Served f (remove_all_of p) [] _ w.access_log refl _)
  perform-Served f (mkdir_of p m) w h =
      rw (single f _ _ h) (written-Served f (mkdir_of p m) [] _ w.access_log refl _)
  perform-Served f (mkdir_all_of p m) w h =
      rw (single f _ _ h) (written-Served f (mkdir_all_of p m) [] _ w.access_log refl _)
  perform-Served f (chmod_of p m) w h =
      rw (single f _ _ h) (written-Served f (chmod_of p m) [] _ w.access_log refl _)
  perform-Served f (chown_of p u g) w h =
      rw (single f _ _ h) (written-Served f (chown_of p u g) [] _ w.access_log refl _)
  perform-Served f (chtimes_of p a m) w h =
      rw (single f _ _ h) (written-Served f (chtimes_of p a m) [] _ w.access_log refl _)
  perform-Served f (stat_of p) w h =
      rw (single f _ _ h) (stat-Served f p _ w.access_log (f.fs.stat p w.disk))
  perform-Served f (open_of p) w h =
      rw (single f _ _ h) (open-Served f p _ w.access_log (f.fs.open_reading p w.disk))
  perform-Served f (list_of p) w h =
      rw (single f _ _ h) (list-Served f p _ w.access_log (f.fs.open_reading p w.disk))
  perform-Served f (create_of p) w h =
      rw (single f _ _ h)
        (create-Served f p _ w.access_log (f.fs.open_file p create_flags (clamp_perm 511) w.disk))
  perform-Served f (open_file_of p flag m) w {s} h = elim (Bool-cases (is_write_flag flag)) [
    | inl writes ↦
        rw (writes, single f (writing p) _ (rw writes at h))
          (open_file-Served f p flag m true s w.access_log
            (f.fs.open_file p flag (clamp_perm m) w.disk))
    | inr reads ↦
        rw (reads, single f (reading p) _ (rw reads at h))
          (open_file-Served f p flag m false s w.access_log
            (f.fs.open_file p flag (clamp_perm m) w.disk))
  ]
  perform-Served f (rename_of p q) w {s} h =
      let from = f.authz.can_write f.user p w.authority in
      elim (Bool-cases from.0) [
        | inl given ↦
            rw (given, single f (writing q) from.1 (second f p q w.authority given h))
              (written-Served f (rename_of p q) (Detail.to q ∷ []) s w.access_log refl
                (f.fs.rename p q w.disk))
        | inr not_given ↦ absurd (first_given f p q w.authority not_given h)
      ]
