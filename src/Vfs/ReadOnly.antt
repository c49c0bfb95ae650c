-- ===== src/Vfs/ReadOnly.antt =====
-- Sessions of pkg/vfs/vfs.go for a user whom the Authorizer refuses every write.
use viking_ftpd.Prelude.{
  ℕ, ◌≡◌, refl, Bool, true, false, not, List, [], ◌∷◌, Bytes, Bool-cases, inl, inr,
}
use viking_ftpd.Vfs.Bits.{is_write_flag, clamp_perm}
use viking_ftpd.Vfs.Session.{Outcome, ok, err, Afero, Fs, World}
use viking_ftpd.Vfs.Requests.{
  Request, stat_of, open_of, create_of, list_of, remove_of, remove_all_of, open_file_of, mkdir_of,
  mkdir_all_of, chmod_of, rename_of, chown_of, chtimes_of, needs, ask_all, perform, Answer,
}
use viking_ftpd.Vfs.Policy.{perform-refused}
use viking_ftpd.Vfs.Backend.{finish, sizing, reading_entries, backend}
use viking_ftpd.Vfs.Serving.{perform-Served}

-- `P` holds of the disk after each call that only reads, if it held before.
pub record KeptByReads {W H T E : Type 0} (fs : Afero W H T E) (P : W → Type 0) : Type 0 where
  pub by_stat : (p : Bytes) (d : W) → P d → P (fs.stat p d).1
  pub by_open : (p : Bytes) (d : W) → P d → P (fs.open_reading p d).1
  pub by_open_file :
      (p : Bytes) (flag m : ℕ) (d : W)
      → is_write_flag flag ≡ false
      → P d
      → P (fs.open_file p flag m d).1
  pub by_file_stat : (h : H) (d : W) → P d → P (fs.file_stat h d).1
  pub by_readdir : (h : H) (d : W) → P d → P (fs.readdir h d).1
  pub by_close : (h : H) (d : W) → P d → P (fs.close h d)

-- a request that asks for no writing
abbrev pub is_reading : {T : Type 0} → Request T → Bool
is_reading (stat_of p) = true
is_reading (open_of p) = true
is_reading (list_of p) = true
is_reading (open_file_of p flag m) = not (is_write_flag flag)
is_reading _ = false

pub as_pair : {S : Type 0} (a : Bool × S) {b : Bool} → a.0 ≡ b → a ≡ (b, a.1)
as_pair (b, s) h = rw h refl

-- a session's calls in order
unfoldable pub perform_all :
    {S W H T E : Type 0} → Fs S W H T E → List (Request T) → World S W E → World S W E
perform_all f [] w = w
perform_all f (r ∷ rs) w = perform_all f rs (perform f r w).1

module _ {W H T E : Type 0} (fs : Afero W H T E) (P : W → Type 0) (kept : KeptByReads fs P) where
  finish-kept :
      {A B : Type 0} (answer : A → B) (step : A → W → W) (c : Outcome E A × W)
      → ((x : A) (d : W) → P d → P (step x d))
      → P c.1
      → P (finish answer step c).1
  finish-kept answer step (ok x, d) s h = s x d h
  finish-kept answer step (err e, d) s h = h

  list-kept : (c : Outcome E H × W) → P c.1 → P (reading_entries fs c).1
  list-kept (ok file, d) h = kept.by_close file _ (kept.by_readdir file d h)
  list-kept (err e, d) h = h

  -- the calls that a request for reading stands for
  backend-kept : (r : Request T) (d : W) → is_reading r ≡ true → P d → P (backend fs r d).1
  unfolding backend
  backend-kept (stat_of p) d reads h =
      finish-kept Answer.info (λ _ x. x) (fs.stat p d) (λ _ _ k. k) (kept.by_stat p d h)
  backend-kept (open_of p) d reads h =
      finish-kept Answer.handle (sizing fs) (fs.open_reading p d)
        (λ file d k. kept.by_file_stat file d k) (kept.by_open p d h)
  backend-kept (list_of p) d reads h = list-kept (fs.open_reading p d) (kept.by_open p d h)
  backend-kept (open_file_of p flag m) d reads h = elim (Bool-cases (is_write_flag flag)) [
    | inl writes ↦ let x = rw writes at reads in absurd (cc)
    | inr no_write ↦ rw no_write (
        finish-kept Answer.handle (sizing fs) (fs.open_file p flag (clamp_perm m) d)
          (λ file d k. kept.by_file_stat file d k)
          (kept.by_open_file p flag (clamp_perm m) d no_write h))
  ]
  backend-kept (create_of p) d reads h = absurd (cc)
  backend-kept (remove_of p) d reads h = absurd (cc)
  backend-kept (remove_all_of p) d reads h = absurd (cc)
  backend-kept (mkdir_of p m) d reads h = absurd (cc)
  backend-kept (mkdir_all_of p m) d reads h = absurd (cc)
  backend-kept (chmod_of p m) d reads h = absurd (cc)
  backend-kept (rename_of p q) d reads h = absurd (cc)
  backend-kept (chown_of p u g) d reads h = absurd (cc)
  backend-kept (chtimes_of p a m) d reads h = absurd (cc)

-- A session in which the Authorizer refuses every write of the user.
abbrev pub NeverWrites : {S W H T E : Type 0} → Fs S W H T E → Type 0
NeverWrites {S} f = (p : Bytes) (s : S) → (f.authz.can_write f.user p s).0 ≡ false

module _ {S W H T E : Type 0} where
  pub writing-refused :
      (f : Fs S W H T E)
      → NeverWrites f
      → (r : Request T) (s : S) → is_reading r ≡ false
      → (ask_all f (needs r) s).0 ≡ false
  unfolding ask_all needs
  writing-refused f never (stat_of p) s writes = absurd (cc)
  writing-refused f never (open_of p) s writes = absurd (cc)
  writing-refused f never (list_of p) s writes = absurd (cc)
  writing-refused f never (create_of p) s writes = rw (never p s) refl
  writing-refused f never (remove_of p) s writes = rw (never p s) refl
  writing-refused f never (remove_all_of p) s writes = rw (never p s) refl
  writing-refused f never (mkdir_of p m) s writes = rw (never p s) refl
  writing-refused f never (mkdir_all_of p m) s writes = rw (never p s) refl
  writing-refused f never (chmod_of p m) s writes = rw (never p s) refl
  writing-refused f never (rename_of p q) s writes = rw (never p s) refl
  writing-refused f never (chown_of p u g) s writes = rw (never p s) refl
  writing-refused f never (chtimes_of p a m) s writes = rw (never p s) refl
  writing-refused f never (open_file_of p flag m) s writes =
      elim (Bool-cases (is_write_flag flag)) [
        | inl write ↦ rw (write, never p s) refl
        | inr no_write ↦ let x = rw no_write at writes in absurd (cc)
      ]

  refused-kept :
      (f : Fs S W H T E) (P : W → Type 0) (r : Request T) (w : World S W E)
      → (ask_all f (needs r) w.authority).0 ≡ false
      → P w.disk
      → P (perform f r w).1.disk
  refused-kept f P r w no_permission h =
      rw (perform-refused f r w (as_pair (ask_all f (needs r) w.authority) no_permission)) h

  -- one call
  perform-kept :
      (f : Fs S W H T E) (P : W → Type 0)
      → KeptByReads f.fs P
      → NeverWrites f
      → (r : Request T) (w : World S W E) → P w.disk
      → P (perform f r w).1.disk
  perform-kept f P kept never r w h = elim (Bool-cases (is_reading r)) [
    | inr writes ↦ refused-kept f P r w (writing-refused f never r w.authority writes) h
    | inl reads ↦ elim (Bool-cases (ask_all f (needs r) w.authority).0) [
      | inr no_permission ↦ refused-kept f P r w no_permission h
      | inl given ↦
          rw (perform-Served f r w (as_pair (ask_all f (needs r) w.authority) given)).disk_is
            (backend-kept f.fs P kept r w.disk reads h)
    ]
  ]

  -- In a session whose user the Authorizer refuses every write, a property of the disk that each
  -- reading call of the wrapped filesystem keeps is kept by every sequence of requests.
  pub perform_all-KeptByReads :
      (f : Fs S W H T E) (P : W → Type 0)
      → KeptByReads f.fs P
      → NeverWrites f
      → (rs : List (Request T)) (w : World S W E) → P w.disk
      → P (perform_all f rs w).disk
  unfolding perform_all
  perform_all-KeptByReads f P kept never [] w h = h
  perform_all-KeptByReads f P kept never (r ∷ rs) w h =
      perform_all-KeptByReads f P kept never rs (perform f r w).1
        (perform-kept f P kept never r w h)
