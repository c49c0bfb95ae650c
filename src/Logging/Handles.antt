-- ===== src/Logging/Handles.antt =====
-- pkg/logging/rotating_writer.go: the open files, over the life of a writer.
use viking_ftpd.Prelude.{
  ℕ, ◌+◌, ◌-◌, ◌≡◌, refl, ap, ◌∙◌, arith, Option, none, some, List, [], ◌∷◌, ltb, leb, length,
  false, Bytes, Bool-cases, inl, inr,
}
use viking_ftpd.Vfs.Session.{Outcome, ok, err}
use viking_ftpd.Logging.RotatingWriter.{
  LogFiles, RotatingWriter, with_size, opened, open_in, open_for_append, renewed, archive, rotate,
  write_file, write_rotated, write_log, reopen, same_infos, distance, corrected, verify_file,
  verify, close_file, old_dir, begin_fresh, new_writer, close_writer,
}
use viking_ftpd.Logging.Settings.{
  settings, write_log-settings, verify-settings, new_writer-settings,
}
use viking_ftpd.Logging.Sizes.{LogCall, write_call, tick}

-- what is open after an opening: one more file if there is no error
abbrev pub opened_one : {E F : Type 0} → (F → ℕ) → Outcome E F → ℕ → ℕ
opened_one weight (ok f) n = weight f + n
opened_one weight (err e) n = n

-- `opens` is the weight of all files that the process has open, where each file has a weight of its
-- own: an opening adds that of the new file, and a Close takes that of its file away. If each file
-- weighs 1, it is their number; if only some do, it is the number of these.
pub record IsCounting {W F I E : Type 0} (fs : LogFiles W F I E) (weight : F → ℕ) (opens : W → ℕ)
    : Type 0 where
  pub mkdir_all : (p : Bytes) (d : W) → opens (fs.mkdir_all p d).1 ≡ opens d
  pub open_append :
      (p : Bytes) (d : W)
      → opens (fs.open_append p d).1 ≡ opened_one weight (fs.open_append p d).0 (opens d)
  pub open_new :
      (p : Bytes) (d : W)
      → opens (fs.open_new p d).1 ≡ opened_one weight (fs.open_new p d).0 (opens d)
  pub rename : (p q : Bytes) (d : W) → opens (fs.rename p q d) ≡ opens d
  pub write : (f : F) (p : Bytes) (d : W) → opens (fs.write f p d).1 ≡ opens d
  pub close : (f : F) (d : W) → opens (fs.close f d) ≡ opens d - weight f

abbrev pub held : {F : Type 0} → (F → ℕ) → Option F → ℕ
held weight none = 0
held weight (some f) = weight f

module _ {W F I E : Type 0} (fs : LogFiles W F I E) (weight : F → ℕ) (opens : W → ℕ)
    (counting : IsCounting fs weight opens) where
  -- Beside `base` other files, the writer's own is open, if it has one.
  abbrev pub Holds : ℕ → RotatingWriter F → W → Type 0
  Holds base w d = opens d ≡ base + held weight w.f

  abbrev HoldsAfter : {R : Type 0} → ℕ → R × (RotatingWriter F × W) → Type 0
  HoldsAfter base r = Holds base r.1.0 r.1.1

  -- the same after an attempt to open a file; where it fails, the writer has none
  abbrev pub IsOpening : ℕ → Outcome E (Unit {0}) × (RotatingWriter F × W) → Type 0
  IsOpening base (err e, (w, d)) = (held weight w.f ≡ 0) × (opens d ≡ base)
  IsOpening base (ok x, (w, d)) = Holds base w d

  IsOpening-HoldsAfter :
      (base : ℕ) (r : Outcome E (Unit {0}) × (RotatingWriter F × W))
      → IsOpening base r
      → HoldsAfter base r
  IsOpening-HoldsAfter base (err e, (w, d)) h = omega (arith, h)
  IsOpening-HoldsAfter base (ok x, (w, d)) h = h

  pub close_file-opens :
      (base : ℕ) (f : Option F) (d : W)
      → opens d ≡ base + held weight f
      → opens (close_file fs f d) ≡ base
  close_file-opens base none d h = omega (arith, h)
  close_file-opens base (some f) d h = omega (arith, h, counting.close f d)

  with_size-IsOpening :
      (base : ℕ) (w : RotatingWriter F) (f : F) (d : W) (o : Outcome E I)
      → held weight w.f ≡ 0
      → opens d ≡ weight f + base
      → IsOpening base (with_size fs w f d o)
  with_size-IsOpening base w f d (err e) h k = (h, omega (arith, k, counting.close f d))
  with_size-IsOpening base w f d (ok fi) h k = omega (arith, k)

  opened-IsOpening :
      (base : ℕ) (w : RotatingWriter F) (c : Outcome E F × W)
      → held weight w.f ≡ 0
      → opens c.1 ≡ opened_one weight c.0 base
      → IsOpening base (opened fs w c)
  opened-IsOpening base w (err e, d) h k = (h, k)
  opened-IsOpening base w (ok f, d) h k = with_size-IsOpening base w f d (fs.stat f d) h k

  open_in-IsOpening :
      (base : ℕ) (w : RotatingWriter F) (c : Outcome E (Unit {0}) × W)
      → held weight w.f ≡ 0
      → opens c.1 ≡ base
      → IsOpening base (open_in fs w c)
  open_in-IsOpening base w (err e, d) h k = (h, k)
  open_in-IsOpening base w (ok x, d) h k =
      opened-IsOpening base w (fs.open_append w.path d) h
        (counting.open_append w.path d ∙ ap (opened_one weight (fs.open_append w.path d).0) k)

  open_for_append-IsOpening :
      (base : ℕ) (w : RotatingWriter F) (d : W)
      → held weight w.f ≡ 0
      → opens d ≡ base
      → IsOpening base (open_for_append fs w d)
  unfolding open_for_append
  open_for_append-IsOpening base w d h k =
      open_in-IsOpening base w (fs.mkdir_all w.dir d) h (counting.mkdir_all w.dir d ∙ k)

  reopen-IsOpening :
      (base : ℕ) (w : RotatingWriter F) (d : W) → Holds base w d → IsOpening base (reopen fs w d)
  unfolding reopen
  reopen-IsOpening base w d h =
      open_for_append-IsOpening base (record w { f = none }) (close_file fs w.f d) refl
        (close_file-opens base w.f d h)

  renewed-IsOpening :
      (base : ℕ) (w : RotatingWriter F) (c : Outcome E F × W)
      → held weight w.f ≡ 0
      → opens c.1 ≡ opened_one weight c.0 base
      → IsOpening base (renewed fs w c)
  renewed-IsOpening base w (err e, d) h k = (h, k)
  renewed-IsOpening base w (ok f, d) h k = omega (arith, k)

  archive-IsOpening :
      (base : ℕ) (t : Bytes) (w : RotatingWriter F) (c : Outcome E (Unit {0}) × W)
      → held weight w.f ≡ 0
      → opens c.1 ≡ base
      → IsOpening base (archive fs t w c)
  archive-IsOpening base t w (err e, d) h k = (h, k)
  archive-IsOpening base t w (ok x, d) h k =
      renewed-IsOpening base w (fs.open_new w.path (fs.rename w.path _ d)) h (
        counting.open_new w.path (fs.rename w.path _ d)
        ∙ ap (opened_one weight (fs.open_new w.path (fs.rename w.path _ d)).0)
            (counting.rename w.path _ d ∙ k))

  rotate-IsOpening :
      (base : ℕ) (t : Bytes) (w : RotatingWriter F) (d : W)
      → Holds base w d
      → IsOpening base (rotate fs t w d)
  unfolding rotate
  rotate-IsOpening base t w d h =
      archive-IsOpening base t (record w { f = none })
        (fs.mkdir_all (old_dir fs w) (close_file fs w.f d)) refl
        (counting.mkdir_all (old_dir fs w) (close_file fs w.f d) ∙ close_file-opens base w.f d h)

  write_file-opens : (f : Option F) (p : Bytes) (d : W) → opens (write_file fs f p d).1 ≡ opens d
  write_file-opens none p d = refl
  write_file-opens (some f) p d = counting.write f p d

  write_rotated-Holds :
      (base : ℕ) (p : Bytes) (c : Outcome E (Unit {0}) × (RotatingWriter F × W))
      → HoldsAfter base c
      → HoldsAfter base (write_rotated fs p c)
  write_rotated-Holds base p (err e, (w, d)) h = h
  write_rotated-Holds base p (ok x, (w, d)) h = write_file-opens w.f p d ∙ h

  write_log-Holds :
      (base : ℕ) (t p : Bytes) (w : RotatingWriter F) (d : W)
      → Holds base w d
      → HoldsAfter base (write_log fs t p w d)
  unfolding write_log
  write_log-Holds base t p w d h = elim (Bool-cases (leb w.max_size (w.approx_size + length p))) [
    | inl full ↦ rw full (
        write_rotated-Holds base p (rotate fs t w d)
          (IsOpening-HoldsAfter base (rotate fs t w d) (rotate-IsOpening base t w d h)))
    | inr room ↦ rw room (write_file-opens w.f p d ∙ h)
  ]

  corrected-Holds :
      (base : ℕ) (w : RotatingWriter F) (d : W) (o : Outcome E I)
      → Holds base w d
      → HoldsAfter base (corrected fs w d o)
  corrected-Holds base w d (err e) h =
      IsOpening-HoldsAfter base (reopen fs w d) (reopen-IsOpening base w d h)
  corrected-Holds base w d (ok fi) h =
      elim (Bool-cases (ltb 8192 (distance fs (fs.size fi) w.approx_size))) [
        | inl far ↦ rw far h
        | inr near ↦ rw near h
      ]

  verify_file-Holds :
      (base : ℕ) (w : RotatingWriter F) (d : W) (o : Option F)
      → w.f ≡ o
      → Holds base w d
      → HoldsAfter base (verify_file fs w d o)
  verify_file-Holds base w d none e h =
      let empty : held weight w.f ≡ 0 = ap (held weight) e in
      IsOpening-HoldsAfter base (open_for_append fs w d)
        (open_for_append-IsOpening base w d empty (omega (arith, h, empty)))
  verify_file-Holds base w d (some f) e h =
      elim (Bool-cases (same_infos fs (fs.lstat w.path d) (fs.stat f d))) [
        | inl same ↦ rw same (corrected-Holds base w d (fs.stat f d) h)
        | inr other ↦
            rw other (IsOpening-HoldsAfter base (reopen fs w d) (reopen-IsOpening base w d h))
      ]

  -- a call, whose answer is left
  unfoldable pub call : LogCall → RotatingWriter F × W → RotatingWriter F × W
  call (write_call t p) s = (write_log fs t p s.0 s.1).1
  call tick s = (verify fs s.0 s.1).1

  unfoldable pub call_all : List LogCall → RotatingWriter F × W → RotatingWriter F × W
  unfolding call
  call_all [] s = s
  call_all (c ∷ cs) s = call_all cs (call c s)

  call-Holds :
      (base : ℕ) (c : LogCall) (s : RotatingWriter F × W)
      → Holds base s.0 s.1
      → Holds base (call c s).0 (call c s).1
  unfolding call verify
  call-Holds base (write_call t p) s h = write_log-Holds base t p s.0 s.1 h
  call-Holds base tick s h = verify_file-Holds base s.0 s.1 s.0.f refl h

  pub call_all-Holds :
      (base : ℕ) (cs : List LogCall) (s : RotatingWriter F × W)
      → Holds base s.0 s.1
      → Holds base (call_all cs s).0 (call_all cs s).1
  unfolding call_all
  call_all-Holds base [] s h = h
  call_all-Holds base (c ∷ cs) s h = call_all-Holds base cs (call c s) (call-Holds base c s h)

  begin_fresh-IsOpening :
      (base : ℕ) (t : Bytes) (c : Outcome E (Unit {0}) × (RotatingWriter F × W))
      → IsOpening base c
      → IsOpening base (begin_fresh fs t c)
  begin_fresh-IsOpening base t (err e, (w, d)) h = h
  begin_fresh-IsOpening base t (ok x, (w, d)) h = elim (Bool-cases (leb w.max_size w.approx_size)) [
    | inl full ↦ rw full (rotate-IsOpening base t w d h)
    | inr room ↦ rw room h
  ]

  pub new_writer-IsOpening :
      (t path dir base_name : Bytes) (max_size : ℕ) (d : W)
      → IsOpening (opens d) (new_writer fs t path dir base_name max_size d)
  unfolding new_writer
  new_writer-IsOpening t path dir base_name max_size d =
      let fresh : RotatingWriter F = record {
        f = none;
        path = path;
        dir = dir;
        base = base_name;
        max_size = max_size;
        approx_size = 0;
        stopped = false;
      } in
      begin_fresh-IsOpening (opens d) t (open_for_append fs fresh d)
        (open_for_append-IsOpening (opens d) fresh d refl refl)

  -- the weight behind a Close that does not panic
  abbrev pub opens_behind : Option (RotatingWriter F × W) → Option ℕ
  opens_behind none = none
  opens_behind (some (w, d)) = some (opens d)

  -- NewRotatingWriter, some calls, and Close; none is a panic
  abbrev pub life_of :
      List LogCall → Outcome E (Unit {0}) × (RotatingWriter F × W) → Option (RotatingWriter F × W)
  life_of cs (err e, s) = some s
  life_of cs (ok x, s) = let s1 = call_all cs s in close_writer fs s1.0 s1.1

  pub close_writer-opens :
      (base : ℕ) (w : RotatingWriter F) (d : W)
      → w.stopped ≡ false
      → Holds base w d
      → opens_behind (close_writer fs w d) ≡ some base
  close_writer-opens base w d running h = rw running (ap some (close_file-opens base w.f d h))

  call-settings : (c : LogCall) (s : RotatingWriter F × W) → settings (call c s).0 ≡ settings s.0
  unfolding call
  call-settings (write_call t p) s = write_log-settings fs t p s.0 s.1
  call-settings tick s = verify-settings fs s.0 s.1

  call_all-settings :
      (cs : List LogCall) (s : RotatingWriter F × W) → settings (call_all cs s).0 ≡ settings s.0
  unfolding call_all
  call_all-settings [] s = refl
  call_all-settings (c ∷ cs) s = call_all-settings cs (call c s) ∙ call-settings c s

  life_of-opens :
      (base : ℕ) (cs : List LogCall) (r : Outcome E (Unit {0}) × (RotatingWriter F × W))
      → IsOpening base r
      → r.1.0.stopped ≡ false
      → opens_behind (life_of cs r) ≡ some base
  life_of-opens base cs (err e, (w, d)) h running = ap some h.1
  life_of-opens base cs (ok x, s) h running =
      close_writer-opens base (call_all cs s).0 (call_all cs s).1
        (ap (λ x. x.2) (call_all-settings cs s) ∙ running) (call_all-Holds base cs s h)

  -- No file stays open behind a log writer: after NewRotatingWriter, any writes and verifications,
  -- whatever fails in them, and Close, which does not panic, the same files are open as before: of
  -- whatever files one takes the number, it is the same. So it is where NewRotatingWriter fails.
  pub new_writer-opens :
      (t path dir base_name : Bytes) (max_size : ℕ) (d : W) (cs : List LogCall)
      → opens_behind (life_of cs (new_writer fs t path dir base_name max_size d)) ≡ some (opens d)
  new_writer-opens t path dir base_name max_size d cs =
      life_of-opens (opens d) cs (new_writer fs t path dir base_name max_size d)
        (new_writer-IsOpening t path dir base_name max_size d)
        (ap (λ x. x.2) (new_writer-settings fs t path dir base_name max_size d))
