-- ===== src/Logging/Tests.antt =====
-- pkg/logging over a disk that is the size of its one file.
use viking_ftpd.Prelude.{
  false, ℕ, ◌+◌, ◌-◌, ◌≡◌, suc, refl, arith, true, none, some, [], ◌∷◌, ◌++◌, length, Bytes, codes,
}
use viking_ftpd.Vfs.Session.{ok}
use viking_ftpd.Logging.RotatingWriter.{LogFiles, RotatingWriter}
use viking_ftpd.Logging.Lines.{format_value, log_access, log_auth}
use viking_ftpd.Logging.Reader.{read_line, has_equals, ends_in_backslash}
use viking_ftpd.Logging.Fields.{texts, paired, access_entries, auth_entries, log-read_line}
use viking_ftpd.Logging.OneLine.{IsOneLine, log-IsOneLine}
use viking_ftpd.Logging.Sizes.{LogCall, IsBounded, log_call-IsBounded}
use viking_ftpd.Logging.RotatingWriter.{new_writer}
use viking_ftpd.Logging.Sizes.{write_call, tick}
use viking_ftpd.Logging.Handles.{IsCounting, opens_behind, life_of, new_writer-opens}
use viking_ftpd.Logging.Loggers.{initial, initialize, shutdown_loggers}
use viking_ftpd.Logging.Loggers.Handles.{IsReplaced, IsShut, initialize-IsReplaced}

data Fault : Type 0 where
  invalid : Fault

-- a file is its own size
abbrev one_file : LogFiles ℕ Bytes ℕ Fault
one_file = record {
  mkdir_all = λ p d. (ok tt, d);
  open_append = λ p d. (ok p, d);
  open_new = λ p d. (ok p, 0);
  rename = λ p q d. 0;
  lstat = λ p d. ok d;
  stat = λ f d. ok d;
  same_file = λ a b. true;
  size = λ n. n;
  write = λ f p d. ((length p, none), d + length p);
  close = λ f d. d;
  err_invalid = Fault.invalid;
}

abbrev nearly_full : RotatingWriter Bytes
nearly_full = record {
  f = some (codes "app.log");
  path = codes "app.log";
  dir = codes ".";
  base = codes "app.log";
  max_size = 10;
  approx_size = 9;
  stopped = false;
}

log_call-IsBounded_example :
    IsBounded one_file (LogCall.write_call (codes "20250101-000000") (codes "abc")) nearly_full 9
log_call-IsBounded_example =
    log_call-IsBounded one_file (λ f p d. omega arith)
      (LogCall.write_call (codes "20250101-000000") (codes "abc")) nearly_full 9

-- a path that tries to begin a second line
log-IsOneLine_example :
    IsOneLine (
      log_access
        (codes "2025")
        (codes "stat")
        (codes "x")
        (10 ∷ codes "op=login")
        (codes "denied")
        [])
    × IsOneLine (log_auth (codes "2025") (codes "stat") (codes "x") (codes "denied") [])
log-IsOneLine_example =
    log-IsOneLine (codes "2025") (codes "stat") (codes "x") (10 ∷ codes "op=login") (codes "denied")
      [] (refl, (refl, (refl, (refl, tt)))) tt

-- a disk that is the number of its open files
abbrev counted_files : LogFiles ℕ (Unit {0}) ℕ Fault
counted_files = record {
  mkdir_all = λ p d. (ok tt, d);
  open_append = λ p d. (ok tt, suc d);
  open_new = λ p d. (ok tt, suc d);
  rename = λ p q d. d;
  lstat = λ p d. ok 0;
  stat = λ f d. ok 9;
  same_file = λ a b. true;
  size = λ n. n;
  write = λ f p d. ((length p, none), d);
  close = λ f d. d - 1;
  err_invalid = Fault.invalid;
}

counted_files-IsCounting : IsCounting counted_files (λ f. 1) (λ d. d)
counted_files-IsCounting = record {
  mkdir_all = λ p d. refl;
  open_append = λ p d. omega arith;
  open_new = λ p d. omega arith;
  rename = λ p q d. refl;
  write = λ f p d. refl;
  close = λ f d. refl;
}

new_writer-opens_example :
    opens_behind counted_files
      (λ f. 1)
      (λ d. d)
      counted_files-IsCounting
      (life_of counted_files
        (λ f. 1)
        (λ d. d)
        counted_files-IsCounting
        (write_call (codes "20250101-000000") (codes "abc") ∷ tick ∷ [])
        (new_writer counted_files
          (codes "20250101-000000")
          (codes "/log/app.log")
          (codes "/log")
          (codes "app.log")
          10
          3))
    ≡ some 3
new_writer-opens_example =
    new_writer-opens counted_files (λ f. 1) (λ d. d) counted_files-IsCounting
      (codes "20250101-000000") (codes "/log/app.log") (codes "/log") (codes "app.log") 10 3
      (write_call (codes "20250101-000000") (codes "abc") ∷ tick ∷ [])

initialize-IsReplaced_example :
    IsReplaced counted_files
      (λ f. 1)
      (λ d. d)
      counted_files-IsCounting
      (λ p. p)
      (λ p. p)
      (codes "20250101-000000")
      (codes "/log/access.log")
      (codes "/log/app.log")
      []
      10
      3
      initial
      (initialize counted_files
        (λ p. p)
        (λ p. p)
        (codes "20250101-000000")
        (codes "/log/access.log")
        (codes "/log/app.log")
        []
        10
        initial
        3)
    × IsShut counted_files
        (λ f. 1)
        (λ d. d)
        counted_files-IsCounting
        (λ p. p)
        (λ p. p)
        (codes "20250101-000000")
        3
        (shutdown_loggers counted_files (λ p. p) (λ p. p) (codes "20250101-000000") initial 3)
initialize-IsReplaced_example =
    initialize-IsReplaced counted_files (λ f. 1) (λ d. d) counted_files-IsCounting (λ p. p) (λ p. p)
      (codes "20250101-000000") (codes "/log/access.log") (codes "/log/app.log") [] 10 3 initial 3
      (tt, tt) refl

-- a path that tries to end its quotes and to begin a second status
abbrev forged : Bytes
forged = codes "/x" ++ (34 ∷ codes " status=ok")

log-read_line_example :
    (read_line (length (codes "2025")) (
        log_access
          (codes "2025")
          (codes "stat")
          (codes "x")
          forged
          (codes "denied")
          (codes "size" ∷ codes "7" ∷ []))
      ≡ some (
          texts (
            access_entries
              (codes "stat")
              (codes "x")
              forged
              (codes "denied")
              (codes "size" ∷ codes "7" ∷ []))))
    × (read_line (length (codes "2025")) (
          log_auth
            (codes "2025")
            (codes "stat")
            (codes "x")
            (codes "denied")
            (codes "size" ∷ codes "7" ∷ []))
        ≡ some (
            texts (
              auth_entries
                (codes "stat")
                (codes "x")
                (codes "denied")
                (codes "size" ∷ codes "7" ∷ []))))
unfolding ends_in_backslash paired has_equals
log-read_line_example =
    log-read_line (codes "2025") (codes "stat") (codes "x") forged (codes "denied")
      (codes "size" ∷ codes "7" ∷ []) (refl, (refl, (refl, (refl, tt)))) ((refl, refl), tt)

-- the fields of that line
read_forged :
    read_line 4 (log_access (codes "2025") (codes "stat") [] forged (codes "denied") [])
    ≡ some
        (codes "op" ∷ codes "stat" ∷ codes "path" ∷ forged ∷ codes "status" ∷ codes "denied" ∷ [])
unfolding log_access read_line format_value
read_forged = refl

-- a path in quotes that ends in a backslash: the line cannot be read
read_backslash :
    read_line 4
      (log_access (codes "2025") (codes "stat") [] (codes "/x y" ++ (92 ∷ [])) (codes "denied") [])
    ≡ none
unfolding log_access read_line format_value
read_backslash = refl
