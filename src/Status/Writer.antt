-- ===== src/Status/Writer.antt =====
-- pkg/status/writer.go. The package os is a parameter; the clock, the process and the memory
-- statistics are what a call reads from its Surroundings.
use viking_ftpd.Prelude.{
  ℕ, ◌-◌, ◌/◌, Bool, true, false, Option, none, some, [], ◌++◌, ◌∷◌, ◌==◌, if◌then◌else◌, Bytes,
  codes, pos,
}
use viking_ftpd.Paths.{join}
use viking_ftpd.Lpc.Decimal.{itoa}
use viking_ftpd.Vfs.Session.{Outcome, ok, err}

-- os.WriteFile, os.Rename and os.Remove
pub record StatusFiles (W E : Type 0) : Type 0 where
  pub write_file : Bytes → Bytes → W → Outcome E (Unit {0}) × W
  pub rename : Bytes → Bytes → W → Outcome E (Unit {0}) × W
  pub remove : Bytes → W → W

-- The clock, in nanoseconds since 1970 and as a text; the process; runtime.MemStats in bytes; runtime.NumGoroutine;
-- the fraction as "%.6f" writes it.
pub record Surroundings : Type 0 where
  pub now : ℕ
  pub human : Bytes
  pub pid : ℕ
  pub version : Bytes
  pub alloc : ℕ
  pub sys : ℕ
  pub goroutines : ℕ
  pub gc_cpu_fraction : Bytes

-- what the MetricsProvider answers; the start time is in nanoseconds since 1970, 0
-- for the zero time
pub record Metrics : Type 0 where
  pub active : ℕ
  pub total : ℕ
  pub start_time : ℕ

-- a line of a status file: the key, ": ", the text and the end of the line
abbrev pub status_line : Bytes → Bytes → Bytes
status_line key text = key ++ (codes ": " ++ (text ++ 10 ∷ []))

abbrev pub number : ℕ → Bytes
number n = itoa (pos n)

-- now.Unix()
abbrev pub unix_of : Surroundings → ℕ
unix_of env = env.now / 1000000000

-- the texts of WriteStartFile, WriteStopFile and writeRunningFile
unfoldable pub start_content : Surroundings → Bytes
start_content env =
    status_line (codes "timestamp_unix") (number (unix_of env))
    ++ (status_line (codes "timestamp_human") env.human
        ++ (status_line (codes "pid") (number env.pid)
            ++ status_line (codes "version") env.version))

unfoldable pub stop_content : Surroundings → Bytes → ℕ → Bytes
stop_content env reason uptime =
    status_line (codes "timestamp_unix") (number (unix_of env))
    ++ (status_line (codes "timestamp_human") env.human
        ++ (status_line (codes "reason") reason
            ++ status_line (codes "uptime_seconds") (number uptime)))

-- `int64(now.Sub(startTime).Seconds())`, 0 for the zero start time
abbrev pub uptime_of : Surroundings → Metrics → ℕ
uptime_of env m = if m.start_time == 0 then 0 else (env.now - m.start_time) / 1000000000

unfoldable pub running_content : Surroundings → Metrics → Bytes
running_content env m =
    status_line (codes "timestamp_unix") (number (unix_of env))
    ++ (status_line (codes "uptime_seconds") (number (uptime_of env m))
        ++ (status_line (codes "active_connections") (number m.active)
            ++ (status_line (codes "total_connections") (number m.total)
                ++ (status_line (codes "memory_alloc_mb") (number (env.alloc / 1024 / 1024))
                    ++ (status_line (codes "memory_sys_mb") (number (env.sys / 1024 / 1024))
                        ++ (status_line (codes "goroutines") (number env.goroutines)
                            ++ status_line (codes "gc_cpu_fraction") env.gc_cpu_fraction))))))

module _ {W E : Type 0} (fs : StatusFiles W E) where
  -- atomicWrite behind the rename: the temporary file is removed after an error
  abbrev pub cleaned_up : Bytes → Outcome E (Unit {0}) × W → Outcome E (Unit {0}) × W
  cleaned_up tmp_path (ok x, d) = (ok tt, d)
  cleaned_up tmp_path (err e, d) = (err e, fs.remove tmp_path d)

  abbrev pub renamed : Bytes → Bytes → Outcome E (Unit {0}) × W → Outcome E (Unit {0}) × W
  renamed tmp_path path (err e, d) = (err e, d)
  renamed tmp_path path (ok x, d) = cleaned_up tmp_path (fs.rename tmp_path path d)

  unfoldable pub atomic_write : Bytes → Bytes → W → Outcome E (Unit {0}) × W
  atomic_write path content d =
      let tmp_path = path ++ codes ".tmp" in
      renamed tmp_path path (fs.write_file tmp_path content d)

  -- WriteStartFile, WriteStopFile and writeRunningFile
  unfoldable pub write_start_file : Surroundings → Bytes → W → Outcome E (Unit {0}) × W
  unfolding atomic_write start_content join
  write_start_file env dir d = atomic_write (join dir (codes "last_start")) (start_content env) d

  unfoldable pub write_stop_file : Surroundings → Bytes → Bytes → ℕ → W → Outcome E (Unit {0}) × W
  unfolding atomic_write stop_content join
  write_stop_file env dir reason uptime d =
      atomic_write (join dir (codes "last_stop")) (stop_content env reason uptime) d

  unfoldable pub write_running_file : Surroundings → Bytes → Metrics → W → Outcome E (Unit {0}) × W
  unfolding atomic_write running_content join
  write_running_file env dir m d =
      atomic_write (join dir (codes "running")) (running_content env m) d

  -- Shutdown: sync.Once lets the first call through; none is the panic of closing a channel twice.
  -- `stopped` says that stopCh is closed, `done` that the first call was made.
  abbrev pub shutdown :
      Surroundings → Bytes → Bytes → ℕ → Bool → Bool → W → Option (Outcome E (Unit {0}) × W)
  shutdown env dir reason uptime stopped true d = some (ok tt, d)
  shutdown env dir reason uptime true false d = none
  shutdown env dir reason uptime false false d = some (write_stop_file env dir reason uptime d)
