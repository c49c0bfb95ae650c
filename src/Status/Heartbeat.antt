-- ===== src/Status/Heartbeat.antt =====
-- pkg/status/writer.go: StartHeartbeat with its goroutine, and Shutdown, as steps that interleave in
-- any order. Each step is one wait, or one file written.
pub mod Ended
use viking_ftpd.Prelude.{ℕ, ◌≡◌, ◌⊎◌, Bool, true, false, List, [], ◌∷◌, Bytes}
use viking_ftpd.Status.Writer.{Surroundings, Metrics, running_content, stop_content}

-- the goroutine: before StartHeartbeat, about to call writeRunningFile, in its select, or returned
pub data Beat : Type 0 where
  unstarted writing selecting finished : Beat

-- the first call of Shutdown: before it, in wg.Wait, returned, or returned with the error of
-- WriteStopFile
pub data Closing : Type 0 where
  not_called waiting returned failed : Closing

abbrev pub has_returned : Closing → Bool
has_returned Closing.returned = true
has_returned Closing.failed = true
has_returned _ = false

-- a file that was written, with its content
pub data Written : Type 0 where
  running_file stop_file : Bytes → Written

-- `stopped` says that stopCh is closed; the latest file stands first.
pub record Heart : Type 0 where
  pub beat : Beat
  pub stopped : Bool
  pub closing : Closing
  pub written : List Written

-- a writer as New leaves it
abbrev pub new_heart : Heart
new_heart = record {
  beat = Beat.unstarted;
  stopped = false;
  closing = Closing.not_called;
  written = [];
}

pub data Step : Heart → Heart → Type 0 where
  -- StartHeartbeat, which the program calls once and before any Shutdown
  start_heartbeat :
      (h : Heart)
      → h.beat ≡ Beat.unstarted
      → h.closing ≡ Closing.not_called
      → Step h (record h { beat = Beat.writing })
  -- writeRunningFile
  write_running :
      (h : Heart) (env : Surroundings) (m : Metrics)
      → h.beat ≡ Beat.writing
      → Step h (record h {
        beat = Beat.selecting;
        written = running_file (running_content env m) ∷ h.written;
      })
  -- an error in it is only logged; a file is written whole or not at all
  running_fails : (h : Heart) → h.beat ≡ Beat.writing → Step h (record h { beat = Beat.selecting })
  -- the select takes the ticker
  tick : (h : Heart) → h.beat ≡ Beat.selecting → Step h (record h { beat = Beat.writing })
  -- the select takes stopCh
  see_stop :
      (h : Heart)
      → h.beat ≡ Beat.selecting
      → h.stopped ≡ true
      → Step h (record h { beat = Beat.finished })
  -- the first Shutdown closes stopCh
  shut_down :
      (h : Heart)
      → h.closing ≡ Closing.not_called
      → Step h (record h { stopped = true; closing = Closing.waiting })
  -- wg.Wait lets it on, and it writes the stop file
  write_stop :
      (h : Heart) (env : Surroundings) (reason : Bytes) (uptime : ℕ)
      → h.closing ≡ Closing.waiting
      → (h.beat ≡ Beat.unstarted) ⊎ (h.beat ≡ Beat.finished)
      → Step h (record h {
        closing = Closing.returned;
        written = stop_file (stop_content env reason uptime) ∷ h.written;
      })
  -- or WriteStopFile fails, and Shutdown returns its error
  stop_fails :
      (h : Heart)
      → h.closing ≡ Closing.waiting
      → (h.beat ≡ Beat.unstarted) ⊎ (h.beat ≡ Beat.finished)
      → Step h (record h { closing = Closing.failed })
  -- a later Shutdown, when sync.Once has seen the first one return
  shut_down_again : (h : Heart) → has_returned h.closing ≡ true → Step h h

-- any number of steps
pub data Steps : Heart → Heart → Type 0 where
  here : {h : Heart} → Steps h h
  then_step : {g h k : Heart} → Steps g h → Step h k → Steps g k
