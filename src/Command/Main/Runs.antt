-- ===== src/Command/Main/Runs.antt =====
-- cmd/vkftpd/main.go: every run follows the order of the calls that the automaton accepts.
use viking_ftpd.Prelude.{◌≡◌, Bool, false, none, some, [], if◌then◌else◌, Bytes}
use viking_ftpd.Command.Config.{Config}
use viking_ftpd.Command.Main.{Surroundings, Run, reason_of}
use viking_ftpd.Command.Main.Orderly.{Stage, Life, start, is_made, is_running, follow, IsCalm}

abbrev stage_if : Bool → Stage → Stage
stage_if b s = if b then s else Stage.absent

-- the parts when the servers are about to listen
abbrev ready : Bool → Bool → Life
ready has_sftp has_status = record {
  logging = Stage.running;
  ftp = Stage.made;
  sftp = stage_if has_sftp Stage.made;
  status = stage_if has_status Stage.running;
  reason = [];
}

abbrev done : Bool → Bool → Bytes → Life
done has_sftp has_status reason = record {
  logging = Stage.running;
  ftp = Stage.ended;
  sftp = stage_if has_sftp Stage.ended;
  status = stage_if has_status Stage.ended;
  reason = if has_status then reason else [];
}

module _ {K E : Type 0} (env : Surroundings K E) where
  -- the servers are made, and so may be the status writer
  abbrev waiting : Bool → Bool → Life
  waiting has_sftp has_status = record (ready has_sftp false) {
    status = stage_if has_status Stage.made;
  }

-- only the logging runs
abbrev logging_up : Life
logging_up = record start { logging = Stage.running }

module _ {K E : Type 0} where
  -- A run from the start of the program: the automaton accepts it, and at its end nothing runs.
  pub record IsOrderly (env : Surroundings K E) (r : Run E) : Type 0 where
    pub final : Life
    pub followed : follow r.0 start ≡ some final
    pub calm : IsCalm final
    pub no_logging : is_running final.logging ≡ false
    pub told : final.status ≡ Stage.ended → final.reason ≡ reason_of env.ending
    pub served :
        r.1 ≡ none
        → env.show_version ≡ false
        → (final.ftp ≡ Stage.ended) × (is_made final.sftp ≡ false) × (is_made final.status ≡ false)
