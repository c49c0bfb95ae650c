-- ===== src/Command/Main/Orderly.antt =====
-- cmd/vkftpd/main.go: an automaton for the order of the calls, and the runs that it accepts.
use viking_ftpd.Prelude.{
  ◌≡◌, refl, ap, ◌∙◌, Bool, true, false, not, ◌&&◌, Option, none, some, List, [], ◌∷◌, ◌++◌,
  if◌then◌else◌, Bytes,
}
use viking_ftpd.Command.Main.{
  Effect, initialize_logging, create_authorizer, create_ftp, create_sftp, create_status,
  write_start_file, start_heartbeat, listen_ftp, listen_sftp, stop_ftp, stop_sftp, shutdown_status,
  shutdown_logging, MainError, Surroundings, Run, failed, after, deferred, reason_of,
}

-- a part that was not made, is made, runs, or has ended
pub data Stage : Type 0 where
  absent made running ended : Stage

abbrev pub is_absent : Stage → Bool
is_absent Stage.absent = true
is_absent _ = false

abbrev pub is_made : Stage → Bool
is_made Stage.made = true
is_made _ = false

abbrev pub is_running : Stage → Bool
is_running Stage.running = true
is_running _ = false

-- the parts; `reason` is what the stop file gives
pub record Life : Type 0 where
  pub logging : Stage
  pub ftp : Stage
  pub sftp : Stage
  pub status : Stage
  pub reason : Bytes

abbrev pub start : Life
start = record {
  logging = Stage.absent;
  ftp = Stage.absent;
  sftp = Stage.absent;
  status = Stage.absent;
  reason = [];
}

abbrev pub allowed : Bool → Life → Option Life
allowed true l = some l
allowed false l = none

-- Whether a call may come next, and what it does: nothing but the logging comes before the logging
-- or after it; a part is made once, started once when it is made, and stopped once while it runs;
-- and the logging ends when nothing else runs.
abbrev pub next : Effect → Life → Option Life
next (initialize_logging _ _ _ _ _) l =
    allowed (is_absent l.logging) (record l { logging = Stage.running })
next (create_authorizer _ _ _) l = allowed (is_running l.logging) l
next (create_ftp _) l =
    allowed (is_running l.logging && is_absent l.ftp) (record l { ftp = Stage.made })
next (create_sftp _) l =
    allowed (is_running l.logging && is_absent l.sftp) (record l { sftp = Stage.made })
next (create_status _) l =
    allowed (is_running l.logging && is_absent l.status) (record l { status = Stage.made })
next write_start_file l = allowed (is_running l.logging && is_made l.status) l
next start_heartbeat l =
    allowed (is_running l.logging && is_made l.status) (record l { status = Stage.running })
next listen_ftp l =
    allowed (is_running l.logging && is_made l.ftp) (record l { ftp = Stage.running })
next listen_sftp l =
    allowed (is_running l.logging && is_made l.sftp) (record l { sftp = Stage.running })
next stop_ftp l =
    allowed (is_running l.logging && is_running l.ftp) (record l { ftp = Stage.ended })
next stop_sftp l =
    allowed (is_running l.logging && is_running l.sftp) (record l { sftp = Stage.ended })
next (shutdown_status r) l =
    allowed (is_running l.logging && is_running l.status)
      (record l { status = Stage.ended; reason = r })
next shutdown_logging l =
    allowed
      (is_running l.logging
        && (not (is_running l.ftp) && (not (is_running l.sftp) && not (is_running l.status))))
      (record l { logging = Stage.ended })

abbrev pub then_follow : (Life → Option Life) → Option Life → Option Life
then_follow k none = none
then_follow k (some l) = k l

unfoldable pub follow : List Effect → Life → Option Life
follow [] l = some l
follow (e ∷ es) l = then_follow (follow es) (next e l)

follow-then :
    (es ds : List Effect)
    → ((l : Life) → follow (es ++ ds) l ≡ then_follow (follow ds) (follow es l))
    → (o : Option Life)
    → then_follow (follow (es ++ ds)) o ≡ then_follow (follow ds) (then_follow (follow es) o)
follow-then es ds h none = refl
follow-then es ds h (some l) = h l

pub follow-append :
    (es ds : List Effect) (l : Life) → follow (es ++ ds) l ≡ then_follow (follow ds) (follow es l)
unfolding follow
follow-append [] ds l = refl
follow-append (e ∷ es) ds l = follow-then es ds (λ m. follow-append es ds m) (next e l)

-- Nothing but the logging runs.
pub record IsCalm (l : Life) : Type 0 where
  pub no_ftp : is_running l.ftp ≡ false
  pub no_sftp : is_running l.sftp ≡ false
  pub no_status : is_running l.status ≡ false

module _ {K E : Type 0} where
  -- The automaton accepts a run from `l` on, up to a state in which nothing but the logging may run;
  -- the stop file tells what ended the program; and a run without an error has served: what was
  -- made has run and has ended.
  pub record Goes (env : Surroundings K E) (l : Life) (r : Run E) : Type 0 where
    pub final : Life
    pub followed : follow r.0 l ≡ some final
    pub calm : IsCalm final
    pub told : final.status ≡ Stage.ended → final.reason ≡ reason_of env.ending
    pub served :
        r.1 ≡ none
        → (final.ftp ≡ Stage.ended) × (is_made final.sftp ≡ false) × (is_made final.status ≡ false)
    pub log_kept : final.logging ≡ l.logging

  pub Goes-after :
      (env : Surroundings K E) (es : List Effect) (l m : Life) (r : Run E)
      → follow es l ≡ some m
      → m.logging ≡ l.logging
      → Goes env m r
      → Goes env l (after es r)
  Goes-after env es l m r h same g = record {
    final = g.final;
    followed = follow-append es r.0 l ∙ ap (then_follow (follow r.0)) h ∙ g.followed;
    calm = g.calm;
    told = g.told;
    served = g.served;
    log_kept = g.log_kept ∙ same;
  }

  pub Goes-failed :
      (env : Surroundings K E) (e : MainError E) (l : Life)
      → IsCalm l
      → (l.status ≡ Stage.ended → l.reason ≡ reason_of env.ending)
      → Goes env l (failed e)
  unfolding follow
  Goes-failed env e l calm told = record {
    final = l;
    followed = refl;
    calm = calm;
    told = told;
    served = λ h. absurd (cc);
    log_kept = refl;
  }

  pub Goes-deferred_nil :
      (env : Surroundings K E) (l : Life) (r : Run E) → Goes env l r → Goes env l (deferred [] r)
  unfolding follow
  Goes-deferred_nil env l r g = record {
    final = g.final;
    followed = follow-append r.0 [] l ∙ ap (then_follow (follow [])) g.followed;
    calm = g.calm;
    told = g.told;
    served = g.served;
    log_kept = g.log_kept;
  }

  pub Goes-if :
      (env : Surroundings K E) (l : Life) (b : Bool) (x y : Run E)
      → Goes env l x
      → Goes env l y
      → Goes env l (if b then x else y)
  Goes-if env l true x y g h = g
  Goes-if env l false x y g h = h
