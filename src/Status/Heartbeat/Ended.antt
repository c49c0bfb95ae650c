-- ===== src/Status/Heartbeat/Ended.antt =====
-- pkg/status/writer.go: what stands in the status files when Shutdown has returned, and that it does
-- return.
use mathlib.Core.Path.{subst}
use viking_ftpd.Prelude.{
  ap, ◌∙◌, ℕ, ◌≡◌, refl, ◌⊎◌, inl, inr, Bool, true, false, List, [], ◌∷◌, Bytes,
}
use viking_ftpd.Status.Writer.{Surroundings, Metrics, running_content}
use viking_ftpd.Status.Heartbeat.{
  Beat, Closing, Written, running_file, stop_file, Heart, new_heart, Step, start_heartbeat,
  write_running, tick, see_stop, shut_down, write_stop, running_fails, stop_fails, has_returned,
  shut_down_again, Steps, here, then_step,
}

-- no stop file among the files written
abbrev pub NoStop : List Written → Type 0
NoStop [] = Unit
NoStop (running_file c ∷ ws) = NoStop ws
NoStop (stop_file c ∷ ws) = ⊥

-- the stop file is the last one written, and the only one
abbrev pub IsLastStop : List Written → Type 0
IsLastStop [] = ⊥
IsLastStop (running_file c ∷ ws) = ⊥
IsLastStop (stop_file c ∷ ws) = NoStop ws

abbrev FilesFit : Closing → List Written → Type 0
FilesFit Closing.returned ws = IsLastStop ws
FilesFit _ ws = NoStop ws

abbrev BeatFits : Closing → Beat → Type 0
BeatFits Closing.returned Beat.writing = ⊥
BeatFits Closing.returned Beat.selecting = ⊥
BeatFits Closing.failed Beat.writing = ⊥
BeatFits Closing.failed Beat.selecting = ⊥
BeatFits _ _ = Unit

abbrev StopFits : Closing → Bool → Type 0
StopFits Closing.not_called b = b ≡ false
StopFits _ b = b ≡ true

record Fits (h : Heart) : Type 0 where
  files : FilesFit h.closing h.written
  beat : BeatFits h.closing h.beat
  stop : StopFits h.closing h.stopped

-- A goroutine that has work left has no Shutdown behind it.
busy :
    (c : Closing) (b : Beat)
    → BeatFits c b
    → (b ≡ Beat.writing) ⊎ (b ≡ Beat.selecting)
    → has_returned c ≡ false
busy Closing.not_called b f w = refl
busy Closing.waiting b f w = refl
busy Closing.returned Beat.writing f w = absurd f
busy Closing.returned Beat.selecting f w = absurd f
busy Closing.returned Beat.unstarted f (inl e) = cc
busy Closing.returned Beat.unstarted f (inr e) = cc
busy Closing.returned Beat.finished f (inl e) = cc
busy Closing.returned Beat.finished f (inr e) = cc
busy Closing.failed Beat.writing f w = absurd f
busy Closing.failed Beat.selecting f w = absurd f
busy Closing.failed Beat.unstarted f (inl e) = cc
busy Closing.failed Beat.unstarted f (inr e) = cc
busy Closing.failed Beat.finished f (inl e) = cc
busy Closing.failed Beat.finished f (inr e) = cc

early-BeatFits : (c : Closing) (b : Beat) → has_returned c ≡ false → BeatFits c b
early-BeatFits Closing.not_called b h = tt
early-BeatFits Closing.waiting b h = tt
early-BeatFits Closing.returned b h = absurd (cc)
early-BeatFits Closing.failed b h = absurd (cc)

early-NoStop :
    (c : Closing) (ws : List Written) → has_returned c ≡ false → FilesFit c ws → NoStop ws
early-NoStop Closing.not_called ws h f = f
early-NoStop Closing.waiting ws h f = f
early-NoStop Closing.returned ws h f = absurd (cc)
early-NoStop Closing.failed ws h f = f

early-FilesFit :
    (c : Closing) (ws : List Written) → has_returned c ≡ false → NoStop ws → FilesFit c ws
early-FilesFit Closing.not_called ws h f = f
early-FilesFit Closing.waiting ws h f = f
early-FilesFit Closing.returned ws h f = absurd (cc)
early-FilesFit Closing.failed ws h f = f

-- at these two places Shutdown has not returned
uncalled_lem : (c : Closing) → c ≡ Closing.not_called → has_returned c ≡ false
uncalled_lem c e = ap has_returned e

waiting_lem : (c : Closing) → c ≡ Closing.waiting → has_returned c ≡ false
waiting_lem c e = ap has_returned e

still-BeatFits :
    (c : Closing) (b : Beat) → (b ≡ Beat.unstarted) ⊎ (b ≡ Beat.finished) → BeatFits c b
still-BeatFits Closing.not_called b w = tt
still-BeatFits Closing.waiting b w = tt
still-BeatFits Closing.returned Beat.unstarted w = tt
still-BeatFits Closing.returned Beat.finished w = tt
still-BeatFits Closing.returned Beat.writing (inl e) = cc
still-BeatFits Closing.returned Beat.writing (inr e) = cc
still-BeatFits Closing.returned Beat.selecting (inl e) = cc
still-BeatFits Closing.returned Beat.selecting (inr e) = cc
still-BeatFits Closing.failed Beat.unstarted w = tt
still-BeatFits Closing.failed Beat.finished w = tt
still-BeatFits Closing.failed Beat.writing (inl e) = cc
still-BeatFits Closing.failed Beat.writing (inr e) = cc
still-BeatFits Closing.failed Beat.selecting (inl e) = cc
still-BeatFits Closing.failed Beat.selecting (inr e) = cc

called-StopFits : (c : Closing) (b : Bool) → c ≡ Closing.waiting → StopFits c b → b ≡ true
called-StopFits Closing.not_called b e f = cc
called-StopFits Closing.waiting b e f = f
called-StopFits Closing.returned b e f = f
called-StopFits Closing.failed b e f = f

Step-Fits : {h k : Heart} → Step h k → Fits h → Fits k
Step-Fits (start_heartbeat h e c) f = record {
  files = f.files;
  beat = early-BeatFits h.closing Beat.writing (uncalled_lem h.closing c);
  stop = f.stop;
}
Step-Fits (write_running h env m e) f =
    let early : has_returned h.closing ≡ false = busy h.closing h.beat f.beat (inl e) in
    record {
      files = early-FilesFit h.closing _ early (early-NoStop h.closing h.written early f.files);
      beat = early-BeatFits h.closing Beat.selecting early;
      stop = f.stop;
    }
Step-Fits (running_fails h e) f = record {
  files = f.files;
  beat = early-BeatFits h.closing Beat.selecting (busy h.closing h.beat f.beat (inl e));
  stop = f.stop;
}
Step-Fits (tick h e) f = record {
  files = f.files;
  beat = early-BeatFits h.closing Beat.writing (busy h.closing h.beat f.beat (inr e));
  stop = f.stop;
}
Step-Fits (see_stop h e s) f = record {
  files = f.files;
  beat = still-BeatFits h.closing Beat.finished (inr refl);
  stop = f.stop;
}
Step-Fits (shut_down h c) f = record {
  files = early-NoStop h.closing h.written (uncalled_lem h.closing c) f.files;
  beat = tt;
  stop = refl;
}
Step-Fits (write_stop h env r u c b) f = record {
  files = early-NoStop h.closing h.written (waiting_lem h.closing c) f.files;
  beat = still-BeatFits Closing.returned h.beat b;
  stop = called-StopFits h.closing h.stopped c f.stop;
}
Step-Fits (stop_fails h c b) f = record {
  files = early-NoStop h.closing h.written (waiting_lem h.closing c) f.files;
  beat = still-BeatFits Closing.failed h.beat b;
  stop = called-StopFits h.closing h.stopped c f.stop;
}
Step-Fits (shut_down_again h c) f = f

Steps-Fits : {g h : Heart} → Steps g h → Fits g → Fits h
Steps-Fits here f = f
Steps-Fits (then_step r s) f = Step-Fits s (Steps-Fits r f)

reached-Fits : (h : Heart) → Steps new_heart h → Fits h
reached-Fits h r = Steps-Fits r (record { files = tt; beat = tt; stop = refl })

-- When Shutdown has returned, no step changes anything.
returned-same : {h k : Heart} → Step h k → has_returned h.closing ≡ true → Fits h → k ≡ h
returned-same (start_heartbeat h e c) r f = let x = uncalled_lem h.closing c in absurd (cc)
returned-same (write_running h env m e) r f =
    let x = busy h.closing h.beat f.beat (inl e) in absurd (cc)
returned-same (running_fails h e) r f = let x = busy h.closing h.beat f.beat (inl e) in absurd (cc)
returned-same (tick h e) r f = let x = busy h.closing h.beat f.beat (inr e) in absurd (cc)
returned-same (see_stop h e s) r f = let x = busy h.closing h.beat f.beat (inr e) in absurd (cc)
returned-same (shut_down h c) r f = let x = uncalled_lem h.closing c in absurd (cc)
returned-same (write_stop h env reason u c b) r f = let x = waiting_lem h.closing c in absurd (cc)
returned-same (stop_fails h c b) r f = let x = waiting_lem h.closing c in absurd (cc)
returned-same (shut_down_again h c) r f = refl

returned-kept : {h k : Heart} → Steps h k → has_returned h.closing ≡ true → Fits h → k ≡ h
returned-kept here r f = refl
returned-kept (then_step {h = g} steps s) r f =
    let same : g ≡ _ = returned-kept steps r f in
    returned-same s (ap (λ x. has_returned x.closing) same ∙ r) (Steps-Fits steps f) ∙ same

-- Some more steps, and Shutdown has returned.
abbrev pub Returns : Heart → Type 0
Returns h = (k : Heart) × Steps h k × (k.closing ≡ Closing.returned)

module _ (env : Surroundings) (m : Metrics) (reason : Bytes) (uptime : ℕ) where
  last-Returns :
      (h : Heart)
      → h.closing ≡ Closing.waiting
      → (h.beat ≡ Beat.unstarted) ⊎ (h.beat ≡ Beat.finished)
      → Returns h
  last-Returns h c b = (_, then_step here (write_stop h env reason uptime c b), refl)

  selecting-Returns :
      (h : Heart)
      → h.closing ≡ Closing.waiting
      → h.stopped ≡ true
      → h.beat ≡ Beat.selecting
      → Returns h
  selecting-Returns h c s b = (
    _,
    then_step (then_step here (see_stop h b s))
        (write_stop (record h { beat = Beat.finished }) env reason uptime c (inr refl)),
    refl,
  )

  writing-Returns :
      (h : Heart)
      → h.closing ≡ Closing.waiting
      → h.stopped ≡ true
      → h.beat ≡ Beat.writing
      → Returns h
  writing-Returns h c s b =
      let h1 : Heart = record h {
        beat = Beat.selecting;
        written = running_file (running_content env m) ∷ h.written;
      } in
      (
        _,
        then_step (then_step (then_step here (write_running h env m b)) (see_stop h1 refl s))
            (write_stop (record h1 { beat = Beat.finished }) env reason uptime c (inr refl)),
        refl,
      )

  waiting-Returns :
      (h : Heart) (b : Beat)
      → h.beat ≡ b
      → h.closing ≡ Closing.waiting
      → h.stopped ≡ true
      → Returns h
  waiting-Returns h Beat.unstarted e c s = last-Returns h c (inl e)
  waiting-Returns h Beat.finished e c s = last-Returns h c (inr e)
  waiting-Returns h Beat.selecting e c s = selecting-Returns h c s e
  waiting-Returns h Beat.writing e c s = writing-Returns h c s e

  -- what holds of the status files before Shutdown, while it waits, and after it
  abbrev pub EndsWell : Heart → Closing → Type 0
  EndsWell h Closing.not_called = NoStop h.written
  EndsWell h Closing.waiting = NoStop h.written × Returns h
  EndsWell h Closing.returned =
      IsLastStop h.written × ((k : Heart) → Steps h k → k.written ≡ h.written)
  EndsWell h Closing.failed = NoStop h.written × ((k : Heart) → Steps h k → k.written ≡ h.written)

  EndsWell-at : (h : Heart) (c : Closing) → h.closing ≡ c → Fits h → EndsWell h c
  EndsWell-at h Closing.not_called e f =
      early-NoStop h.closing h.written (uncalled_lem h.closing e) f.files
  EndsWell-at h Closing.waiting e f = (
    early-NoStop h.closing h.written (waiting_lem h.closing e) f.files,
    waiting-Returns h h.beat refl e (called-StopFits h.closing h.stopped e f.stop),
  )
  EndsWell-at h Closing.returned e f = (
    subst (λ c. FilesFit c h.written) e f.files,
    λ k steps. ap (λ x. x.written) (returned-kept steps (ap has_returned e) f),
  )
  EndsWell-at h Closing.failed e f = (
    subst (λ c. FilesFit c h.written) e f.files,
    λ k steps. ap (λ x. x.written) (returned-kept steps (ap has_returned e) f),
  )

  -- In every interleaving of the heartbeat with Shutdown: before Shutdown no stop file is written.
  -- Once it is called, steps lead to its return without an error. When it has returned so, the stop
  -- file is the only one, and it was written last, behind each running file; when it has returned the
  -- error of WriteStopFile, there is no stop file. Behind either return no step writes another file,
  -- whoever calls Shutdown again.
  pub reached-EndsWell : (h : Heart) → Steps new_heart h → EndsWell h h.closing
  reached-EndsWell h r = EndsWell-at h h.closing refl (reached-Fits h r)
