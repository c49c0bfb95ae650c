-- ===== src/Sftp/Connections/Draining.antt =====
-- pkg/sftpserver/server.go: when Stop has begun, the WaitGroup that it waits for comes to zero without
-- any help of a client.
use viking_ftpd.Prelude.{
  ℕ, zero, suc, ◌+◌, ◌≤◌, ◌<◌, ◌≡◌, ◌⊎◌, refl, ap, arith, Bool, true, false, List, [], ◌∷◌, ◌++◌,
  All, if◌then◌else◌, Bool-cases, inl, inr,
}
use viking_ftpd.Sftp.Connections.{
  Phase, Conn, Server, over_max, Step, Reachable, then_step, accept, accept_fails, register, refuse,
  count_in, count_total, start_session, end_session, channel_ends, start_helper, end_helper,
  hang_up, count_out, untrack, close, finish, stop, stop_closes,
}
use viking_ftpd.Sftp.Connections.Counts.{tally, count, is_running, open_sessions}
use viking_ftpd.Sftp.Connections.Invariant.{running, Sane}
use viking_ftpd.Sftp.Connections.Reached.{reachable-Invariant}

-- The steps that the goroutines in the WaitGroup and Stop, closing its list, take whatever the clients
-- do: no client hangs up, closes a channel or opens one, and no connection is accepted.
abbrev pub IsOwn : {max : ℕ} {s s' : Server} → Step max s s' → Type 0
IsOwn (count_in s before after c e h) = Unit
IsOwn (count_total s before after c e h) = Unit
IsOwn (end_session s before after c n e h d) = Unit
IsOwn (count_out s before after c e h) = Unit
IsOwn (untrack s before after c e h) = Unit
IsOwn (close s before after c e h) = Unit
IsOwn (finish s before after c e h) = Unit
IsOwn (stop_closes s before after c e h) = Unit
IsOwn _ = ⊥

-- the steps that a connection's goroutine has before it
abbrev pub steps_left : Phase → ℕ
steps_left Phase.spawned = 6
steps_left Phase.admitted = 5
steps_left Phase.over_limit = 4
steps_left Phase.serving = 4
steps_left Phase.leaving = 3
steps_left Phase.untracked = 2
steps_left Phase.closed = 1
steps_left Phase.gone = 0

-- with those of its sessions, and the Close in Stop's list
abbrev pub left : Conn → ℕ
left c = steps_left c.phase + (c.sessions + tally c.doomed)

unfoldable pub all_left : List Conn → ℕ
all_left [] = 0
all_left (c ∷ cs) = left c + all_left cs

abbrev pub work : Server → ℕ
work s = all_left s.conns

-- a sequence of `n` steps of the server's own
pub data Steps (max : ℕ) : ℕ → Server → Server → Type 0 where
  done : {s : Server} → Steps max 0 s s
  next :
      {n : ℕ} {s s' s'' : Server} (step : Step max s s')
      → IsOwn step
      → Steps max n s' s''
      → Steps max (suc n) s s''

all_left-change :
    (before after : List Conn) (c d : Conn)
    → all_left (before ++ d ∷ after) + left c ≡ all_left (before ++ c ∷ after) + left d
unfolding all_left
all_left-change [] after c d = omega arith
all_left-change (x ∷ before) after c d = omega (arith, all_left-change before after c d)

-- less left at one connection is less work
change-less :
    (s : Server) (before after : List Conn) (c d : Conn)
    → s.conns ≡ before ++ c ∷ after
    → left d < left c
    → all_left (before ++ d ∷ after) < work s
change-less s before after c d e h =
    omega (arith, ap all_left e, all_left-change before after c d, h)

checked_le : (b : Bool) → steps_left (if b then Phase.over_limit else Phase.admitted) ≤ 5
checked_le b = ground arith

own-less : {max : ℕ} {s s' : Server} (step : Step max s s') → IsOwn step → work s' < work s
own-less {max} (count_in s before after c e h) own =
    change-less s before after c _ e
      (omega (arith, ap steps_left h, checked_le (over_max max (suc s.active))))
own-less (count_total s before after c e h) own =
    change-less s before after c _ e (omega (arith, ap steps_left h))
own-less (end_session s before after c n e h d) own =
    change-less s before after c _ e (omega (arith, h))
own-less (count_out s before after c e (inl h)) own =
    change-less s before after c _ e (omega (arith, ap steps_left h))
own-less (count_out s before after c e (inr (h, d))) own =
    change-less s before after c _ e (omega (arith, ap steps_left h))
own-less (untrack s before after c e h) own =
    change-less s before after c _ e (omega (arith, ap steps_left h))
own-less (close s before after c e h) own =
    change-less s before after c _ e (omega (arith, ap steps_left h))
own-less (finish s before after c e h) own =
    change-less s before after c _ e (omega (arith, ap steps_left h))
own-less (stop_closes s before after c e h) own =
    change-less s before after c _ e (omega (arith, ap tally h))
own-less (accept s h) own = absurd own
own-less (accept_fails s h) own = absurd own
own-less (register s h k) own = absurd own
own-less (refuse s h k) own = absurd own
own-less (start_session s before after c e h) own = absurd own
own-less (channel_ends s before after c n e h) own = absurd own
own-less (start_helper s before after c e h) own = absurd own
own-less (end_helper s before after c n e h) own = absurd own
own-less (hang_up s before after c e) own = absurd own
own-less (stop s) own = absurd own

ℕ-cases : (n : ℕ) → (n ≡ 0) ⊎ ((m : ℕ) × (n ≡ suc m))
ℕ-cases zero = inl refl
ℕ-cases (suc m) = inr (m, refl)

-- a connection that the WaitGroup counts a goroutine of
record Busy (cs : List Conn) : Type 0 where
  before : List Conn
  conn : Conn
  after : List Conn
  is_in : cs ≡ before ++ conn ∷ after
  is_sane : Sane true conn
  is_busy : (is_running conn.phase ≡ true) ⊎ ((n : ℕ) × (conn.sessions ≡ suc n))

later-Busy : {c : Conn} {cs : List Conn} → Busy cs → Busy (c ∷ cs)
later-Busy {c} b = record {
  before = c ∷ b.before;
  conn = b.conn;
  after = b.after;
  is_in = ap (λ t. c ∷ t) b.is_in;
  is_sane = b.is_sane;
  is_busy = b.is_busy;
}

find-Busy :
    (cs : List Conn) → All (Sane true) cs → ((running cs ≡ 0) × (open_sessions cs ≡ 0)) ⊎ Busy cs
unfolding count open_sessions
find-Busy [] h = inl (refl, refl)
find-Busy (c ∷ cs) (h, hs) = elim (Bool-cases (is_running c.phase)) [
  | inl runs ↦
      inr (record {
        before = [];
        conn = c;
        after = cs;
        is_in = refl;
        is_sane = h;
        is_busy = inl runs;
      })
  | inr gone ↦ elim (ℕ-cases c.sessions) [
    | inr some_ ↦ inr (record {
      before = [];
      conn = c;
      after = cs;
      is_in = refl;
      is_sane = h;
      is_busy = inr some_;
    })
    | inl no_session ↦ elim (find-Busy cs hs) [
      | inl rest ↦ inl (rw gone (omega (arith, rest.0)), omega (arith, no_session, rest.1))
      | inr b ↦ inr (later-Busy b)
    ]
  ]
]

-- a step of the server's own, behind which Stop has still begun
record Progress (max : ℕ) (s : Server) : Type 0 where
  state : Server
  step : Step max s state
  is_own : IsOwn step
  is_stopping : state.stopping ≡ true

module _ (max : ℕ) (s : Server) (stopping : s.stopping ≡ true) (before after : List Conn) (c : Conn)
    (e : s.conns ≡ before ++ c ∷ after) (sane : Sane true c) where
  -- Stop has closed the connection, or it is in Stop's list.
  serving-Progress : c.phase ≡ Phase.serving → Progress max s
  serving-Progress h = elim (Bool-cases c.is_open) [
    | inr closed ↦ record {
      state = _;
      step = count_out s before after c e (inr (h, inl closed));
      is_own = tt;
      is_stopping = stopping;
    }
    | inl open_ ↦ record {
      state = _;
      step = stop_closes s before after c e (ground arith);
      is_own = tt;
      is_stopping = stopping;
    }
  ]

  running-Progress : (p : Phase) → c.phase ≡ p → is_running p ≡ true → Progress max s
  running-Progress Phase.serving h k = serving-Progress h
  running-Progress Phase.gone h k = absurd (cc)
  running-Progress Phase.closed h k = record {
    state = _;
    step = finish s before after c e h;
    is_own = tt;
    is_stopping = stopping;
  }
  running-Progress Phase.untracked h k = record {
    state = _;
    step = close s before after c e h;
    is_own = tt;
    is_stopping = stopping;
  }
  running-Progress Phase.leaving h k = record {
    state = _;
    step = untrack s before after c e h;
    is_own = tt;
    is_stopping = stopping;
  }
  running-Progress Phase.over_limit h k = record {
    state = _;
    step = count_out s before after c e (inl h);
    is_own = tt;
    is_stopping = stopping;
  }
  running-Progress Phase.admitted h k = record {
    state = _;
    step = count_total s before after c e h;
    is_own = tt;
    is_stopping = stopping;
  }
  running-Progress Phase.spawned h k = record {
    state = _;
    step = count_in s before after c e h;
    is_own = tt;
    is_stopping = stopping;
  }

  -- a connection whose goroutine has returned is closed, and so its sessions end
  session-Progress : is_running c.phase ≡ false → (n : ℕ) → c.sessions ≡ suc n → Progress max s
  session-Progress gone n h = record {
    state = _;
    step = end_session s before after c n e h (inl (ground arith));
    is_own = tt;
    is_stopping = stopping;
  }

  busy-Progress : (is_running c.phase ≡ true) ⊎ ((n : ℕ) × (c.sessions ≡ suc n)) → Progress max s
  busy-Progress (inl runs) = running-Progress c.phase refl runs
  busy-Progress (inr (n, h)) = elim (Bool-cases (is_running c.phase)) [
    | inl runs ↦ running-Progress c.phase refl runs
    | inr gone ↦ session-Progress gone n h
  ]

-- an enabled step, or nothing to wait for
step_or_idle :
    (max : ℕ) {s : Server} → Reachable max s → s.stopping ≡ true → Progress max s ⊎ (s.wg ≡ 0)
step_or_idle max {s} r stopping =
    let inv = reachable-Invariant max r in
    elim (find-Busy s.conns (rw stopping at inv.each)) [
      | inl idle ↦ inr (omega (arith, inv.wg_is, idle.0, idle.1))
      | inr b ↦
          inl (busy-Progress max s stopping b.before b.after b.conn b.is_in b.is_sane b.is_busy)
    ]

-- At most `bound` steps of the server's own lead to a state in which the WaitGroup is at 0.
abbrev pub Drains : ℕ → Server → ℕ → Type 0
Drains max s bound = (n : ℕ) × (s' : Server) × Steps max n s s' × (n ≤ bound) × (s'.wg ≡ 0)

one_more :
    {max : ℕ} {s s' : Server} (step : Step max s s')
    → IsOwn step
    → Drains max s' (work s')
    → Drains max s (work s)
one_more step own (n, s2, steps, few, idle) =
    (suc n, s2, next step own steps, omega (arith, own-less step own, few), idle)

drain-from :
    (max fuel : ℕ) {s : Server}
    → Reachable max s
    → s.stopping ≡ true
    → work s < fuel
    → Drains max s (work s)
drain-from max zero r stopping h = absurd (omega arith)
drain-from max (suc fuel) {s} r stopping h = elim (step_or_idle max r stopping) [
  | inr idle ↦ (0, s, done, omega arith, idle)
  | inl p ↦ one_more p.step p.is_own (
      drain-from max fuel (then_step r p.step) p.is_stopping
        (omega (arith, own-less p.step p.is_own, h)))
]

-- When Stop has begun, its wait ends without any help of the clients: from every reachable state, the
-- steps of the goroutines in the WaitGroup and of Stop, which closes its list, lead to a state in
-- which the WaitGroup is at 0; no more of them than `work` counts, as each of them leaves less to do.
pub reachable-Drains :
    (max : ℕ) {s : Server}
    → Reachable max s
    → s.stopping ≡ true
    → Drains max s (work s) × ((s' : Server) (step : Step max s s') → IsOwn step → work s' < work s)
reachable-Drains max {s} r stopping =
    (drain-from max (suc (work s)) r stopping (omega arith), λ s' step own. own-less step own)
