-- ===== src/Sftp/Connections/Reached.antt =====
-- pkg/sftpserver/server.go: the limit, the counters and Stop in every reachable state.
use viking_ftpd.Prelude.{ℕ, ◌+◌, ◌≡◌, refl, arith, Bool, true, false, List, [], ◌∷◌, ◌⊎◌, All}
use viking_ftpd.Sftp.Connections.{Phase, Conn, Server, new_server, Reachable, begin, then_step}
use viking_ftpd.Sftp.Connections.Counts.{count, is_running, open_sessions, IsWithin}
use viking_ftpd.Sftp.Connections.Invariant.{
  slots, admitted, counted, running, Sane, Invariant, step-Invariant,
}

begin-Invariant : (max : ℕ) → Invariant max new_server
unfolding count open_sessions
begin-Invariant max = record {
  active_is = refl;
  within = ground arith;
  total_is = refl;
  wg_is = refl;
  each = tt;
}

pub reachable-Invariant : (max : ℕ) {s : Server} → Reachable max s → Invariant max s
reachable-Invariant max begin = begin-Invariant max
reachable-Invariant max (then_step r step) = step-Invariant max step (reachable-Invariant max r)

-- In every interleaving of the accept loop, the connections' goroutines and Stop: the active count
-- is the number of connections between IncActive and DecActive; no more connections are past the
-- limit's check than MaxConnections, if that is not 0; the total is the number of connections that
-- have called IncTotal; and the WaitGroup counts exactly the calls of handleConn and of handleSession
-- that have not returned.
pub reachable-IsCounted :
    (max : ℕ) {s : Server}
    → Reachable max s
    → (s.active ≡ slots s.conns)
      × IsWithin max (admitted s.conns)
      × (s.total ≡ counted s.conns)
      × (s.wg ≡ running s.conns + open_sessions s.conns)
reachable-IsCounted max r =
    let inv = reachable-Invariant max r in (inv.active_is, inv.within, inv.total_is, inv.wg_is)

-- its goroutine is between the deletion and the Close of untrackConn, or it is closed
abbrev pub IsHandledByNow : Conn → Type 0
IsHandledByNow c = (c.is_open ≡ false) ⊎ (c.phase ≡ Phase.untracked)

Sane-IsHandledByNow : (c : Conn) → Sane true c → c.doomed ≡ false → IsHandledByNow c
Sane-IsHandledByNow c h k = ground arith

All-IsHandledByNow :
    (cs : List Conn) → All (Sane true) cs → All (λ c. c.doomed ≡ false) cs → All IsHandledByNow cs
All-IsHandledByNow [] h k = tt
All-IsHandledByNow (c ∷ cs) (h, hs) (k, ks) =
    (Sane-IsHandledByNow c h k, All-IsHandledByNow cs hs ks)

-- No connection is orphaned: when Stop has gone through its list, every connection that the accept
-- loop has let out of its hands, before, during or after Stop's first part, is closed, or its
-- own goroutine is about to close it.
pub stop-IsHandledByNow :
    (max : ℕ) {s : Server}
    → Reachable max s
    → s.stopping ≡ true
    → All (λ c. c.doomed ≡ false) s.conns
    → All IsHandledByNow s.conns
stop-IsHandledByNow max r h k = All-IsHandledByNow _ (rw h at (reachable-Invariant max r).each) k

-- closed, deleted from s.conns, and behind its handleConn and each of its handleSession
abbrev pub IsFinished : Conn → Type 0
IsFinished c = (c.phase ≡ Phase.gone) × (c.is_open ≡ false) × (c.tracked ≡ false) × (c.sessions ≡ 0)

All-IsFinished :
    (stopping : Bool) (cs : List Conn)
    → All (Sane stopping) cs
    → running cs ≡ 0
    → open_sessions cs ≡ 0
    → All IsFinished cs × (slots cs ≡ 0)
unfolding count open_sessions
All-IsFinished stopping [] h k no_ = (tt, refl)
All-IsFinished stopping (c ∷ cs) (h, hs) k no_ =
    let (rest, none_left) = All-IsFinished stopping cs hs (omega arith) (omega arith) in
    let stopped : is_running c.phase ≡ false = ground arith in
    let is_gone : c.phase ≡ Phase.gone = ground arith in
    (
      ((is_gone, ground arith, ground arith, omega arith), rest),
      rw is_gone (omega (arith, none_left)),
    )

-- When the WaitGroup lets Stop return, each connection that the accept loop has let out of its hands
-- is closed and no longer tracked, its handleConn and each of its handleSession have returned, and the
-- active count is 0. This says nothing of a connection that the loop still holds, nor of the
-- goroutines outside the WaitGroup, which discard or refuse requests.
pub wait-IsFinished :
    (max : ℕ) {s : Server} → Reachable max s → s.wg ≡ 0 → All IsFinished s.conns × (s.active ≡ 0)
wait-IsFinished max {s} r h =
    let inv = reachable-Invariant max r in
    let (finished, none_left) =
      All-IsFinished s.stopping s.conns inv.each (omega (arith, inv.wg_is))
        (omega (arith, inv.wg_is)) in
    (finished, omega (arith, inv.active_is, none_left))
