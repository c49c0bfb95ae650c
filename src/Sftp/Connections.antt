-- ===== src/Sftp/Connections.antt =====
-- pkg/sftpserver/server.go: the accept loop, handleConn and Stop, which share the counters of
-- pkg/status/conn_metrics.go, as steps of goroutines that interleave in any order. Each step is one
-- statement that other goroutines can see, or one section under the lock.
pub mod Counts
pub mod Invariant
pub mod Reached
pub mod Draining
use viking_ftpd.Prelude.{
  ℕ, suc, ◌+◌, ◌-◌, ◌%◌, ◌^◌, ◌≡◌, ◌⊎◌, Bool, true, false, not, ◌&&◌, List, [], ◌∷◌, ◌++◌, map,
  if◌then◌else◌, ltb, ℤ, pos, negsuc, le_int,
}

-- Where the goroutine of a connection stands: handleConn up to IncActive, past the limit's check,
-- past IncTotal, and the deferred calls, DecActive, the two of untrackConn and wg.Done.
pub data Phase : Type 0 where
  spawned admitted over_limit serving leaving untracked closed gone : Phase

-- One accepted connection: `doomed` while it is in the list that Stop is going through, `hung_up`
-- when its reads end though the server has not closed it, because the client has gone or the deadline
-- has passed. `sessions` are its goroutines in handleSession, and `helpers` those outside the
-- WaitGroup, which discard or refuse requests.
pub record Conn : Type 0 where
  pub phase : Phase
  pub tracked : Bool
  pub is_open : Bool
  pub doomed : Bool
  pub is_counted : Bool
  pub hung_up : Bool
  pub sessions : ℕ
  pub helpers : ℕ

-- The accept loop waits in Accept, holds an open connection that nobody else knows of yet, or has
-- returned.
pub data Loop : Type 0 where
  waiting holding ended : Loop

-- `conns` are all the connections that the loop has let out of its hands; `active` and `total` are
-- the counters of ConnMetrics, and `wg` is the WaitGroup's count.
pub record Server : Type 0 where
  pub stopping : Bool
  pub loop : Loop
  pub conns : List Conn
  pub active : ℕ
  pub total : ℕ
  pub wg : ℕ

abbrev pub new_server : Server
new_server = record {
  stopping = false;
  loop = Loop.waiting;
  conns = [];
  active = 0;
  total = 0;
  wg = 0;
}

-- int32 of an int that is not negative
abbrev pub to_int32 : ℕ → ℤ
to_int32 n = let m = n % 2 ^ 32 in if ltb m (2 ^ 31) then pos m else negsuc (2 ^ 32 - m - 1)

-- `s.config.MaxConnections > 0 && n > int32(s.config.MaxConnections)`; a negative maximum is no
-- limit, as 0 is.
unfoldable pub over_max : ℕ → ℕ → Bool
over_max max n = ltb 0 max && not (le_int (pos n) (to_int32 max))

-- s.conns[conn] = struct{}{} for a connection just accepted
abbrev pub registered : Conn
registered = record {
  phase = Phase.spawned;
  tracked = true;
  is_open = true;
  doomed = false;
  is_counted = false;
  hung_up = false;
  sessions = 0;
  helpers = 0;
}

-- a connection accepted while Stop runs, which the loop closes
abbrev pub refused : Conn
refused = record {
  phase = Phase.gone;
  tracked = false;
  is_open = false;
  doomed = false;
  is_counted = false;
  hung_up = false;
  sessions = 0;
  helpers = 0;
}

-- Stop's copy of s.conns
abbrev pub doom : Conn → Conn
doom c = if c.tracked then record c { doomed = true } else c

-- no read from it waits any longer
abbrev pub IsDead : Conn → Type 0
IsDead c = (c.is_open ≡ false) ⊎ (c.hung_up ≡ true)

-- s.conns changed at one connection
abbrev pub with_conns : List Conn → Server → Server
with_conns cs s = record s { conns = cs }

pub data Step (max : ℕ) : Server → Server → Type 0 where
  -- listener.Accept
  accept : (s : Server) → s.loop ≡ Loop.waiting → Step max s (record s { loop = Loop.holding })
  -- listener.Accept fails for good
  accept_fails : (s : Server) → s.loop ≡ Loop.waiting → Step max s (record s { loop = Loop.ended })
  -- under the lock: the connection is tracked, and its goroutine starts
  register :
      (s : Server)
      → s.loop ≡ Loop.holding
      → s.stopping ≡ false
      → Step max s (record s { loop = Loop.waiting; conns = registered ∷ s.conns; wg = suc s.wg })
  -- under the lock: Stop has begun, so the connection is closed and the loop returns
  refuse :
      (s : Server)
      → s.loop ≡ Loop.holding
      → s.stopping ≡ true
      → Step max s (record s { loop = Loop.ended; conns = refused ∷ s.conns })
  -- IncActive and the limit's check of the value that it returns
  count_in :
      (s : Server) (before after : List Conn) (c : Conn)
      → s.conns ≡ before ++ c ∷ after
      → c.phase ≡ Phase.spawned
      → Step max s (record s {
        active = suc s.active;
        conns =
            before
            ++ record c {
              phase = if over_max max (suc s.active) then Phase.over_limit else Phase.admitted;
            }
              ∷ after;
      })
  -- IncTotal
  count_total :
      (s : Server) (before after : List Conn) (c : Conn)
      → s.conns ≡ before ++ c ∷ after
      → c.phase ≡ Phase.admitted
      → Step max s (record s {
        total = suc s.total;
        conns = before ++ record c { phase = Phase.serving; is_counted = true } ∷ after;
      })
  -- handleChannels starts the goroutine of a session channel
  start_session :
      (s : Server) (before after : List Conn) (c : Conn)
      → s.conns ≡ before ++ c ∷ after
      → c.phase ≡ Phase.serving
      → Step max s (record s {
        conns = before ++ record c { sessions = suc c.sessions } ∷ after;
        wg = suc s.wg;
      })
  -- a session ends with its connection: handleSession returns and calls wg.Done
  end_session :
      (s : Server) (before after : List Conn) (c : Conn) (n : ℕ)
      → s.conns ≡ before ++ c ∷ after
      → c.sessions ≡ suc n
      → IsDead c
      → Step max s (record s { conns = before ++ record c { sessions = n } ∷ after; wg = s.wg - 1 })
  -- or earlier, when the client closes the channel or the SFTP server gives up
  channel_ends :
      (s : Server) (before after : List Conn) (c : Conn) (n : ℕ)
      → s.conns ≡ before ++ c ∷ after
      → c.sessions ≡ suc n
      → Step max s (record s { conns = before ++ record c { sessions = n } ∷ after; wg = s.wg - 1 })
  -- ssh.DiscardRequests of a connection, or the goroutine that refuses the requests behind "sftp"
  start_helper :
      (s : Server) (before after : List Conn) (c : Conn)
      → s.conns ≡ before ++ c ∷ after
      → (c.phase ≡ Phase.serving) ⊎ (ltb 0 c.sessions ≡ true)
      → Step max s (with_conns (before ++ record c { helpers = suc c.helpers } ∷ after) s)
  end_helper :
      (s : Server) (before after : List Conn) (c : Conn) (n : ℕ)
      → s.conns ≡ before ++ c ∷ after
      → c.helpers ≡ suc n
      → Step max s (with_conns (before ++ record c { helpers = n } ∷ after) s)
  -- the client closes the connection or breaks the protocol, or the deadline passes
  hang_up :
      (s : Server) (before after : List Conn) (c : Conn)
      → s.conns ≡ before ++ c ∷ after
      → Step max s (with_conns (before ++ record c { hung_up = true } ∷ after) s)
  -- the deferred DecActive, after a refusal or when the handshake or handleChannels has ended, which
  -- it does when no read waits any longer
  count_out :
      (s : Server) (before after : List Conn) (c : Conn)
      → s.conns ≡ before ++ c ∷ after
      → (c.phase ≡ Phase.over_limit) ⊎ ((c.phase ≡ Phase.serving) × IsDead c)
      → Step max s (record s {
        active = s.active - 1;
        conns = before ++ record c { phase = Phase.leaving } ∷ after;
      })
  -- delete(s.conns, conn) of untrackConn
  untrack :
      (s : Server) (before after : List Conn) (c : Conn)
      → s.conns ≡ before ++ c ∷ after
      → c.phase ≡ Phase.leaving
      → Step max s
          (with_conns (before ++ record c { phase = Phase.untracked; tracked = false } ∷ after) s)
  -- conn.Close of untrackConn
  close :
      (s : Server) (before after : List Conn) (c : Conn)
      → s.conns ≡ before ++ c ∷ after
      → c.phase ≡ Phase.untracked
      → Step max s
          (with_conns (before ++ record c { phase = Phase.closed; is_open = false } ∷ after) s)
  -- wg.Done
  finish :
      (s : Server) (before after : List Conn) (c : Conn)
      → s.conns ≡ before ++ c ∷ after
      → c.phase ≡ Phase.closed
      → Step max s
          (record s { wg = s.wg - 1; conns = before ++ record c { phase = Phase.gone } ∷ after })
  -- the first part of Stop, under the lock
  stop : (s : Server) → Step max s (record s { stopping = true; conns = map doom s.conns })
  -- Stop closes one connection of its list
  stop_closes :
      (s : Server) (before after : List Conn) (c : Conn)
      → s.conns ≡ before ++ c ∷ after
      → c.doomed ≡ true
      → Step max s (with_conns (before ++ record c { is_open = false; doomed = false } ∷ after) s)

-- any number of steps from a new server
pub data Reachable (max : ℕ) : Server → Type 0 where
  begin : Reachable max new_server
  then_step : {s s' : Server} → Reachable max s → Step max s s' → Reachable max s'
