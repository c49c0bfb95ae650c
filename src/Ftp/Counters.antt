-- ===== src/Ftp/Counters.antt =====
-- pkg/ftpserver/server.go: the counters over the calls that ftpserverlib makes of the driver:
-- ClientConnected for each client, and ClientDisconnected once for each, also for one that was
-- refused.
use mathlib.Core.Path.{subst}
use viking_ftpd.Prelude.{
  if_true, if_false, ℕ, suc, ◌≤◌, ◌≡◌, refl, sym, ap, arith, inl, inr, Bool, true, false,
  if◌then◌else◌, List, [], ◌∷◌, ◌++◌, Bool-cases,
}
use viking_ftpd.Status.ConnMetrics.{ConnMetrics}
use viking_ftpd.Sftp.Connections.{over_max}
use viking_ftpd.Sftp.Connections.Counts.{IsWithin, over_max-IsWithin, IsWithin-le}
use viking_ftpd.Ftp.Driver.{client_connected, client_disconnected}

-- the clients that are connected, each with whether it was let in, and the counters
pub record Clients : Type 0 where
  pub present : List Bool
  pub metrics : ConnMetrics
  pub let_in : ℕ

abbrev pub new_clients : ℕ → Clients
new_clients start_time = record {
  present = [];
  metrics = record { active = 0; total = 0; start_time = start_time };
  let_in = 0;
}

-- what the library keeps of the driver's answer
abbrev pub answered : Bool × ConnMetrics → Clients → Clients
answered (b, m) c = record {
  present = b ∷ c.present;
  metrics = m;
  let_in = if b then suc c.let_in else c.let_in;
}

pub data Step (max : ℕ) : Clients → Clients → Type 0 where
  connect : (c : Clients) → Step max c (answered (client_connected max c.metrics) c)
  disconnect :
      (c : Clients) (before after : List Bool) (b : Bool)
      → c.present ≡ before ++ b ∷ after
      → Step max c (record c { present = before ++ after; metrics = client_disconnected c.metrics })

pub data Reachable (max start_time : ℕ) : Clients → Type 0 where
  begin : Reachable max start_time (new_clients start_time)
  then_step :
      {c d : Clients} → Reachable max start_time c → Step max c d → Reachable max start_time d

-- how many clients there are, and how many of them were let in
abbrev pub clients : List Bool → ℕ
clients [] = 0
clients (b ∷ bs) = suc (clients bs)

abbrev pub served : List Bool → ℕ
served [] = 0
served (true ∷ bs) = suc (served bs)
served (false ∷ bs) = served bs

clients-middle :
    (before after : List Bool) (b : Bool)
    → clients (before ++ b ∷ after) ≡ suc (clients (before ++ after))
clients-middle [] after b = refl
clients-middle (c ∷ before) after b = ap suc (clients-middle before after b)

served-middle :
    (before after : List Bool) (b : Bool) → served (before ++ after) ≤ served (before ++ b ∷ after)
served-middle [] after true = omega arith
served-middle [] after false = omega arith
served-middle (true ∷ before) after b = omega (arith, served-middle before after b)
served-middle (false ∷ before) after b = omega (arith, served-middle before after b)

served-le : (bs : List Bool) → served bs ≤ clients bs
served-le [] = omega arith
served-le (true ∷ bs) = omega (arith, served-le bs)
served-le (false ∷ bs) = omega (arith, served-le bs)

pub record IsCounted (max start_time : ℕ) (c : Clients) : Type 0 where
  pub active : c.metrics.active ≡ clients c.present
  pub total : c.metrics.total ≡ c.let_in
  pub within : IsWithin max (served c.present)
  pub started : c.metrics.start_time ≡ start_time

-- the two answers
refused-answer :
    (max : ℕ) (m : ConnMetrics)
    → over_max max (suc m.active) ≡ true
    → client_connected max m ≡ (false, record m { active = suc m.active })
unfolding client_connected
refused-answer max m h = if_true h _ _

accepted-answer :
    (max : ℕ) (m : ConnMetrics)
    → over_max max (suc m.active) ≡ false
    → client_connected max m ≡ (true, record m { active = suc m.active; total = suc m.total })
unfolding client_connected
accepted-answer max m h = if_false h _ _

connect-IsCounted :
    (max start_time : ℕ) (c : Clients)
    → IsCounted max start_time c
    → IsCounted max start_time (answered (client_connected max c.metrics) c)
connect-IsCounted max start_time c h = elim (Bool-cases (over_max max (suc c.metrics.active))) [
  | inl over ↦
      subst (λ r. IsCounted max start_time (answered r c)) (sym (refused-answer max c.metrics over))
        (record {
          active = omega (arith, h.active);
          total = h.total;
          within = h.within;
          started = h.started;
        })
  | inr room ↦
      subst (λ r. IsCounted max start_time (answered r c))
        (sym (accepted-answer max c.metrics room))
        (record {
          active = omega (arith, h.active);
          total = omega (arith, h.total);
          within =
              IsWithin-le max (suc c.metrics.active) (suc (served c.present))
                (omega (arith, h.active, served-le c.present))
                (over_max-IsWithin max (suc c.metrics.active) room);
          started = h.started;
        })
]

Step-IsCounted :
    (max start_time : ℕ) {c d : Clients}
    → Step max c d
    → IsCounted max start_time c
    → IsCounted max start_time d
Step-IsCounted max start_time (connect c) h = connect-IsCounted max start_time c h
Step-IsCounted max start_time (disconnect c before after b e) h = record {
  active = omega (arith, h.active, ap clients e, clients-middle before after b);
  total = h.total;
  within =
      IsWithin-le max (served c.present) (served (before ++ after))
        (omega (arith, ap served e, served-middle before after b)) h.within;
  started = h.started;
}

none-IsWithin : (max : ℕ) → IsWithin max 0
none-IsWithin max = ground arith

-- After any connections and disconnections: the active count is the number of clients that are
-- connected, refused ones among them; the total is the number of clients that were ever let in; no
-- more of the connected clients were let in than MaxConnections, if that is not 0; and the start
-- time is the one that New set.
pub reachable_clients-IsCounted :
    (max start_time : ℕ) {c : Clients} → Reachable max start_time c → IsCounted max start_time c
reachable_clients-IsCounted max start_time begin = record {
  active = refl;
  total = refl;
  within = none-IsWithin max;
  started = refl;
}
reachable_clients-IsCounted max start_time (then_step r s) =
    Step-IsCounted max start_time s (reachable_clients-IsCounted max start_time r)
