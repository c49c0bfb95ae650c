-- ===== src/Sftp/Connections/Invariant.antt =====
-- pkg/sftpserver/server.go: what holds in every reachable state of the server.
use viking_ftpd.Prelude.{
  ℕ, suc, ◌+◌, ◌-◌, ◌≤◌, ◌≡◌, refl, arith, Bool, true, false, List, ◌∷◌, ◌++◌, map, Bool-cases, ◌⊎◌,
  inl, inr, All,
}
use viking_ftpd.Sftp.Connections.{
  Phase, Conn, Loop, Server, over_max, registered, refused, doom, Step, accept, accept_fails,
  register, refuse, count_in, count_total, start_session, end_session, channel_ends, start_helper,
  end_helper, hang_up, count_out, untrack, close, finish, stop, stop_closes,
}
use viking_ftpd.Sftp.Connections.Counts.{
  tally, count, open_sessions, open_sessions-change, open_sessions-member, open_sessions-doom,
  has_slot, is_admitted, is_running, sane, count-change, count-member, count_mono, count-map,
  All-change, All-split, All-map, slot-admitted, doom-sane, IsWithin, over_max-IsWithin,
  IsWithin-le,
}

abbrev pub slots : List Conn → ℕ
slots = count (λ c. has_slot c.phase)

abbrev pub admitted : List Conn → ℕ
admitted = count (λ c. is_admitted c.phase)

abbrev pub counted : List Conn → ℕ
counted = count (λ c. c.is_counted)

abbrev pub running : List Conn → ℕ
running = count (λ c. is_running c.phase)

abbrev pub Sane : Bool → Conn → Type 0
Sane stopping c = sane stopping c ≡ true

pub record Invariant (max : ℕ) (s : Server) : Type 0 where
  pub active_is : s.active ≡ slots s.conns
  pub within : IsWithin max (admitted s.conns)
  pub total_is : s.total ≡ counted s.conns
  pub wg_is : s.wg ≡ running s.conns + open_sessions s.conns
  pub each : All (Sane s.stopping) s.conns

-- What a step says of the counters when it changes `c` into `d`.
record Moves (max : ℕ) (s : Server) (c d : Conn) (active total wg : ℕ) : Type 0 where
  pub active_moves :
      tally (has_slot c.phase) ≤ s.active
      → active + tally (has_slot c.phase) ≡ s.active + tally (has_slot d.phase)
  pub total_moves : total + tally c.is_counted ≡ s.total + tally d.is_counted
  pub wg_moves :
      tally (is_running c.phase) + c.sessions ≤ s.wg
      → wg + (tally (is_running c.phase) + c.sessions)
        ≡ s.wg + (tally (is_running d.phase) + d.sessions)
  pub limit_moves :
      (tally (is_admitted d.phase) ≤ tally (is_admitted c.phase)) ⊎ IsWithin max active
  pub sane_moves : Sane s.stopping c → Sane s.stopping d

move-Invariant :
    (max : ℕ) (s : Server) (before after : List Conn) (c d : Conn) (active total wg : ℕ)
    → s.conns ≡ before ++ c ∷ after
    → Invariant max s
    → Moves max s c d active total wg
    → Invariant max
        (record s { active = active; total = total; wg = wg; conns = before ++ d ∷ after })
move-Invariant max s before after c d active total wg e inv m =
    let a = count-change (λ c. has_slot c.phase) before after c d in
    let t = count-change (λ c. c.is_counted) before after c d in
    let r = count-change (λ c. is_running c.phase) before after c d in
    let ad = count-change (λ c. is_admitted c.phase) before after c d in
    let a0 = rw e at inv.active_is in
    let t0 = rw e at inv.total_is in
    let w0 = rw e at inv.wg_is in
    let l0 = rw e at inv.within in
    let sane0 = rw e at inv.each in
    let a1 =
      m.active_moves (omega (arith, a0, count-member (λ c. has_slot c.phase) before after c)) in
    let w1 = m.wg_moves (
      omega (
        arith,
        w0,
        count-member (λ c. is_running c.phase) before after c,
        open_sessions-member before after c,
      )) in
    let se = open_sessions-change before after c d in
    let active_is : active ≡ slots (before ++ d ∷ after) = omega (arith, a, a0, a1) in
    record {
      active_is = active_is;
      within = elim m.limit_moves [
        | inl less ↦
            IsWithin-le max (admitted (before ++ c ∷ after)) (admitted (before ++ d ∷ after))
              (omega (arith, ad, less)) l0
        | inr bound ↦
            IsWithin-le max active (admitted (before ++ d ∷ after))
              (omega (
                arith,
                active_is,
                count_mono (λ c. is_admitted c.phase) (λ c. has_slot c.phase)
                    (λ c. slot-admitted c.phase) (before ++ d ∷ after),
              ))
              bound
      ];
      total_is = omega (arith, t, t0, m.total_moves);
      wg_is = omega (arith, r, se, w0, w1);
      each = All-change (Sane s.stopping) before after c d sane0 m.sane_moves;
    }

register-Invariant :
    (max : ℕ) (s : Server)
    → s.stopping ≡ false
    → Invariant max s
    → Invariant max (record s { loop = Loop.waiting; conns = registered ∷ s.conns; wg = suc s.wg })
unfolding count open_sessions
register-Invariant max s h inv = record {
  active_is = omega (arith, inv.active_is);
  within =
      IsWithin-le max (admitted s.conns) (admitted (registered ∷ s.conns)) (omega arith) inv.within;
  total_is = omega (arith, inv.total_is);
  wg_is = omega (arith, inv.wg_is);
  each = (rw h refl, inv.each);
}

refuse-Invariant :
    (max : ℕ) (s : Server)
    → s.stopping ≡ true
    → Invariant max s
    → Invariant max (record s { loop = Loop.ended; conns = refused ∷ s.conns })
unfolding count open_sessions
refuse-Invariant max s h inv = record {
  active_is = omega (arith, inv.active_is);
  within =
      IsWithin-le max (admitted s.conns) (admitted (refused ∷ s.conns)) (omega arith) inv.within;
  total_is = omega (arith, inv.total_is);
  wg_is = omega (arith, inv.wg_is);
  each = (rw h refl, inv.each);
}

stop-Invariant :
    (max : ℕ) (s : Server)
    → Invariant max s
    → Invariant max (record s { stopping = true; conns = map doom s.conns })
stop-Invariant max s inv = record {
  active_is = rw (count-map (λ c. has_slot c.phase) doom (λ c. ground arith) s.conns) inv.active_is;
  within = rw (count-map (λ c. is_admitted c.phase) doom (λ c. ground arith) s.conns) inv.within;
  total_is = rw (count-map (λ c. c.is_counted) doom (λ c. ground arith) s.conns) inv.total_is;
  wg_is =
      rw
        (
          count-map (λ c. is_running c.phase) doom (λ c. ground arith) s.conns,
          open_sessions-doom s.conns,
        )
        inv.wg_is;
  each =
      All-map (Sane s.stopping) (Sane true) doom (λ c h. doom-sane s.stopping c h) s.conns inv.each;
}

loop-Invariant :
    (max : ℕ) (s : Server) (l : Loop) → Invariant max s → Invariant max (record s { loop = l })
loop-Invariant max s l inv = record {
  active_is = inv.active_is;
  within = inv.within;
  total_is = inv.total_is;
  wg_is = inv.wg_is;
  each = inv.each;
}

-- either branch of the limit's check
count_in-Invariant :
    (max : ℕ) (s : Server) (before after : List Conn) (c : Conn) (p : Phase)
    → s.conns ≡ before ++ c ∷ after
    → c.phase ≡ Phase.spawned
    → (p ≡ Phase.over_limit) ⊎ ((p ≡ Phase.admitted) × IsWithin max (suc s.active))
    → Invariant max s
    → Invariant max
        (record s { active = suc s.active; conns = before ++ record c { phase = p } ∷ after })
count_in-Invariant max s before after c p e h (inl over) inv =
    move-Invariant max s before after c _ (suc s.active) (s.total) (s.wg) e inv record {
      active_moves = λ k. ground arith;
      total_moves = refl;
      wg_moves = λ k. ground arith;
      limit_moves = inl (ground arith);
      sane_moves = λ k. ground arith;
    }
count_in-Invariant max s before after c p e h (inr (under, bound)) inv =
    move-Invariant max s before after c _ (suc s.active) (s.total) (s.wg) e inv record {
      active_moves = λ k. ground arith;
      total_moves = refl;
      wg_moves = λ k. ground arith;
      limit_moves = inr bound;
      sane_moves = λ k. ground arith;
    }

pub step-Invariant : (max : ℕ) {s s' : Server} → Step max s s' → Invariant max s → Invariant max s'
step-Invariant max (accept s h) inv = loop-Invariant max s Loop.holding inv
step-Invariant max (accept_fails s h) inv = loop-Invariant max s Loop.ended inv
step-Invariant max (register s h k) inv = register-Invariant max s k inv
step-Invariant max (refuse s h k) inv = refuse-Invariant max s k inv
step-Invariant max (count_in s before after c e h) inv =
    elim (Bool-cases (over_max max (suc s.active))) [
      | inl over ↦
          rw over (count_in-Invariant max s before after c Phase.over_limit e h (inl refl) inv)
      | inr under ↦ rw under (
          count_in-Invariant max s before after c Phase.admitted e h
            (inr (refl, over_max-IsWithin max (suc s.active) under)) inv)
    ]
step-Invariant max (count_total s before after c e h) inv =
    let (sane_before, is_sane, sane_after) =
      All-split (Sane s.stopping) before after c (rw e at inv.each) in
    move-Invariant max s before after c _ (s.active) (suc s.total) (s.wg) e inv record {
      active_moves = λ k. ground arith;
      total_moves = ground arith;
      wg_moves = λ k. ground arith;
      limit_moves = inl (ground arith);
      sane_moves = λ k. ground arith;
    }
step-Invariant max (start_session s before after c e h) inv =
    move-Invariant max s before after c _ (s.active) (s.total) (suc s.wg) e inv record {
      active_moves = λ k. ground arith;
      total_moves = refl;
      wg_moves = λ k. ground arith;
      limit_moves = inl (ground arith);
      sane_moves = λ k. ground arith;
    }
step-Invariant max (end_session s before after c n e h d) inv =
    move-Invariant max s before after c _ (s.active) (s.total) (s.wg - 1) e inv record {
      active_moves = λ k. ground arith;
      total_moves = refl;
      wg_moves = λ k. ground arith;
      limit_moves = inl (ground arith);
      sane_moves = λ k. ground arith;
    }
step-Invariant max (channel_ends s before after c n e h) inv =
    move-Invariant max s before after c _ (s.active) (s.total) (s.wg - 1) e inv record {
      active_moves = λ k. ground arith;
      total_moves = refl;
      wg_moves = λ k. ground arith;
      limit_moves = inl (ground arith);
      sane_moves = λ k. ground arith;
    }
step-Invariant max (start_helper s before after c e h) inv =
    move-Invariant max s before after c _ (s.active) (s.total) (s.wg) e inv record {
      active_moves = λ k. ground arith;
      total_moves = refl;
      wg_moves = λ k. ground arith;
      limit_moves = inl (ground arith);
      sane_moves = λ k. ground arith;
    }
step-Invariant max (end_helper s before after c n e h) inv =
    move-Invariant max s before after c _ (s.active) (s.total) (s.wg) e inv record {
      active_moves = λ k. ground arith;
      total_moves = refl;
      wg_moves = λ k. ground arith;
      limit_moves = inl (ground arith);
      sane_moves = λ k. ground arith;
    }
step-Invariant max (hang_up s before after c e) inv =
    move-Invariant max s before after c _ (s.active) (s.total) (s.wg) e inv record {
      active_moves = λ k. ground arith;
      total_moves = refl;
      wg_moves = λ k. ground arith;
      limit_moves = inl (ground arith);
      sane_moves = λ k. ground arith;
    }
step-Invariant max (count_out s before after c e (inl h)) inv =
    move-Invariant max s before after c _ (s.active - 1) (s.total) (s.wg) e inv record {
      active_moves = λ k. ground arith;
      total_moves = refl;
      wg_moves = λ k. ground arith;
      limit_moves = inl (ground arith);
      sane_moves = λ k. ground arith;
    }
step-Invariant max (count_out s before after c e (inr (h, d))) inv =
    move-Invariant max s before after c _ (s.active - 1) (s.total) (s.wg) e inv record {
      active_moves = λ k. ground arith;
      total_moves = refl;
      wg_moves = λ k. ground arith;
      limit_moves = inl (ground arith);
      sane_moves = λ k. ground arith;
    }
step-Invariant max (untrack s before after c e h) inv =
    move-Invariant max s before after c _ (s.active) (s.total) (s.wg) e inv record {
      active_moves = λ k. ground arith;
      total_moves = refl;
      wg_moves = λ k. ground arith;
      limit_moves = inl (ground arith);
      sane_moves = λ k. ground arith;
    }
step-Invariant max (close s before after c e h) inv =
    move-Invariant max s before after c _ (s.active) (s.total) (s.wg) e inv record {
      active_moves = λ k. ground arith;
      total_moves = refl;
      wg_moves = λ k. ground arith;
      limit_moves = inl (ground arith);
      sane_moves = λ k. ground arith;
    }
step-Invariant max (finish s before after c e h) inv =
    move-Invariant max s before after c _ (s.active) (s.total) (s.wg - 1) e inv record {
      active_moves = λ k. ground arith;
      total_moves = refl;
      wg_moves = λ k. ground arith;
      limit_moves = inl (ground arith);
      sane_moves = λ k. ground arith;
    }
step-Invariant max (stop s) inv = stop-Invariant max s inv
step-Invariant max (stop_closes s before after c e h) inv =
    move-Invariant max s before after c _ (s.active) (s.total) (s.wg) e inv record {
      active_moves = λ k. ground arith;
      total_moves = refl;
      wg_moves = λ k. ground arith;
      limit_moves = inl (ground arith);
      sane_moves = λ k. ground arith;
    }
