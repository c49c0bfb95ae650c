-- ===== src/Sftp/Timeouts.antt =====
-- pkg/sftpserver/server.go: the delays of the accept loop, and timeoutConn.
use viking_ftpd.Prelude.{
  ℕ, zero, suc, ◌+◌, ◌*◌, ◌^◌, ◌≤◌, ◌≡◌, refl, ap, ◌∙◌, arith, Bool, true, false, Option, none,
  some, List, [], ◌∷◌, ◌++◌, if◌then◌else◌, ◌&&◌, ltb, ◌==◌, Bool-cases, inl, inr,
}

-- 5 * time.Millisecond, time.Second and handshakeTimeout, in nanoseconds
abbrev pub first_delay : ℕ
first_delay = 5000000

abbrev pub second : ℕ
second = 1000000000

abbrev pub handshake_timeout : ℕ
handshake_timeout = 30 * second

-- tempDelay after a transient error
unfoldable pub next_delay : ℕ → ℕ
next_delay delay =
    let doubled = if delay == 0 then first_delay else delay * 2 in
    if ltb second doubled then second else doubled

-- what Accept returns
pub data Accepted : Type 0 where
  connection temporary permanent : Accepted

-- The times that the accept loop sleeps, for what Accept returns in turn; `delay` is tempDelay.
unfoldable pub sleeps : ℕ → List Accepted → List ℕ
unfolding next_delay
sleeps delay [] = []
sleeps delay (Accepted.connection ∷ rest) = sleeps 0 rest
sleeps delay (Accepted.temporary ∷ rest) = next_delay delay ∷ sleeps (next_delay delay) rest
sleeps delay (Accepted.permanent ∷ rest) = []

-- `n` transient errors
abbrev pub failures : ℕ → List Accepted
failures zero = []
failures (suc n) = Accepted.temporary ∷ failures n

-- 5 ms doubled `n` times, a second at most
unfoldable pub backoff : ℕ → ℕ
backoff n = if ltb second (first_delay * 2 ^ n) then second else first_delay * 2 ^ n

-- the first `n` of these times, from the one with `i` doublings on
abbrev pub backoffs : ℕ → ℕ → List ℕ
backoffs i zero = []
backoffs i (suc n) = backoff i ∷ backoffs (suc i) n

-- the delay after one of 5 ms times `k`
next_delay-times :
    (k : ℕ)
    → 1 ≤ k
    → next_delay (if ltb second (first_delay * k) then second else first_delay * k)
      ≡ (if ltb second (first_delay * (k * 2)) then second else first_delay * (k * 2))
unfolding next_delay
next_delay-times k h = elim (Bool-cases (ltb second (first_delay * k))) [
  | inl long ↦ rw long (ground arith)
  | inr short ↦ rw short (ground arith)
]

power_pos : (n : ℕ) → 1 ≤ 2 ^ n
power_pos zero = omega arith
power_pos (suc n) = omega (arith, power_pos n)

next_delay-backoff : (n : ℕ) → next_delay (backoff n) ≡ backoff (suc n)
unfolding backoff
next_delay-backoff n =
    let twice : 2 ^ suc n ≡ 2 ^ n * 2 = omega arith in
    let positive : 1 ≤ 2 ^ n = power_pos n in rw twice (next_delay-times (2 ^ n) positive)

sleeps-from : (i n : ℕ) → sleeps (backoff i) (failures n) ≡ backoffs (suc i) n
unfolding sleeps
sleeps-from i zero = refl
sleeps-from i (suc n) = rw (next_delay-backoff i, sleeps-from (suc i) n) refl

-- after a connection, or at the start
sleeps-fresh : (n : ℕ) → sleeps 0 (failures n) ≡ backoffs 0 n
unfolding sleeps next_delay backoff
sleeps-fresh zero = refl
sleeps-fresh (suc n) = ap (λ rest. first_delay ∷ rest) (sleeps-from 0 n)

-- The loop has not returned.
abbrev pub IsLive : List Accepted → Type 0
IsLive [] = Unit
IsLive (Accepted.permanent ∷ rest) = ⊥
IsLive (_ ∷ rest) = IsLive rest

-- However many transient errors came before a connection, the ones behind it are waited for anew: 5
-- ms after the first of them, twice as long after each further one, and never more than a second.
pub sleeps-backoffs :
    (delay : ℕ) (before : List Accepted) (n : ℕ)
    → IsLive before
    → sleeps delay (before ++ Accepted.connection ∷ failures n)
      ≡ sleeps delay before ++ backoffs 0 n
unfolding sleeps
sleeps-backoffs delay [] n h = sleeps-fresh n
sleeps-backoffs delay (Accepted.connection ∷ rest) n h = sleeps-backoffs 0 rest n h
sleeps-backoffs delay (Accepted.temporary ∷ rest) n h =
    ap (λ later. next_delay delay ∷ later) (sleeps-backoffs (next_delay delay) rest n h)
sleeps-backoffs delay (Accepted.permanent ∷ rest) n h = absurd h

-- type timeoutConn; a negative idle timeout is none, as 0 is
pub record TimeoutConn : Type 0 where
  pub idle : ℕ
  pub active : Bool
  pub deadline : Option ℕ

-- the calls of a connection, with the time of each
pub data Call : Type 0 where
  read_or_write activate : ℕ → Call

-- touch, with which Read and Write begin
abbrev pub touch : ℕ → TimeoutConn → TimeoutConn
touch now c = if c.active && ltb 0 c.idle then record c { deadline = some (now + c.idle) } else c

abbrev pub activated : ℕ → TimeoutConn → TimeoutConn
activated now c = record c {
  active = true;
  deadline = if ltb 0 c.idle then some (now + c.idle) else none;
}

abbrev pub apply : Call → TimeoutConn → TimeoutConn
apply (read_or_write now) c = touch now c
apply (activate now) c = activated now c

unfoldable pub apply_all : List Call → TimeoutConn → TimeoutConn
apply_all [] c = c
apply_all (x ∷ xs) c = apply_all xs (apply x c)

-- handleConn before the handshake
abbrev pub begin_handshake : ℕ → ℕ → TimeoutConn
begin_handshake idle now = record {
  idle = idle;
  active = false;
  deadline = some (now + handshake_timeout);
}

abbrev pub time_of : Call → ℕ
time_of (read_or_write now) = now
time_of (activate now) = now

-- the time of the last call
abbrev pub last_time : ℕ → List Call → ℕ
last_time t [] = t
last_time t (x ∷ xs) = last_time (time_of x) xs

-- activate is among the calls
abbrev pub is_activated : List Call → Bool
is_activated [] = false
is_activated (read_or_write t ∷ xs) = is_activated xs
is_activated (activate t ∷ xs) = true

-- after activate, the last call at time `t`
abbrev in_service : ℕ → ℕ → TimeoutConn
in_service idle t = record {
  idle = idle;
  active = true;
  deadline = if ltb 0 idle then some (t + idle) else none;
}

touch-in_service : (idle t now : ℕ) → touch now (in_service idle t) ≡ in_service idle now
touch-in_service idle t now = elim (Bool-cases (ltb 0 idle)) [
  | inl timed ↦ rw timed refl
  | inr endless ↦ rw endless refl
]

active-deadline :
    (idle t : ℕ) (calls : List Call)
    → (apply_all calls (in_service idle t)).deadline
      ≡ (if ltb 0 idle then some (last_time t calls + idle) else none)
unfolding apply_all
active-deadline idle t [] = refl
active-deadline idle t (read_or_write now ∷ xs) =
    ap (λ c. (apply_all xs c).deadline) (touch-in_service idle t now) ∙ active-deadline idle now xs
active-deadline idle t (activate now ∷ xs) = active-deadline idle now xs

handshake-deadline :
    (idle start t : ℕ) (calls : List Call)
    → (apply_all calls (begin_handshake idle start)).deadline ≡ (
        if is_activated calls
        then (if ltb 0 idle then some (last_time t calls + idle) else none)
        else some (start + handshake_timeout))
unfolding apply_all
handshake-deadline idle start t [] = refl
handshake-deadline idle start t (read_or_write now ∷ xs) = handshake-deadline idle start now xs
handshake-deadline idle start t (activate now ∷ xs) = active-deadline idle now xs

-- Up to the end of the handshake the deadline is 30 seconds after the connection was accepted,
-- however often the client writes and is read; from then on it is the idle timeout after the last
-- call, or none where no idle timeout is set.
pub apply_all-deadline :
    (idle start : ℕ) (calls : List Call)
    → (apply_all calls (begin_handshake idle start)).deadline ≡ (
        if is_activated calls
        then (if ltb 0 idle then some (last_time start calls + idle) else none)
        else some (start + handshake_timeout))
apply_all-deadline idle start calls = handshake-deadline idle start start calls
