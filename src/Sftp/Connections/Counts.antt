-- ===== src/Sftp/Connections/Counts.antt =====
-- Counting the connections of pkg/sftpserver/server.go, and what holds of each of them.
use viking_ftpd.Prelude.{
  ℕ, ◌+◌, ◌≤◌, ◌≡◌, refl, arith, Bool, true, false, not, ◌&&◌, ◌||◌, List, [], ◌∷◌, ◌++◌, map,
  if◌then◌else◌, ltb, All,
}
use viking_ftpd.Sftp.Connections.{Phase, Conn, doom, over_max}

abbrev pub tally : Bool → ℕ
tally b = if b then 1 else 0

unfoldable pub count {ℓ} : {A : Type ℓ} → (A → Bool) → List A → ℕ
count p [] = 0
count p (x ∷ xs) = tally (p x) + count p xs

-- the goroutines in handleSession
unfoldable pub open_sessions : List Conn → ℕ
open_sessions [] = 0
open_sessions (c ∷ cs) = c.sessions + open_sessions cs

pub open_sessions-change :
    (before after : List Conn) (c d : Conn)
    → open_sessions (before ++ d ∷ after) + c.sessions
      ≡ open_sessions (before ++ c ∷ after) + d.sessions
unfolding open_sessions
open_sessions-change [] after c d = omega arith
open_sessions-change (x ∷ before) after c d = omega (arith, open_sessions-change before after c d)

pub open_sessions-member :
    (before after : List Conn) (c : Conn) → c.sessions ≤ open_sessions (before ++ c ∷ after)
unfolding open_sessions
open_sessions-member [] after c = omega arith
open_sessions-member (x ∷ before) after c = omega (arith, open_sessions-member before after c)

doom-sessions : (c : Conn) → (doom c).sessions ≡ c.sessions
doom-sessions c = ground arith

pub open_sessions-doom : (cs : List Conn) → open_sessions (map doom cs) ≡ open_sessions cs
unfolding open_sessions
open_sessions-doom [] = refl
open_sessions-doom (c ∷ cs) = omega (arith, doom-sessions c, open_sessions-doom cs)

-- counted by `active`
abbrev pub has_slot : Phase → Bool
has_slot Phase.admitted = true
has_slot Phase.over_limit = true
has_slot Phase.serving = true
has_slot _ = false

-- within the limit
abbrev pub is_admitted : Phase → Bool
is_admitted Phase.admitted = true
is_admitted Phase.serving = true
is_admitted _ = false

-- its goroutine has not called wg.Done
abbrev pub is_running : Phase → Bool
is_running Phase.gone = false
is_running _ = true

-- its goroutine has not deleted it from s.conns
abbrev pub is_kept : Phase → Bool
is_kept Phase.untracked = false
is_kept Phase.closed = false
is_kept Phase.gone = false
is_kept _ = true

-- its goroutine has deleted it and is about to close it
abbrev pub is_closing : Phase → Bool
is_closing Phase.untracked = true
is_closing _ = false

-- its goroutine may have called IncTotal
abbrev pub is_past_total : Phase → Bool
is_past_total Phase.spawned = false
is_past_total Phase.admitted = false
is_past_total Phase.over_limit = false
is_past_total _ = true

-- A connection is tracked up to its deletion, and it is open before its goroutine closes it only;
-- it counts in the total after IncTotal only; when Stop has begun, an open one is in Stop's list or about to be closed by its goroutine.
abbrev pub sane : Bool → Conn → Bool
sane stopping c =
    (if is_kept c.phase then c.tracked else not c.tracked)
    && ((not c.is_open || (is_kept c.phase || is_closing c.phase))
        && ((not c.is_counted || is_past_total c.phase)
            && (not stopping || (not c.is_open || (c.doomed || is_closing c.phase)))))

module _ {ℓ} {A : Type ℓ} where
  pub count-change :
      (p : A → Bool) (before after : List A) (x y : A)
      → count p (before ++ y ∷ after) + tally (p x) ≡ count p (before ++ x ∷ after) + tally (p y)
  unfolding count
  count-change p [] after x y = omega arith
  count-change p (z ∷ before) after x y = omega (arith, count-change p before after x y)

  pub count-member :
      (p : A → Bool) (before after : List A) (x : A) → tally (p x) ≤ count p (before ++ x ∷ after)
  unfolding count
  count-member p [] after x = omega arith
  count-member p (z ∷ before) after x = omega (arith, count-member p before after x)

  pub count_mono :
      (p q : A → Bool)
      → ((x : A) → tally (p x) ≤ tally (q x))
      → (xs : List A) → count p xs ≤ count q xs
  unfolding count
  count_mono p q h [] = omega arith
  count_mono p q h (x ∷ xs) = omega (arith, h x, count_mono p q h xs)

  pub count-map :
      (p : A → Bool) (f : A → A)
      → ((x : A) → p (f x) ≡ p x)
      → (xs : List A) → count p (map f xs) ≡ count p xs
  unfolding count
  count-map p f h [] = refl
  count-map p f h (x ∷ xs) = rw (h x, count-map p f h xs) refl

  pub All-change :
      (P : A → Type 0) (before after : List A) (x y : A)
      → All P (before ++ x ∷ after)
      → (P x → P y)
      → All P (before ++ y ∷ after)
  All-change P [] after x y (h, hs) k = (k h, hs)
  All-change P (z ∷ before) after x y (h, hs) k = (h, All-change P before after x y hs k)

  pub All-split :
      (P : A → Type 0) (before after : List A) (x : A)
      → All P (before ++ x ∷ after)
      → All P before × P x × All P after
  All-split P [] after x (h, hs) = (tt, h, hs)
  All-split P (z ∷ before) after x (h, hs) =
      let (b, p, a) = All-split P before after x hs in ((h, b), p, a)

  pub All-map :
      (P Q : A → Type 0) (f : A → A)
      → ((x : A) → P x → Q (f x))
      → (xs : List A) → All P xs
      → All Q (map f xs)
  All-map P Q f k [] h = tt
  All-map P Q f k (x ∷ xs) (h, hs) = (k x h, All-map P Q f k xs hs)

pub slot-admitted : (p : Phase) → tally (is_admitted p) ≤ tally (has_slot p)
slot-admitted p = ground arith

pub doom-sane : (stopping : Bool) (c : Conn) → sane stopping c ≡ true → sane true (doom c) ≡ true
doom-sane stopping c h = ground arith

-- 0 is no limit
abbrev pub IsWithin : ℕ → ℕ → Type 0
IsWithin max n = if ltb 0 max then n ≤ max else Unit

pub over_max-IsWithin : (max n : ℕ) → over_max max n ≡ false → IsWithin max n
unfolding over_max
over_max-IsWithin max n h = ground arith

pub IsWithin-le : (max m n : ℕ) → n ≤ m → IsWithin max m → IsWithin max n
IsWithin-le max m n h k = ground arith
