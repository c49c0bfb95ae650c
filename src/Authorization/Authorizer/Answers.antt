-- ===== src/Authorization/Authorizer/Answers.antt =====
-- pkg/authorization/authorizer.go: the levels that ResolvePermission answers with.
use viking_ftpd.Prelude.{
  ℕ, refl, arith, Bool, true, false, List, Bytes, if◌then◌else◌, not, ℤ, pos, negsuc, Option-cases,
  Bool-cases, leb, inl, inr, le_int,
}
use viking_ftpd.Lpc.Value.{Float64, Fields}
use viking_ftpd.Authorization.Permission.{revoked, read}
use viking_ftpd.Authorization.Tree.Valid.{IsTree, IsLeaf, IsLevel}
use viking_ftpd.Authorization.Authorizer.{
  Surroundings, Authorizer, ensure_fresh_cache, permission_in, resolve_permission,
}
use viking_ftpd.Authorization.Authorizer.Caching.{Reached, call, asked, cache-Offered}
use viking_ftpd.Authorization.Resolve.Answers.{IsAnswer, resolve_access-IsAnswer}

normalized-IsLevel : (p : ℤ) → IsAnswer p → IsLevel (if not (le_int read p) then revoked else p)
normalized-IsLevel (pos n) h = elim (Bool-cases (leb 1 n)) [
  | inl granting ↦ rw granting (ground arith)
  | inr nothing ↦ rw nothing refl
]
normalized-IsLevel (negsuc n) h = refl

if-IsLevel : (b : Bool) (x y : ℤ) → IsLevel x → IsLevel y → IsLevel (if b then x else y)
if-IsLevel true x y h k = h
if-IsLevel false x y h k = k

module _ {F : Type 0} ⦃fl : Float64 F⦄ where
  permission_in-IsLevel :
      (env : Surroundings F) (am : Fields F) (u p : Bytes)
      → IsTree IsLeaf am
      → IsLevel (permission_in env am u p)
  unfolding permission_in
  permission_in-IsLevel env am u p t = normalized-IsLevel _ (resolve_access-IsAnswer am u _ _ t)

  -- After any calls on a new authorizer, ResolvePermission answers with one of the documented levels,
  -- Revoked or READ to GRANT_GRANT, and never with 0 or a number out of their range.
  pub resolve_permission-IsLevel :
      {d : ℕ} {envs : List (Surroundings F)} {a : Authorizer F}
      → Reached d envs a
      → (env : Surroundings F) (u p : Bytes) → IsLevel (resolve_permission env a u p).0
  unfolding resolve_permission
  resolve_permission-IsLevel {d} {envs} {a} r env u p =
      let b = (ensure_fresh_cache env a).1 in
      if-IsLevel (ensure_fresh_cache env a).0 _ _
        (elim (Option-cases b.access_map) [
          | inl gone ↦ rw gone refl
          | inr (m, at) ↦
              let (first, there, (raw, answered, under, tree), time) =
                cache-Offered (call env r (asked u p)) at in
              rw at (permission_in-IsLevel env m u p tree)
        ])
        refl
