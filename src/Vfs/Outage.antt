-- ===== src/Vfs/Outage.antt =====
-- The FS over the Authorizer of pkg/authorization, as cmd/vkftpd puts them together, while the access
-- tree cannot be loaded.
use viking_ftpd.Prelude.{◌≡◌, refl, ap, ◌∙◌, true, false, List, ◌∷◌, Bytes}
use viking_ftpd.Lpc.Value.{Float64, Fields}
use viking_ftpd.Authorization.Permission.{can_read, can_write}
use viking_ftpd.Authorization.Authorizer.{
  Surroundings, Authorizer, needs_refresh, user_can_read, user_can_write,
}
use viking_ftpd.Authorization.Authorizer.Caching.{Offers, resolve_permission-fail_closed}
use viking_ftpd.Vfs.Session.{Authority, Fs, World, err}
use viking_ftpd.Vfs.Requests.{Request, Need, reading, writing, needs, ask, ask_all, perform}
use viking_ftpd.Vfs.Policy.{refused, perform-refused}

-- every request needs a permission
needs-cons : {T : Type 0} (r : Request T) → (n : Need) × (ns : List Need) × (needs r ≡ n ∷ ns)
unfolding needs
needs-cons (Request.stat_of p) = (_, _, refl)
needs-cons (Request.open_of p) = (_, _, refl)
needs-cons (Request.list_of p) = (_, _, refl)
needs-cons (Request.open_file_of p flag perm) = (_, _, refl)
needs-cons (Request.rename_of p q) = (_, _, refl)
needs-cons (Request.create_of p) = (_, _, refl)
needs-cons (Request.remove_of p) = (_, _, refl)
needs-cons (Request.remove_all_of p) = (_, _, refl)
needs-cons (Request.mkdir_of p perm) = (_, _, refl)
needs-cons (Request.mkdir_all_of p perm) = (_, _, refl)
needs-cons (Request.chmod_of p mode) = (_, _, refl)
needs-cons (Request.chown_of p uid gid) = (_, _, refl)
needs-cons (Request.chtimes_of p atime mtime) = (_, _, refl)

module _ {F : Type 0} ⦃fl : Float64 F⦄ where
  -- the methods of *authorization.Authorizer that satisfy the interface Authorizer
  unfoldable pub authorizer_authority : Surroundings F → Authority (Authorizer F)
  unfolding user_can_read user_can_write
  authorizer_authority env = record {
    can_read = λ user path a. user_can_read env a user path;
    can_write = λ user path a. user_can_write env a user path;
  }

  module _ {W H T E : Type 0} (f : Fs (Authorizer F) W H T E) (env : Surroundings F)
      (is_authority : f.authz ≡ authorizer_authority env) (a : Authorizer F)
      (stale : needs_refresh env.now a ≡ true) (nothing : (m : Fields F) → ¬ Offers env m) where
    read-outage : (u p : Bytes) → user_can_read env a u p ≡ (false, a)
    unfolding user_can_read can_read
    read-outage u p =
        ap (λ x. (can_read x.0, x.1)) (resolve_permission-fail_closed env a u p stale nothing).0

    write-outage : (u p : Bytes) → user_can_write env a u p ≡ (false, a)
    unfolding user_can_write can_write
    write-outage u p =
        ap (λ x. (can_write x.0, x.1)) (resolve_permission-fail_closed env a u p stale nothing).0

    ask-outage : (n : Need) → ask f n a ≡ (false, a)
    unfolding authorizer_authority
    ask-outage (reading p) = ap (λ z. z.can_read f.user p a) is_authority ∙ read-outage f.user p
    ask-outage (writing p) = ap (λ z. z.can_write f.user p a) is_authority ∙ write-outage f.user p

    ask_all-outage : (n : Need) (ns : List Need) → ask_all f (n ∷ ns) a ≡ (false, a)
    unfolding ask_all
    ask_all-outage n ns = rw (ask-outage n) refl

  -- While the cache needs a refresh and the source has no acceptable tree to offer, every call of an
  -- FS over the Authorizer is refused with os.ErrPermission and one "denied" line, and neither the
  -- disk nor the authorizer changes.
  pub perform-outage :
      {W H T E : Type 0} (f : Fs (Authorizer F) W H T E) (env : Surroundings F)
      → f.authz ≡ authorizer_authority env
      → (r : Request T) (w : World (Authorizer F) W E) → needs_refresh env.now w.authority ≡ true
      → ((m : Fields F) → ¬ Offers env m)
      → perform f r w ≡ (err f.fs.err_permission, refused f r w.authority w)
  perform-outage f env is_authority r w stale nothing =
      let (n, ns, are) = needs-cons r in
      perform-refused f r w
        (rw are (ask_all-outage f env is_authority w.authority stale nothing n ns))
