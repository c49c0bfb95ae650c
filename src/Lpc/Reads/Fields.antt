-- ===== src/Lpc/Reads/Fields.antt =====
-- pkg/lpc/oparser.go: a mapping filled entry by entry holds its entries in order.
use viking_ftpd.Prelude.{
  ◌≡◌, refl, sym, ap, ◌∙◌, none, some, Bytes, equal, if_true, if_false, Bool-cases, inl, inr,
}
use viking_ftpd.Lpc.Value.{Value, Fields, empty, field, get, put, get-put}
use viking_ftpd.Lpc.Printer.{IsFresh}

module _ {F : Type 0} where
  -- the entries of a mapping, put into another in their order
  unfoldable pub put_all : Fields F → Fields F → Fields F
  put_all acc empty = acc
  put_all acc (field k v m) = put_all (put acc k v) m

  abbrev append : Fields F → Fields F → Fields F
  append empty m = m
  append (field k v acc) m = field k v (append acc m)

  -- no key of `m` is in `acc`
  abbrev AreAbsent : Fields F → Fields F → Type 0
  AreAbsent acc empty = Unit
  AreAbsent acc (field k v m) = (get acc k ≡ none) × AreAbsent acc m

  -- different keys
  abbrev pub AreDistinct : Fields F → Type 0
  AreDistinct empty = Unit
  AreDistinct (field k v m) = IsFresh k m × AreDistinct m

  append-empty : (m : Fields F) → append m empty ≡ m
  append-empty empty = refl
  append-empty (field k v m) = ap (field k v) (append-empty m)

  append_assoc :
      (a : Fields F) (k : Bytes) (v : Value F) (m : Fields F)
      → append (append a (field k v empty)) m ≡ append a (field k v m)
  append_assoc empty k v m = refl
  append_assoc (field j w a) k v m = ap (field j w) (append_assoc a k v m)

  put-absent :
      (acc : Fields F) (k : Bytes) (v : Value F)
      → get acc k ≡ none
      → put acc k v ≡ append acc (field k v empty)
  unfolding get put
  put-absent empty k v h = refl
  put-absent (field j w acc) k v h = elim (Bool-cases (equal j k)) [
    | inl same ↦
        let found : some w ≡ none = sym (if_true same (some w) (get acc k)) ∙ h in absurd (cc)
    | inr other ↦
        if_false other _ _
        ∙ ap (field j w) (put-absent acc k v (sym (if_false other (some w) (get acc k)) ∙ h))
  ]

  AreAbsent-put :
      (acc m : Fields F) (k : Bytes) (v : Value F)
      → AreAbsent acc m
      → IsFresh k m
      → AreAbsent (put acc k v) m
  AreAbsent-put acc empty k v h f = tt
  AreAbsent-put acc (field j w m) k v (h, hs) (f, fs) =
      (get-put acc k j v ∙ if_false f _ _ ∙ h, AreAbsent-put acc m k v hs fs)

  put_all-append :
      (acc m : Fields F) → AreAbsent acc m → AreDistinct m → put_all acc m ≡ append acc m
  unfolding put_all
  put_all-append acc empty h d = sym (append-empty acc)
  put_all-append acc (field k v m) (h, hs) (f, d) =
      put_all-append (put acc k v) m (AreAbsent-put acc m k v hs f) d
      ∙ ap (λ a. append a m) (put-absent acc k v h)
      ∙ append_assoc acc k v m

  empty-AreAbsent : (m : Fields F) → AreAbsent empty m
  unfolding get
  empty-AreAbsent empty = tt
  empty-AreAbsent (field k v m) = (refl, empty-AreAbsent m)

  pub put_all-empty : (m : Fields F) → AreDistinct m → put_all empty m ≡ m
  put_all-empty m d = put_all-append empty m (empty-AreAbsent m) d
