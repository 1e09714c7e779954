-- ===== src/SshKey/Bound.antt =====
-- Who owns a fingerprint after `Add`.
use mathlib.Core.Option.{some-injective}
use forge_proxy.Base.{
  ℕ, Bytes, Bool, true, false, [], ◌∷◌, ◌≡◌, ◌≢◌, refl, sym, ap, subst, ◌∙◌, ◌⊎◌, inl, inr, Option,
  none, some, arith, ◌=ᵇ◌, =ᵇ_iff, =ᵇ_refl, Bool-cases,
}
use forge_proxy.Db.{
  TxFaults, with_write_tx, with_write_tx-none, with_write_tx-error, with_write_tx_cases,
}
use forge_proxy.SshKey.{
  Row, Table, Key, Error, failed, not_found, ok, err, find, decode, got, get, insert_found,
  insert_row, new_row, added, add, without, remove_body, remove,
}
use forge_proxy.SshKey.Owned.{IsOwned, added-table, without-find}

added-ok : (k k' : Key) (r : Option Error × Table) → (added k r).0 ≡ ok k' → r ≡ (none, r.1)
unfolding added
added-ok k k' (none, t) h = refl
added-ok k k' (some e, t) h = cc

find-head : (r : Row) (t : Table) → find r.fingerprint (r ∷ t) ≡ some r
unfolding find
find-head r t = rw (=ᵇ_refl r.fingerprint) refl

insert_found-none :
    (fails : Bool) (r : Row) (o : Option Row) (t t' : Table)
    → insert_found fails r o t ≡ (none, t')
    → t' ≡ r ∷ t
unfolding insert_found
insert_found-none fails r (some q) t t' h = ground (arith, ap (λ (x : Option Error × Table). x.0) h)
insert_found-none true r none t t' h = ground (arith, ap (λ (x : Option Error × Table). x.0) h)
insert_found-none false r none t t' h = sym (ap (λ (x : Option Error × Table). x.1) h)

-- An `Add` that succeeds makes the user the owner.
pub add-binds :
    (x : TxFaults) (fails : Bool) (id now user_id : ℕ)
    (fingerprint key_type public_key label : Bytes) (t : Table) (k : Key)
    → (add x fails id now user_id fingerprint key_type public_key label t).0 ≡ ok k
    → IsOwned fingerprint user_id
        (add x fails id now user_id fingerprint key_type public_key label t).1
unfolding add insert_row
add-binds x fails id now user_id fingerprint key_type public_key label t k h =
    let r = new_row id user_id fingerprint key_type public_key label now in
    let body = with_write_tx-none x failed (insert_row fails r) t _ (added-ok _ k _ h) in
    let is_new = insert_found-none fails r _ t _ body in
    subst (IsOwned fingerprint user_id) (sym (added-table fingerprint user_id _ _ ∙ is_new))
      (r, find-head r t, refl)

got-owned :
    (f : Bytes) (o : Option Row) (k : Key)
    → got o ≡ ok k
    → (q : Row) × (o ≡ some q) × (q.user_id ≡ k.user_id)
unfolding got decode
got-owned f none k h = cc
got-owned f (some q) k h = (q, refl, ground arith)

-- The key that `Get` returns names the owner.
pub get-owner :
    (fails : Bool) (f : Bytes) (t : Table) (k : Key) → get fails f t ≡ ok k → IsOwned f k.user_id t
unfolding get
get-owner true f t k h = cc
get-owner false f t k h = got-owned f (find f t) k h

insert_found-new :
    (f : Bytes) (owner : ℕ) (fails : Bool) (r : Row) (o : Option Row) (t : Table)
    → IsOwned f owner (insert_found fails r o t).1
    → IsOwned f owner t ⊎ ((f ≡ r.fingerprint) × (owner ≡ r.user_id))
unfolding insert_found
insert_found-new f owner fails r (some q) t h = inl h
insert_found-new f owner true r none t h = inl h
insert_found-new f owner false r none t (q, found, owns) = elim (Bool-cases (r.fingerprint =ᵇ f)) [
  | inl same ↦
      let is_r : r ≡ q = some-injective _ _ (unfold find in rw (find, same) at found) in
      inr (sym ((=ᵇ_iff r.fingerprint f).0 same), sym (ap (λ (x : Row). x.user_id) is_r ∙ owns))
  | inr differ ↦ inl (q, (unfold find in rw (find, differ) at found), owns)
]

-- An `Add` makes nobody an owner but the user, and of nothing but the fingerprint.
pub add-new :
    (f : Bytes) (owner : ℕ) (x : TxFaults) (fails : Bool) (id now user_id : ℕ)
    (fingerprint key_type public_key label : Bytes) (t : Table)
    → IsOwned f owner (add x fails id now user_id fingerprint key_type public_key label t).1
    → IsOwned f owner t ⊎ ((f ≡ fingerprint) × (owner ≡ user_id))
unfolding add insert_row
add-new f owner x fails id now user_id fingerprint key_type public_key label t h =
    let r = new_row id user_id fingerprint key_type public_key label now in
    let after = subst (IsOwned f owner) (added-table f owner _ _) h in
    elim (with_write_tx_cases x failed (insert_row fails r) t) [
      | inl same ↦ inl (subst (IsOwned f owner) same after)
      | inr ran ↦
          insert_found-new f owner fails r (find fingerprint t) t
            (subst (IsOwned f owner) ran after)
    ]

abbrev pub no_faults : TxFaults
no_faults = record { begin = false; commit = false }

-- Where nothing fails and nobody owns the fingerprint, `Add` returns a key.
pub add-fresh :
    (id now user_id : ℕ) (fingerprint key_type public_key label : Bytes) (t : Table)
    → find fingerprint t ≡ none
    → (k : Key) × ((add no_faults false id now user_id fingerprint key_type public_key label t).0
        ≡ ok k)
unfolding add insert_row with_write_tx added insert_found
add-fresh id now user_id fingerprint key_type public_key label t h = rw h (_, refl)

find-fingerprint : (f : Bytes) (t : Table) (q : Row) → find f t ≡ some q → q.fingerprint ≡ f
unfolding find
find-fingerprint f [] q h = cc
find-fingerprint f (r ∷ rs) q h = ground (arith, find-fingerprint f rs q, =ᵇ_iff r.fingerprint f)

-- `Get` of a fingerprint that a user owns returns a key with that fingerprint and that user.
pub get-IsOwned :
    (f : Bytes) (owner : ℕ) (t : Table)
    → IsOwned f owner t
    → (k : Key) × (get false f t ≡ ok k) × (k.user_id ≡ owner) × (k.fingerprint ≡ f)
unfolding get got decode
get-IsOwned f owner t (q, found, owns) =
    (decode q, (rw found refl), owns, find-fingerprint f t q found)

pub get-absent : (f : Bytes) (t : Table) → find f t ≡ none → get false f t ≡ err not_found
unfolding get got
get-absent f t h = rw h refl

find-without : (f : Bytes) (t : Table) → find f (without f t) ≡ none
unfolding find without
find-without f [] = refl
find-without f (r ∷ rs) = ground (arith, find-without f rs)

remove_body-none :
    (fails : Bool) (f : Bytes) (t t' : Table)
    → remove_body fails f t ≡ (none, t')
    → t' ≡ without f t
unfolding remove_body
remove_body-none true f t t' h = ground (arith, ap (λ (x : Option Error × Table). x.0) h)
remove_body-none false f t t' h = sym (ap (λ (x : Option Error × Table). x.1) h)

-- After a `Remove` that succeeds the fingerprint is unknown, and every other is found as before.
pub get-remove :
    (x : TxFaults) (fails : Bool) (f g : Bytes) (t t' : Table)
    → remove x fails f t ≡ (none, t')
    → (get false f t' ≡ err not_found) × (g ≢ f → get false g t' ≡ get false g t)
unfolding remove
get-remove x fails f g t t' h =
    let body = with_write_tx-none x failed (remove_body fails f) t t' h in
    let same = remove_body-none fails f t t' body in
    rw same (
      get-absent f (without f t) (find-without f t),
      λ ne. (unfold get in ap got (without-find g 0 f t (λ e. ne (sym e)))),
    )

pub remove-error :
    (x : TxFaults) (fails : Bool) (f : Bytes) (t : Table) (e : Error)
    → (remove x fails f t).0 ≡ some e
    → (remove x fails f t).1 ≡ t
unfolding remove
remove-error x fails f t e h = with_write_tx-error x failed (remove_body fails f) t e h

-- A `Remove` never says that the fingerprint is unknown.
pub remove-found :
    (x : TxFaults) (fails : Bool) (f : Bytes) (t : Table) → (remove x fails f t).0 ≢ some not_found
unfolding remove remove_body with_write_tx
remove-found x fails f t h = ground arith
