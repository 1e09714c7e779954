-- ===== src/SshKey/Owned.antt =====
-- internal/sshkey/store.go: the owner of a key over any operations.
use mathlib.Core.Option.{some-injective}
use forge_proxy.Base.{
  ℕ, Bytes, Bool, true, false, List, [], ◌∷◌, ◌≡◌, ◌≢◌, refl, sym, subst, ap, ◌∙◌, Option, none,
  some, arith, ◌=ᵇ◌, =ᵇ_iff, if◌then◌else◌, Bool-cases, inl, inr,
}
use forge_proxy.Clock.{unix}
use forge_proxy.Db.{TxFaults, with_write_tx-keeps}
use forge_proxy.SshKey.{
  Row, Table, Key, Error, failed, find, insert_found, insert_row, new_row, added, add, without,
  remove_body, remove, stamp, stamped, touch_body, touch_last_used,
}

-- The fingerprint belongs to the user.
abbrev pub IsOwned : Bytes → ℕ → Table → Type 0
IsOwned f user_id t = (r : Row) × (find f t ≡ some r) × (r.user_id ≡ user_id)

module _ (f : Bytes) (owner : ℕ) where
  insert_found-IsOwned :
      (fails : Bool) (r : Row) (o : Option Row) (t : Table)
      → find r.fingerprint t ≡ o
      → IsOwned f owner t
      → IsOwned f owner (insert_found fails r o t).1
  unfolding insert_found
  insert_found-IsOwned fails r (some other) t e h = h
  insert_found-IsOwned true r none t e h = h
  insert_found-IsOwned false r none t e (q, found, owns) = elim (Bool-cases (r.fingerprint =ᵇ f)) [
    | inl same ↦
        let same_f : r.fingerprint ≡ f = (=ᵇ_iff r.fingerprint f).0 same in
        let absent : find f t ≡ none = subst (λ x. find x t ≡ none) same_f e in
        absurd (ground (arith, sym absent ∙ found))
    | inr differ ↦ (q, unfold find in rw differ found, owns)
  ]

  pub added-table : (k : Key) (r : Option Error × Table) → (added k r).1 ≡ r.1
  unfolding added
  added-table k (none, t) = refl
  added-table k (some e, t) = refl

  pub add-IsOwned :
      (x : TxFaults) (fails : Bool) (id now user_id : ℕ)
      (fingerprint key_type public_key label : Bytes) (t : Table)
      → IsOwned f owner t
      → IsOwned f owner (add x fails id now user_id fingerprint key_type public_key label t).1
  unfolding add insert_row
  add-IsOwned x fails id now user_id fingerprint key_type public_key label t h =
      let r = new_row id user_id fingerprint key_type public_key label now in
      subst (IsOwned f owner) (sym (added-table _ _)) (
        with_write_tx-keeps (IsOwned f owner) x failed (insert_row fails r) t h
          (insert_found-IsOwned fails r (find r.fingerprint t) t refl h))

  stamp-same :
      (g : Bytes) (at : ℕ) (r : Row)
      → ((stamp g at r).fingerprint ≡ r.fingerprint) × ((stamp g at r).user_id ≡ r.user_id)
  unfolding stamp
  stamp-same g at r = elim (Bool-cases (r.fingerprint =ᵇ g)) [
    | inl same ↦ rw same (refl, refl)
    | inr differ ↦ rw differ (refl, refl)
  ]

  find-same :
      (r s : Row) (rs : Table)
      → s.fingerprint ≡ r.fingerprint
      → find f (s ∷ rs) ≡ (if r.fingerprint =ᵇ f then some s else find f rs)
  unfolding find
  find-same r s rs e = rw e

  find-nil : (q : Row) → find f [] ≡ some q → ⊥
  unfolding find
  find-nil q h = cc

  stamped-IsOwned :
      (g : Bytes) (at : ℕ) (t : Table) → IsOwned f owner t → IsOwned f owner (stamped g at t)
  unfolding stamped
  stamped-IsOwned g at [] (q, found, owns) = absurd (find-nil q found)
  stamped-IsOwned g at (r ∷ rs) (q, found, owns) =
      let (same_print, same_user) = stamp-same g at r in
      let step = find-same r (stamp g at r) (stamped g at rs) same_print in
      let before = sym (find-same r r rs refl) ∙ found in
      elim (Bool-cases (r.fingerprint =ᵇ f)) [
        | inl same ↦
            let is_r : r ≡ q = some-injective _ _ (rw same at before) in
            (stamp g at r, step ∙ rw same refl, same_user ∙ ap (λ (x : Row). x.user_id) is_r ∙ owns)
        | inr differ ↦
            let (x, later, owns_x) = stamped-IsOwned g at rs (q, (rw differ at before), owns) in
            (x, step ∙ rw differ later, owns_x)
      ]

  touch_body-IsOwned :
      (fails : Bool) (g : Bytes) (at : ℕ) (t : Table)
      → IsOwned f owner t
      → IsOwned f owner (touch_body fails g at t).1
  unfolding touch_body
  touch_body-IsOwned true g at t h = h
  touch_body-IsOwned false g at t h = stamped-IsOwned g at t h

  pub without-find : (g : Bytes) (t : Table) → g ≢ f → find f (without g t) ≡ find f t
  unfolding find without
  without-find g [] ne = refl
  without-find g (r ∷ rs) ne =
      ground (arith, without-find g rs ne, =ᵇ_iff r.fingerprint g, =ᵇ_iff r.fingerprint f)

  remove_body-IsOwned :
      (fails : Bool) (g : Bytes) (t : Table)
      → g ≢ f
      → IsOwned f owner t
      → IsOwned f owner (remove_body fails g t).1
  unfolding remove_body
  remove_body-IsOwned true g t ne h = h
  remove_body-IsOwned false g t ne (q, found, owns) = (q, without-find g t ne ∙ found, owns)

-- The calls that change the table.
pub data Op : Type 0 where
  adds : TxFaults → Bool → ℕ → ℕ → ℕ → Bytes → Bytes → Bytes → Bytes → Op
  touches : TxFaults → Bool → ℕ → Bytes → Op
  removes : TxFaults → Bool → Bytes → Op

unfoldable pub step : Op → Table → Table
unfolding add touch_last_used remove
step (adds x fails id now user_id fingerprint key_type public_key label) t =
    (add x fails id now user_id fingerprint key_type public_key label t).1
step (touches x fails now g) t = (touch_last_used x fails now g t).1
step (removes x fails g) t = (remove x fails g t).1

unfoldable pub run : List Op → Table → Table
unfolding step
run [] t = t
run (op ∷ ops) t = run ops (step op t)

-- No call removes the fingerprint.
abbrev pub Keeps : Bytes → List Op → Type 0
Keeps f [] = Unit
Keeps f (removes x fails g ∷ ops) = (g ≢ f) × Keeps f ops
Keeps f (adds x fails id now user_id fingerprint key_type public_key label ∷ ops) = Keeps f ops
Keeps f (touches x fails now g ∷ ops) = Keeps f ops

-- A fingerprint that a user owns stays that user's, whatever keys are added, used and removed
-- after that, whoever offers the same fingerprint, and whatever fails, as long as no call removes
-- the fingerprint itself.
pub run-IsOwned :
    (f : Bytes) (owner : ℕ) (ops : List Op) (t : Table)
    → Keeps f ops
    → IsOwned f owner t
    → IsOwned f owner (run ops t)
unfolding run step touch_last_used remove
run-IsOwned f owner [] t keeps h = h
run-IsOwned f owner (adds x fails id now user_id fingerprint key_type public_key label ∷ ops) t
      keeps h =
    run-IsOwned f owner ops (add x fails id now user_id fingerprint key_type public_key label t).1
      keeps (add-IsOwned f owner x fails id now user_id fingerprint key_type public_key label t h)
run-IsOwned f owner (touches x fails now g ∷ ops) t keeps h =
    run-IsOwned f owner ops (touch_last_used x fails now g t).1 keeps (
      with_write_tx-keeps (IsOwned f owner) x failed (touch_body fails g (unix now)) t h
        (touch_body-IsOwned f owner fails g (unix now) t h))
run-IsOwned f owner (removes x fails g ∷ ops) t (ne, keeps) h =
    run-IsOwned f owner ops (remove x fails g t).1 keeps (
      with_write_tx-keeps (IsOwned f owner) x failed (remove_body fails g) t h
        (remove_body-IsOwned f owner fails g t ne h))
