-- ===== src/Session/Lookup.antt =====
-- What a lookup finds after each operation.
use forge_proxy.Base.{
  ℕ, ◌≤◌, ◌<◌, Bytes, Bool, false, [], ◌∷◌, ◌≡◌, ◌≢◌, inl, inr, refl, none, some, arith,
  if◌then◌else◌, ◌=ᵇ◌, =ᵇ_iff, ◌==◌, Bool-cases, All,
}
use forge_proxy.Clock.{unix, from_unix}
use forge_proxy.Db.{TxFaults, with_write_tx, with_write_tx-none, with_write_tx-error}
use forge_proxy.Session.Rows.{
  Row, find, find-remove_where, find-remove_where_all, find-remove_where_other, remove_where,
  remove_where-All-false, find-All,
}
use forge_proxy.Session.{
  Table, Session, Error, not_found, failed, ok, err, decode, delete_body, delete,
  delete_all_for_user, sweep, is_stale, get, got, got-ok,
}

delete_body-none :
    (fails : Bool) (p : Row → Bool) (t t' : Table)
    → delete_body fails p t ≡ (none, t')
    → t' ≡ remove_where p t
unfolding delete_body
delete_body-none fails p t t' h = ground arith

removed :
    (f : TxFaults) (fails : Bool) (p : Row → Bool) (t t' : Table)
    → with_write_tx f failed (delete_body fails p) t ≡ (none, t')
    → t' ≡ remove_where p t
removed f fails p t t' h =
    delete_body-none fails p t t' (with_write_tx-none f failed (delete_body fails p) t t' h)

-- After a sign-out that succeeds the id is unknown, and every other id is found as before.
pub get-delete :
    (f : TxFaults) (fails : Bool) (id other : Bytes) (t t' : Table) (now : ℕ)
    → delete f fails id t ≡ (none, t')
    → get now false other t' ≡ (if id =ᵇ other then err not_found else get now false other t)
unfolding delete get
get-delete f fails id other t t' now h =
    rw (removed f fails (λ r. r.id =ᵇ id) t t' h) (elim (Bool-cases (id =ᵇ other)) [
      | inl same ↦
          rw
            (
              same,
              find-remove_where_all (λ r. r.id =ᵇ id) other t
                  (λ r e. ground (arith, =ᵇ_iff r.id id, =ᵇ_iff id other)),
            )
            (unfold got in refl)
      | inr differ ↦ rw (
        differ,
        find-remove_where_other (λ r. r.id =ᵇ id) other t
            (λ r e. ground (arith, =ᵇ_iff r.id id, =ᵇ_iff id other)),
      )
    ])

-- After a forced sign-out that succeeds no session of the user is found.
pub get-delete_all_for_user :
    (f : TxFaults) (fails : Bool) (user_id : ℕ) (t t' : Table) (now : ℕ) (id : Bytes) (s : Session)
    → delete_all_for_user f fails user_id t ≡ (none, t')
    → get now false id t' ≡ ok s
    → s.user_id ≢ user_id
unfolding delete_all_for_user get
get-delete_all_for_user f fails user_id t t' now id s h g =
    let p = λ (r : Row). r.user_id == user_id in
    let (r, found, live, same) = got-ok now (find id t') s g in
    let spared : p r ≡ false =
      find-All (λ r. p r ≡ false) id (remove_where p t) (remove_where-All-false p t)
        (rw (removed f fails p t t' h) at found) in
    rw same (unfold decode in ground arith)

spares :
    (p : Row → Bool) (id : Bytes) (t : Table) (now : ℕ) (s : Session)
    → got now (find id t) ≡ ok s
    → ((r : Row) → now < from_unix r.expires_at → s ≡ decode r → p r ≡ false)
    → got now (find id (remove_where p t)) ≡ ok s
spares p id t now s g keeps =
    let (r, found, live, same) = got-ok now (find id t) s g in
    rw (find-remove_where p id t {r = r} found (keeps r live same)) (rw found at g)

-- After a forced sign-out that succeeds a session of another user is found as before.
pub get-delete_all_for_user_other :
    (f : TxFaults) (fails : Bool) (user_id : ℕ) (t t' : Table) (now : ℕ) (id : Bytes) (s : Session)
    → delete_all_for_user f fails user_id t ≡ (none, t')
    → get now false id t ≡ ok s
    → s.user_id ≢ user_id
    → get now false id t' ≡ ok s
unfolding delete_all_for_user get
get-delete_all_for_user_other f fails user_id t t' now id s h g ne =
    let p = λ (r : Row). r.user_id == user_id in
    rw (removed f fails p t t' h)
      (spares p id t now s g (λ r live same. (unfold decode in ground arith)))

-- A sweep that succeeds takes away no session that a lookup finds at the time of the sweep or
-- later.
pub get-sweep :
    (f : TxFaults) (fails : Bool) (at : ℕ) (t t' : Table) (now : ℕ) (id : Bytes) (s : Session)
    → sweep f fails at t ≡ (none, t')
    → get now false id t ≡ ok s
    → at ≤ now
    → get now false id t' ≡ ok s
unfolding sweep get
get-sweep f fails at t t' now id s h g later =
    rw (removed f fails (is_stale at) t t' h)
      (spares (is_stale at) id t now s g (λ r live same. (unfold is_stale in ground arith)))

-- And it leaves no row that expired before the second of the sweep.
pub sweep-fresh :
    (f : TxFaults) (fails : Bool) (at : ℕ) (t t' : Table)
    → sweep f fails at t ≡ (none, t')
    → All (λ r. unix at ≤ r.expires_at) t'
unfolding sweep
sweep-fresh f fails at t t' h =
    rw (removed f fails (is_stale at) t t' h)
      (fresh (remove_where (is_stale at) t) (remove_where-All-false (is_stale at) t))
  where
    fresh :
        (rs : Table) → All (λ r. is_stale at r ≡ false) rs → All (λ r. unix at ≤ r.expires_at) rs
    fresh [] _ = tt
    fresh (r ∷ rs) (h, hs) = ((unfold is_stale in ground arith), fresh rs hs)

pub delete_all_for_user-error :
    (f : TxFaults) (fails : Bool) (user_id : ℕ) (t : Table) (e : Error)
    → (delete_all_for_user f fails user_id t).0 ≡ some e
    → (delete_all_for_user f fails user_id t).1 ≡ t
unfolding delete_all_for_user
delete_all_for_user-error f fails user_id t e h =
    with_write_tx-error f failed (delete_body fails (λ r. r.user_id == user_id)) t e h
