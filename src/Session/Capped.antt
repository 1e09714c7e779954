-- ===== src/Session/Capped.antt =====
-- internal/session/store.go: sessions and their absolute cap, over any operations and failures.
use forge_proxy.Base.{
  ℕ, ◌+◌, ◌≤◌, ◌<◌, Bytes, Bool, false, List, [], ◌∷◌, ◌≡◌, refl, sym, subst, Option, none, some,
  All, arith, Bool-cases, Option-cases, inl, inr, ◌=ᵇ◌, ◌==◌,
}
use forge_proxy.Clock.{second, from_unix}
use forge_proxy.Db.{TxFaults, with_write_tx, with_write_tx-keeps}
use forge_proxy.Session.Rows.{Row, find, find-All, update_where-All, remove_where-All}
use forge_proxy.Session.{
  Table, Session, Options, Error, ok, TouchFaults, insert_row, created, encode, answer, create,
  renewed, touch_row, touch_body, touch_seen, touch, delete_body, delete, delete_all_for_user,
  sweep, get, decode, got-ok, is_throttled, is_stale,
}

-- A row expires less than a second after its absolute cap. (The stored times are whole seconds, so
-- a creation time loses its fraction.)
abbrev pub IsCapped : Options → Row → Type 0
IsCapped opts r = from_unix r.expires_at < from_unix r.created_at + opts.lifetime + second

module _ (opts : Options) (fits : opts.idle_timeout ≤ opts.lifetime) where
  created-IsCapped :
      (id : Bytes) (now user_id : ℕ) (ua ip : Bytes)
      → IsCapped opts (encode (created opts id now user_id ua ip))
  unfolding encode created
  created-IsCapped id now user_id ua ip = omega arith

  renewed-IsCapped : (now : ℕ) (r : Row) → IsCapped opts (renewed opts now r)
  unfolding renewed
  renewed-IsCapped now r = ground arith

  insert_row-IsCapped :
      (fails : Bool) (r : Row) (t : Table)
      → IsCapped opts r
      → All (IsCapped opts) t
      → All (IsCapped opts) (insert_row fails r t).1
  unfolding insert_row
  insert_row-IsCapped fails r t h hs = elim (Option-cases (find r.id t)) [
    | inl e ↦
        rw (e, insert_row) (elim (Bool-cases fails) [ inl b ↦ rw b hs | inr b ↦ rw b (h, hs) ])
    | inr (q, e) ↦ rw (e, insert_row) hs
  ]

  answer-table : (s : Session) (r : Option Error × Table) → (answer s r).1 ≡ r.1
  unfolding answer
  answer-table s (none, t) = refl
  answer-table s (some e, t) = refl

  create-IsCapped :
      (id : Option Bytes) (now : ℕ) (f : TxFaults) (fails : Bool) (user_id : ℕ) (ua ip : Bytes)
      (t : Table)
      → All (IsCapped opts) t
      → All (IsCapped opts) (create opts id now f fails user_id ua ip t).1
  unfolding create
  create-IsCapped none now f fails user_id ua ip t h = h
  create-IsCapped (some id) now f fails user_id ua ip t h =
      let s = created opts id now user_id ua ip in
      subst (All (IsCapped opts)) (sym (answer-table s _)) (
        with_write_tx-keeps (All (IsCapped opts)) f Error.failed (insert_row fails (encode s)) t h
          (insert_row-IsCapped fails (encode s) t (created-IsCapped id now user_id ua ip) h))

  touch_row-IsCapped :
      (now : ℕ) (f : TouchFaults) (id : Bytes) (found : Option Row) (t : Table)
      → All (IsCapped opts) t
      → All (IsCapped opts) (touch_row opts now f id found t).1
  unfolding touch_row
  touch_row-IsCapped now f id none t h = h
  touch_row-IsCapped now f id (some r) t h = ground (
    arith,
    update_where-All (IsCapped opts) (λ q. q.id =ᵇ id) (renewed opts now r) t
        (renewed-IsCapped now r) h,
  )

  touch_body-IsCapped :
      (now : ℕ) (f : TouchFaults) (id : Bytes) (t : Table)
      → All (IsCapped opts) t
      → All (IsCapped opts) (touch_body opts now f id t).1
  unfolding touch_body
  touch_body-IsCapped now f id t h = elim (Bool-cases f.select) [
    | inl e ↦ rw e h
    | inr e ↦ rw e (touch_row-IsCapped now f id (find id t) t h)
  ]

  touch_seen-IsCapped :
      (now : ℕ) (f : TouchFaults) (id : Bytes) (found : Option Row) (t : Table)
      → All (IsCapped opts) t
      → All (IsCapped opts) (touch_seen opts now f id found t).1
  unfolding touch_seen
  touch_seen-IsCapped now f id none t h = h
  touch_seen-IsCapped now f id (some r) t h = elim (Bool-cases (is_throttled now r)) [
    | inl e ↦ rw e h
    | inr e ↦ rw e (
        with_write_tx-keeps (All (IsCapped opts)) f.tx Error.failed (touch_body opts now f id) t h
          (touch_body-IsCapped now f id t h))
  ]

  touch-IsCapped :
      (now : ℕ) (f : TouchFaults) (id : Bytes) (seen t : Table)
      → All (IsCapped opts) t
      → All (IsCapped opts) (touch opts now f id seen t).1
  unfolding touch
  touch-IsCapped now f id seen t h = elim (Bool-cases f.pre_check) [
    | inl e ↦ rw e h
    | inr e ↦ rw e (touch_seen-IsCapped now f id (find id seen) t h)
  ]

  delete_body-IsCapped :
      (fails : Bool) (p : Row → Bool) (t : Table)
      → All (IsCapped opts) t
      → All (IsCapped opts) (delete_body fails p t).1
  unfolding delete_body
  delete_body-IsCapped fails p t h = elim (Bool-cases fails) [
    | inl e ↦ rw e h
    | inr e ↦ rw e (remove_where-All (IsCapped opts) p t h)
  ]

  deleted-IsCapped :
      (f : TxFaults) (fails : Bool) (p : Row → Bool) (t : Table)
      → All (IsCapped opts) t
      → All (IsCapped opts) (with_write_tx f Error.failed (delete_body fails p) t).1
  deleted-IsCapped f fails p t h =
      with_write_tx-keeps (All (IsCapped opts)) f Error.failed (delete_body fails p) t h
        (delete_body-IsCapped fails p t h)

-- The calls that change the table. A touch sees the table of any earlier moment first.
pub data Op : Type 0 where
  creates : Option Bytes → ℕ → TxFaults → Bool → ℕ → Bytes → Bytes → Op
  touches : ℕ → TouchFaults → Bytes → Table → Op
  deletes : TxFaults → Bool → Bytes → Op
  deletes_user : TxFaults → Bool → ℕ → Op
  sweeps : TxFaults → Bool → ℕ → Op

unfoldable pub step : Options → Op → Table → Table
unfolding create touch delete delete_all_for_user sweep
step opts (creates id now f fails user_id ua ip) t = (create opts id now f fails user_id ua ip t).1
step opts (touches now f id seen) t = (touch opts now f id seen t).1
step opts (deletes f fails id) t = (delete f fails id t).1
step opts (deletes_user f fails user_id) t = (delete_all_for_user f fails user_id t).1
step opts (sweeps f fails now) t = (sweep f fails now t).1

unfoldable pub run : Options → List Op → Table → Table
unfolding step
run opts [] t = t
run opts (op ∷ ops) t = run opts ops (step opts op t)

module _ (opts : Options) (fits : opts.idle_timeout ≤ opts.lifetime) where
  step-IsCapped :
      (op : Op) (t : Table) → All (IsCapped opts) t → All (IsCapped opts) (step opts op t)
  unfolding step delete delete_all_for_user sweep
  step-IsCapped (creates id now f fails user_id ua ip) t h =
      create-IsCapped opts fits id now f fails user_id ua ip t h
  step-IsCapped (touches now f id seen) t h = touch-IsCapped opts fits now f id seen t h
  step-IsCapped (deletes f fails id) t h = deleted-IsCapped opts fits f fails (λ r. r.id =ᵇ id) t h
  step-IsCapped (deletes_user f fails user_id) t h =
      deleted-IsCapped opts fits f fails (λ r. r.user_id == user_id) t h
  step-IsCapped (sweeps f fails now) t h = deleted-IsCapped opts fits f fails (is_stale now) t h

  run-IsCapped :
      (ops : List Op) (t : Table) → All (IsCapped opts) t → All (IsCapped opts) (run opts ops t)
  unfolding run
  run-IsCapped [] t h = h
  run-IsCapped (op ∷ ops) t h = run-IsCapped ops (step opts op t) (step-IsCapped op t h)

-- After any calls on an empty table, a session that a lookup returns has been alive for less than
-- the lifetime and one second, where the idle timeout does not exceed the lifetime.
pub get-run_capped :
    (opts : Options) (ops : List Op) (now : ℕ) (id : Bytes) (s : Session)
    → opts.idle_timeout ≤ opts.lifetime
    → get now false id (run opts ops []) ≡ ok s
    → (now < s.expires_at) × (s.expires_at < s.created_at + opts.lifetime + second)
unfolding get
get-run_capped opts ops now id s fits h =
    let (r, found, live, same) = got-ok now (find id (run opts ops [])) s h in
    let capped =
      find-All (IsCapped opts) id (run opts ops []) (run-IsCapped opts fits ops [] tt) found in
    unfold decode in rw same (live, capped)
