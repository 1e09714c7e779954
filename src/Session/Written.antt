-- ===== src/Session/Written.antt =====
-- What `Create` and `Touch` write.
use forge_proxy.Base.{
  ℕ, ◌+◌, ◌≤◌, ◌<◌, Bytes, Bool, true, false, ◌∷◌, ◌≡◌, ◌⊎◌, inl, inr, refl, Option, none, some,
  arith, ltb, ltb→lt, lt→ltb, min, ap, ◌∙◌, if◌then◌else◌, ◌=ᵇ◌, Option-cases, Bool-cases,
}
use forge_proxy.Clock.{unix, from_unix}
use forge_proxy.Db.{TxFaults, with_write_tx, with_write_tx-none, with_write_tx_cases}
use forge_proxy.Session.Rows.{Row, find, find-update_where, find-id, find-update_self, update_where}
use forge_proxy.Session.{
  Table, Session, Options, Error, expired, failed, ok, err, TouchFaults, insert_row, created,
  encode, answer, decode, create, renewed, touch_throttle, touch_row, touch_body, touch_seen, touch,
  get, got, is_throttled,
}

insert_row-none :
    (fails : Bool) (r : Row) (t t' : Table) (k : Bytes)
    → insert_row fails r t ≡ (none, t')
    → find k t' ≡ (if r.id =ᵇ k then some r else find k t)
unfolding insert_row
insert_row-none fails r t t' k h = elim (Option-cases (find r.id t)) [
  | inl e ↦ elim (Bool-cases fails) [
    | inl b ↦ ground arith
    | inr b ↦ let e' : t' ≡ r ∷ t = ground arith in rw e' (unfold find in refl)
  ]
  | inr (q, e) ↦ ground arith
]

answer-ok :
    (s s' : Session) (r : Option Error × Table) (t' : Table)
    → answer s r ≡ (ok s', t')
    → (r ≡ (none, t')) × (s' ≡ s)
unfolding answer
answer-ok s s' (none, t) t' h = (ground arith, ground arith)
answer-ok s s' (some e, t) t' h = ground arith

-- A session that was created is found under its id, at the seconds of its times, until it
-- expires, and every other id is found as before. It belongs to the user, and expires after the
-- idle timeout.
pub get-create :
    (opts : Options) (id : Bytes) (now : ℕ) (f : TxFaults) (fails : Bool) (user_id : ℕ)
    (ua ip : Bytes) (t t' : Table) (s : Session) (later : ℕ) (k : Bytes)
    → create opts (some id) now f fails user_id ua ip t ≡ (ok s, t')
    → (s.id ≡ id)
      × (s.user_id ≡ user_id)
      × (s.expires_at ≡ now + opts.idle_timeout)
      × (get later false k t' ≡ (
          if id =ᵇ k
          then (if ltb later (from_unix (unix s.expires_at))
              then ok (record s {
                created_at = from_unix (unix s.created_at);
                last_seen_at = from_unix (unix s.last_seen_at);
                expires_at = from_unix (unix s.expires_at);
              })
              else err expired)
          else get later false k t))
unfolding create
get-create opts id now f fails user_id ua ip t t' s later k h =
    let s0 = created opts id now user_id ua ip in
    let (body, same) =
      answer-ok s0 s (with_write_tx f failed (insert_row fails (encode s0)) t) t' h in
    let row =
      insert_row-none fails (encode s0) t t' k
        (with_write_tx-none f failed (insert_row fails (encode s0)) t t' body) in
    rw same (
      refl,
      refl,
      refl,
      (unfold get got decode in
          rw row (elim (Bool-cases (id =ᵇ k)) [ inl e ↦ rw e refl | inr e ↦ rw e refl ])),
    )

module _ (opts : Options) (now : ℕ) (f : TouchFaults) (id k : Bytes) where
  -- The table stays, or a row that is alive and was last written a minute ago or more is renewed.
  abbrev pub IsTouched : Table → Table → Type 0
  IsTouched t t' =
      (t' ≡ t)
      ⊎ ((r : Row) × (find id t ≡ some r)
          × (now < from_unix r.expires_at)
          × (from_unix r.last_seen_at + touch_throttle ≤ now)
          × (find k t' ≡ (if id =ᵇ k then some (renewed opts now r) else find k t)))

  touch_row-IsTouched :
      (found : Option Row) (t : Table)
      → find id t ≡ found
      → IsTouched t (touch_row opts now f id found t).1
  unfolding touch_row
  touch_row-IsTouched none t e = inl refl
  touch_row-IsTouched (some r) t e = elim (Bool-cases (ltb now (from_unix r.expires_at))) [
    | inr dead ↦ inl (rw dead)
    | inl live ↦ elim (Bool-cases (is_throttled now r)) [
      | inl young ↦ inl (rw (live, young))
      | inr old ↦ elim (Bool-cases f.update) [
        | inl bad ↦ inl (rw (live, old, bad))
        | inr good ↦
            rw (live, old, good)
              (inr (
                r,
                e,
                ltb→lt now (from_unix r.expires_at) live,
                (unfold is_throttled in ground arith),
                find-update_where id k (renewed opts now r) t {r = r}
                    (unfold renewed in find-id id t e) e,
              ))
      ]
    ]
  ]

  touch_body-IsTouched : (t : Table) → IsTouched t (touch_body opts now f id t).1
  unfolding touch_body
  touch_body-IsTouched t = elim (Bool-cases f.select) [
    | inl e ↦ inl (rw e)
    | inr e ↦ rw e (touch_row-IsTouched (find id t) t refl)
  ]

  touch_seen-IsTouched :
      (found : Option Row) (t : Table) → IsTouched t (touch_seen opts now f id found t).1
  unfolding touch_seen
  touch_seen-IsTouched none t = inl refl
  touch_seen-IsTouched (some r) t = elim (Bool-cases (is_throttled now r)) [
    | inl young ↦ inl (rw young)
    | inr old ↦ rw old (elim (with_write_tx_cases f.tx failed (touch_body opts now f id) t) [
      | inl e ↦ inl e
      | inr e ↦ rw e (touch_body-IsTouched t)
    ])
  ]

-- A touch leaves the table as it was, or else it renews a row that is alive and was last written
-- a minute ago or more, and every other id is found as before. That holds whatever the first
-- check saw, and whichever statement fails.
pub touch-IsTouched :
    (opts : Options) (now : ℕ) (f : TouchFaults) (id k : Bytes) (seen t : Table)
    → IsTouched opts now f id k t (touch opts now f id seen t).1
unfolding touch
touch-IsTouched opts now f id k seen t = elim (Bool-cases f.pre_check) [
  | inl e ↦ inl (rw e)
  | inr e ↦ rw e (touch_seen-IsTouched opts now f id k (find id seen) t)
]

-- No statement fails.
abbrev pub no_tx_faults : TxFaults
no_tx_faults = record { begin = false; commit = false }

abbrev pub no_faults : TouchFaults
no_faults = record { pre_check = false; tx = no_tx_faults; select = false; update = false }

module _ (opts : Options) (now : ℕ) (id : Bytes) (t : Table) (r : Row) (e : find id t ≡ some r)
    (live : ltb now (from_unix r.expires_at) ≡ true) (old : is_throttled now r ≡ false) where
  abbrev rewritten : Option Error × Table
  rewritten = (none, update_where (λ q. q.id =ᵇ id) (renewed opts now r) t)

  touch_row-rewritten : touch_row opts now no_faults id (some r) t ≡ rewritten
  unfolding touch_row
  touch_row-rewritten = rw (live, old)

  touch_body-rewritten : touch_body opts now no_faults id t ≡ rewritten
  unfolding touch_body
  touch_body-rewritten = rw e touch_row-rewritten

  touch-rewritten : touch opts now no_faults id t t ≡ rewritten
  unfolding touch touch_seen with_write_tx
  touch-rewritten = rw e (rw old (rw touch_body-rewritten))

renewed-min :
    (opts : Options) (now : ℕ) (r : Row)
    → renewed opts now r ≡ record r {
      last_seen_at = unix now;
      expires_at = unix (min (from_unix r.created_at + opts.lifetime) (now + opts.idle_timeout));
    }
unfolding renewed
renewed-min opts now r = ground arith

-- Where nothing fails, a touch of a row that is alive and was last written a minute ago or more
-- renews it: the new expiry is the earlier of the idle timeout from now and the absolute cap.
pub find-touch :
    (opts : Options) (now : ℕ) (id : Bytes) (t : Table) (r : Row)
    → find id t ≡ some r
    → now < from_unix r.expires_at
    → from_unix r.last_seen_at + touch_throttle ≤ now
    → let touched = touch opts now no_faults id t t in
      (touched.0 ≡ none)
      × (find id touched.1
          ≡ some (record r {
            last_seen_at = unix now;
            expires_at =
                unix (min (from_unix r.created_at + opts.lifetime) (now + opts.idle_timeout));
          }))
find-touch opts now id t r e live old =
    let young : is_throttled now r ≡ false = (unfold is_throttled in ground arith) in
    rw (touch-rewritten opts now id t r e (lt→ltb now (from_unix r.expires_at) live) young) (
      refl,
      find-update_self id (renewed opts now r) t {r = r} (unfold renewed in find-id id t e) e
          ∙ ap some (renewed-min opts now r),
    )
