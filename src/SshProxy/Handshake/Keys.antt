-- ===== src/SshProxy/Handshake/Keys.antt =====
-- Which keys are let in, and which are offered for enrollment.
use forge_proxy.Base.{
  ℕ, suc, ◌+◌, ◌≤◌, Bytes, [], ◌∷◌, ◌≡◌, refl, ap, ◌∙◌, none, some, arith, lt→ltb, ◌=ᵇ◌, =ᵇ_iff,
  =ᵇ_refl, Bool-cases, inl, inr,
}
use forge_proxy.Base.Dict.{lookup, insert, delete, lookup-insert, lookup-delete}
use forge_proxy.Decimal.{format_int}
use forge_proxy.Enrollment.{Store, ok, default_ttl, peek, mint}
use forge_proxy.Enrollment.Single.{peek-mint}
use forge_proxy.SshProxy.Handshake.{
  Key, KeyLookup, found, missing, failed, Offered, Pending, Permissions, PendingMap,
  pending_enroll_ttl, public_key_callback, looked_up, sweep_pending, enroll, shown, prompted,
  keyboard_interactive_callback,
}

granted :
    (sid : Bytes) (k : Offered) (now : ℕ) (look : KeyLookup) (m : PendingMap) (p : Permissions)
    → (looked_up sid k now look m).0 ≡ some p
    → (rec : Key) × (look ≡ found rec)
      × (rec.fingerprint ≡ k.fingerprint)
      × (p.user_id ≡ format_int rec.user_id)
      × (p.fingerprint ≡ k.fingerprint)
      × (lookup sid (looked_up sid k now look m).1 ≡ none)
unfolding looked_up
granted sid k now missing m p h = absurd cc
granted sid k now failed m p h = absurd cc
granted sid k now (found rec) m p h = elim (Bool-cases (rec.fingerprint =ᵇ k.fingerprint)) [
  | inr differs ↦ absurd (ground arith)
  | inl same ↦
      let e : p ≡ record { user_id = format_int rec.user_id; fingerprint = k.fingerprint } =
        ground arith in
      (
        rec,
        refl,
        ground (arith, =ᵇ_iff rec.fingerprint k.fingerprint),
        ap (λ q. q.user_id) e,
        ap (λ q. q.fingerprint) e,
        rw same (lookup-delete sid sid m ∙ rw (=ᵇ_refl sid) refl),
      )
]

-- A key is let in only when the store has a row for its fingerprint; the permissions are the id of
-- that row's user and the fingerprint, and no key of the handshake stays pending.
pub public_key_callback-some :
    (keys : Bytes → KeyLookup) (sid : Bytes) (k : Offered) (now : ℕ) (m : PendingMap)
    (p : Permissions)
    → (public_key_callback keys sid k now m).0 ≡ some p
    → (rec : Key) × (keys k.fingerprint ≡ found rec)
      × (rec.fingerprint ≡ k.fingerprint)
      × (p.user_id ≡ format_int rec.user_id)
      × (p.fingerprint ≡ k.fingerprint)
      × (lookup sid (public_key_callback keys sid k now m).1 ≡ none)
unfolding public_key_callback
public_key_callback-some keys sid k now m p h = granted sid k now (keys k.fingerprint) m p h

lookup-sweep_pending :
    (k : Bytes) (now : ℕ) (m : PendingMap) {p : Pending}
    → lookup k m ≡ some p
    → now ≤ p.stored_at + pending_enroll_ttl
    → lookup k (sweep_pending now m) ≡ some p
unfolding lookup sweep_pending
lookup-sweep_pending k now [] h fresh = cc
lookup-sweep_pending k now ((j, q) ∷ m) {p} h fresh =
    ground (arith, lookup-sweep_pending k now m {p = p})

-- After a handshake has offered a key that the store does not know, its keyboard-interactive step,
-- at most ten seconds later, shows an enrollment token for that key, whatever was offered before;
-- the token gives that key for ten minutes, and no key of the handshake stays pending.
pub last_offered-enroll :
    (keys : Bytes → KeyLookup) (sid token : Bytes) (k : Offered) (now later redeemed : ℕ)
    (m : PendingMap) (s : Store)
    → keys k.fingerprint ≡ missing
    → later ≤ now + pending_enroll_ttl
    → suc redeemed ≤ later + default_ttl
    → (m' : PendingMap) × (s' : Store) × (keyboard_interactive_callback
          (some token)
          sid
          later
          (public_key_callback keys sid k now m).1
          s
        ≡ (enroll k.fingerprint token, m', s'))
      × (lookup sid m' ≡ none)
      × (peek token redeemed s'
          ≡ ok (record {
            fingerprint = k.fingerprint;
            key_type = k.key_type;
            public_key = k.blob;
            expires_at = later + default_ttl;
          }))
unfolding public_key_callback looked_up keyboard_interactive_callback
last_offered-enroll keys sid token k now later redeemed m s unknown near soon =
    let p : Pending = record { key = k; stored_at = now } in
    let swept = sweep_pending later (insert sid p m) in
    let kept : lookup sid swept ≡ some p =
      lookup-sweep_pending sid later (insert sid p m) {p = p}
        (lookup-insert sid sid p m ∙ rw (=ᵇ_refl sid) refl) near in
    let r = mint (some token) later k.fingerprint k.key_type k.blob s in
    (
      delete sid swept,
      r.1,
      rw unknown (rw kept (unfold prompted shown mint in refl)),
      lookup-delete sid sid swept ∙ rw (=ᵇ_refl sid) refl,
      peek-mint token later redeemed k.fingerprint k.key_type k.blob s
          ∙ rw (lt→ltb redeemed (later + default_ttl) soon) refl,
    )
