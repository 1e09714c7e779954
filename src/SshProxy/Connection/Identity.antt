-- ===== src/SshProxy/Connection/Identity.antt =====
-- internal/sshproxy/server.go: the user of a connection and the owner of its key.
use forge_proxy.Base.{ℕ, ◌<◌, ◌^◌, Bytes, ◌≡◌, sym, subst, ap, ◌∙◌, some}
use mathlib.Core.Option.{some-injective}
use forge_proxy.Config.Upstream.{Shares}
use forge_proxy.User.{found}
use forge_proxy.SshProxy.Handshake.{
  Key, KeyLookup, Offered, Permissions, PendingMap, public_key_callback,
}
use forge_proxy.SshProxy.Handshake
use forge_proxy.SshProxy.Handshake.Keys.{public_key_callback-some}
use forge_proxy.Decimal.Signed.{pos, parse_int, parse_int-format_int}
use forge_proxy.SshProxy.Connection.{Upstream, Stores, AuthenticatedConn, admit}
use forge_proxy.SshProxy.Connection.Admitted.{IsAdmitted, IsDecided, admit-IsDecided}

-- A connection that was let in with a key and reaches the forwarder runs for the owner of that key
-- in the key store, who is in the users store and has a role that the upstream allows, where the
-- ids of the key store are below 2^63.
pub admit-owner :
    {K : Type 0} (stores : Stores K) (up : Upstream) (keys : Bytes → KeyLookup) (sid : Bytes)
    (k : Offered) (now : ℕ) (m : PendingMap) (p : Permissions) (a : AuthenticatedConn) (s s' : K)
    → ((f : Bytes) (rec : Key) → keys f ≡ Handshake.found rec → rec.user_id < 2 ^ 63)
    → (public_key_callback keys sid k now m).0 ≡ some p
    → admit stores up (some p) s ≡ (some a, s')
    → (rec : Key) × (keys k.fingerprint ≡ Handshake.found rec)
      × (stores.get (pos rec.user_id) ≡ found a.user)
      × (a.fingerprint ≡ k.fingerprint)
      × (a.target ≡ up)
      × Shares up.allowed_roles a.user.roles
admit-owner {K} stores up keys sid k now m p a s s' wide let_in h =
    let (rec, row, same_key, printed, same_finger, cleared) =
      public_key_callback-some keys sid k now m p let_in in
    let d : IsAdmitted stores up (some p) s a s' =
      subst (IsDecided stores up (some p) s) h (admit-IsDecided stores up (some p) s) in
    let same_p : p ≡ d.permissions = some-injective _ _ d.given in
    let id_is : some d.id ≡ some (pos rec.user_id) =
      sym d.parsed
      ∙ ap (λ (q : Permissions). parse_int q.user_id) (sym same_p)
      ∙ ap parse_int printed
      ∙ parse_int-format_int rec.user_id (wide k.fingerprint rec row) in
    let owner : d.id ≡ pos rec.user_id = some-injective _ _ id_is in
    (
      rec,
      row,
      subst (λ i. stores.get i ≡ found a.user) owner d.known,
      d.fingerprint ∙ ap (λ (q : Permissions). q.fingerprint) (sym same_p) ∙ same_finger,
      d.target,
      d.shares,
    )
