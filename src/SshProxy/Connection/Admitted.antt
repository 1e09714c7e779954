-- ===== src/SshProxy/Connection/Admitted.antt =====
-- Who reaches the forwarder.
use forge_proxy.Base.{
  Bytes, false, ◌||◌, [], ◌∷◌, ◌≡◌, ◌≢◌, inl, inr, refl, Option, none, some, arith, is_empty,
  Bool-cases,
}
use forge_proxy.Config.Upstream.{Shares}
use forge_proxy.User.{Lookup, found, missing, failed}
use forge_proxy.SshProxy.Roles.{roles_intersect, roles_intersect_iff}
use forge_proxy.SshProxy.Handshake.{Permissions}
use forge_proxy.Decimal.Signed.{ℤ, parse_int}
use forge_proxy.SshProxy.Connection.{Upstream, Stores, AuthenticatedConn, with_user, with_id, admit}

module _ {K : Type 0} (stores : Stores K) (up : Upstream) where
  -- The permissions name a user who exists and has one of the allowed roles; the key was touched.
  pub record IsAdmitted (p : Option Permissions) (k : K) (a : AuthenticatedConn) (k' : K)
      : Type 0 where
    pub permissions : Permissions
    pub id : ℤ
    pub given : p ≡ some permissions
    pub parsed : parse_int permissions.user_id ≡ some id
    pub known : stores.get id ≡ found a.user
    pub target : a.target ≡ up
    pub fingerprint : a.fingerprint ≡ permissions.fingerprint
    pub named : permissions.fingerprint ≢ []
    pub shares : Shares up.allowed_roles a.user.roles
    pub touched : k' ≡ (stores.touch_last_used permissions.fingerprint k).1

  abbrev pub IsDecided : Option Permissions → K → Option AuthenticatedConn × K → Type 0
  IsDecided p k (none, k') = k' ≡ k
  IsDecided p k (some a, k') = IsAdmitted p k a k'

  module _ (p : Permissions) (k : K) (named : p.fingerprint ≢ []) where
    with_user-IsDecided :
        (id : ℤ) (look : Lookup)
        → parse_int p.user_id ≡ some id
        → stores.get id ≡ look
        → IsDecided (some p) k (with_user stores up p.fingerprint look k)
    unfolding with_user
    with_user-IsDecided id missing e g = refl
    with_user-IsDecided id failed e g = refl
    with_user-IsDecided id (found u) e g =
        elim (Bool-cases (roles_intersect u.roles up.allowed_roles)) [
          | inr none_shared ↦ rw none_shared refl
          | inl shared ↦ rw shared (record {
            permissions = p;
            id = id;
            given = refl;
            parsed = e;
            known = g;
            target = refl;
            fingerprint = refl;
            named = named;
            shares = (roles_intersect_iff u.roles up.allowed_roles).0 shared;
            touched = refl;
          })
        ]

    with_id-IsDecided :
        (id : Option ℤ)
        → parse_int p.user_id ≡ id
        → IsDecided (some p) k (with_id stores up p.fingerprint id k)
    unfolding with_id
    with_id-IsDecided none e = refl
    with_id-IsDecided (some id) e = with_user-IsDecided id (stores.get id) e refl

given_text : (a b : Bytes) → (is_empty a || is_empty b) ≡ false → b ≢ []
given_text a [] h = ground arith
given_text a (c ∷ b) h = λ e. cc

-- A connection reaches the forwarder only with permissions that name a user of the users store and
-- a key, and only when that user has a role that the upstream allows; then the key is touched. On
-- every other path the key store stays as it was.
pub admit-IsDecided :
    {K : Type 0} (stores : Stores K) (up : Upstream) (p : Option Permissions) (k : K)
    → IsDecided stores up p k (admit stores up p k)
unfolding admit
admit-IsDecided stores up none k = refl
admit-IsDecided stores up (some p) k =
    elim (Bool-cases (is_empty p.user_id || is_empty p.fingerprint)) [
      | inl blank ↦ rw blank refl
      | inr given ↦ rw given (
          with_id-IsDecided stores up p k (given_text p.user_id p.fingerprint given)
            (parse_int p.user_id) refl)
    ]
