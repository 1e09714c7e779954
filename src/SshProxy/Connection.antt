-- ===== src/SshProxy/Connection.antt =====
-- internal/sshproxy/server.go: one connection, from its handshake to the forwarder.
pub mod Admitted
pub mod Identity
use forge_proxy.Base.{
  ℕ, ◌+◌, ◌-◌, ◌*◌, suc, Bytes, Bool, true, false, not, ◌||◌, List, [], ◌∷◌, Option, none, some,
  ltb, leb, ◌==◌, all, is_empty, ◌^◌, if◌then◌else◌,
}
use forge_proxy.Base.Dict
use forge_proxy.Strings.{is_digit}
use forge_proxy.Decimal.Signed.{ℤ, parse_int}
use forge_proxy.User.{User, Lookup, found, missing, failed}
use forge_proxy.SshProxy.Roles.{roles_intersect}
use forge_proxy.SshProxy.Registry.{Registry, register, unregister, attach_identity}
use forge_proxy.SshProxy.Handshake.{Permissions, PendingMap}

pub record Upstream : Type 0 where
  pub port : ℕ
  pub allowed_roles : List Bytes

-- The stores: users by their id, and the time at which a key was last used, whose failure is not
-- fatal.
pub record Stores (K : Type 0) : Type 0 where
  pub get : ℤ → Lookup
  pub touch_last_used : Bytes → K → Bool × K

-- What the forwarder is given.
pub record AuthenticatedConn : Type 0 where
  pub target : Upstream
  pub user : User
  pub fingerprint : Bytes

module _ {K : Type 0} (stores : Stores K) (up : Upstream) where
  with_user : Bytes → Lookup → K → Option AuthenticatedConn × K
  unfolding roles_intersect
  with_user fingerprint missing k = (none, k)
  with_user fingerprint failed k = (none, k)
  with_user fingerprint (found u) k =
      if not (roles_intersect u.roles up.allowed_roles) then (none, k) else (
        some (record { target = up; user = u; fingerprint = fingerprint }),
        (stores.touch_last_used fingerprint k).1,
      )

  with_id : Bytes → Option ℤ → K → Option AuthenticatedConn × K
  unfolding with_user
  with_id fingerprint none k = (none, k)
  with_id fingerprint (some id) k = with_user fingerprint (stores.get id) k

  -- From the permissions to the call of the forwarder; none closes the connection.
  unfoldable pub admit : Option Permissions → K → Option AuthenticatedConn × K
  unfolding with_id parse_int
  admit none k = (none, k)
  admit (some p) k =
      if is_empty p.user_id || is_empty p.fingerprint
      then (none, k)
      else with_id p.fingerprint (parse_int p.user_id) k

-- What a connection is known by: its number, the id of its SSH session, and its address.
pub record Conn : Type 0 where
  pub number : ℕ
  pub session_id : Bytes
  pub remote_addr : Bytes

-- `handleConn` up to the permissions: a failed handshake changes nothing.
unfoldable pub begin : Conn → Upstream → ℕ → PendingMap → Registry → PendingMap × Registry
unfolding register Dict.delete
begin c up now pending registry =
    (Dict.delete c.session_id pending, register c.number up.port c.remote_addr now true registry)

-- The identity that is attached before the forwarder runs; `has_forwarder` is false in tests alone.
unfoldable pub attach : Conn → Bool → Option AuthenticatedConn → Registry → Registry
unfolding attach_identity
attach c has_forwarder none registry = registry
attach c false (some a) registry = registry
attach c true (some a) registry = attach_identity c.number a.user.id a.user.email registry

-- The deferred removal, on every path.
unfoldable pub end : Conn → Registry → Registry
unfolding unregister
end c registry = unregister c.number registry
