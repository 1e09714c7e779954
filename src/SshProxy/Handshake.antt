-- ===== src/SshProxy/Handshake.antt =====
-- internal/sshproxy/server.go: the callbacks of one handshake.
pub mod Keys
pub mod Enrolled
pub mod Tests
use forge_proxy.Base.{
  ℕ, ◌+◌, ◌-◌, ◌≤◌, ◌<◌, Bytes, Bool, true, false, not, List, [], ◌∷◌, ◌≡◌, ◌≢◌, refl, ap, ◌∙◌,
  Option, none, some, arith, ltb, ◌=ᵇ◌, =ᵇ_iff, =ᵇ_refl, if◌then◌else◌, Bool-cases, inl, inr, ◌⊎◌,
  All,
}
use forge_proxy.Base.Dict
use forge_proxy.Base.Dict.{Dict}
use forge_proxy.Decimal.{format_int}
use forge_proxy.Enrollment.{Store, mint}

-- A row of the key store, and what a lookup by fingerprint returns.
pub record Key : Type 0 where
  pub user_id : ℕ
  pub fingerprint : Bytes

pub data KeyLookup : Type 0 where
  found : Key → KeyLookup
  missing failed : KeyLookup

-- A public key as the client offers it.
pub record Offered : Type 0 where
  pub fingerprint : Bytes
  pub key_type : Bytes
  pub blob : Bytes

pub record Pending : Type 0 where
  pub key : Offered
  pub stored_at : ℕ

-- The extensions of `ssh.Permissions`.
pub record Permissions : Type 0 where
  pub user_id : Bytes
  pub fingerprint : Bytes

-- Ten seconds.
abbrev pub pending_enroll_ttl : ℕ
pending_enroll_ttl = 10_000_000_000

-- Handshakes by their session id.
abbrev pub PendingMap : Type 0
PendingMap = Dict Pending

looked_up : Bytes → Offered → ℕ → KeyLookup → PendingMap → Option Permissions × PendingMap
unfolding Dict.insert Dict.delete format_int ◌=ᵇ◌
looked_up sid k now missing m = (none, Dict.insert sid (record { key = k; stored_at = now }) m)
looked_up sid k now failed m = (none, m)
looked_up sid k now (found rec) m = if not (rec.fingerprint =ᵇ k.fingerprint) then (none, m) else (
  some (record { user_id = format_int rec.user_id; fingerprint = k.fingerprint }),
  Dict.delete sid m,
)

-- `publicKeyCallback`: none is an error, after which the client may offer another key.
unfoldable pub public_key_callback :
    (Bytes → KeyLookup) → Bytes → Offered → ℕ → PendingMap → Option Permissions × PendingMap
unfolding looked_up
public_key_callback keys sid k now m = looked_up sid k now (keys k.fingerprint) m

-- `sweepPendingLocked`
unfoldable pub sweep_pending : ℕ → PendingMap → PendingMap
sweep_pending now [] = []
sweep_pending now ((sid, p) ∷ m) =
    let rest = sweep_pending now m in
    if ltb pending_enroll_ttl (now - p.stored_at) then rest else (sid, p) ∷ rest

-- What the keyboard-interactive step shows: nothing, or the fingerprint and the enrollment token.
pub data Shown : Type 0 where
  nothing : Shown
  enroll : Bytes → Bytes → Shown

shown : Bytes → Option Bytes × Store → Shown × Store
shown fingerprint (none, s) = (nothing, s)
shown fingerprint (some token, s) = (enroll fingerprint token, s)

prompted : Option Bytes → ℕ → Option Pending → Store → Shown × Store
unfolding shown mint
prompted token now none s = (nothing, s)
prompted token now (some p) s =
    shown p.key.fingerprint (mint token now p.key.fingerprint p.key.key_type p.key.blob s)

-- `keyboardInteractiveCallback`, for what the random source gives: it never authenticates.
unfoldable pub keyboard_interactive_callback :
    Option Bytes → Bytes → ℕ → PendingMap → Store → Shown × PendingMap × Store
unfolding sweep_pending prompted Dict.lookup Dict.delete
keyboard_interactive_callback token sid now m s =
    let swept = sweep_pending now m in
    let r = prompted token now (Dict.lookup sid swept) s in (r.0, Dict.delete sid swept, r.1)
