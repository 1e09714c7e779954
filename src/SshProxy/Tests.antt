-- ===== src/SshProxy/Tests.antt =====
-- The SSH bastion on one handshake.
use forge_proxy.Base.{
  ℕ, suc, ◌+◌, ◌<◌, ◌^◌, Bytes, codes, true, false, List, [], ◌∷◌, map, length, ◌≡◌, refl, none,
  some, arith, ◌==◌, ◌=ᵇ◌, if◌then◌else◌, Bool-cases, inl, inr,
}
use forge_proxy.Base.Dict.{lookup}
use forge_proxy.Config.Upstream.{Shares}
use forge_proxy.Decimal.{format_int}
use forge_proxy.Enrollment.{Store, ok, default_ttl, peek}
use forge_proxy.SshProxy.Roles.{roles_intersect}
use forge_proxy.SshProxy.Handshake.{
  Permissions, Key, KeyLookup, found, missing, Offered, PendingMap, public_key_callback, enroll,
  nothing, keyboard_interactive_callback,
}
use forge_proxy.SshProxy.Handshake
use forge_proxy.User.{User, Lookup}
use forge_proxy.User
use forge_proxy.SshProxy.Registry.{
  Entry, list, force_close_by_email, force_close_by_user, closers, info_of,
}
use forge_proxy.SshProxy.Registry.Listed.{
  Op, registers, attaches, unregisters, run, of_email, force_close_by_email-run,
}
use forge_proxy.Decimal.Signed.{ℤ, pos, negsuc, parse_int}
use forge_proxy.SshProxy.Connection.{Upstream, Stores, AuthenticatedConn, admit}
use forge_proxy.SshProxy.Connection.Admitted.{IsDecided, admit-IsDecided}
use forge_proxy.SshProxy.Connection.Identity.{admit-owner}
use forge_proxy.SshProxy.Handshake.Keys.{last_offered-enroll}

handshaking : Unit {0}
unfolding public_key_callback keyboard_interactive_callback format_int lookup peek roles_intersect
    parse_int admit run list force_close_by_email force_close_by_user closers of_email
handshaking = tt

abbrev laptop : Key
laptop = record { user_id = 7; fingerprint = codes "SHA256:a" }

abbrev keys : Bytes → KeyLookup
keys f = if f =ᵇ codes "SHA256:a" then found laptop else missing

abbrev known : Offered
known = record { fingerprint = codes "SHA256:a"; key_type = codes "ssh-ed25519"; blob = 1 ∷ [] }

abbrev unknown : Offered
unknown = record { fingerprint = codes "SHA256:b"; key_type = codes "ssh-rsa"; blob = 2 ∷ [] }

-- The handshake offers a key that is unknown first.
abbrev offered : PendingMap
offered = (public_key_callback keys (codes "sid") unknown 5 []).1

last_offered-enroll_concrete :
    (m' : PendingMap) × (s' : Store) × (keyboard_interactive_callback
        (some (codes "t1"))
        (codes "sid")
        7
        (public_key_callback keys (codes "sid") unknown 5 []).1
        []
      ≡ (enroll (codes "SHA256:b") (codes "t1"), m', s'))
    × (lookup (codes "sid") m' ≡ none)
    × (peek (codes "t1") 8 s'
        ≡ ok (record {
          fingerprint = codes "SHA256:b";
          key_type = codes "ssh-rsa";
          public_key = 2 ∷ [];
          expires_at = 7 + default_ttl;
        }))
unfolding handshaking
last_offered-enroll_concrete =
    last_offered-enroll keys (codes "sid") (codes "t1") unknown 5 7 8 [] [] refl (omega arith)
      (omega arith)

unoffered_tests :
    ((keyboard_interactive_callback (some (codes "t1")) (codes "other") 7 offered []).0 ≡ nothing)
    × ((keyboard_interactive_callback (some (codes "t1")) (codes "sid") 10_000_000_006 offered []).0
        ≡ nothing)
unfolding handshaking
unoffered_tests = (refl, refl)

abbrev ann : User
ann = record {
  id = 7;
  slack_user_id = codes "U7";
  slack_team_id = codes "T1";
  email = codes "ann@x.io";
  name = codes "Ann";
  avatar_url = [];
  roles = codes "dev" ∷ [];
  created_at = 1;
  last_login_at = 1;
}

abbrev users : ℤ → Lookup
users (pos n) = if n == 7 then User.found ann else User.missing
users (negsuc n) = User.missing

-- A key store that counts the touches.
abbrev stores : Stores ℕ
stores = record { get = users; touch_last_used = λ f k. (false, suc k) }

abbrev box : Upstream
box = record { port = 2222; allowed_roles = codes "ops" ∷ codes "dev" ∷ [] }

abbrev granted : Permissions
granted = record { user_id = codes "7"; fingerprint = codes "SHA256:a" }

abbrev admitted : AuthenticatedConn
admitted = record { target = box; user = ann; fingerprint = codes "SHA256:a" }

admit_tests :
    (admit stores box (some granted) 0 ≡ (some admitted, 1))
    × (admit stores (record box { allowed_roles = [] }) (some granted) 0 ≡ (none, 0))
    × (admit stores box (some (record granted { user_id = codes "8" })) 0 ≡ (none, 0))
    × (parse_int (codes "9223372036854775808") ≡ none)
    × (parse_int (codes "-9223372036854775808") ≡ some (negsuc 9223372036854775807))
unfolding handshaking
admit_tests = (refl, refl, refl, refl, refl)

admit-IsDecided_concrete : IsDecided stores box (some granted) 0 (admit stores box (some granted) 0)
admit-IsDecided_concrete = admit-IsDecided stores box (some granted) 0

keys_int64 : (f : Bytes) (rec : Key) → keys f ≡ found rec → rec.user_id < 2 ^ 63
keys_int64 f rec h = elim (Bool-cases (f =ᵇ codes "SHA256:a")) [
  | inl same ↦
      let e : found laptop ≡ found rec = rw same at h in
      let user : 7 ≡ rec.user_id = cc in omega arith
  | inr other ↦ let e : missing ≡ found rec = rw other at h in absurd cc
]

admit-owner_example :
    (rec : Key) × (keys (codes "SHA256:a") ≡ Handshake.found rec)
    × (stores.get (pos rec.user_id) ≡ User.found ann)
    × (codes "SHA256:a" ≡ known.fingerprint)
    × (box ≡ box)
    × Shares (codes "ops" ∷ codes "dev" ∷ []) (codes "dev" ∷ [])
unfolding handshaking
admit-owner_example =
    admit-owner stores box keys (codes "sid") known 6 offered granted admitted 0 1 keys_int64 refl
      refl

abbrev steps : List Op
steps =
    registers 1 2222 (codes "10.0.0.1") 5 true
    ∷ registers 2 2222 (codes "10.0.0.2") 6 true
    ∷ attaches 1 7 (codes "ann@x.io")
    ∷ registers 3 2223 (codes "10.0.0.3") 7 true
    ∷ attaches 3 7 (codes "ann@x.io")
    ∷ unregisters 3
    ∷ []

registry_tests :
    (length (list (run steps [])) ≡ 1)
    × (length (force_close_by_user 7 (run steps [])) ≡ 1)
    × (force_close_by_user 0 (run steps []) ≡ [])
    × (closers (run steps []) ≡ 2 ∷ 1 ∷ [])
unfolding handshaking
registry_tests = (refl, refl, refl, refl)

force_close_by_email-run_example :
    map (λ (p : ℕ × Entry). info_of p.1) (force_close_by_email (codes "ann@x.io") (run steps []))
    ≡ of_email (codes "ann@x.io") (list (run steps []))
force_close_by_email-run_example = force_close_by_email-run steps (codes "ann@x.io")
