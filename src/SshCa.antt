-- ===== src/SshCa.antt =====
-- internal/sshca/sign.go: the certificate of one session. Key generation and signing are done by
-- the SSH library, whose failures are an argument.
pub mod Tests
pub mod Key
use forge_proxy.Base.{
  ℕ, ◌+◌, ◌-◌, ◌*◌, ◌/◌, ◌≤◌, ◌<◌, Bytes, codes, is_empty, Bool, true, false, not, List, [], ◌∷◌,
  ◌≡◌, ◌≢◌, refl, Option, none, some, arith, ltb, if◌then◌else◌, Bool-cases, inl, inr,
}
use forge_proxy.Clock.{second, unix}

-- Thirty seconds.
abbrev pub valid_before_skew : ℕ
valid_before_skew = 30_000_000_000

pub record Certificate : Type 0 where
  pub key_id : Bytes
  pub valid_principals : List Bytes
  pub valid_after : ℕ
  pub valid_before : ℕ
  pub extensions : List (Bytes × Bytes)

pub data Error : Type 0 where
  invalid_ca empty_principal bad_ttl cancelled crypto : Error

pub data Result : Type 0 where
  ok : Certificate → Result
  err : Error → Result

certificate : Bytes → ℕ → ℕ → Certificate
certificate principal ttl now = record {
  key_id = principal;
  valid_principals = principal ∷ [];
  valid_after = unix (now - valid_before_skew);
  valid_before = unix (now + ttl);
  extensions = (codes "permit-pty", []) ∷ [];
}

-- `Mint`: whether there is a signer, whether the context is cancelled, and whether the library fails.
unfoldable pub mint : Bool → Bytes → ℕ → Bool → Bool → ℕ → Result
unfolding certificate
mint signer principal ttl is_cancelled fails now =
    if not signer
    then err invalid_ca
    else if is_empty principal
    then err empty_principal
    else if not (ltb 0 ttl)
    then err bad_ttl
    else if is_cancelled
    then err cancelled
    else if fails
    then err crypto
    else ok (certificate principal ttl now)

-- Whether an upstream accepts a certificate at a second of its own clock.
abbrev pub IsValidAt : ℕ → Certificate → Type 0
IsValidAt at c = (c.valid_after ≤ at) × (at < c.valid_before)

checked :
    (signer : Bool) (principal : Bytes) (ttl : ℕ) (is_cancelled fails : Bool) (now : ℕ)
    (c : Certificate)
    → mint signer principal ttl is_cancelled fails now ≡ ok c
    → (principal ≢ []) × (c ≡ certificate principal ttl now)
unfolding mint
checked false principal ttl is_cancelled fails now c h = absurd cc
checked true [] ttl is_cancelled fails now c h = absurd cc
checked true (p ∷ ps) ttl is_cancelled fails now c h = elim (Bool-cases (ltb 0 ttl)) [
  | inr short ↦ absurd (ground arith)
  | inl long ↦ ground arith
]

valid_at :
    (principal : Bytes) (ttl now behind : ℕ)
    → valid_before_skew ≤ now
    → behind ≤ valid_before_skew
    → second ≤ ttl
    → ((certificate principal ttl now).valid_before * second ≤ now + ttl)
      × IsValidAt (unix (now - behind)) (certificate principal ttl now)
unfolding certificate
valid_at principal ttl now behind skewed near long = (omega arith, (omega arith, omega arith))

-- A certificate is for its one principal, which is not empty, allows a terminal and nothing else,
-- and lasts no longer than the time to live, to the second. An upstream whose clock is at most
-- thirty seconds behind accepts it at once, where the time to live is a second or more.
pub mint-ok :
    (signer : Bool) (principal : Bytes) (ttl : ℕ) (is_cancelled fails : Bool) (now behind : ℕ)
    (c : Certificate)
    → mint signer principal ttl is_cancelled fails now ≡ ok c
    → valid_before_skew ≤ now
    → behind ≤ valid_before_skew
    → second ≤ ttl
    → (c.valid_principals ≡ principal ∷ [])
      × (principal ≢ [])
      × (c.key_id ≡ principal)
      × (c.extensions ≡ (codes "permit-pty", []) ∷ [])
      × (c.valid_before * second ≤ now + ttl)
      × IsValidAt (unix (now - behind)) c
unfolding mint
mint-ok signer principal ttl is_cancelled fails now behind c h skewed near long =
    let (named, e) = checked signer principal ttl is_cancelled fails now c h in
    let (bounded, accepted) = valid_at principal ttl now behind skewed near long in
    rw e (unfold certificate in (refl, named, refl, refl, bounded, accepted))
