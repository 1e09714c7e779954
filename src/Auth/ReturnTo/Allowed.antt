-- ===== src/Auth/ReturnTo/Allowed.antt =====
-- Which return targets pass, said without the order of the checks.
use forge_proxy.Base.{
  ℕ, ◌≤◌, Bytes, codes, is_empty, true, false, [], ◌∷◌, ◌++◌, ◌≡◌, ◌≢◌, ◌↔◌, ◌⊎◌, inl, inr, refl,
  Option, none, some, any, All, arith, ltb, =ᵇ_iff, any-All-false, Bool-cases,
}
use forge_proxy.Strings.{has_prefix, to_lower, split, trim_prefix}
use forge_proxy.Strings.Splitting.{has_suffix_iff}
use forge_proxy.Net.Url.{Url, hostname, port}
use forge_proxy.Auth.ReturnTo.{
  is_control, punycode, is_foreign, is_within, host_allowed, url_allowed, checked, validate,
}

-- The base domain of the settings, in lower case and without a leading dot.
abbrev pub base_of : Bytes → Bytes
base_of base = to_lower (trim_prefix base (codes "."))

pub record IsAllowedHost (host base : Bytes) : Type 0 where
  pub ascii : All (λ c. c ≤ 127) host
  pub domestic : All (λ l. has_prefix l punycode ≡ false) (split (to_lower host) b'.')
  pub base_given : base ≢ []
  -- The base domain itself, or a name that ends in a dot and the base domain.
  pub within : (to_lower host ≡ base) ⊎ ((label : Bytes) × (to_lower host ≡ label ++ b'.' ∷ base))

any-All : (s : Bytes) → (any (λ c. ltb 127 c) s ≡ false) ↔ All (λ c. c ≤ 127) s
any-All [] = (λ _. tt, λ _. refl)
any-All (c ∷ s) = ground (arith, any-All s)

is_foreign-All :
    (lower : Bytes)
    → is_foreign lower ≡ false
    → All (λ l. has_prefix l punycode ≡ false) (split lower b'.')
unfolding is_foreign
is_foreign-All lower h =
    any-All-false (λ l. has_prefix l punycode) (split lower b'.') (ground arith)

-- A byte that is no control character.
abbrev pub IsPrintable : ℕ → Type 0
IsPrintable c = (32 ≤ c) × (c ≢ 127)

is_control-All : (s : Bytes) → any is_control s ≡ false → All IsPrintable s
unfolding is_control
is_control-All [] h = tt
is_control-All (c ∷ s) h = ground (arith, is_control-All s)

host_allowed_sound : (host base : Bytes) → host_allowed host base ≡ true → IsAllowedHost host base
unfolding host_allowed is_within
host_allowed_sound host base h = record {
  ascii = ground (arith, any-All host);
  domestic = is_foreign-All (to_lower host) (ground arith);
  base_given = ground arith;
  within =
      ground (arith, =ᵇ_iff (to_lower host) base, has_suffix_iff (to_lower host) (b'.' ∷ base));
}

-- A return target that passes.
pub record IsAllowed (u : Url) (base : Bytes) : Type 0 where
  pub https : u.scheme ≡ codes "https"
  pub no_user : u.has_user ≡ false
  pub host : IsAllowedHost (hostname u) (base_of base)
  pub port_443 : (port u ≡ []) ⊎ (port u ≡ codes "443")

is_empty_iff : (s : Bytes) → (is_empty s ≡ true) ↔ (s ≡ [])
is_empty_iff [] = (λ _. refl, λ _. refl)
is_empty_iff (c ∷ s) = (λ e. cc, λ e. cc)

url_allowed_sound : (base : Bytes) (u : Url) → url_allowed base u ≡ true → IsAllowed u base
unfolding url_allowed
url_allowed_sound base u h = record {
  https = ground (arith, =ᵇ_iff u.scheme (codes "https"));
  no_user = ground arith;
  host = host_allowed_sound (hostname u) (base_of base) (ground arith);
  port_443 = ground (arith, =ᵇ_iff (port u) (codes "443"), is_empty_iff (port u));
}

checked_sound :
    (base out : Bytes) (parsed : Option Url)
    → checked base parsed ≡ some out
    → (u : Url) × (parsed ≡ some u) × IsAllowed u base × (out ≡ u.text)
unfolding checked
checked_sound base out none h = cc
checked_sound base out (some u) h = elim (Bool-cases (url_allowed base u)) [
  | inl e ↦ (u, refl, url_allowed_sound base u e, ground arith)
  | inr e ↦ ground arith
]

-- A return target that passes is what the parser prints of a URL with the scheme https, no user,
-- no port but 443, and a host of ASCII without punycode that is the base domain or below it. The
-- text has no control byte and does not begin with "//".
pub validate_sound :
    (parse : Bytes → Option Url) (raw base out : Bytes)
    → validate parse raw base ≡ some out
    → All IsPrintable raw
      × (has_prefix raw (codes "//") ≡ false)
      × ((u : Url) × (parse raw ≡ some u) × IsAllowed u base × (out ≡ u.text))
unfolding validate
validate_sound parse raw base out h = (
  is_control-All raw (ground arith),
  ground arith,
  checked_sound base out (parse raw) (ground arith),
)
