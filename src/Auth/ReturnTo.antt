-- ===== src/Auth/ReturnTo.antt =====
-- internal/auth/returnto.go. The URL parser is a parameter.
pub mod Allowed
use forge_proxy.Base.{
  ℕ, Bytes, codes, is_empty, Bool, true, false, not, ◌&&◌, ◌||◌, List, [], ◌∷◌, ◌++◌, Option, none,
  some, any, ltb, ◌==◌, ◌=ᵇ◌, if◌then◌else◌,
}
use forge_proxy.Strings.{has_prefix, has_suffix, to_lower, split, trim_prefix}
use forge_proxy.Net.Url.{Url, hostname, port}

is_control : ℕ → Bool
is_control c = ltb c 32 || (c == 127)

abbrev pub punycode : Bytes
punycode = codes "xn--"

is_foreign : Bytes → Bool
unfolding has_prefix split
is_foreign lower = has_prefix lower punycode || any (λ l. has_prefix l punycode) (split lower b'.')

is_within : Bytes → Bytes → Bool
unfolding ◌=ᵇ◌ has_suffix
is_within lower base = (lower =ᵇ base) || has_suffix lower (b'.' ∷ base)

-- The checks on the host, for the base domain in lower case and without its first dot.
host_allowed : Bytes → Bytes → Bool
unfolding to_lower is_foreign is_within
host_allowed host base =
    if is_empty host
    then false
    else if any (λ c. ltb 127 c) host
    then false
    else if is_foreign (to_lower host)
    then false
    else if is_empty base
    then false
    else is_within (to_lower host) base

-- The checks on the parsed URL.
url_allowed : Bytes → Url → Bool
unfolding host_allowed to_lower trim_prefix hostname port ◌=ᵇ◌
url_allowed base u =
    if not (u.scheme =ᵇ codes "https")
    then false
    else if u.has_user
    then false
    else if is_empty u.host
    then false
    else if not (host_allowed (hostname u) (to_lower (trim_prefix base (codes "."))))
    then false
    else is_empty (port u) || (port u =ᵇ codes "443")

checked : Bytes → Option Url → Option Bytes
unfolding url_allowed
checked base none = none
checked base (some u) = if url_allowed base u then some u.text else none

-- `Validate`
unfoldable pub validate : (Bytes → Option Url) → Bytes → Bytes → Option Bytes
unfolding is_control has_prefix checked
validate parse raw base =
    if is_empty raw
    then none
    else if has_prefix raw (codes "//")
    then none
    else if any is_control raw
    then none
    else checked base (parse raw)
