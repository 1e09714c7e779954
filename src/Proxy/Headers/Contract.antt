-- ===== src/Proxy/Headers/Contract.antt =====
-- internal/proxy/headers.go: the headers of the contract that an upstream receives.
use forge_proxy.Base.{
  Bytes, codes, List, [], ◌∷◌, ◌≡◌, refl, ◌∙◌, ap, Option, none, some, arith, if◌then◌else◌, ◌=ᵇ◌,
}
use forge_proxy.Base.Dict.{lookup, lookup-insert, lookup-delete}
use forge_proxy.Strings.{join}
use forge_proxy.Decimal.{format_int}
use forge_proxy.Net.Header.{Header, canonical, del, set}
use forge_proxy.User.{User}
use forge_proxy.Proxy.Headers.{
  Outbound, encode_display_name, pairs, set_pairs, strip_forge_headers, inject_forge_headers,
}
use forge_proxy.Proxy.Headers.Stripped.{IsTrusted, strip_forge_headers-absent}

-- The value that the last pair of this name gives, or else another.
unfoldable pub given : Bytes → List (Bytes × Bytes) → Option (List Bytes) → Option (List Bytes)
unfolding canonical
given k [] other = other
given k ((name, value) ∷ ps) other =
    given k ps (if canonical name =ᵇ k then some (value ∷ []) else other)

lookup-set :
    (h : Header) (name value k : Bytes)
    → lookup k (set (del h name) name value)
      ≡ (if canonical name =ᵇ k then some (value ∷ []) else lookup k h)
unfolding set del
lookup-set h name value k = ground (
  arith,
  lookup-insert (canonical name) k (value ∷ []) (del h name),
  lookup-delete (canonical name) k h,
)

pub lookup-set_pairs :
    (ps : List (Bytes × Bytes)) (h : Header) (k : Bytes)
    → lookup k (set_pairs ps h) ≡ given k ps (lookup k h)
unfolding set_pairs given
lookup-set_pairs [] h k = refl
lookup-set_pairs ((name, value) ∷ ps) h k =
    lookup-set_pairs ps (set (del h name) name value) k
    ∙ ap (given k ps) (lookup-set h name value k)

-- What an upstream finds under a name that begins with "X-Forge-" comes from the nine pairs of the
-- secret and the user, whatever the client sent.
pub forwarded-IsTrusted :
    (out : Outbound) (secret : Bytes) (u : User) (k : Bytes)
    → IsTrusted k
    → lookup k (inject_forge_headers (strip_forge_headers out) secret u).header
      ≡ given k (pairs secret u) none
unfolding inject_forge_headers
forwarded-IsTrusted out secret u k t =
    lookup-set_pairs (pairs secret u) (strip_forge_headers out).header k
    ∙ rw (strip_forge_headers-absent out k t).0

-- An upstream finds each of the nine headers once, with the value of its table in the contract.
pub forwarded_contract :
    (out : Outbound) (secret : Bytes) (u : User)
    → let found =
        λ (k : Bytes). lookup k (inject_forge_headers (strip_forge_headers out) secret u).header in
      (found (codes "X-Forge-Proxy-Secret") ≡ some (secret ∷ []))
      × (found (codes "X-Forge-Contract-Version") ≡ some (codes "1" ∷ []))
      × (found (codes "X-Forge-User-Id") ≡ some (format_int u.id ∷ []))
      × (found (codes "X-Forge-Email") ≡ some (u.email ∷ []))
      × (found (codes "X-Forge-Name") ≡ some (encode_display_name u.name ∷ []))
      × (found (codes "X-Forge-Avatar") ≡ some (u.avatar_url ∷ []))
      × (found (codes "X-Forge-Roles") ≡ some (join u.roles (codes ",") ∷ []))
      × (found (codes "X-Forge-Slack-User-Id") ≡ some (u.slack_user_id ∷ []))
      × (found (codes "X-Forge-Slack-Team-Id") ≡ some (u.slack_team_id ∷ []))
unfolding given pairs ◌=ᵇ◌
forwarded_contract out secret u = (one _, one _, one _, one _, one _, one _, one _, one _, one _)
  where
    one :
        (k : Bytes)
        → lookup k (inject_forge_headers (strip_forge_headers out) secret u).header
          ≡ given k (pairs secret u) (lookup k (strip_forge_headers out).header)
    one k =
        unfold inject_forge_headers in
        lookup-set_pairs (pairs secret u) (strip_forge_headers out).header k
