-- ===== src/Proxy/Serve/Forwarding.antt =====
-- internal/proxy/proxy.go, `rewrite`: the forwarding headers that an upstream receives.
use forge_proxy.Base.{
  Bytes, codes, Bool, true, false, List, [], ◌∷◌, ◌≡◌, refl, ◌∙◌, ap, Option, none, some, ◌=ᵇ◌,
  =ᵇ_iff, arith, if◌then◌else◌,
}
use forge_proxy.Base.Dict.{lookup, lookup-insert, lookup-delete}
use forge_proxy.Strings.{has_prefix}
use forge_proxy.Net.Header.{Header, canonical, set, del}
use forge_proxy.Net.Url.{Url}
use forge_proxy.User.{User}
use forge_proxy.Proxy.Headers.{
  Outbound, pairs, forge_header_prefix, strip_forge_headers, inject_forge_headers,
}
use forge_proxy.Proxy.Headers.Stripped.{cookie, announced, strip_forge_headers-other}
use forge_proxy.Proxy.Headers.Contract.{given, lookup-set_pairs}
use forge_proxy.Proxy.Outgoing.{between_hops, outgoing_header, without_forwarding}
use forge_proxy.Proxy.Serve.{
  Settings, Request, Forwarded, prior_for, forwarded_for, set_x_forwarded, rewrite,
}

-- The address of the client alone, where the request has one.
abbrev pub address_alone : Option Bytes → Option (List Bytes)
address_alone none = none
address_alone (some ip) = some (ip ∷ [])

abbrev pub proto_of : Bool → Bytes
proto_of true = codes "https"
proto_of false = codes "http"

-- The forwarding headers of a request that goes out say what the proxy saw, and no more.
pub record IsFresh (r : Request) (fw : Forwarded) : Type 0 where
  pub own_for : lookup (codes "X-Forwarded-For") fw.out.header ≡ address_alone r.client_ip
  pub own_host : lookup (codes "X-Forwarded-Host") fw.out.header ≡ some (r.host ∷ [])
  pub own_proto : lookup (codes "X-Forwarded-Proto") fw.out.header ≡ some (proto_of r.tls ∷ [])
  pub no_forwarded : lookup (codes "Forwarded") fw.out.header ≡ none

set-other :
    (k j v : Bytes) (h : Header) → (canonical j =ᵇ k) ≡ false → lookup k (set h j v) ≡ lookup k h
unfolding set
set-other k j v h e = lookup-insert (canonical j) k (v ∷ []) h ∙ rw e refl

set-same :
    (k j v : Bytes) (h : Header) → (canonical j =ᵇ k) ≡ true → lookup k (set h j v) ≡ some (v ∷ [])
unfolding set
set-same k j v h e = lookup-insert (canonical j) k (v ∷ []) h ∙ rw e refl

del-other :
    (k j : Bytes) (h : Header) → (canonical j =ᵇ k) ≡ false → lookup k (del h j) ≡ lookup k h
unfolding del
del-other k j h e = lookup-delete (canonical j) k h ∙ rw e refl

del-same : (k j : Bytes) (h : Header) → (canonical j =ᵇ k) ≡ true → lookup k (del h j) ≡ none
unfolding del
del-same k j h e = lookup-delete (canonical j) k h ∙ rw e refl

dropped_for : (h : Header) → lookup (codes "X-Forwarded-For") (without_forwarding h) ≡ none
unfolding without_forwarding canonical ◌=ᵇ◌
dropped_for h =
    let k = codes "X-Forwarded-For" in
    let h1 = del h (codes "Forwarded") in
    let h2 = del h1 k in
    let h3 = del h2 (codes "X-Forwarded-Host") in
    del-other k (codes "X-Forwarded-Proto") h3 refl
    ∙ del-other k (codes "X-Forwarded-Host") h2 refl
    ∙ del-same k k h1 refl

dropped_forwarded : (h : Header) → lookup (codes "Forwarded") (without_forwarding h) ≡ none
unfolding without_forwarding canonical ◌=ᵇ◌
dropped_forwarded h =
    let k = codes "Forwarded" in
    let h1 = del h k in
    let h2 = del h1 (codes "X-Forwarded-For") in
    let h3 = del h2 (codes "X-Forwarded-Host") in
    del-other k (codes "X-Forwarded-Proto") h3 refl
    ∙ del-other k (codes "X-Forwarded-Host") h2 refl
    ∙ del-other k (codes "X-Forwarded-For") h1 refl
    ∙ del-same k k h refl

outgoing-for : (h : Header) → lookup (codes "X-Forwarded-For") (outgoing_header h) ≡ none
unfolding outgoing_header
outgoing-for h = dropped_for (between_hops h)

outgoing-forwarded : (h : Header) → lookup (codes "Forwarded") (outgoing_header h) ≡ none
unfolding outgoing_header
outgoing-forwarded h = dropped_forwarded (between_hops h)

prior-none : (o : Option (List Bytes)) (ip : Bytes) → o ≡ none → prior_for o ip ≡ ip
unfolding prior_for
prior-none none ip e = refl
prior-none (some vs) ip e = cc

-- A header without a value of that name gets the address alone.
forwarded_for-alone :
    (ip : Option Bytes) (h : Header)
    → lookup (codes "X-Forwarded-For") h ≡ none
    → lookup (codes "X-Forwarded-For") (forwarded_for ip h) ≡ address_alone ip
unfolding forwarded_for canonical ◌=ᵇ◌
forwarded_for-alone none h e = del-same _ (codes "X-Forwarded-For") h refl
forwarded_for-alone (some ip) h e =
    set-same _ (codes "X-Forwarded-For") _ h refl
    ∙ ap (λ x. some (x ∷ [])) (prior-none (lookup (codes "X-Forwarded-For") h) ip e)

forwarded_for-other :
    (k : Bytes) (ip : Option Bytes) (h : Header)
    → (codes "X-Forwarded-For" =ᵇ k) ≡ false
    → lookup k (forwarded_for ip h) ≡ lookup k h
unfolding forwarded_for canonical
forwarded_for-other k none h e = del-other k (codes "X-Forwarded-For") h e
forwarded_for-other k (some ip) h e = set-other k (codes "X-Forwarded-For") _ h e

proto-is : (tls : Bool) → (if tls then codes "https" else codes "http") ≡ proto_of tls
proto-is true = refl
proto-is false = refl

module _ (r : Request) (h : Header) where
  abbrev with_for : Header
  with_for = forwarded_for r.client_ip h

  abbrev with_host : Header
  with_host = set with_for (codes "X-Forwarded-Host") r.host

  abbrev scheme_of : Bytes
  scheme_of = if r.tls then codes "https" else codes "http"

  written_for :
      lookup (codes "X-Forwarded-For") h ≡ none
      → lookup (codes "X-Forwarded-For") (set_x_forwarded r h) ≡ address_alone r.client_ip
  unfolding set_x_forwarded canonical ◌=ᵇ◌
  written_for e =
      let k = codes "X-Forwarded-For" in
      set-other k (codes "X-Forwarded-Proto") scheme_of with_host refl
      ∙ set-other k (codes "X-Forwarded-Host") r.host with_for refl
      ∙ forwarded_for-alone r.client_ip h e

  written_host : lookup (codes "X-Forwarded-Host") (set_x_forwarded r h) ≡ some (r.host ∷ [])
  unfolding set_x_forwarded canonical ◌=ᵇ◌
  written_host =
      let k = codes "X-Forwarded-Host" in
      set-other k (codes "X-Forwarded-Proto") scheme_of with_host refl
      ∙ set-same k k r.host with_for refl

  written_proto :
      lookup (codes "X-Forwarded-Proto") (set_x_forwarded r h) ≡ some (proto_of r.tls ∷ [])
  unfolding set_x_forwarded canonical ◌=ᵇ◌
  written_proto =
      let k = codes "X-Forwarded-Proto" in
      set-same k k scheme_of with_host refl ∙ ap (λ x. some (x ∷ [])) (proto-is r.tls)

  written_forwarded :
      lookup (codes "Forwarded") h ≡ none → lookup (codes "Forwarded") (set_x_forwarded r h) ≡ none
  unfolding set_x_forwarded canonical ◌=ᵇ◌
  written_forwarded e =
      let k = codes "Forwarded" in
      set-other k (codes "X-Forwarded-Proto") scheme_of with_host refl
      ∙ set-other k (codes "X-Forwarded-Host") r.host with_for refl
      ∙ forwarded_for-other k r.client_ip h refl
      ∙ e

-- What the strip and the nine pairs leave alone.
rewrite-plain :
    (cfg : Settings) (r : Request) (target : Url) (u : User) (k : Bytes)
    → has_prefix k forge_header_prefix ≡ false
    → (cookie =ᵇ k) ≡ false
    → (announced =ᵇ k) ≡ false
    → ((other : Option (List Bytes)) → given k (pairs cfg.proxy_secret u) other ≡ other)
    → lookup k (rewrite cfg r target u).out.header
      ≡ lookup k (set_x_forwarded r (outgoing_header r.header))
unfolding rewrite inject_forge_headers
rewrite-plain cfg r target u k plain c a free =
    let out : Outbound = record {
      header = set_x_forwarded r (outgoing_header r.header);
      trailer = r.trailer;
    } in
    lookup-set_pairs (pairs cfg.proxy_secret u) (strip_forge_headers out).header k
    ∙ free (lookup k (strip_forge_headers out).header)
    ∙ (strip_forge_headers-other out k plain (λ e. ground (arith, =ᵇ_iff cookie k))
        (λ e. ground (arith, =ᵇ_iff announced k))).0

-- The upstream finds the address, the host and the scheme of the client's own connection, whatever
-- forwarding headers the client sent.
pub rewrite-IsFresh :
    (cfg : Settings) (r : Request) (target : Url) (u : User) → IsFresh r (rewrite cfg r target u)
unfolding canonical ◌=ᵇ◌ has_prefix given pairs
rewrite-IsFresh cfg r target u =
    let h = outgoing_header r.header in
    record {
      own_for =
          rewrite-plain cfg r target u (codes "X-Forwarded-For") refl refl refl (λ o. refl)
          ∙ written_for r h (outgoing-for r.header);
      own_host =
          rewrite-plain cfg r target u (codes "X-Forwarded-Host") refl refl refl (λ o. refl)
          ∙ written_host r h;
      own_proto =
          rewrite-plain cfg r target u (codes "X-Forwarded-Proto") refl refl refl (λ o. refl)
          ∙ written_proto r h;
      no_forwarded =
          rewrite-plain cfg r target u (codes "Forwarded") refl refl refl (λ o. refl)
          ∙ written_forwarded r h (outgoing-forwarded r.header);
    }
