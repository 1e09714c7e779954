-- ===== src/Proxy/Outgoing.antt =====
-- What `httputil.ReverseProxy` takes off a request before internal/proxy/proxy.go's `rewrite` sees it:
-- the headers of one hop, and the client's forwarding headers. An upgrade stays announced.
use forge_proxy.Base.{
  Bytes, codes, is_empty, Bool, List, [], ◌∷◌, Option, none, some, any, ◌=ᵇ◌, if◌then◌else◌,
}
use forge_proxy.Base.Dict
use forge_proxy.Strings.{to_lower, trim_space, split}
use forge_proxy.Net.Header.{Header, del, get, set}

-- One of the values, cut at commas, has the token, whatever its case.
has_token : Bytes → List Bytes → Bool
unfolding to_lower trim_space split ◌=ᵇ◌
has_token token vs = any (λ v. any (λ e. to_lower (trim_space e) =ᵇ token) (split v b',')) vs

values_of : Option (List Bytes) → List Bytes
values_of none = []
values_of (some vs) = vs

del_all : List Bytes → Header → Header
unfolding del
del_all [] h = h
del_all (k ∷ ks) h = del_all ks (del h k)

-- The headers that one value of Connection names.
del_named : List Bytes → Header → Header
unfolding del trim_space
del_named [] h = h
del_named (e ∷ es) h = del_named es (if is_empty (trim_space e) then h else del h (trim_space e))

del_connected : List Bytes → Header → Header
unfolding del_named split
del_connected [] h = h
del_connected (v ∷ vs) h = del_connected vs (del_named (split v b',') h)

hop_headers : List Bytes
hop_headers =
    codes "Connection"
    ∷ codes "Proxy-Connection"
    ∷ codes "Keep-Alive"
    ∷ codes "Proxy-Authenticate"
    ∷ codes "Proxy-Authorization"
    ∷ codes "Te"
    ∷ codes "Trailer"
    ∷ codes "Transfer-Encoding"
    ∷ codes "Upgrade"
    ∷ []

without_hops : Header → Header
unfolding del_connected del_all hop_headers values_of Dict.lookup
without_hops h =
    del_all hop_headers (del_connected (values_of (Dict.lookup (codes "Connection") h)) h)

-- The protocol that the request asks to upgrade to, or the empty string.
upgrade_type : Header → Bytes
unfolding has_token values_of Dict.lookup get
upgrade_type h =
    if has_token (codes "upgrade") (values_of (Dict.lookup (codes "Connection") h))
    then get h (codes "Upgrade")
    else []

with_te : Bool → Header → Header
unfolding set
with_te trailers h = if trailers then set h (codes "Te") (codes "trailers") else h

with_upgrade : Bytes → Header → Header
unfolding set
with_upgrade protocol h =
    if is_empty protocol
    then h
    else set (set h (codes "Connection") (codes "Upgrade")) (codes "Upgrade") protocol

unfoldable pub between_hops : Header → Header
unfolding with_upgrade upgrade_type with_te has_token values_of Dict.lookup without_hops
between_hops h = with_upgrade (upgrade_type h) (
    with_te (has_token (codes "trailers") (values_of (Dict.lookup (codes "Te") h)))
      (without_hops h))

unfoldable pub without_forwarding : Header → Header
unfolding del
without_forwarding h =
    del (del (del (del h (codes "Forwarded")) (codes "X-Forwarded-For")) (codes "X-Forwarded-Host"))
      (codes "X-Forwarded-Proto")

-- The header of the request that goes out, as it is handed to `rewrite`.
unfoldable pub outgoing_header : Header → Header
unfolding between_hops without_forwarding
outgoing_header h = without_forwarding (between_hops h)
