-- ===== src/Proxy/Headers.antt =====
-- internal/proxy/headers.go: the headers that the proxy takes off and puts on.
pub mod Naming
pub mod Entries
pub mod Stripped
pub mod Contract
use forge_proxy.Base.{
  ℕ, ◌+◌, ◌/◌, ◌%◌, Bytes, codes, is_empty, Bool, true, false, ◌&&◌, ◌||◌, List, [], ◌∷◌, ◌++◌,
  Option, none, some, leb, any, ◌==◌, ◌=ᵇ◌, if◌then◌else◌,
}
use forge_proxy.Base.Dict
use forge_proxy.Base.Dict.{Dict}
use forge_proxy.Strings.{is_upper, is_lower, is_digit, has_prefix, before, split, join, trim_space}
use forge_proxy.Net.Header.{Header, canonical, del, set}
use forge_proxy.Decimal.{format_int}
use forge_proxy.User.{User}
use forge_proxy.Session.Cookie.{cookie_name}

-- The parts of the outbound request that are changed.
pub record Outbound : Type 0 where
  pub header : Header
  pub trailer : Header

abbrev pub forge_header_prefix : Bytes
forge_header_prefix = codes "X-Forge-"

unfoldable pub is_forge : Bytes → Bool
unfolding has_prefix canonical
is_forge k = has_prefix (canonical k) forge_header_prefix

-- Layers 1 and 2b: the loop over the keys of a header map.
strip_keys : List Bytes → Header → Header
unfolding is_forge del
strip_keys [] h = h
strip_keys (k ∷ ks) h = strip_keys ks (if is_forge k then del h k else h)

-- The entries of one header value that are kept, trimmed.
kept : (Bytes → Bool) → List Bytes → List Bytes
unfolding trim_space
kept drops [] = []
kept drops (e ∷ es) =
    let rest = kept drops es in if drops (trim_space e) then rest else trim_space e ∷ rest

-- A value none of whose entries are kept goes as a whole.
rejoin : List Bytes → ℕ → List Bytes → List Bytes
unfolding join
rejoin [] sep rest = rest
rejoin (e ∷ es) sep rest = join (e ∷ es) (sep ∷ 32 ∷ []) ∷ rest

pub clean : (Bytes → Bool) → ℕ → List Bytes → List Bytes
unfolding kept rejoin split
clean drops sep [] = []
clean drops sep (v ∷ vs) = rejoin (kept drops (split v sep)) sep (clean drops sep vs)

store : Bytes → List Bytes → Header → Header
unfolding del Dict.insert
store k [] h = del h k
store k (v ∷ vs) h = Dict.insert k (v ∷ vs) h

-- Layers 2a and 4: the values of one header, cleaned where the header stands.
clean_found : Bytes → (Bytes → Bool) → ℕ → Header → Option (List Bytes) → Header
unfolding clean store
clean_found k drops sep h none = h
clean_found k drops sep h (some vs) = store k (clean drops sep vs) h

clean_header : Bytes → (Bytes → Bool) → ℕ → Header → Header
unfolding Dict.lookup clean_found
clean_header k drops sep h = clean_found k drops sep h (Dict.lookup k h)

-- A trailer announcement goes when it is empty or names a trusted header.
unfoldable pub drops_name : Bytes → Bool
unfolding is_forge
drops_name name = is_empty name || is_forge name

-- A cookie goes when it is the session cookie.
unfoldable pub drops_cookie : Bytes → Bool
unfolding before ◌=ᵇ◌
drops_cookie entry = before b'=' entry =ᵇ cookie_name

unfoldable pub strip_forge_headers : Outbound → Outbound
unfolding strip_keys clean_header drops_name drops_cookie
strip_forge_headers out = record {
  header = clean_header (codes "Cookie") drops_cookie b';' (
      clean_header (codes "Trailer") drops_name b','
        (strip_keys (Dict.keys out.header) out.header));
  trailer = strip_keys (Dict.keys out.trailer) out.trailer;
}

hex : ℕ → ℕ
hex d = if leb d 9 then b'0' + d else 55 + d

is_unreserved : ℕ → Bool
unfolding is_upper is_lower is_digit
is_unreserved c =
    is_upper c
    || is_lower c
    || is_digit c
    || (c == b'-')
    || (c == b'.')
    || (c == b'_')
    || (c == b'~')

percent_encode : Bytes → Bytes
unfolding is_unreserved hex
percent_encode [] = []
percent_encode (c ∷ s) =
    let rest = percent_encode s in
    if is_unreserved c then c ∷ rest else b'%' ∷ hex (c / 16) ∷ hex (c % 16) ∷ rest

unfoldable pub encode_display_name : Bytes → Bytes
unfolding percent_encode
encode_display_name name =
    if any (λ c. leb 128 c) name then codes "UTF-8''" ++ percent_encode name else name

-- The nine pairs, in the order in which they are set.
unfoldable pub pairs : Bytes → User → List (Bytes × Bytes)
unfolding encode_display_name format_int join
pairs secret u =
    (codes "X-Forge-Proxy-Secret", secret)
    ∷ (codes "X-Forge-Contract-Version", codes "1")
    ∷ (codes "X-Forge-User-Id", format_int u.id)
    ∷ (codes "X-Forge-Email", u.email)
    ∷ (codes "X-Forge-Name", encode_display_name u.name)
    ∷ (codes "X-Forge-Avatar", u.avatar_url)
    ∷ (codes "X-Forge-Roles", join u.roles (codes ","))
    ∷ (codes "X-Forge-Slack-User-Id", u.slack_user_id)
    ∷ (codes "X-Forge-Slack-Team-Id", u.slack_team_id)
    ∷ []

pub set_pairs : List (Bytes × Bytes) → Header → Header
unfolding del set
set_pairs [] h = h
set_pairs ((name, value) ∷ ps) h = set_pairs ps (set (del h name) name value)

unfoldable pub inject_forge_headers : Outbound → Bytes → User → Outbound
unfolding pairs set_pairs
inject_forge_headers out secret u = record out { header = set_pairs (pairs secret u) out.header }
