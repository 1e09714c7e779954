-- ===== src/Proxy/Serve.antt =====
-- internal/proxy/proxy.go: one request, from the session cookie to the forwarded request. The
-- stores are an interface, as in the source; what `httputil` does to join the paths is left out.
pub mod Guarded
pub mod Answers
pub mod Stores
pub mod Forwarding
use forge_proxy.Base.{
  ℕ, Bytes, codes, is_empty, Bool, true, false, not, List, [], ◌∷◌, ◌++◌, map, Option, none, some,
  if◌then◌else◌,
}
use forge_proxy.Base.Dict
use forge_proxy.Strings.{join}
use forge_proxy.Net.Url.{Url}
use forge_proxy.Net.Header.{Header, del, set}
use forge_proxy.Net.Cookie.{SetCookie}
use forge_proxy.Net.Query.{query_escape}
use forge_proxy.Net.Html.{escape_string}
use forge_proxy.Config.Upstream.{Upstream, permits}
use forge_proxy.Session.{Session, Result, ok, err}
use forge_proxy.Session.Cookie.{read, clear}
use forge_proxy.User.{User, Lookup, found, missing, failed}
use forge_proxy.Proxy.Host.{HostMap, resolve, normalize_host, hosts}
use forge_proxy.Proxy.Outgoing.{outgoing_header}
use forge_proxy.Proxy.Headers.{Outbound, strip_forge_headers, inject_forge_headers}

-- `SessionStore`, over the state of the store: a touch returns whether it failed.
pub record SessionStore (T : Type 0) : Type 0 where
  pub get : Bytes → T → Result Session
  pub touch : Bytes → T → Bool × T

-- `UserStore`
abbrev pub UserStore : Type 0
UserStore = ℕ → Lookup

pub record Settings : Type 0 where
  pub host_map : HostMap
  pub cookie_domain : Bytes
  pub auth_host : Bytes
  pub proxy_secret : Bytes

pub record Request : Type 0 where
  pub host : Bytes
  pub request_uri : Bytes
  pub header : Header
  pub trailer : Header
  -- The host of the remote address, if that has one.
  pub client_ip : Option Bytes
  pub tls : Bool

-- The parts of the 404 page that vary.
pub record UnknownPage : Type 0 where
  pub asked : Bytes
  pub apps : List Bytes

-- The parts of the 403 page that vary, and its caching.
pub record DeniedPage : Type 0 where
  pub no_store : Bool
  pub asked : Bytes
  pub required : List Bytes
  pub email : Bytes
  pub held : Bytes

pub record Forwarded : Type 0 where
  pub target : Url
  pub host : Bytes
  pub out : Outbound

pub data Outcome : Type 0 where
  unknown_host : UnknownPage → Outcome
  to_login : List SetCookie → Bytes → Outcome
  internal_error : Outcome
  role_denied : DeniedPage → Outcome
  forwarded : Forwarded → Outcome

-- `writeUnknownHost`
unfoldable pub unknown_page : HostMap → Bytes → UnknownPage
unfolding escape_string hosts
unknown_page m host = record { asked = escape_string host; apps = map escape_string (hosts m) }

held_roles : List Bytes → Bytes
unfolding join
held_roles [] = codes "none"
held_roles (r ∷ rs) = join (r ∷ rs) (codes ", ")

-- `writeRoleDenied`
unfoldable pub denied_page : Bytes → User → List Bytes → DeniedPage
unfolding escape_string held_roles normalize_host
denied_page host u required = record {
  no_store = true;
  asked = escape_string (normalize_host host);
  required = map escape_string required;
  email = escape_string u.email;
  held = escape_string (held_roles u.roles);
}

-- `redirectToLogin`
unfoldable pub inbound : Request → Bytes
inbound r = codes "https://" ++ r.host ++ r.request_uri

unfoldable pub login_url_prefix : Settings → Bytes
login_url_prefix cfg = codes "https://" ++ cfg.auth_host ++ codes "/?return_to="

unfoldable pub login_url : Settings → Request → Bytes
unfolding query_escape inbound login_url_prefix
login_url cfg r = login_url_prefix cfg ++ query_escape (inbound r)

unfoldable pub prior_for : Option (List Bytes) → Bytes → Bytes
unfolding join
prior_for none ip = ip
prior_for (some []) ip = ip
prior_for (some (v ∷ vs)) ip = join (v ∷ vs) (codes ", ") ++ codes ", " ++ ip

unfoldable pub forwarded_for : Option Bytes → Header → Header
unfolding prior_for set del Dict.lookup
forwarded_for none h = del h (codes "X-Forwarded-For")
forwarded_for (some ip) h =
    set h (codes "X-Forwarded-For") (prior_for (Dict.lookup (codes "X-Forwarded-For") h) ip)

-- `ProxyRequest.SetXForwarded`
unfoldable pub set_x_forwarded : Request → Header → Header
unfolding forwarded_for set
set_x_forwarded r h =
    set (set (forwarded_for r.client_ip h) (codes "X-Forwarded-Host") r.host)
      (codes "X-Forwarded-Proto") (if r.tls then codes "https" else codes "http")

-- `rewrite`, on the request that `httputil.ReverseProxy` prepared.
unfoldable pub rewrite : Settings → Request → Url → User → Forwarded
unfolding outgoing_header set_x_forwarded strip_forge_headers inject_forge_headers
rewrite cfg r target u = record {
  target = target;
  host = target.host;
  out =
      inject_forge_headers
        (strip_forge_headers
          (record { header = set_x_forwarded r (outgoing_header r.header); trailer = r.trailer }))
        cfg.proxy_secret u;
}

module _ {T : Type 0} (sessions : SessionStore T) (users : UserStore) (cfg : Settings)
    (r : Request) where
  -- The last steps: the role gate, the touch whose failure is not fatal, and the forward.
  after_user : Upstream → Bytes → Lookup → T → Outcome × T
  unfolding permits denied_page login_url clear rewrite
  after_user entry id missing t = (to_login (clear cfg.cookie_domain ∷ []) (login_url cfg r), t)
  after_user entry id failed t = (internal_error, t)
  after_user entry id (found u) t =
      if not (permits entry u.roles)
      then (role_denied (denied_page r.host u entry.required_roles), t)
      else (forwarded (rewrite cfg r entry.target u), (sessions.touch id t).1)

  after_session : Upstream → Bytes → Result Session → T → Outcome × T
  unfolding after_user login_url
  after_session entry id (err e) t = (to_login [] (login_url cfg r), t)
  after_session entry id (ok s) t = after_user entry id (users s.user_id) t

  after_cookie : Upstream → Option Bytes → T → Outcome × T
  unfolding after_session login_url
  after_cookie entry none t = (to_login [] (login_url cfg r), t)
  after_cookie entry (some id) t = after_session entry id (sessions.get id t) t

  after_host : Option Upstream → T → Outcome × T
  unfolding after_cookie unknown_page read
  after_host none t = (unknown_host (unknown_page cfg.host_map r.host), t)
  after_host (some entry) t = after_cookie entry (read r.header) t

  -- `ServeHTTP`
  unfoldable pub serve_http : T → Outcome × T
  unfolding after_host resolve
  serve_http t = after_host (resolve cfg.host_map r.host) t
