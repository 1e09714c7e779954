-- ===== src/Proxy/Serve/Answers.antt =====
-- internal/proxy/proxy.go: the answers that the proxy gives itself.
use forge_proxy.Base.{
  ◌<◌, Bytes, codes, true, List, [], ◌∷◌, ◌++◌, map, ◌≡◌, ◌⊎◌, inl, inr, refl, Option, none, some,
  All, Bool-cases,
}
use forge_proxy.Net.Query.{query_escape, query_unescape, query_unescape-query_escape}
use forge_proxy.Net.Html.{escape_string, IsInert, escape_string-IsInert}
use forge_proxy.Config.Upstream.{Upstream, permits}
use forge_proxy.Session.{Result, ok, err}
use forge_proxy.Session.Cookie.{read, clear}
use forge_proxy.User.{User, Lookup, found, missing, failed}
use forge_proxy.Proxy.Host.{resolve, hosts, normalize_host}
use forge_proxy.Proxy.Serve.{
  SessionStore, UserStore, Settings, Request, Outcome, UnknownPage, DeniedPage, unknown_host,
  to_login, internal_error, role_denied, forwarded, after_user, after_session, after_cookie,
  after_host, serve_http, rewrite, unknown_page, denied_page, login_url, held_roles,
  login_url_prefix, inbound,
}

-- The login page gets the requested URL, whole: its `return_to`, unescaped, is the host and the
-- request URI behind "https://", where these are bytes.
pub login_url-inbound :
    (cfg : Settings) (r : Request)
    → All (λ c. c < 256) (inbound r)
    → (wire : Bytes) × (login_url cfg r
        ≡ codes "https://" ++ cfg.auth_host ++ codes "/?return_to=" ++ wire)
      × (query_unescape wire ≡ codes "https://" ++ r.host ++ r.request_uri)
unfolding login_url login_url_prefix inbound
login_url-inbound cfg r h =
    (query_escape (inbound r), refl, query_unescape-query_escape (inbound r) h)

map-IsInert : (ss : List Bytes) → All (All IsInert) (map escape_string ss)
map-IsInert [] = tt
map-IsInert (s ∷ ss) = (escape_string-IsInert s, map-IsInert ss)

-- No text of the page can open or close a tag or a quoted attribute.
abbrev pub IsInertUnknown : UnknownPage → Type 0
IsInertUnknown p = All IsInert p.asked × All (All IsInert) p.apps

abbrev pub IsInertDenied : DeniedPage → Type 0
IsInertDenied p =
    All IsInert p.asked × All (All IsInert) p.required × All IsInert p.email × All IsInert p.held

denied_page-IsInert :
    (host : Bytes) (u : User) (required : List Bytes)
    → ((denied_page host u required).no_store ≡ true) × IsInertDenied (denied_page host u required)
unfolding denied_page
denied_page-IsInert host u required = (
  refl,
  (
    escape_string-IsInert (normalize_host host),
    map-IsInert required,
    escape_string-IsInert u.email,
    escape_string-IsInert (held_roles u.roles),
  ),
)

module _ {T : Type 0} (sessions : SessionStore T) (users : UserStore) (cfg : Settings)
    (r : Request) where
  abbrev pub IsAnswer : Outcome → Type 0
  IsAnswer (unknown_host page) = (resolve cfg.host_map r.host ≡ none) × IsInertUnknown page
  IsAnswer (to_login cookies url) =
      (url ≡ login_url cfg r) × ((cookies ≡ []) ⊎ (cookies ≡ clear cfg.cookie_domain ∷ []))
  IsAnswer internal_error = Unit
  IsAnswer (role_denied page) = (page.no_store ≡ true) × IsInertDenied page
  IsAnswer (forwarded fw) = fw.host ≡ fw.target.host

  after_user-IsAnswer :
      (entry : Upstream) (id : Bytes) (look : Lookup) (t : T)
      → IsAnswer (after_user sessions users cfg r entry id look t).0
  unfolding after_user
  after_user-IsAnswer entry id missing t = (refl, inr refl)
  after_user-IsAnswer entry id failed t = tt
  after_user-IsAnswer entry id (found u) t = elim (Bool-cases (permits entry u.roles)) [
    | inl may ↦ rw may (unfold rewrite in refl)
    | inr e ↦ rw e (denied_page-IsInert r.host u entry.required_roles)
  ]

  after_session-IsAnswer :
      (entry : Upstream) (id : Bytes) (got : Result _) (t : T)
      → IsAnswer (after_session sessions users cfg r entry id got t).0
  unfolding after_session
  after_session-IsAnswer entry id (err x) t = (refl, inl refl)
  after_session-IsAnswer entry id (ok s) t = after_user-IsAnswer entry id (users s.user_id) t

  after_cookie-IsAnswer :
      (entry : Upstream) (cookie : Option Bytes) (t : T)
      → IsAnswer (after_cookie sessions users cfg r entry cookie t).0
  unfolding after_cookie
  after_cookie-IsAnswer entry none t = (refl, inl refl)
  after_cookie-IsAnswer entry (some id) t = after_session-IsAnswer entry id (sessions.get id t) t

  after_host-IsAnswer :
      (entry : Option Upstream) (t : T)
      → resolve cfg.host_map r.host ≡ entry
      → IsAnswer (after_host sessions users cfg r entry t).0
  unfolding after_host
  after_host-IsAnswer none t e =
      (e, (unfold unknown_page in (escape_string-IsInert r.host, map-IsInert (hosts cfg.host_map))))
  after_host-IsAnswer (some entry) t e = after_cookie-IsAnswer entry (read r.header) t

-- The page for an unknown host is given only where no upstream is resolved, and neither it nor the
-- page for a missing role holds markup of the request, the user or the configuration; the latter
-- is never cached. A redirect goes to the login page, and sets no cookie or deletes the session's.
pub serve_http-IsAnswer :
    {T : Type 0} (sessions : SessionStore T) (users : UserStore) (cfg : Settings) (r : Request)
    (t : T)
    → IsAnswer sessions users cfg r (serve_http sessions users cfg r t).0
unfolding serve_http
serve_http-IsAnswer sessions users cfg r t =
    after_host-IsAnswer sessions users cfg r (resolve cfg.host_map r.host) t refl
