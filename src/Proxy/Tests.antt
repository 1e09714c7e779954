-- ===== src/Proxy/Tests.antt =====
-- internal/proxy on concrete requests.
use forge_proxy.Base.{
  ℕ, ◌+◌, ◌<◌, ◌≤◌, Bytes, codes, true, false, List, [], ◌∷◌, ◌++◌, ◌≡◌, refl, none, some, arith,
  ◌==◌, if◌then◌else◌,
}
use forge_proxy.Base.Dict.{Dict, lookup}
use forge_proxy.Strings.{has_prefix, to_lower}
use forge_proxy.Clock.{second}
use forge_proxy.Net.Header.{Header, canonical}
use forge_proxy.Net.Query.{query_unescape}
use forge_proxy.Config.Upstream.{Upstream, permits}
use forge_proxy.Session.{Table, Session, Options, ok, get, touch}
use forge_proxy.Session.Written.{no_tx_faults, no_faults}
use forge_proxy.Session.Capped.{Op, creates, run}
use forge_proxy.Session.Cookie.{read, clear}
use forge_proxy.User.{User, found, missing}
use forge_proxy.Proxy.Host.{new_host_map, resolve, normalize_host}
use forge_proxy.Proxy.Headers.{
  Outbound, encode_display_name, pairs, strip_forge_headers, inject_forge_headers, drops_cookie,
}
use forge_proxy.Proxy.Headers.Naming.{percent_decode}
use forge_proxy.Proxy.Headers.Entries.{entries, without}
use forge_proxy.Proxy.Headers.Stripped.{
  IsTrusted, strip_forge_headers-absent, strip_forge_headers-entries, values, cookie, announced,
}
use forge_proxy.Proxy.Headers.Contract.{given, forwarded_contract}
use forge_proxy.Proxy.Serve.{
  SessionStore, UserStore, Settings, Request, forwarded, to_login, role_denied, rewrite, serve_http,
  login_url, denied_page, inbound, unknown_host, unknown_page,
}
use forge_proxy.Proxy.Serve.Guarded.{
  IsGuarded, serve_http-IsGuarded, serve_http_gate, serve_http_orphan,
}
use forge_proxy.Proxy.Serve.Answers.{login_url-inbound, IsAnswer, serve_http-IsAnswer}
use forge_proxy.Proxy.Serve.Stores.{session_store, forwarded-identity}

proxying : Unit {0}
unfolding serve_http session_store rewrite resolve new_host_map read run get touch permits login_url
    denied_page unknown_page clear has_prefix to_lower canonical normalize_host lookup entries
    without encode_display_name inbound pairs given percent_decode
proxying = tt

abbrev ann : User
ann = record {
  id = 7;
  slack_user_id = codes "U7";
  slack_team_id = codes "T1";
  email = codes "ann@x.io";
  name = 0xC3 ∷ 0xA9 ∷ codes "e";
  avatar_url = codes "https://x.io/a.png";
  roles = codes "dev" ∷ codes "ops" ∷ [];
  created_at = 1;
  last_login_at = 2;
}

abbrev users : UserStore
users id = if id == 7 then found ann else missing

abbrev wiki : Upstream
wiki = record {
  target = record {
    scheme = codes "http";
    has_user = false;
    host = codes "wiki:80";
    text = codes "http://wiki:80";
  };
  required_roles = codes "ops" ∷ [];
}

abbrev vault : Upstream
vault = record wiki { required_roles = codes "root" ∷ [] }

abbrev upstreams : Dict Upstream
upstreams = (codes "Wiki.x.io", wiki) ∷ (codes "vault.x.io", vault) ∷ []

abbrev settings : Settings
settings = record {
  host_map = new_host_map upstreams;
  cookie_domain = codes ".x.io";
  auth_host = codes "auth.x.io";
  proxy_secret = codes "s3cret";
}

abbrev day : ℕ
day = 86_400_000_000_000

abbrev options : Options
options = record { lifetime = day; idle_timeout = 3_600_000_000_000; cookie_domain = codes ".x.io" }

-- A session of ann, and one of an account that is gone.
abbrev history : List Op
history =
    creates (some (codes "id1")) day no_tx_faults false 7 (codes "curl") (codes "10.0.0.1")
    ∷ creates (some (codes "id2")) day no_tx_faults false 8 (codes "curl") (codes "10.0.0.2")
    ∷ []

abbrev table : Table
table = run options history []

abbrev now : ℕ
now = day + 120_000_000_000

abbrev store : SessionStore Table
store = session_store options now no_faults table

abbrev sent : Header
sent =
    (codes "Cookie", codes "a=1; forge_session=id1; b=2" ∷ [])
    ∷ (codes "X-Forge-Roles", codes "admin" ∷ [])
    ∷ (codes "Accept", codes "*/*" ∷ [])
    ∷ (codes "X-Forwarded-For", codes "6.6.6.6" ∷ [])
    ∷ (codes "Connection", codes "keep-alive, x-hop" ∷ [])
    ∷ (codes "X-Hop", codes "1" ∷ [])
    ∷ (codes "Trailer", codes "X-Forge-Email, Etag" ∷ [])
    ∷ []

abbrev asking : Bytes → Header → Request
asking host header = record {
  host = host;
  request_uri = codes "/p?q=1";
  header = header;
  trailer = (codes "X-Forge-Email", codes "root@x.io" ∷ []) ∷ [];
  client_ip = some (codes "10.0.0.1");
  tls = true;
}

abbrev request : Request
request = asking (codes "WIKI.x.io:443") sent

abbrev cookie_of : Bytes → Header
cookie_of id = (codes "Cookie", (codes "forge_session=" ++ id) ∷ []) ∷ []

abbrev outbound : Outbound
outbound = record { header = request.header; trailer = request.trailer }

abbrev alive : Session
alive = record {
  id = codes "id1";
  user_id = 7;
  created_at = day;
  last_seen_at = day;
  expires_at = day + 3_600_000_000_000;
  user_agent = codes "curl";
  ip = codes "10.0.0.1";
}

abbrev orphaned : Session
orphaned = record alive { id = codes "id2"; user_id = 8; ip = codes "10.0.0.2" }

serve_tests :
    ((serve_http store users settings request table).0
      ≡ forwarded (rewrite settings request wiki.target ann))
    × ((serve_http store users settings (asking (codes "vault.x.io") sent) table).0
        ≡ role_denied (denied_page (codes "vault.x.io") ann (codes "root" ∷ [])))
    × ((serve_http store users settings (asking (codes "no.x.io") sent) table).0
        ≡ unknown_host (unknown_page settings.host_map (codes "no.x.io")))
    × (lookup (codes "Cookie") (rewrite settings request wiki.target ann).out.header
        ≡ some (codes "a=1; b=2" ∷ []))
    × (lookup (codes "X-Forge-Name") (rewrite settings request wiki.target ann).out.header
        ≡ some (codes "UTF-8''%C3%A9e" ∷ []))
    × (lookup (codes "X-Forwarded-For") (rewrite settings request wiki.target ann).out.header
        ≡ some (codes "10.0.0.1" ∷ []))
    × (lookup (codes "X-Hop") (rewrite settings request wiki.target ann).out.header ≡ none)
    × (lookup (codes "Trailer") (rewrite settings request wiki.target ann).out.header ≡ none)
unfolding proxying
serve_tests = (refl, refl, refl, refl, refl, refl, refl, refl)

-- A space before "=" hides the session cookie from the strip, and not from the reader.
spaced_cookie :
    (read ((cookie, codes "forge_session =id1" ∷ []) ∷ []) ≡ some (codes "id1"))
    × (without drops_cookie (entries b';' (codes "forge_session =id1" ∷ []))
        ≡ codes "forge_session =id1" ∷ [])
unfolding proxying
spaced_cookie = (refl, refl)

serve_http-IsGuarded_example :
    IsGuarded store users settings request table (serve_http store users settings request table)
serve_http-IsGuarded_example = serve_http-IsGuarded store users settings request table

IsTrusted-roles : IsTrusted (codes "X-Forge-Roles")
unfolding proxying
IsTrusted-roles = record { is_canonical = refl; prefixed = refl }

fits : options.idle_timeout ≤ options.lifetime
fits = omega arith

served :
    serve_http store users settings request table
    ≡ (forwarded (rewrite settings request wiki.target ann), (store.touch (codes "id1") table).1)
unfolding proxying
served = refl

forwarded-identity_example :
    (id : Bytes) × (s : Session) × (u : User) × (get now false id table ≡ ok s)
    × (users s.user_id ≡ found u)
    × (now < s.created_at + options.lifetime + second)
    × (lookup (codes "X-Forge-Roles") (rewrite settings request wiki.target ann).out.header
        ≡ given (codes "X-Forge-Roles") (pairs settings.proxy_secret u) none)
forwarded-identity_example =
    forwarded-identity options history now no_faults table (store.touch (codes "id1") table).1 users
      settings request (rewrite settings request wiki.target ann) (codes "X-Forge-Roles") fits
      served IsTrusted-roles

strip_forge_headers-absent_example :
    (lookup (codes "X-Forge-Roles") (strip_forge_headers outbound).header ≡ none)
    × (lookup (codes "X-Forge-Roles") (strip_forge_headers outbound).trailer ≡ none)
strip_forge_headers-absent_example =
    strip_forge_headers-absent outbound (codes "X-Forge-Roles") IsTrusted-roles

strip_forge_headers-entries_example :
    (entries b';' (values (lookup cookie (strip_forge_headers outbound).header))
      ≡ codes "a=1" ∷ codes "b=2" ∷ [])
    × (entries b',' (values (lookup announced (strip_forge_headers outbound).header))
        ≡ codes "Etag" ∷ [])
unfolding proxying
strip_forge_headers-entries_example = strip_forge_headers-entries outbound

forwarded_contract_example :
    let on_wire = λ (k : Bytes).
      lookup k (inject_forge_headers (strip_forge_headers outbound) (codes "s3cret") ann).header in
    (on_wire (codes "X-Forge-Proxy-Secret") ≡ some (codes "s3cret" ∷ []))
    × (on_wire (codes "X-Forge-Contract-Version") ≡ some (codes "1" ∷ []))
    × (on_wire (codes "X-Forge-User-Id") ≡ some (codes "7" ∷ []))
    × (on_wire (codes "X-Forge-Email") ≡ some (codes "ann@x.io" ∷ []))
    × (on_wire (codes "X-Forge-Name") ≡ some (codes "UTF-8''%C3%A9e" ∷ []))
    × (on_wire (codes "X-Forge-Avatar") ≡ some (codes "https://x.io/a.png" ∷ []))
    × (on_wire (codes "X-Forge-Roles") ≡ some (codes "dev,ops" ∷ []))
    × (on_wire (codes "X-Forge-Slack-User-Id") ≡ some (codes "U7" ∷ []))
    × (on_wire (codes "X-Forge-Slack-Team-Id") ≡ some (codes "T1" ∷ []))
unfolding proxying
forwarded_contract_example = forwarded_contract outbound (codes "s3cret") ann

serve_http_gate_concrete :
    serve_http store users settings (asking (codes "vault.x.io") sent) table
    ≡ (role_denied (denied_page (codes "vault.x.io") ann (codes "root" ∷ [])), table)
unfolding proxying
serve_http_gate_concrete =
    serve_http_gate store users settings (asking (codes "vault.x.io") sent) table vault
      (codes "id1") alive ann refl refl refl refl

serve_http_orphan_concrete :
    serve_http store users settings (asking (codes "wiki.x.io") (cookie_of (codes "id2"))) table ≡ (
      to_login
          (clear (codes ".x.io") ∷ [])
          (login_url settings (asking (codes "wiki.x.io") (cookie_of (codes "id2")))),
      table,
    )
unfolding proxying
serve_http_orphan_concrete =
    serve_http_orphan store users settings (asking (codes "wiki.x.io") (cookie_of (codes "id2")))
      table wiki (codes "id2") orphaned refl refl refl refl

serve_http-IsAnswer_example :
    IsAnswer store users settings
      (asking (codes "<b>.x.io") [])
      (serve_http store users settings (asking (codes "<b>.x.io") []) table).0
serve_http-IsAnswer_example =
    serve_http-IsAnswer store users settings (asking (codes "<b>.x.io") []) table

login_url-inbound_example :
    (wire : Bytes) × (login_url settings request
      ≡ codes "https://" ++ settings.auth_host ++ codes "/?return_to=" ++ wire)
    × (query_unescape wire ≡ codes "https://" ++ request.host ++ request.request_uri)
unfolding proxying
login_url-inbound_example = login_url-inbound settings request (omega arith)
