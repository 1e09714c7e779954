-- ===== src/Proxy/Serve/Guarded.antt =====
-- What stands between a request and an upstream.
use forge_proxy.Base.{
  Bytes, true, [], ◌∷◌, ◌≡◌, ◌⊎◌, inl, inr, refl, Option, none, some, Bool-cases, if◌then◌else◌,
}
use forge_proxy.Config.Upstream.{Upstream, permits}
use forge_proxy.Session.{Session, Error, Result, ok, err}
use forge_proxy.Session.Cookie.{read, clear}
use forge_proxy.User.{User, Lookup, found, missing, failed}
use forge_proxy.Proxy.Host.{resolve}
use forge_proxy.Proxy.Serve.{
  SessionStore, UserStore, Settings, Request, Outcome, Forwarded, unknown_host, to_login,
  internal_error, role_denied, forwarded, rewrite, after_user, after_session, after_cookie,
  after_host, serve_http, denied_page, login_url,
}
use forge_proxy.Proxy.Serve.Forwarding.{IsFresh, rewrite-IsFresh}

module _ {T : Type 0} (sessions : SessionStore T) (users : UserStore) (cfg : Settings)
    (r : Request) where
  -- The request was forwarded for a signed-in user whom the upstream permits, and the session was
  -- touched.
  pub record IsAdmitted (t : T) (fw : Forwarded) (t' : T) : Type 0 where
    pub entry : Upstream
    pub session_id : Bytes
    pub session : Session
    pub user : User
    pub resolved : resolve cfg.host_map r.host ≡ some entry
    pub presented : read r.header ≡ some session_id
    pub valid : sessions.get session_id t ≡ ok session
    pub known : users session.user_id ≡ found user
    pub permitted : permits entry user.roles ≡ true
    pub request : fw ≡ rewrite cfg r entry.target user
    pub fresh : IsFresh r fw
    pub touched : t' ≡ (sessions.touch session_id t).1

  -- What a request comes to: forwarded, or answered with no change of the session store.
  abbrev pub IsGuarded : T → Outcome × T → Type 0
  IsGuarded t (forwarded fw, t') = IsAdmitted t fw t'
  IsGuarded t (unknown_host page, t') = t' ≡ t
  IsGuarded t (to_login cookies url, t') = t' ≡ t
  IsGuarded t (internal_error, t') = t' ≡ t
  IsGuarded t (role_denied page, t') = t' ≡ t

  after_user-IsGuarded :
      (entry : Upstream) (id : Bytes) (s : Session) (look : Lookup) (t : T)
      → resolve cfg.host_map r.host ≡ some entry
      → read r.header ≡ some id
      → sessions.get id t ≡ ok s
      → users s.user_id ≡ look
      → IsGuarded t (after_user sessions users cfg r entry id look t)
  unfolding after_user
  after_user-IsGuarded entry id s missing t e c g k = refl
  after_user-IsGuarded entry id s failed t e c g k = refl
  after_user-IsGuarded entry id s (found u) t e c g k = elim (Bool-cases (permits entry u.roles)) [
    | inr denied ↦ rw denied refl
    | inl may ↦ rw may (record {
      entry = entry;
      session_id = id;
      session = s;
      user = u;
      resolved = e;
      presented = c;
      valid = g;
      known = k;
      permitted = may;
      request = refl;
      fresh = rewrite-IsFresh cfg r entry.target u;
      touched = refl;
    })
  ]

  after_session-IsGuarded :
      (entry : Upstream) (id : Bytes) (got : Result Session) (t : T)
      → resolve cfg.host_map r.host ≡ some entry
      → read r.header ≡ some id
      → sessions.get id t ≡ got
      → IsGuarded t (after_session sessions users cfg r entry id got t)
  unfolding after_session
  after_session-IsGuarded entry id (err x) t e c g = refl
  after_session-IsGuarded entry id (ok s) t e c g =
      after_user-IsGuarded entry id s (users s.user_id) t e c g refl

  after_cookie-IsGuarded :
      (entry : Upstream) (cookie : Option Bytes) (t : T)
      → resolve cfg.host_map r.host ≡ some entry
      → read r.header ≡ cookie
      → IsGuarded t (after_cookie sessions users cfg r entry cookie t)
  unfolding after_cookie
  after_cookie-IsGuarded entry none t e c = refl
  after_cookie-IsGuarded entry (some id) t e c =
      after_session-IsGuarded entry id (sessions.get id t) t e c refl

  after_host-IsGuarded :
      (entry : Option Upstream) (t : T)
      → resolve cfg.host_map r.host ≡ entry
      → IsGuarded t (after_host sessions users cfg r entry t)
  unfolding after_host
  after_host-IsGuarded none t e = refl
  after_host-IsGuarded (some entry) t e = after_cookie-IsGuarded entry (read r.header) t e refl

-- A request is forwarded only when its host has an upstream, its cookie is the id of a session
-- that the store returns, the user of that session exists, and the upstream permits that user; the
-- request that goes out is the rewritten one for that user, and its forwarding headers give the host,
-- the scheme and, where it is known, the address of the client's own connection, and nothing that the
-- client sent under those names. Only then is the session touched: every other answer leaves the
-- session store as it was.
pub serve_http-IsGuarded :
    {T : Type 0} (sessions : SessionStore T) (users : UserStore) (cfg : Settings) (r : Request)
    (t : T)
    → IsGuarded sessions users cfg r t (serve_http sessions users cfg r t)
unfolding serve_http
serve_http-IsGuarded sessions users cfg r t =
    after_host-IsGuarded sessions users cfg r (resolve cfg.host_map r.host) t refl

-- A request with a session of a known user is forwarded exactly when the upstream permits that
-- user, and otherwise is refused before the session is touched.
pub serve_http_gate :
    {T : Type 0} (sessions : SessionStore T) (users : UserStore) (cfg : Settings) (r : Request)
    (t : T) (entry : Upstream) (id : Bytes) (s : Session) (u : User)
    → resolve cfg.host_map r.host ≡ some entry
    → read r.header ≡ some id
    → sessions.get id t ≡ ok s
    → users s.user_id ≡ found u
    → serve_http sessions users cfg r t ≡ (
        if permits entry u.roles
        then (forwarded (rewrite cfg r entry.target u), (sessions.touch id t).1)
        else (role_denied (denied_page r.host u entry.required_roles), t))
unfolding serve_http after_host after_cookie after_session after_user
serve_http_gate sessions users cfg r t entry id s u e c g k = rw e (
    rw c (
      rw g (
        rw k (elim (Bool-cases (permits entry u.roles)) [
          | inl may ↦ rw may
          | inr not_may ↦ rw not_may
        ]))))

-- A request for a known host without a session that the store returns goes to the login page, and
-- its cookie stays.
pub serve_http_login :
    {T : Type 0} (sessions : SessionStore T) (users : UserStore) (cfg : Settings) (r : Request)
    (t : T) (entry : Upstream)
    → resolve cfg.host_map r.host ≡ some entry
    → (read r.header ≡ none)
      ⊎ ((id : Bytes) × (e : Error) × (read r.header ≡ some id) × (sessions.get id t ≡ err e))
    → serve_http sessions users cfg r t ≡ (to_login [] (login_url cfg r), t)
unfolding serve_http after_host after_cookie after_session
serve_http_login sessions users cfg r t entry e (inl c) = rw e (rw c)
serve_http_login sessions users cfg r t entry e (inr (id, x, c, g)) = rw e (rw c (rw g))

-- A session whose user is gone goes there too, and its cookie is deleted.
pub serve_http_orphan :
    {T : Type 0} (sessions : SessionStore T) (users : UserStore) (cfg : Settings) (r : Request)
    (t : T) (entry : Upstream) (id : Bytes) (s : Session)
    → resolve cfg.host_map r.host ≡ some entry
    → read r.header ≡ some id
    → sessions.get id t ≡ ok s
    → users s.user_id ≡ missing
    → serve_http sessions users cfg r t
      ≡ (to_login (clear cfg.cookie_domain ∷ []) (login_url cfg r), t)
unfolding serve_http after_host after_cookie after_session after_user
serve_http_orphan sessions users cfg r t entry id s e c g k = rw e (rw c (rw g (rw k)))
