-- ===== src/Proxy/Serve/Stores.antt =====
-- The proxy over the session store of internal/session.
use forge_proxy.Base.{
  ℕ, ◌+◌, ◌≤◌, ◌<◌, Bytes, Bool, true, false, List, [], ◌≡◌, subst, arith, Option, none, some,
}
use forge_proxy.Base.Dict.{lookup}
use forge_proxy.Clock.{second}
use forge_proxy.Session.{Table, Session, Options, Error, ok, TouchFaults, get, touch}
use forge_proxy.Session.Capped.{Op, run, get-run_capped}
use forge_proxy.Net.Url.{Url}
use forge_proxy.User.{User, found}
use forge_proxy.Proxy.Outgoing.{outgoing_header}
use forge_proxy.Proxy.Headers.{pairs}
use forge_proxy.Proxy.Headers.Stripped.{IsTrusted}
use forge_proxy.Proxy.Headers.Contract.{given, forwarded-IsTrusted}
use forge_proxy.Proxy.Serve.{
  SessionStore, UserStore, Settings, Request, Forwarded, forwarded, rewrite, set_x_forwarded,
  serve_http,
}
use forge_proxy.Proxy.Serve.Guarded.{IsAdmitted, IsGuarded, serve_http-IsGuarded}

failed_touch : Option Error → Bool
failed_touch none = false
failed_touch (some e) = true

-- The store at the time of a request, with the failures that it meets and the table that the first
-- check of a touch sees.
unfoldable pub session_store : Options → ℕ → TouchFaults → Table → SessionStore Table
unfolding get touch failed_touch
session_store opts now f seen = record {
  get = λ id t. get now false id t;
  touch = λ id t. (failed_touch (touch opts now f id seen t).0, (touch opts now f id seen t).1);
}

rewrite-IsTrusted :
    (cfg : Settings) (r : Request) (target : Url) (u : User) (k : Bytes)
    → IsTrusted k
    → lookup k (rewrite cfg r target u).out.header ≡ given k (pairs cfg.proxy_secret u) none
unfolding rewrite
rewrite-IsTrusted cfg r target u k trusted =
    forwarded-IsTrusted
      (record { header = set_x_forwarded r (outgoing_header r.header); trailer = r.trailer })
      cfg.proxy_secret u k trusted

-- Where the idle timeout does not exceed the lifetime, after any history of the session store, a
-- request that is forwarded belongs to a session that is alive and younger than its lifetime and
-- one second, and to the user of that session: under each canonical name that begins with
-- "X-Forge-" it has the value that the nine pairs for that user give, or none.
pub forwarded-identity :
    (opts : Options) (ops : List Op) (now : ℕ) (f : TouchFaults) (seen t' : Table)
    (users : UserStore) (cfg : Settings) (r : Request) (fw : Forwarded) (k : Bytes)
    → opts.idle_timeout ≤ opts.lifetime
    → serve_http (session_store opts now f seen) users cfg r (run opts ops []) ≡ (forwarded fw, t')
    → IsTrusted k
    → (id : Bytes) × (s : Session) × (u : User) × (get now false id (run opts ops []) ≡ ok s)
      × (users s.user_id ≡ found u)
      × (now < s.created_at + opts.lifetime + second)
      × (lookup k fw.out.header ≡ given k (pairs cfg.proxy_secret u) none)
unfolding session_store
forwarded-identity opts ops now f seen t' users cfg r fw k fits h trusted =
    let store = session_store opts now f seen in
    let table = run opts ops [] in
    let a : IsAdmitted store users cfg r table fw t' =
      subst (IsGuarded store users cfg r table) h (serve_http-IsGuarded store users cfg r table) in
    let (live, young) = get-run_capped opts ops now a.session_id a.session fits a.valid in
    (
      a.session_id,
      a.session,
      a.user,
      a.valid,
      a.known,
      omega arith,
      rw (a.request) (rewrite-IsTrusted cfg r a.entry.target a.user k trusted),
    )
