-- ===== src/Enrollment/Pages/Tests.antt =====
-- internal/sshenroll/handlers.go on concrete stores.
use forge_proxy.Base.{
  ℕ, zero, suc, false, Bytes, codes, List, [], ◌∷◌, ◌++◌, ◌≡◌, ◌≢◌, ◌⊎◌, refl, some, arith,
  if◌then◌else◌, ◌=ᵇ◌, All,
}
use forge_proxy.Net.Header.{Header}
use forge_proxy.Net.Html.{escape_string, IsInert}
use forge_proxy.Net.Query.{path_escape, query_unescape, IsVisible}
use forge_proxy.Session
use forge_proxy.Session.{Session}
use forge_proxy.Session.Cookie.{read}
use forge_proxy.User.{User, Lookup, found, missing}
use forge_proxy.SshKey.{Table, add, get, find}
use forge_proxy.SshKey.Owned.{IsOwned}
use forge_proxy.Enrollment.{Enrollment, Store, mint, peek, consume}
use forge_proxy.Enrollment.Pages.{
  State, shows, redirects, success_page, start_page, complete_url, label_of, short_user_agent,
  write_invalid_link, write_key_taken, handle_start, handle_complete,
}
use forge_proxy.Enrollment.Pages.Comes.{key_store, IsRedeemed, status}
use forge_proxy.Enrollment.Pages.Bound.{handle_complete-success, handle_complete_owners}
use forge_proxy.Enrollment.Pages.Single.{
  IsSignedIn, quiet, handle_complete_twice, handle_complete-binds,
}
use forge_proxy.Enrollment.Pages.Spent.{Event, opens, mints, rekeys, advance_all}
use forge_proxy.Enrollment.Pages.Start.{handle_start-good}

enrolling : Unit {0}
unfolding handle_start handle_complete key_store mint peek consume read add get find complete_url
    short_user_agent escape_string query_unescape
enrolling = tt

abbrev browser : Header
browser =
    (codes "Cookie", codes "forge_session=s1" ∷ [])
    ∷ (codes "User-Agent", codes " curl/8 " ∷ [])
    ∷ []

abbrev session : Session
session = record {
  id = codes "s1";
  user_id = 7;
  created_at = 0;
  last_seen_at = 0;
  expires_at = 1000;
  user_agent = [];
  ip = [];
}

abbrev ann : User
ann = record {
  id = 7;
  slack_user_id = codes "U7";
  slack_team_id = codes "T1";
  email = codes "ann@x.io";
  name = codes "Ann";
  avatar_url = [];
  roles = [];
  created_at = 0;
  last_login_at = 0;
}

abbrev sessions : Bytes → Session.Result Session
sessions id =
    if id =ᵇ codes "s1"
    then Session.Result.ok session
    else Session.Result.err Session.Error.not_found

abbrev users : ℕ → Lookup
users zero = missing
users (suc n) = found ann

abbrev host : Bytes
host = codes "auth.x.io"

abbrev tokens : Store
tokens = (mint (some (codes "t1")) 100 (codes "f1") (codes "ssh-rsa") (1 ∷ []) []).1

abbrev start : State Table
start = record { tokens = tokens; keys = [] }

abbrev e1 : Enrollment
e1 = record {
  fingerprint = codes "f1";
  key_type = codes "ssh-rsa";
  public_key = 1 ∷ [];
  expires_at = 600_000_000_100;
}

ann-IsSignedIn : IsSignedIn sessions users browser ann
unfolding enrolling
ann-IsSignedIn = record {
  cookie = codes "s1";
  session = session;
  has_cookie = refl;
  has_session = refl;
  has_user = refl;
}

handle_complete-binds_concrete :
    let r =
      handle_complete
        (key_store (quiet 1 200))
        sessions
        users
        host
        browser
        (codes "t1")
        200
        start in
    (r.0 ≡ shows 200 (success_page (escape_string (codes "f1")))) × IsOwned (codes "f1") 7 r.1.keys
unfolding enrolling
handle_complete-binds_concrete =
    handle_complete-binds sessions users host 1 200 browser (codes "t1") start ann e1 ann-IsSignedIn
      refl refl

handle_complete-success_example :
    (user_id : ℕ) × (e : Enrollment) × IsRedeemed sessions users browser
      (codes "t1")
      200
      tokens
      user_id
      e
    × ((handle_complete
          (key_store (quiet 1 200))
          sessions
          users
          host
          browser
          (codes "t1")
          200
          start).0
        ≡ shows 200 (success_page (escape_string e.fingerprint)))
    × IsOwned e.fingerprint user_id
        (handle_complete
          (key_store (quiet 1 200))
          sessions
          users
          host
          browser
          (codes "t1")
          200
          start).1.keys
unfolding enrolling
handle_complete-success_example =
    handle_complete-success sessions users host (quiet 1 200) browser (codes "t1") start refl

handle_complete_owners_example :
    (IsOwned (codes "f1") 7 []
      → IsOwned
          (codes "f1")
          7
          (handle_complete
            (key_store (quiet 1 200))
            sessions
            users
            host
            browser
            (codes "t1")
            200
            start).1.keys)
    × (IsOwned
          (codes "f1")
          7
          (handle_complete
            (key_store (quiet 1 200))
            sessions
            users
            host
            browser
            (codes "t1")
            200
            start).1.keys
        → IsOwned (codes "f1") 7 []
          ⊎ ((e : Enrollment) × IsRedeemed sessions users browser (codes "t1") 200 tokens 7 e
              × (codes "f1" ≡ e.fingerprint)))
handle_complete_owners_example =
    handle_complete_owners sessions users host (quiet 1 200) browser (codes "t1") start (codes "f1")
      7

-- A mint, another browser with the same token, and a table without keys.
abbrev between : List Event
between =
    mints (some (codes "t2")) 210 (codes "f2") [] []
    ∷ opens (quiet 3 220) sessions users host browser (codes "t1")
    ∷ rekeys []
    ∷ []

handle_complete_twice_example :
    let first =
      handle_complete
        (key_store (quiet 1 200))
        sessions
        users
        host
        browser
        (codes "t1")
        200
        start in
    let later = advance_all between first.1 in
    let again =
      handle_complete
        (key_store (quiet 2 300))
        sessions
        users
        host
        browser
        (codes "t1")
        300
        later in
    (again.1.keys ≡ later.keys) × (status again.0 ≢ 200)
handle_complete_twice_example =
    handle_complete_twice sessions sessions users users host (quiet 1 200) (quiet 2 300) browser
      browser (codes "t1") start ann between ann-IsSignedIn ((λ e. ground arith), tt)

handle_start-good_example :
    (link : Bytes) × (handle_start host (codes "t1") 150 tokens
      ≡ shows 200 (
          start_page
            (escape_string (codes "f1"))
            (escape_string (codes "/auth/login?return_to=" ++ link))))
    × All IsInert (escape_string (codes "f1"))
    × All IsInert (escape_string (codes "/auth/login?return_to=" ++ link))
    × (query_unescape link
        ≡ codes "https://"
          ++ host
          ++ codes "/ssh/enroll/"
          ++ path_escape (codes "t1")
          ++ codes "/complete")
    × All IsVisible (query_unescape link)
unfolding enrolling
handle_start-good_example =
    handle_start-good host (codes "t1") 150 tokens e1 (omega arith) (omega arith) refl

abbrev taken : State Table
taken = record {
  tokens = tokens;
  keys = (add (quiet 1 1).tx false 1 1 9 (codes "f1") [] [] [] []).1;
}

pages_tests :
    (complete_url host (codes "a b/c") ≡ codes "https://auth.x.io/ssh/enroll/a%20b%2Fc/complete")
    × (label_of browser ≡ codes "enrolled from curl/8")
    × (label_of [] ≡ codes "enrolled from unknown")
    × (handle_start host (codes "t2") 150 tokens ≡ write_invalid_link)
    × ((handle_complete
          (key_store (quiet 1 200))
          sessions
          users
          host
          browser
          (codes "t1")
          200
          taken).0
        ≡ write_key_taken)
    × ((handle_complete (key_store (quiet 1 200)) sessions users host [] (codes "t1") 200 start).0
        ≡ redirects
            (codes "/auth/login?return_to=https%3A%2F%2Fauth.x.io%2Fssh%2Fenroll%2Ft1%2Fcomplete"))
unfolding enrolling
pages_tests = (refl, refl, refl, refl, refl, refl)
