-- ===== src/Auth/Tests.antt =====
-- internal/auth on concrete requests.
use forge_proxy.Base.{
  ℕ, suc, Bytes, codes, Bool, true, false, [], ◌∷◌, ◌≡◌, ◌≢◌, ◌⊎◌, refl, Option, none, some, All,
  ◌=ᵇ◌, if◌then◌else◌,
}
use forge_proxy.Strings.{has_prefix}
use forge_proxy.Net.Url.{Url}
use forge_proxy.Net.Header.{Header, get}
use forge_proxy.Session.Cookie.{read, clear}
use forge_proxy.Session.Cookie
use forge_proxy.User.{User}
use forge_proxy.User.Store
use forge_proxy.User.Store.{upsert_from_oidc}
use forge_proxy.Db.{TxFaults}
use forge_proxy.Session
use forge_proxy.Session.{Options, create}
use forge_proxy.Auth.ReturnTo.{validate}
use forge_proxy.Auth.ReturnTo.Allowed.{IsPrintable, IsAllowed, validate_sound}
use forge_proxy.Auth.Settings.{Redirect, Settings, resolve_return_to, error_url, not_in_workspace}
use forge_proxy.Auth.PreAuth.{PreAuthPayload, Codec, clear_pre_auth, read_pre_auth}
use forge_proxy.Auth.Login.{handle_login}
use forge_proxy.Auth.Callback.{Claims, Provider, Request, Stores, stored_claims, handle_callback}
use forge_proxy.Auth.Callback.Verified.{IsCallback, handle_callback-IsCallback}
use forge_proxy.Auth.Callback.Backed.{Moment, real_stores, IsBacked, handle_callback-IsBacked}
use forge_proxy.Auth.Account.{forbidden, signed_out_to, handle_logout, handle_logout_cases}

signing_in : Unit {0}
unfolding validate resolve_return_to error_url clear_pre_auth read_pre_auth handle_login
    handle_callback has_prefix get handle_logout read clear Cookie.set stored_claims real_stores
    upsert_from_oidc create
signing_in = tt

abbrev wiki_url : Url
wiki_url = record {
  scheme = codes "https";
  has_user = false;
  host = codes "Wiki.x.io:443";
  text = codes "https://Wiki.x.io:443/p";
}

-- A parser that knows one URL.
abbrev parse : Bytes → Option Url
parse raw = if raw =ᵇ wiki_url.text then some wiki_url else none

validate_sound_example :
    All IsPrintable wiki_url.text
    × (has_prefix wiki_url.text (codes "//") ≡ false)
    × ((u : Url) × (parse wiki_url.text ≡ some u)
        × IsAllowed u (codes ".x.io")
        × (wiki_url.text ≡ u.text))
unfolding signing_in
validate_sound_example = validate_sound parse wiki_url.text (codes ".x.io") wiki_url.text refl

abbrev settings : Settings
settings = record {
  auth_host = codes "auth.x.io";
  base_domain = codes ".x.io";
  default_landing_url = [];
  slack_team_id = codes "T1";
  cookie_domain = codes ".x.io";
}

abbrev pre_auth : PreAuthPayload
pre_auth = record { state = codes "s1"; nonce = codes "n1"; return_to = wiki_url.text }

abbrev codec : Codec
codec = record {
  encode = λ p. some p.state;
  decode = λ v. if v =ᵇ codes "s1" then some pre_auth else none;
}

abbrev claims : Claims
claims = record {
  subject = codes "U7";
  email = codes "ann@x.io";
  name = codes "Ann";
  picture = [];
  nonce = codes "n1";
  slack_team_id = codes "T1";
  slack_user_id = [];
}

abbrev provider_of : Claims → Provider
provider_of c = record {
  ready = true;
  exchange = λ code. if code =ᵇ codes "c1" then some (codes "jwt") else none;
  verify = λ raw. some (record { typed = some c; untyped = none });
}

abbrev request : Request
request = record {
  header =
      (codes "Cookie", codes "__Host-forge_pre_auth=s1" ∷ [])
      ∷ (codes "User-Agent", codes "curl" ∷ [])
      ∷ [];
  state = codes "s1";
  code = codes "c1";
  client_ip = codes "10.0.0.1";
}

abbrev ann : User
ann = record {
  id = 7;
  slack_user_id = codes "U7";
  slack_team_id = codes "T1";
  email = codes "ann@x.io";
  name = codes "Ann";
  avatar_url = [];
  roles = [];
  created_at = 1;
  last_login_at = 1;
}

-- Stores that count their calls.
abbrev stores : Stores ℕ ℕ
stores = record {
  upsert = λ c u. (some ann, suc u);
  create = λ user_id ua ip s. (some (record { id = codes "id1"; expires_at = 99 }), suc s);
}

callback_tests :
    (handle_callback parse stores settings request (provider_of claims) codec 0 0 ≡ (
      record {
        cookies = clear_pre_auth ∷ Cookie.set (codes "id1") 99 (codes ".x.io") ∷ [];
        location = wiki_url.text;
      },
      1,
      1,
    ))
    × (handle_callback parse stores settings request
          (provider_of (record claims { slack_team_id = codes "T2" }))
          codec
          0
          0
        ≡ (record { cookies = clear_pre_auth ∷ []; location = error_url not_in_workspace }, 0, 0))
    × (handle_callback parse stores settings
          (record request { state = codes "s2" })
          (provider_of claims)
          codec
          0
          0
        ≡ (record { cookies = clear_pre_auth ∷ []; location = codes "/?error=auth_failed" }, 0, 0))
unfolding signing_in
callback_tests = (refl, refl, refl)

handle_callback-IsCallback_example :
    IsCallback parse stores
      (provider_of claims)
      codec
      settings
      request
      0
      0
      (handle_callback parse stores settings request (provider_of claims) codec 0 0)
handle_callback-IsCallback_example =
    handle_callback-IsCallback parse stores (provider_of claims) codec settings request 0 0

abbrev origin_of : Bytes → Header
origin_of o = (codes "Origin", o ∷ []) ∷ (codes "Cookie", codes "forge_session=id1" ∷ []) ∷ []

abbrev count : Bytes → ℕ → Bool × ℕ
count id s = (false, suc s)

handle_logout_cases_concrete :
    ((get (origin_of (codes "https://auth.x.io")) (codes "Origin") ≢ codes "https://auth.x.io")
      × (handle_logout count settings (origin_of (codes "https://auth.x.io")) 0 ≡ (forbidden, 0)))
    ⊎ ((get (origin_of (codes "https://auth.x.io")) (codes "Origin") ≡ codes "https://auth.x.io")
        × ((handle_logout count settings (origin_of (codes "https://auth.x.io")) 0).0
            ≡ signed_out_to (clear (codes ".x.io") ∷ []) (codes "/"))
        × (((read (origin_of (codes "https://auth.x.io")) ≡ none)
              × ((handle_logout count settings (origin_of (codes "https://auth.x.io")) 0).1 ≡ 0))
            ⊎ ((id : Bytes) × (read (origin_of (codes "https://auth.x.io")) ≡ some id)
                × ((handle_logout count settings (origin_of (codes "https://auth.x.io")) 0).1
                    ≡ (count id 0).1))))
handle_logout_cases_concrete =
    handle_logout_cases count settings (origin_of (codes "https://auth.x.io")) 0

logout_tests :
    (handle_logout count settings (origin_of (codes "https://auth.x.io")) 0
      ≡ (signed_out_to (clear (codes ".x.io") ∷ []) (codes "/"), 1))
    × (handle_logout count settings (origin_of (codes "https://evil.io")) 0 ≡ (forbidden, 0))
unfolding signing_in
logout_tests = (refl, refl)

abbrev no_tx_faults : TxFaults
no_tx_faults = record { begin = false; commit = false }

abbrev moment : Moment
moment = record {
  now = 5_500_000_000;
  new_user = 1;
  session_id = some (codes "id1");
  upsert_faults = record { tx = no_tx_faults; select = false; insert = false; update = false };
  tx = no_tx_faults;
  insert = false;
}

abbrev options : Options
options = record {
  lifetime = 100_000_000_000;
  idle_timeout = 10_000_000_000;
  cookie_domain = codes ".x.io";
}

abbrev first_sign_in : Redirect × Store.Table × Session.Table
first_sign_in =
    handle_callback parse (real_stores options moment) settings request (provider_of claims) codec
      [] []

set-ne : first_sign_in.0.cookies ≢ clear_pre_auth ∷ []
unfolding signing_in
set-ne e = cc

handle_callback-IsBacked_example :
    IsBacked options moment parse
      (provider_of claims)
      codec
      settings
      request
      []
      first_sign_in.1
      []
      first_sign_in.2
      first_sign_in.0
      9_000_000_000
handle_callback-IsBacked_example =
    handle_callback-IsBacked options moment parse (provider_of claims) codec settings request []
      first_sign_in.1 [] first_sign_in.2 first_sign_in.0 9_000_000_000 refl set-ne
