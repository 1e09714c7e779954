-- ===== src/Auth/Callback.antt =====
-- internal/auth/handlers.go: `HandleCallback`, the end of the sign-in.
pub mod Verified
pub mod Backed
use forge_proxy.Base.{
  ℕ, Bytes, codes, is_empty, Bool, true, false, not, ◌||◌, List, [], ◌∷◌, Option, none, some, ◌=ᵇ◌,
  if◌then◌else◌,
}
use forge_proxy.Net.Url.{Url}
use forge_proxy.Net.Header.{Header, get}
use forge_proxy.Net.Cookie.{SetCookie}
use forge_proxy.Session.Cookie
use forge_proxy.User.{User, OidcClaims}
use forge_proxy.Auth.Settings.{
  Settings, Redirect, auth_failed, not_in_workspace, error_url, resolve_return_to,
}
use forge_proxy.Auth.PreAuth.{PreAuthPayload, Codec, read_pre_auth, clear_pre_auth}

-- The claims of an ID token.
pub record Claims : Type 0 where
  pub subject : Bytes
  pub email : Bytes
  pub name : Bytes
  pub picture : Bytes
  pub nonce : Bytes
  pub slack_team_id : Bytes
  pub slack_user_id : Bytes

-- A verified token: its claims by their fields, and as a map whose texts are found by their keys.
pub record IdToken : Type 0 where
  pub typed : Option Claims
  pub untyped : Option (Bytes → Option Bytes)

-- The OpenID provider and its client library: whether the verifier is ready, the exchange of a code
-- for the raw ID token (empty where the response has none), and the verification of that token.
pub record Provider : Type 0 where
  pub ready : Bool
  pub exchange : Bytes → Option Bytes
  pub verify : Bytes → Option IdToken

pub record Request : Type 0 where
  pub header : Header
  pub state : Bytes
  pub code : Bytes
  pub client_ip : Bytes

-- A check that ends the handler gives the code of the error page.
pub data Check (A : Type 0) : Type 0 where
  pass : A → Check A
  fail : Bytes → Check A

infixl 5 ◌>>=◌ ◌>>◌
abbrev ◌>>=◌ : {A B : Type 0} → Check A → (A → Check B) → Check B
pass a >>= f = f a
fail c >>= f = fail c

abbrev ◌>>◌ : {B : Type 0} → Check (Unit {0}) → Check B → Check B
m >> k = m >>= λ _. k

abbrev guard : Bool → Bytes → Check (Unit {0})
guard true code = pass tt
guard false code = fail code

abbrev expect : {A : Type 0} → Option A → Bytes → Check A
expect none code = fail code
expect (some a) code = pass a

abbrev slack_team_claim : Bytes
slack_team_claim = codes "https://slack.com/team_id"

abbrev slack_user_claim : Bytes
slack_user_claim = codes "https://slack.com/user_id"

or_keep : Bytes → Option Bytes → Bytes
or_keep old none = old
or_keep old (some v) = v

filled : Bytes → Bytes → (Bytes → Option Bytes) → Bytes
unfolding or_keep
filled old key raw = if is_empty old then or_keep old (raw key) else old

fill : Claims → Option (Bytes → Option Bytes) → Claims
unfolding filled
fill c none = c
fill c (some raw) = record c {
  slack_team_id = filled c.slack_team_id slack_team_claim raw;
  slack_user_id = filled c.slack_user_id slack_user_claim raw;
}

completed : Option Claims → Option (Bytes → Option Bytes) → Option Claims
unfolding fill
completed none raw = none
completed (some c) raw =
    some (if is_empty c.slack_team_id || is_empty c.slack_user_id then fill c raw else c)

-- `parseClaims`
unfoldable pub parse_claims : IdToken → Option Claims
unfolding completed
parse_claims t = completed t.typed t.untyped

-- Steps 1 to 6.
unfoldable pub verify_callback :
    Provider → Codec → Settings → Request → Check (PreAuthPayload × Claims)
unfolding read_pre_auth parse_claims ◌=ᵇ◌
verify_callback provider codec cfg r = do
  pre ← expect (read_pre_auth codec r.header) auth_failed
  guard (r.state =ᵇ pre.state) auth_failed
  guard provider.ready auth_failed
  guard (not (is_empty r.code)) auth_failed
  raw ← expect (provider.exchange r.code) auth_failed
  guard (not (is_empty raw)) auth_failed
  token ← expect (provider.verify raw) auth_failed
  claims ← expect (parse_claims token) auth_failed
  guard (claims.nonce =ᵇ pre.nonce) auth_failed
  guard (claims.slack_team_id =ᵇ cfg.slack_team_id) not_in_workspace
  pass (pre, claims)

-- What is stored of the claims.
unfoldable pub stored_claims : Claims → OidcClaims
stored_claims c = record {
  slack_user_id = if is_empty c.slack_user_id then c.subject else c.slack_user_id;
  slack_team_id = c.slack_team_id;
  email = c.email;
  name = c.name;
  avatar_url = c.picture;
}

pub record NewSession : Type 0 where
  pub id : Bytes
  pub expires_at : ℕ

-- The stores: `UpsertFromOIDC`, and `Create` for a user, a user agent and an address.
pub record Stores (U S : Type 0) : Type 0 where
  pub upsert : OidcClaims → U → Option User × U
  pub create : ℕ → Bytes → Bytes → S → Option NewSession × S

-- The answer always deletes the pre-auth cookie first.
failed : Bytes → Redirect
unfolding error_url clear_pre_auth
failed code = record { cookies = clear_pre_auth ∷ []; location = error_url code }

module _ {U S : Type 0} (parse : Bytes → Option Url) (stores : Stores U S) (cfg : Settings)
    (r : Request) where
  signed_in : PreAuthPayload → Option NewSession × S → U → Redirect × U × S
  unfolding failed Cookie.set resolve_return_to clear_pre_auth
  signed_in pre (none, s) u = (failed auth_failed, u, s)
  signed_in pre (some n, s) u = (
    record {
      cookies = clear_pre_auth ∷ Cookie.set n.id n.expires_at cfg.cookie_domain ∷ [];
      location = resolve_return_to parse cfg pre.return_to;
    },
    u,
    s,
  )

  upserted : PreAuthPayload → Option User × U → S → Redirect × U × S
  unfolding signed_in failed get
  upserted pre (none, u) s = (failed auth_failed, u, s)
  upserted pre (some account, u) s =
      signed_in pre (stores.create account.id (get r.header (codes "User-Agent")) r.client_ip s) u

  finish : Check (PreAuthPayload × Claims) → U → S → Redirect × U × S
  unfolding upserted failed stored_claims
  finish (fail code) u s = (failed code, u, s)
  finish (pass (pre, claims)) u s = upserted pre (stores.upsert (stored_claims claims) u) s

  unfoldable pub handle_callback : Provider → Codec → U → S → Redirect × U × S
  unfolding finish verify_callback
  handle_callback provider codec u s = finish (verify_callback provider codec cfg r) u s
