-- ===== src/Auth/PreAuth.antt =====
-- internal/auth/state.go: the cookie that binds a sign-in to one browser. Its JSON and base64 codec
-- is a parameter.
use forge_proxy.Base.{Bytes, codes, is_empty, true, ◌||◌, [], Option, none, some, if◌then◌else◌}
use forge_proxy.Net.Header.{Header}
use forge_proxy.Net.Cookie.{SetCookie, deleted, seconds, lax, request_cookie}

abbrev pub pre_auth_cookie_name : Bytes
pre_auth_cookie_name = codes "__Host-forge_pre_auth"

pub record PreAuthPayload : Type 0 where
  pub state : Bytes
  pub nonce : Bytes
  pub return_to : Bytes

-- The codec of the cookie's value. Encoding and decoding can fail.
pub record Codec : Type 0 where
  pub encode : PreAuthPayload → Option Bytes
  pub decode : Bytes → Option PreAuthPayload

-- `NewPreAuth`, from what the random source gave for the state and the nonce.
unfoldable pub new_pre_auth : Option Bytes → Option Bytes → Bytes → Option PreAuthPayload
new_pre_auth none _ return_to = none
new_pre_auth (some state) none return_to = none
new_pre_auth (some state) (some n) return_to =
    some (record { state = state; nonce = n; return_to = return_to })

pre_auth_cookie : Bytes → SetCookie
pre_auth_cookie value = record {
  name = pre_auth_cookie_name;
  value = value;
  path = codes "/";
  domain = [];
  expires = none;
  max_age = seconds 600;
  http_only = true;
  secure = true;
  same_site = lax;
}

written : Option Bytes → Option SetCookie
unfolding pre_auth_cookie
written none = none
written (some value) = some (pre_auth_cookie value)

-- `SetPreAuth`
unfoldable pub set_pre_auth : Codec → PreAuthPayload → Option SetCookie
unfolding written
set_pre_auth codec p = written (codec.encode p)

-- `ClearPreAuth`
unfoldable pub clear_pre_auth : SetCookie
unfolding pre_auth_cookie
clear_pre_auth = record (pre_auth_cookie []) { max_age = deleted }

-- None is either of the two errors, which the callers treat alike.
complete : Option PreAuthPayload → Option PreAuthPayload
complete none = none
complete (some p) = if is_empty p.state || is_empty p.nonce then none else some p

decoded : Codec → Option Bytes → Option PreAuthPayload
unfolding complete
decoded codec none = none
decoded codec (some v) = if is_empty v then none else complete (codec.decode v)

-- `ReadPreAuth`
unfoldable pub read_pre_auth : Codec → Header → Option PreAuthPayload
unfolding decoded request_cookie
read_pre_auth codec h = decoded codec (request_cookie pre_auth_cookie_name h)
