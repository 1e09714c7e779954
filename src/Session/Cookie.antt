-- ===== src/Session/Cookie.antt =====
-- internal/session/cookie.go
use forge_proxy.Base.{ℕ, Bytes, codes, true, [], Option, none, some, is_empty, if◌then◌else◌}
use forge_proxy.Net.Header.{Header}
use forge_proxy.Net.Cookie.{SetCookie, deleted, unset, lax, request_cookie}

abbrev pub cookie_name : Bytes
cookie_name = codes "forge_session"

-- `Set`
unfoldable pub set : Bytes → ℕ → Bytes → SetCookie
set session_id expires domain = record {
  name = cookie_name;
  value = session_id;
  path = codes "/";
  domain = domain;
  expires = some expires;
  max_age = unset;
  http_only = true;
  secure = true;
  same_site = lax;
}

-- `Clear`
unfoldable pub clear : Bytes → SetCookie
clear domain = record {
  name = cookie_name;
  value = [];
  path = codes "/";
  domain = domain;
  expires = none;
  max_age = deleted;
  http_only = true;
  secure = true;
  same_site = lax;
}

not_empty : Option Bytes → Option Bytes
not_empty none = none
not_empty (some v) = if is_empty v then none else some v

-- `Read`: an empty cookie is no cookie.
unfoldable pub read : Header → Option Bytes
unfolding not_empty request_cookie
read h = not_empty (request_cookie cookie_name h)
