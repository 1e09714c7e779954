-- ===== src/Auth/Settings.antt =====
-- internal/auth: what the handlers take from the configuration, and the URLs that they redirect to.
use forge_proxy.Base.{Bytes, codes, is_empty, List, ◌++◌, Option, none, some, if◌then◌else◌}
use forge_proxy.Net.Url.{Url}
use forge_proxy.Net.Cookie.{SetCookie}
use forge_proxy.Auth.ReturnTo.{validate}

pub record Settings : Type 0 where
  pub auth_host : Bytes
  pub base_domain : Bytes
  pub default_landing_url : Bytes
  pub slack_team_id : Bytes
  pub cookie_domain : Bytes

-- A redirect with the cookies that it sets, in order.
pub record Redirect : Type 0 where
  pub cookies : List SetCookie
  pub location : Bytes

abbrev pub auth_failed : Bytes
auth_failed = codes "auth_failed"

abbrev pub not_in_workspace : Bytes
not_in_workspace = codes "not_in_workspace"

-- `errorURL`
unfoldable pub error_url : Bytes → Bytes
error_url code = codes "/?error=" ++ code

landing : Settings → Option Bytes → Bytes
landing cfg (some v) = v
landing cfg none =
    if is_empty cfg.default_landing_url
    then codes "https://" ++ cfg.auth_host ++ codes "/"
    else cfg.default_landing_url

-- `resolveReturnTo`
unfoldable pub resolve_return_to : (Bytes → Option Url) → Settings → Bytes → Bytes
unfolding landing validate
resolve_return_to parse cfg raw = landing cfg (validate parse raw cfg.base_domain)
