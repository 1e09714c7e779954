-- ===== src/Auth/Login.antt =====
-- internal/auth/handlers.go: `HandleLogin`.
use forge_proxy.Base.{Bytes, [], ◌∷◌, Option, none, some}
use forge_proxy.Net.Url.{Url}
use forge_proxy.Net.Cookie.{SetCookie}
use forge_proxy.Auth.Settings.{Settings, Redirect, auth_failed, error_url, resolve_return_to}
use forge_proxy.Auth.PreAuth.{PreAuthPayload, Codec, new_pre_auth, set_pre_auth}

-- The provider's authorize URL, for a state, a nonce and a team.
abbrev pub AuthCodeUrl : Type 0
AuthCodeUrl = Bytes → Bytes → Bytes → Bytes

bound : AuthCodeUrl → Settings → PreAuthPayload → Option SetCookie → Redirect
unfolding error_url
bound url cfg p none = record { cookies = []; location = error_url auth_failed }
bound url cfg p (some c) = record {
  cookies = c ∷ [];
  location = url p.state p.nonce cfg.slack_team_id;
}

started : AuthCodeUrl → Settings → Codec → Option PreAuthPayload → Redirect
unfolding bound set_pre_auth error_url
started url cfg codec none = record { cookies = []; location = error_url auth_failed }
started url cfg codec (some p) = bound url cfg p (set_pre_auth codec p)

unfoldable pub handle_login :
    AuthCodeUrl
    → (Bytes → Option Url)
    → Codec
    → Settings
    → Option Bytes
    → Option Bytes
    → Bytes
    → Redirect
unfolding started new_pre_auth resolve_return_to
handle_login url parse codec cfg state nonce raw =
    started url cfg codec (new_pre_auth state nonce (resolve_return_to parse cfg raw))
