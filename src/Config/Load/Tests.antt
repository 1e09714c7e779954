-- ===== src/Config/Load/Tests.antt =====
-- internal/config/config.go: `Load` in two environments.
use forge_proxy.Base.{◌*◌, Bytes, codes, false, [], ◌∷◌, ◌≡◌, refl, Option, none, some}
use forge_proxy.Base.Dict.{Dict}
use forge_proxy.Base.Dict
use forge_proxy.Clock.{second}
use forge_proxy.Net.Url.{Url}
use forge_proxy.Decimal.Signed.{pos, negsuc}
use forge_proxy.Config.Load.{
  Config, Outside, directory, err, auth_host_outside, team_id_shape, getenv_duration,
  idle_exceeds_lifetime, load,
}
use forge_proxy.Config.Load.Accepted.{IsAccepted, load-IsAccepted}

loading : Unit {0}
unfolding load getenv_duration Dict.lookup
loading = tt

abbrev variables : Dict Bytes
variables =
    (codes "BASE_DOMAIN", codes "x.io")
    ∷ (codes "AUTH_HOST", codes "auth.x.io ")
    ∷ (codes "SLACK_CLIENT_ID", codes "id")
    ∷ (codes "SLACK_CLIENT_SECRET", codes "s")
    ∷ (codes "SLACK_TEAM_ID", codes "T0R7GR")
    ∷ (codes "DB_PATH", codes "/data/db")
    ∷ (codes "PROXY_SECRET", codes "0123456789abcdef0123456789abcdef")
    ∷ (codes "UPSTREAMS", codes "app.x.io=http://h")
    ∷ []

value_of : Option Bytes → Bytes
value_of none = []
value_of (some v) = v

abbrev target : Bytes → Url
target text = record { scheme = codes "http"; has_user = false; host = codes "h"; text = text }

abbrev in_env : Dict Bytes → Outside
in_env vars = record {
  getenv = λ key. value_of (Dict.lookup key vars);
  stat_dir = λ path. directory;
  parse_url = λ text. some (target text);
  parse_duration = λ text. none;
}

abbrev accepted : Config
accepted = record {
  listen_addr = codes ":8080";
  base_domain = codes "x.io";
  auth_host = codes "auth.x.io";
  cookie_domain = codes ".x.io";
  slack_client_id = codes "id";
  slack_client_secret = codes "s";
  slack_team_id = codes "T0R7GR";
  db_path = codes "/data/db";
  upstream_map =
      (codes "app.x.io", record { target = target (codes "http://h"); required_roles = [] }) ∷ [];
  session_lifetime = pos (2_592_000 * second);
  session_idle_timeout = pos (1_209_600 * second);
  proxy_secret = codes "0123456789abcdef0123456789abcdef";
  default_landing_url = codes "https://auth.x.io/";
  ssh_upstreams = [];
  ssh_host_key_path = [];
  ssh_ca_key_path = [];
  ssh_known_hosts_path = [];
  ssh_listen_addr = [];
  log_level = codes "info";
}

load-IsAccepted_example : IsAccepted (in_env variables) accepted
unfolding loading value_of
load-IsAccepted_example = load-IsAccepted (in_env variables) accepted refl

load_tests :
    (load (
        in_env (
          (codes "SESSION_LIFETIME", codes "60")
          ∷ (codes "AUTH_HOST", codes "x.com")
          ∷ (codes "SLACK_TEAM_ID", codes "t1")
          ∷ variables))
      ≡ err (auth_host_outside ∷ team_id_shape ∷ idle_exceeds_lifetime ∷ []))
    × (getenv_duration (in_env ((codes "D", codes " 90 ") ∷ [])) (codes "D") (pos 7)
        ≡ pos (90 * second))
    × (getenv_duration (in_env ((codes "D", codes "-1") ∷ [])) (codes "D") (pos 7)
        ≡ negsuc 999_999_999)
    × (getenv_duration (in_env ((codes "D", codes "soon") ∷ [])) (codes "D") (pos 7) ≡ pos 7)
unfolding loading value_of
load_tests = (refl, refl, refl, refl)
