-- ===== src/Config/Load.antt =====
-- internal/config/config.go: `Load`. The environment, the file system, the URL parser and
-- `time.ParseDuration` are parameters.
pub mod Accepted
pub mod Tests
use forge_proxy.Base.{
  ℕ, ◌+◌, ◌-◌, ◌*◌, ◌%◌, ◌^◌, Bytes, codes, Bool, true, false, not, ◌||◌, ◌&&◌, List, [], ◌∷◌, ◌++◌,
  Option, none, some, is_empty, all, ltb, length, ◌==◌, if◌then◌else◌,
}
use forge_proxy.Base.Dict.{Dict}
use forge_proxy.Strings.{is_upper, is_digit, trim_space, trim_prefix, has_suffix}
use forge_proxy.Net.Url.{Url}
use forge_proxy.Clock.{second}
use forge_proxy.Decimal.Signed.{ℤ, pos, negsuc, parse_int}
use forge_proxy.Config.Upstream.{Upstream}
use forge_proxy.Config.Upstreams.{parse_upstreams}
use forge_proxy.Config.SshUpstreams.{PortMap, parse_ssh_upstreams}

pub record Config : Type 0 where
  pub listen_addr : Bytes
  pub base_domain : Bytes
  pub auth_host : Bytes
  pub cookie_domain : Bytes
  pub slack_client_id : Bytes
  pub slack_client_secret : Bytes
  pub slack_team_id : Bytes
  pub db_path : Bytes
  pub upstream_map : Dict Upstream
  pub session_lifetime : ℤ
  pub session_idle_timeout : ℤ
  pub proxy_secret : Bytes
  pub default_landing_url : Bytes
  pub ssh_upstreams : PortMap
  pub ssh_host_key_path : Bytes
  pub ssh_ca_key_path : Bytes
  pub ssh_known_hosts_path : Bytes
  pub ssh_listen_addr : Bytes
  pub log_level : Bytes

pub data Error : Type 0 where
  is_required : Bytes → Error
  auth_host_outside team_id_shape short_secret : Error
  no_db_directory not_a_directory : Error
  bad_upstreams idle_exceeds_lifetime bad_landing_url bad_ssh_upstreams : Error

-- What `os.Stat` says of a directory: nothing, a directory, or something else.
pub data Stat : Type 0 where
  absent directory other : Stat

pub record Outside : Type 0 where
  pub getenv : Bytes → Bytes
  pub stat_dir : Bytes → Stat
  pub parse_url : Bytes → Option Url
  pub parse_duration : Bytes → Option ℤ

pub data Loaded : Type 0 where
  ok : Config → Loaded
  err : List Error → Loaded

-- A product of int64 values, from its size and its sign.
to_signed : ℕ → ℤ
to_signed m = if ltb m (2 ^ 63) then pos m else negsuc (2 ^ 64 - m - 1)

seconds : ℤ → ℤ
unfolding to_signed
seconds (pos n) = to_signed ((n * second) % 2 ^ 64)
seconds (negsuc n) = to_signed ((2 ^ 64 - ((n + 1) * second) % 2 ^ 64) % 2 ^ 64)

-- a > b
unfoldable pub exceeds : ℤ → ℤ → Bool
exceeds (pos a) (pos b) = ltb b a
exceeds (pos a) (negsuc b) = true
exceeds (negsuc a) (pos b) = false
exceeds (negsuc a) (negsuc b) = ltb a b

unfoldable pub is_team_id : Bytes → Bool
unfolding is_upper is_digit
is_team_id [] = false
is_team_id (c ∷ s) = (c == b'T') && not (is_empty s) && all (λ d. is_upper d || is_digit d) s

or_default : Bytes → Bytes → Bytes
or_default v fallback = if is_empty v then fallback else v

bare_seconds : Option ℤ → ℤ → ℤ
unfolding seconds
bare_seconds none fallback = fallback
bare_seconds (some n) fallback = seconds n

duration_of : Option ℤ → Bytes → ℤ → ℤ
unfolding bare_seconds parse_int
duration_of (some d) v fallback = d
duration_of none v fallback = bare_seconds (parse_int v) fallback

-- The errors of a required variable.
missing : Bytes → Bytes → List Error
missing key v = if is_empty v then is_required key ∷ [] else []

check : Bool → Error → List Error
check fails e = if fails then e ∷ [] else []

-- The errors of a check that is made only where the value is there.
check_given : Bytes → Bool → Error → List Error
check_given v fails e = if is_empty v then [] else if fails then e ∷ [] else []

stat_errors : Stat → List Error
stat_errors absent = no_db_directory ∷ []
stat_errors directory = []
stat_errors other = not_a_directory ∷ []

parsed : {A : Type 0} → List A → Option (List A) → List A
parsed empty none = empty
parsed empty (some m) = m

parse_errors : {A : Type 0} → Error → Option A → List Error
parse_errors e none = e ∷ []
parse_errors e (some m) = []

module _ (o : Outside) where
  -- `strings.TrimSpace` of a variable.
  unfoldable pub env : Bytes → Bytes
  unfolding trim_space
  env key = trim_space (o.getenv key)

  -- `getenvDefault`
  unfoldable pub getenv_default : Bytes → Bytes → Bytes
  unfolding or_default env
  getenv_default key fallback = or_default (env key) fallback

  -- `getenvDuration`
  unfoldable pub getenv_duration : Bytes → ℤ → ℤ
  unfolding duration_of env
  getenv_duration key fallback =
      let v = env key in
      if is_empty v then fallback else duration_of (o.parse_duration v) v fallback

  landing : Bytes → Bytes → Bytes
  landing auth_host dl =
      if is_empty dl
      then (if is_empty auth_host then [] else codes "https://" ++ auth_host ++ codes "/")
      else elim (o.parse_url dl) [ none ↦ [] | some u ↦ dl ]

  -- What is read of the SSH part, which counts only where it is set.
  ssh_path : Bytes → Bytes → Bytes
  ssh_path raw v = if is_empty raw then [] else v

  config : Config
  unfolding env getenv_default getenv_duration landing ssh_path parsed parse_upstreams
      parse_ssh_upstreams trim_prefix
  config =
      let base = env (codes "BASE_DOMAIN") in
      let auth = env (codes "AUTH_HOST") in
      let raw = env (codes "UPSTREAMS") in
      let ssh = env (codes "SSH_UPSTREAMS") in
      record {
        listen_addr = getenv_default (codes "LISTEN_ADDR") (codes ":8080");
        base_domain = base;
        auth_host = auth;
        cookie_domain = if is_empty base then [] else b'.' ∷ trim_prefix base (codes ".");
        slack_client_id = env (codes "SLACK_CLIENT_ID");
        slack_client_secret = env (codes "SLACK_CLIENT_SECRET");
        slack_team_id = env (codes "SLACK_TEAM_ID");
        db_path = env (codes "DB_PATH");
        upstream_map = if is_empty raw then [] else parsed [] (parse_upstreams o.parse_url raw);
        session_lifetime = getenv_duration (codes "SESSION_LIFETIME") (pos (2_592_000 * second));
        session_idle_timeout =
            getenv_duration (codes "SESSION_IDLE_TIMEOUT") (pos (1_209_600 * second));
        proxy_secret = env (codes "PROXY_SECRET");
        default_landing_url = landing auth (env (codes "DEFAULT_LANDING_URL"));
        ssh_upstreams =
            if is_empty ssh then [] else parsed [] (parse_ssh_upstreams o.parse_url ssh);
        ssh_host_key_path = ssh_path ssh (env (codes "SSH_HOST_KEY_PATH"));
        ssh_ca_key_path = ssh_path ssh (env (codes "SSH_CA_KEY_PATH"));
        ssh_known_hosts_path = ssh_path ssh (env (codes "SSH_KNOWN_HOSTS_PATH"));
        ssh_listen_addr = ssh_path ssh (getenv_default (codes "SSH_LISTEN_ADDR") (codes "0.0.0.0"));
        log_level = getenv_default (codes "LOG_LEVEL") (codes "info");
      }

  required_errors : List Error
  unfolding missing env
  required_errors =
      missing (codes "BASE_DOMAIN") (env (codes "BASE_DOMAIN"))
      ++ (missing (codes "AUTH_HOST") (env (codes "AUTH_HOST"))
          ++ (missing (codes "SLACK_CLIENT_ID") (env (codes "SLACK_CLIENT_ID"))
              ++ (missing (codes "SLACK_CLIENT_SECRET") (env (codes "SLACK_CLIENT_SECRET"))
                  ++ (missing (codes "SLACK_TEAM_ID") (env (codes "SLACK_TEAM_ID"))
                      ++ (missing (codes "DB_PATH") (env (codes "DB_PATH"))
                          ++ missing (codes "PROXY_SECRET") (env (codes "PROXY_SECRET")))))))

  upstream_errors : Bytes → List Error
  unfolding parse_errors parse_upstreams
  upstream_errors raw =
      if is_empty raw
      then is_required (codes "UPSTREAMS") ∷ []
      else parse_errors bad_upstreams (parse_upstreams o.parse_url raw)

  landing_errors : Bytes → List Error
  unfolding parse_errors
  landing_errors dl = if is_empty dl then [] else parse_errors bad_landing_url (o.parse_url dl)

  ssh_errors : Bytes → List Error
  unfolding parse_errors parse_ssh_upstreams missing env
  ssh_errors raw =
      if is_empty raw
      then []
      else parse_errors bad_ssh_upstreams (parse_ssh_upstreams o.parse_url raw)
        ++ (missing (codes "SSH_HOST_KEY_PATH") (env (codes "SSH_HOST_KEY_PATH"))
            ++ (missing (codes "SSH_CA_KEY_PATH") (env (codes "SSH_CA_KEY_PATH"))
                ++ missing (codes "SSH_KNOWN_HOSTS_PATH") (env (codes "SSH_KNOWN_HOSTS_PATH"))))

  -- All that is wrong, in the order of the checks.
  errors : Config → List Error
  unfolding required_errors check check_given stat_errors upstream_errors landing_errors ssh_errors
      has_suffix is_team_id exceeds
  errors c =
      required_errors
      ++ (check_given c.auth_host (not (has_suffix c.auth_host c.base_domain)) auth_host_outside
          ++ (check_given c.slack_team_id (not (is_team_id c.slack_team_id)) team_id_shape
              ++ (check_given c.proxy_secret (ltb (length c.proxy_secret) 32) short_secret
                  ++ ((if is_empty c.db_path then [] else stat_errors (o.stat_dir c.db_path))
                      ++ (upstream_errors (env (codes "UPSTREAMS"))
                          ++ (check (exceeds c.session_idle_timeout c.session_lifetime)
                                idle_exceeds_lifetime
                              ++ (landing_errors (env (codes "DEFAULT_LANDING_URL"))
                                  ++ ssh_errors (env (codes "SSH_UPSTREAMS")))))))))

  decided : Config → List Error → Loaded
  decided c [] = ok c
  decided c (e ∷ es) = err (e ∷ es)

  -- `Load`
  unfoldable pub load : Loaded
  unfolding config errors decided
  load = decided config (errors config)
