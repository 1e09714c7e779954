-- ===== src/Config/Load/Accepted.antt =====
-- What holds of a configuration that is accepted.
use forge_proxy.Base.{
  ◌≤◌, Bytes, codes, Bool, true, false, not, ◌||◌, List, [], ◌∷◌, ◌++◌, ◌≡◌, ◌≢◌, ◌⊎◌, inl, inr,
  refl, subst, Option, none, some, is_empty, all, All, ltb, length, arith, Bool-cases,
  if◌then◌else◌, append-nil_split, all-All-true, ap,
}
use forge_proxy.Strings.{is_upper, is_digit, has_suffix, trim_prefix}
use forge_proxy.Strings.Splitting.{has_suffix_iff}
use forge_proxy.Config.Upstreams.{parse_upstreams}
use forge_proxy.Config.Upstreams.Servable.{empty-nil}
use forge_proxy.Config.SshUpstreams.{parse_ssh_upstreams}
use forge_proxy.Config.Load.{
  Config, Error, Stat, absent, directory, other, Outside, ok, exceeds, is_team_id, missing, check,
  check_given, stat_errors, parsed, parse_errors, env, ssh_path, config, required_errors,
  upstream_errors, landing_errors, ssh_errors, errors, decided, load, bad_upstreams,
  bad_ssh_upstreams, auth_host_outside, team_id_shape, short_secret, idle_exceeds_lifetime,
}

abbrev pub IsTeamId : Bytes → Type 0
IsTeamId s =
    (rest : Bytes) × (s ≡ b'T' ∷ rest)
    × (rest ≢ [])
    × All (λ c. (is_upper c || is_digit c) ≡ true) rest

pub record IsAccepted (o : Outside) (c : Config) : Type 0 where
  pub auth_within : (label : Bytes) × (c.auth_host ≡ label ++ c.base_domain)
  pub domain_given : c.base_domain ≢ []
  pub auth_given : c.auth_host ≢ []
  pub client_given : c.slack_client_id ≢ []
  pub client_secret_given : c.slack_client_secret ≢ []
  pub team_given : c.slack_team_id ≢ []
  pub db_given : c.db_path ≢ []
  pub secret_given : c.proxy_secret ≢ []
  pub cookies : c.cookie_domain ≡ b'.' ∷ trim_prefix c.base_domain (codes ".")
  pub team : IsTeamId c.slack_team_id
  pub secret : 32 ≤ length c.proxy_secret
  pub database : o.stat_dir c.db_path ≡ directory
  pub upstreams : parse_upstreams o.parse_url (env o (codes "UPSTREAMS")) ≡ some c.upstream_map
  pub idle : exceeds c.session_idle_timeout c.session_lifetime ≡ false
  pub ssh :
      (c.ssh_upstreams ≡ [])
      ⊎ ((parse_ssh_upstreams o.parse_url (env o (codes "SSH_UPSTREAMS")) ≡ some c.ssh_upstreams)
          × (c.ssh_host_key_path ≢ [])
          × (c.ssh_ca_key_path ≢ [])
          × (c.ssh_known_hosts_path ≢ []))

missing-given : (key v : Bytes) → missing key v ≡ [] → v ≢ []
unfolding missing
missing-given key [] h = cc
missing-given key (c ∷ v) h = λ e. cc

check-false : (b : Bool) (e : Error) → check b e ≡ [] → b ≡ false
unfolding check
check-false true e h = cc
check-false false e h = refl

given-false : (v : Bytes) (b : Bool) (e : Error) → v ≢ [] → check_given v b e ≡ [] → b ≡ false
unfolding check_given
given-false [] b e n h = absurd (n refl)
given-false (c ∷ v) true e n h = cc
given-false (c ∷ v) false e n h = refl

stat-directory : (s : Stat) → stat_errors s ≡ [] → s ≡ directory
unfolding stat_errors
stat-directory absent h = cc
stat-directory directory h = refl
stat-directory other h = cc

parse-some :
    {A : Type 0} (e : Error) (p : Option (List A)) → parse_errors e p ≡ [] → p ≡ some (parsed [] p)
unfolding parse_errors parsed
parse-some e none h = cc
parse-some e (some m) h = refl

team-shape : (s : Bytes) → is_team_id s ≡ true → IsTeamId s
unfolding is_team_id
team-shape [] h = cc
team-shape (c ∷ s) h =
    let same : c ≡ b'T' = ground arith in
    let given : is_empty s ≡ false = ground arith in
    let rest : all (λ d. is_upper d || is_digit d) s ≡ true = ground arith in
    (
      s,
      ap (λ x. x ∷ s) same,
      empty-nil s given,
      all-All-true (λ d. is_upper d || is_digit d) s rest,
    )

decided-ok :
    (o : Outside) (c c' : Config) (es : List Error) → decided o c es ≡ ok c' → (es ≡ []) × (c ≡ c')
unfolding decided
decided-ok o c c' [] h = (refl, ground arith)
decided-ok o c c' (e ∷ es) h = cc

upstreams-given :
    (o : Outside) (raw : Bytes)
    → upstream_errors o raw ≡ []
    → parse_upstreams o.parse_url raw
      ≡ some (if is_empty raw then [] else parsed [] (parse_upstreams o.parse_url raw))
unfolding upstream_errors
upstreams-given o raw h = elim (Bool-cases (is_empty raw)) [
  | inl empty ↦ absurd (ground arith)
  | inr given ↦
      rw given (parse-some bad_upstreams (parse_upstreams o.parse_url raw) (rw given at h))
]

abbrev SshGiven : Outside → Bytes → Type 0
SshGiven o raw =
    ((if is_empty raw then [] else parsed [] (parse_ssh_upstreams o.parse_url raw)) ≡ [])
    ⊎ ((parse_ssh_upstreams o.parse_url raw
          ≡ some (if is_empty raw then [] else parsed [] (parse_ssh_upstreams o.parse_url raw)))
        × (ssh_path o raw (env o (codes "SSH_HOST_KEY_PATH")) ≢ [])
        × (ssh_path o raw (env o (codes "SSH_CA_KEY_PATH")) ≢ [])
        × (ssh_path o raw (env o (codes "SSH_KNOWN_HOSTS_PATH")) ≢ []))

ssh-given : (o : Outside) (raw : Bytes) → ssh_errors o raw ≡ [] → SshGiven o raw
unfolding ssh_errors ssh_path
ssh-given o raw h = elim (Bool-cases (is_empty raw)) [
  | inl empty ↦ rw empty (inl refl)
  | inr given ↦
      let host = missing (codes "SSH_HOST_KEY_PATH") (env o (codes "SSH_HOST_KEY_PATH")) in
      let ca = missing (codes "SSH_CA_KEY_PATH") (env o (codes "SSH_CA_KEY_PATH")) in
      let known = missing (codes "SSH_KNOWN_HOSTS_PATH") (env o (codes "SSH_KNOWN_HOSTS_PATH")) in
      let p = parse_ssh_upstreams o.parse_url raw in
      let (e, rest) =
        append-nil_split (parse_errors bad_ssh_upstreams p) (host ++ (ca ++ known))
          (rw given at h) in
      let (e₁, rest₁) = append-nil_split host (ca ++ known) rest in
      let (e₂, e₃) = append-nil_split ca known rest₁ in
      rw given (
        inr (
          parse-some bad_ssh_upstreams p e,
          missing-given (codes "SSH_HOST_KEY_PATH") _ e₁,
          missing-given (codes "SSH_CA_KEY_PATH") _ e₂,
          missing-given (codes "SSH_KNOWN_HOSTS_PATH") _ e₃,
        ))
]

-- The required variables, one by one.
abbrev Required : Outside → Type 0
Required o =
    (env o (codes "BASE_DOMAIN") ≢ [])
    × (env o (codes "AUTH_HOST") ≢ [])
    × (env o (codes "SLACK_CLIENT_ID") ≢ [])
    × (env o (codes "SLACK_CLIENT_SECRET") ≢ [])
    × (env o (codes "SLACK_TEAM_ID") ≢ [])
    × (env o (codes "DB_PATH") ≢ [])
    × (env o (codes "PROXY_SECRET") ≢ [])

Required-given : (o : Outside) → required_errors o ≡ [] → Required o
unfolding required_errors
Required-given o h =
    let m = λ (key : Bytes). missing key (env o key) in
    let id = m (codes "SLACK_CLIENT_ID") in
    let secret = m (codes "SLACK_CLIENT_SECRET") in
    let team = m (codes "SLACK_TEAM_ID") in
    let db = m (codes "DB_PATH") in
    let proxy = m (codes "PROXY_SECRET") in
    let auth = m (codes "AUTH_HOST") in
    let after_team = db ++ proxy in
    let after_secret = team ++ after_team in
    let after_id = secret ++ after_secret in
    let after_auth = id ++ after_id in
    let (e, h₁) = append-nil_split (m (codes "BASE_DOMAIN")) (auth ++ after_auth) h in
    let (e₁, h₂) = append-nil_split auth after_auth h₁ in
    let (i, h₃) = append-nil_split id after_id h₂ in
    let (k, h₄) = append-nil_split secret after_secret h₃ in
    let (e₂, h₅) = append-nil_split team after_team h₄ in
    let (e₃, e₄) = append-nil_split db proxy h₅ in
    (
      missing-given (codes "BASE_DOMAIN") _ e,
      missing-given (codes "AUTH_HOST") _ e₁,
      missing-given (codes "SLACK_CLIENT_ID") _ i,
      missing-given (codes "SLACK_CLIENT_SECRET") _ k,
      missing-given (codes "SLACK_TEAM_ID") _ e₂,
      missing-given (codes "DB_PATH") _ e₃,
      missing-given (codes "PROXY_SECRET") _ e₄,
    )

suffix-label : (s p : Bytes) → not (has_suffix s p) ≡ false → (label : Bytes) × (s ≡ label ++ p)
suffix-label s p h = (has_suffix_iff s p).0 (ground arith)

team-given : (s : Bytes) → not (is_team_id s) ≡ false → IsTeamId s
team-given s h = team-shape s (ground arith)

secret-long : (s : Bytes) → ltb (length s) 32 ≡ false → 32 ≤ length s
secret-long s h = ground arith

cookie-given :
    (base : Bytes)
    → base ≢ []
    → (if is_empty base then [] else b'.' ∷ trim_prefix base (codes "."))
      ≡ b'.' ∷ trim_prefix base (codes ".")
cookie-given [] h = absurd (h refl)
cookie-given (c ∷ base) h = refl

db-given : (v : Bytes) (es : List Error) → v ≢ [] → (if is_empty v then [] else es) ≡ [] → es ≡ []
db-given [] es n h = absurd (n refl)
db-given (c ∷ v) es n h = h

errors-IsAccepted : (o : Outside) → errors o (config o) ≡ [] → IsAccepted o (config o)
unfolding errors config
errors-IsAccepted o h =
    let base = env o (codes "BASE_DOMAIN") in
    let auth = env o (codes "AUTH_HOST") in
    let team = env o (codes "SLACK_TEAM_ID") in
    let secret = env o (codes "PROXY_SECRET") in
    let db = env o (codes "DB_PATH") in
    let raw = env o (codes "UPSTREAMS") in
    let ssh = env o (codes "SSH_UPSTREAMS") in
    let dl = env o (codes "DEFAULT_LANDING_URL") in
    let c = config o in
    let x₁ = check_given auth (not (has_suffix auth base)) auth_host_outside in
    let x₂ = check_given team (not (is_team_id team)) team_id_shape in
    let x₃ = check_given secret (ltb (length secret) 32) short_secret in
    let x₄ = if is_empty db then [] else stat_errors (o.stat_dir db) in
    let x₅ = upstream_errors o raw in
    let x₆ = check (exceeds c.session_idle_timeout c.session_lifetime) idle_exceeds_lifetime in
    let x₇ = landing_errors o dl in
    let x₈ = ssh_errors o ssh in
    let (r, h₁) =
      append-nil_split (required_errors o)
        (x₁ ++ (x₂ ++ (x₃ ++ (x₄ ++ (x₅ ++ (x₆ ++ (x₇ ++ x₈))))))) h in
    let (e₁, h₂) = append-nil_split x₁ (x₂ ++ (x₃ ++ (x₄ ++ (x₅ ++ (x₆ ++ (x₇ ++ x₈)))))) h₁ in
    let (e₂, h₃) = append-nil_split x₂ (x₃ ++ (x₄ ++ (x₅ ++ (x₆ ++ (x₇ ++ x₈))))) h₂ in
    let (e₃, h₄) = append-nil_split x₃ (x₄ ++ (x₅ ++ (x₆ ++ (x₇ ++ x₈)))) h₃ in
    let (e₄, h₅) = append-nil_split x₄ (x₅ ++ (x₆ ++ (x₇ ++ x₈))) h₄ in
    let (e₅, h₆) = append-nil_split x₅ (x₆ ++ (x₇ ++ x₈)) h₅ in
    let (e₆, h₇) = append-nil_split x₆ (x₇ ++ x₈) h₆ in
    let (_, e₈) = append-nil_split x₇ x₈ h₇ in
    let (b, a, i, k, t, d, s) = Required-given o r in
    record {
      auth_within = suffix-label auth base (given-false auth _ auth_host_outside a e₁);
      domain_given = b;
      auth_given = a;
      client_given = i;
      client_secret_given = k;
      team_given = t;
      db_given = d;
      secret_given = s;
      cookies = cookie-given base b;
      team = team-given team (given-false team _ team_id_shape t e₂);
      secret = secret-long secret (given-false secret _ short_secret s e₃);
      database = stat-directory (o.stat_dir db) (db-given db _ d e₄);
      upstreams = upstreams-given o raw e₅;
      idle = check-false _ idle_exceeds_lifetime e₆;
      ssh = ssh-given o ssh e₈;
    }

-- A configuration that is accepted has none of its seven required variables empty and an address of
-- the sign-in that ends in the base domain; the domain of the cookies is the base domain with one dot before it; the
-- team has Slack's form; the secret has at least 32 bytes; the database has a directory; the
-- upstreams are those that the variable describes; a session that is idle ends no later than its
-- lifetime; and where SSH upstreams are set, they are those of the variable and the three files are
-- named.
pub load-IsAccepted : (o : Outside) (c : Config) → load o ≡ ok c → IsAccepted o c
unfolding load
load-IsAccepted o c h =
    let (nothing, same) = decided-ok o (config o) c (errors o (config o)) h in
    subst (IsAccepted o) same (errors-IsAccepted o nothing)
