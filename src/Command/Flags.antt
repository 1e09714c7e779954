-- ===== src/Command/Flags.antt =====
-- cmd/forge-proxy/main.go: the command line. Variables of the environment and files are parameters.
pub mod Child
use forge_proxy.Base.{
  ℕ, Bytes, codes, is_empty, Bool, true, false, not, ◌&&◌, List, [], ◌∷◌, ◌++◌, Option, none, some,
  ◌=ᵇ◌, if◌then◌else◌,
}
use forge_proxy.Strings.{has_prefix, trim_prefix}

-- The arguments without a flag, and its value, which is empty where the flag is absent.
pub data Extracted : Type 0 where
  ok : List Bytes → Bytes → Extracted
  no_value : Extracted

-- `extractValueFlag`, and `extractEnvFileFlag` for its own flag.
unfoldable pub extract_value_flag : List Bytes → Bytes → Extracted
unfolding ◌=ᵇ◌ has_prefix trim_prefix
extract_value_flag [] flag = ok [] []
extract_value_flag (first ∷ []) flag =
    let value = trim_prefix first (flag ++ (b'=' ∷ [])) in
    if first =ᵇ flag
    then no_value
    else if not (has_prefix first (flag ++ (b'=' ∷ [])))
    then ok (first ∷ []) []
    else if is_empty value
    then no_value
    else ok [] value
extract_value_flag (first ∷ second ∷ rest) flag =
    let value = trim_prefix first (flag ++ (b'=' ∷ [])) in
    if first =ᵇ flag
    then ok rest second
    else if not (has_prefix first (flag ++ (b'=' ∷ [])))
    then ok (first ∷ second ∷ rest) []
    else if is_empty value
    then no_value
    else ok (second ∷ rest) value

-- `extractBoolFlag`
unfoldable pub extract_bool_flag : List Bytes → Bytes → List Bytes × Bool
unfolding ◌=ᵇ◌
extract_bool_flag [] flag = ([], false)
extract_bool_flag (first ∷ rest) flag =
    if first =ᵇ flag then (rest, true) else (first ∷ rest, false)

abbrev pub env_file_flag : Bytes
env_file_flag = codes "--env-file"

abbrev pub daemon_flag : Bytes
daemon_flag = codes "--daemon"

abbrev pub pid_file_flag : Bytes
pid_file_flag = codes "--pid-file"

abbrev pub log_file_flag : Bytes
log_file_flag = codes "--log-file"

-- `rebuildChildArgs`
unfoldable pub rebuild_child_args : Bytes → List Bytes → List Bytes
rebuild_child_args env_file remaining =
    if is_empty env_file then remaining else env_file_flag ∷ env_file ∷ remaining

-- A candidate: the text of a variable, if it has one, and what follows.
pub record Candidate : Type 0 where
  pub variable : Option Bytes
  pub rest : Bytes

abbrev pub default_env_file_candidates : List Candidate
default_env_file_candidates =
    record { variable = some (codes "FORGE_PROXY_ENV_FILE"); rest = [] }
    ∷ record { variable = none; rest = codes "/etc/forge-proxy.env" }
    ∷ record { variable = some (codes "XDG_CONFIG_HOME"); rest = codes "/forge-proxy.env" }
    ∷ record { variable = some (codes "HOME"); rest = codes "/.config/forge-proxy.env" }
    ∷ record { variable = none; rest = codes "./forge-proxy.env" }
    ∷ []

-- What the process sees: variables, which are empty where they are unset, files that exist, and
-- whether a file can be loaded.
pub record Outside : Type 0 where
  pub getenv : Bytes → Bytes
  pub exists : Bytes → Bool
  pub loads : Bytes → Bool
  pub is_daemon_child : Bool

-- `os.ExpandEnv`
expand : (Bytes → Bytes) → Candidate → Bytes
expand getenv c = elim c.variable [ none ↦ c.rest | some name ↦ getenv name ++ c.rest ]

first_existing : Outside → List Candidate → Bytes
unfolding expand
first_existing o [] = []
first_existing o (c ∷ cs) =
    let path = expand o.getenv c in
    let later = first_existing o cs in
    if is_empty path then later else if o.exists path then path else later

-- `defaultEnvFilePath`
unfoldable pub default_env_file_path : Outside → Bytes
unfolding first_existing
default_env_file_path o = first_existing o default_env_file_candidates

pub data Command : Type 0 where
  fails : Command
  admin setup : List Bytes → Command
  daemonizes : List Bytes → Bytes → Bytes → Command
  serves : Command

-- A command, and the file of variables that is loaded before it, if any.
pub record Started : Type 0 where
  pub env_file : Bytes
  pub command : Command

serve_or_fork : Outside → Bool → Bytes → List Bytes → Bytes → Bytes → Command
unfolding rebuild_child_args
serve_or_fork o daemon env_file args pid_file log_file =
    if daemon && not o.is_daemon_child
    then daemonizes (rebuild_child_args env_file args) pid_file log_file
    else serves

chosen : Outside → Bool → Bytes → List Bytes → Bytes → Bytes → Command
unfolding serve_or_fork ◌=ᵇ◌
chosen o daemon env_file [] pid_file log_file = serve_or_fork o daemon env_file [] pid_file log_file
chosen o daemon env_file (first ∷ rest) pid_file log_file =
    if first =ᵇ codes "admin"
    then admin rest
    else if first =ᵇ codes "setup"
    then setup rest
    else serve_or_fork o daemon env_file (first ∷ rest) pid_file log_file

loaded : Outside → Bytes → Command → Started
loaded o path command =
    if is_empty path
    then record { env_file = []; command = command }
    else if o.loads path
    then record { env_file = path; command = command }
    else record { env_file = []; command = fails }

abbrev file_for : Outside → Bytes → Bytes
file_for o env_file = if is_empty env_file then default_env_file_path o else env_file

failed : Started
failed = record { env_file = []; command = fails }

after_log_file : Outside → Bytes → Bool → Bytes → Extracted → Started
unfolding loaded chosen default_env_file_path failed
after_log_file o env_file daemon pid_file no_value = failed
after_log_file o env_file daemon pid_file (ok args log_file) =
    loaded o (file_for o env_file) (chosen o daemon env_file args pid_file log_file)

after_pid_file : Outside → Bytes → Bool → Extracted → Started
unfolding after_log_file failed extract_value_flag
after_pid_file o env_file daemon no_value = failed
after_pid_file o env_file daemon (ok args pid_file) =
    after_log_file o env_file daemon pid_file (extract_value_flag args log_file_flag)

after_env_file : Outside → Extracted → Started
unfolding after_pid_file failed extract_value_flag extract_bool_flag
after_env_file o no_value = failed
after_env_file o (ok args env_file) =
    let r = extract_bool_flag args daemon_flag in
    after_pid_file o env_file r.1 (extract_value_flag r.0 pid_file_flag)

-- `main`, up to the command that it runs.
unfoldable pub start : Outside → List Bytes → Started
unfolding after_env_file extract_value_flag
start o args = after_env_file o (extract_value_flag args env_file_flag)
