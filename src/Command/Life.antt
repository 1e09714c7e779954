-- ===== src/Command/Life.antt =====
-- cmd/forge-proxy/main.go: what `run` starts and stops, and in which order.
use forge_proxy.Base.{
  ℕ, suc, Bytes, codes, Bool, true, false, ◌||◌, List, [], ◌∷◌, ◌++◌, ◌≡◌, ◌⊎◌, ◌=ᵇ◌, if◌then◌else◌,
}
use forge_proxy.Strings.{to_lower, trim_space}

pub data Level : Type 0 where
  debug info warn error : Level

-- `setupLogging`
unfoldable pub setup_logging : Bytes → Level
unfolding to_lower trim_space ◌=ᵇ◌
setup_logging log_level =
    let text = to_lower (trim_space log_level) in
    if text =ᵇ codes "debug"
    then debug
    else if (text =ᵇ codes "warn") || (text =ᵇ codes "warning")
    then warn
    else if text =ᵇ codes "error"
    then error
    else info

-- An upstream of the SSH subsystem, as the configuration has it and as the server gets it.
pub record Upstream : Type 0 where
  pub port : ℕ
  pub target : Bytes
  pub allowed_roles : List Bytes

pub data Broken : Type 0 where
  host_key ca_key known_hosts : Broken

pub data Subsystem : Type 0 where
  disabled : Subsystem
  broken : Broken → Subsystem
  built : List Upstream → Subsystem

-- Whether the keys and the known hosts can be loaded.
pub record Files : Type 0 where
  pub host_key : Bool
  pub ca_key : Bool
  pub known_hosts : Bool

-- `buildSSHSubsystem`
unfoldable pub build_ssh_subsystem : List Upstream → Files → Subsystem
build_ssh_subsystem [] f = disabled
build_ssh_subsystem (u ∷ us) f =
    if f.host_key
    then (if f.ca_key
        then (if f.known_hosts then built (u ∷ us) else broken known_hosts)
        else broken ca_key)
    else broken host_key

pub data Step : Type 0 where
  opens_db closes_db : Step
  starts_oidc stops_oidc : Step
  starts_sweeper stops_sweeper waits_sweeper : Step
  starts_ssh stops_ssh shuts_ssh gives_up_ssh waits_ssh : Step
  starts_http shuts_http : Step

-- What ends the service.
pub data End : Type 0 where
  signal http_failed ssh_failed : End

pub record Course : Type 0 where
  pub config_fails : Bool
  pub db_fails : Bool
  pub subsystem : Subsystem
  pub end : End
  pub shutdown_fails : Bool
  pub ssh_times_out : Bool

-- The deferred calls, the last first.
deferred : List Step
deferred = stops_ssh ∷ stops_sweeper ∷ stops_oidc ∷ closes_db ∷ []

-- `Shutdown` of the SSH server: all handlers have ended, or the five seconds are over.
ssh_end : Bool → Step
ssh_end true = gives_up_ssh
ssh_end false = shuts_ssh

-- With the SSH server or without; `waits_ssh` waits for its `Run`, and not for the handlers.
after_http : Bool → Bool → List Step
unfolding deferred ssh_end
after_http late true =
    stops_ssh ∷ ssh_end late ∷ waits_ssh ∷ stops_sweeper ∷ waits_sweeper ∷ deferred
after_http late false = stops_sweeper ∷ waits_sweeper ∷ deferred

-- From the select on, and whether an error is returned.
ended : Bool → Bool → Bool → End → List Step × Bool
unfolding after_http deferred
ended late ssh false signal = (shuts_http ∷ after_http late ssh, false)
ended late ssh true signal = (shuts_http ∷ deferred, true)
ended late ssh fails http_failed = (deferred, true)
ended late ssh fails ssh_failed = (deferred, true)

ssh_start : Bool → List Step
ssh_start true = starts_ssh ∷ []
ssh_start false = []

served : Bool → Bool → Bool → End → List Step × Bool
unfolding ssh_start ended
served late ssh fails e =
    let r = ended late ssh fails e in (ssh_start ssh ++ (starts_http ∷ r.0), r.1)

with_subsystem : Bool → Bool → End → Subsystem → List Step × Bool
unfolding served
with_subsystem late fails e (broken b) = (stops_sweeper ∷ stops_oidc ∷ closes_db ∷ [], true)
with_subsystem late fails e disabled = served late false fails e
with_subsystem late fails e (built us) = served late true fails e

-- `run`
unfoldable pub run : Course → List Step × Bool
unfolding with_subsystem
run c =
    let r = with_subsystem c.ssh_times_out c.shutdown_fails c.end c.subsystem in
    if c.config_fails
    then ([], true)
    else if c.db_fails
    then ([], true)
    else (opens_db ∷ starts_oidc ∷ starts_sweeper ∷ r.0, r.1)

-- What works on the database while a list of steps goes by.
pub record Busy : Type 0 where
  pub sweeper : Bool
  pub ssh : Bool
  pub http : Bool

abbrev pub idle : Busy
idle = record { sweeper = false; ssh = false; http = false }

abbrev pub busy_after : List Step → Busy → Busy
busy_after [] b = b
busy_after (starts_sweeper ∷ s) b = busy_after s (record b { sweeper = true })
busy_after (waits_sweeper ∷ s) b = busy_after s (record b { sweeper = false })
busy_after (starts_ssh ∷ s) b = busy_after s (record b { ssh = true })
busy_after (shuts_ssh ∷ s) b = busy_after s (record b { ssh = false })
busy_after (starts_http ∷ s) b = busy_after s (record b { http = true })
busy_after (shuts_http ∷ s) b = busy_after s (record b { http = false })
busy_after (_ ∷ s) b = busy_after s b

-- The steps up to the close of the database.
abbrev pub before_close : List Step → List Step
before_close [] = []
before_close (closes_db ∷ s) = []
before_close (x ∷ s) = x ∷ before_close s

abbrev pub closes : List Step → ℕ
closes [] = 0
closes (closes_db ∷ s) = suc (closes s)
closes (_ ∷ s) = closes s

-- What works on the database after a return without an error.
abbrev pub AreDone : Bool → Busy → Type 0
AreDone late b = (b.sweeper ≡ false) × (b.http ≡ false) × ((b.ssh ≡ false) ⊎ (late ≡ true))

abbrev Ordered : Bool → List Step × Bool → Type 0
Ordered late (steps, is_error) =
    (closes steps ≡ 1)
    × (is_error ≡ false → AreDone late (busy_after (before_close steps) idle))
    × (is_error ≡ true → (busy_after (before_close steps) idle).sweeper ≡ true)
