-- ===== src/Command/Tests.antt =====
-- cmd/forge-proxy on concrete inputs.
use forge_proxy.Base.{
  codes, true, false, [], ◌∷◌, ◌++◌, ◌≡◌, ◌≢◌, ◌⊎◌, ◌↔◌, refl, none, some, arith,
}
use forge_proxy.Decimal.{format_int}
use forge_proxy.Strings.{to_lower}
use forge_proxy.Command.Flags.{
  ok, no_value, extract_value_flag, env_file_flag, daemon_flag, pid_file_flag, log_file_flag,
  Outside, default_env_file_path, admin, daemonizes, serves, start, fails,
}
use forge_proxy.Command.Flags.Child.{marked, start-marked, start-daemon}
use forge_proxy.Command.Ready.{
  Checks, readyz, IsFresh, readyz_iff, auth_mux, proxy, dispatch, dispatch_iff, healthz,
}
use forge_proxy.Command.Life.{
  Level, setup_logging, Upstream, disabled, built, build_ssh_subsystem, Broken, broken, signal,
  http_failed, Course, run,
}

starting : Unit {0}
unfolding start extract_value_flag default_env_file_path readyz dispatch healthz setup_logging
    build_ssh_subsystem run
starting = tt

abbrev outside : Outside
outside = record {
  getenv = λ name. [];
  exists = λ path. true;
  loads = λ path. true;
  is_daemon_child = false;
}

start-marked_concrete :
    (start (marked outside) (daemon_flag ∷ [])).command ≢ daemonizes [] (codes "p") (codes "l")
start-marked_concrete =
    start-marked (marked outside) (daemon_flag ∷ []) [] (codes "p") (codes "l") refl

start-daemon_concrete :
    (start outside (
        env_file_flag
        ∷ codes "e"
        ∷ daemon_flag
        ∷ pid_file_flag
        ∷ codes "p"
        ∷ log_file_flag
        ∷ codes "l"
        ∷ [])
      ≡ record {
        env_file = codes "e";
        command = daemonizes (env_file_flag ∷ codes "e" ∷ []) (codes "p") (codes "l");
      })
    × (start (marked outside) (env_file_flag ∷ codes "e" ∷ [])
        ≡ record { env_file = codes "e"; command = serves })
start-daemon_concrete = start-daemon outside (codes "e") (codes "p") (codes "l") (λ e. cc) refl refl

start_tests :
    (extract_value_flag (codes "--pid-file=/p" ∷ codes "x" ∷ []) pid_file_flag
      ≡ ok (codes "x" ∷ []) (codes "/p"))
    × (extract_value_flag (codes "--pid-file=" ∷ []) pid_file_flag ≡ no_value)
    × (start outside (codes "admin" ∷ codes "list-users" ∷ []) ≡ record {
      env_file = codes "/etc/forge-proxy.env";
      command = admin (codes "list-users" ∷ []);
    })
    × (default_env_file_path (record outside { exists = λ path. false }) ≡ [])
    × ((start (record outside { loads = λ path. false }) []).command ≡ fails)
unfolding starting
start_tests = (refl, refl, refl, refl, refl)

abbrev checks : Checks
checks = record { writer = none; reader = none; oidc_ready = true; last_success = some 5 }

readyz_iff_concrete :
    (((readyz format_int 100 checks).status ≡ 200) ⊎ ((readyz format_int 100 checks).status ≡ 503))
    × (((readyz format_int 100 checks).status ≡ 200) ↔ (
        (checks.writer ≡ none)
        × (checks.reader ≡ none)
        × (checks.oidc_ready ≡ true)
        × IsFresh 100 (some 5)))
readyz_iff_concrete = readyz_iff format_int 100 checks

dispatch_iff_concrete :
    ((dispatch (codes "auth.x.io") (codes "AUTH.x.io") ≡ auth_mux)
      ↔ (to_lower (codes "AUTH.x.io") ≡ to_lower (codes "auth.x.io")))
    × (dispatch (codes "auth.x.io") (codes "AUTH.x.io:8080")
        ≡ dispatch (codes "auth.x.io") (codes "AUTH.x.io"))
    × (dispatch (codes "auth.x.io:8080") (codes "AUTH.x.io")
        ≡ dispatch (codes "auth.x.io") (codes "AUTH.x.io"))
dispatch_iff_concrete =
    dispatch_iff (codes "auth.x.io") (codes "AUTH.x.io") (codes "8080") (omega arith) (omega arith)

ready_tests :
    (healthz.status ≡ 200)
    × ((readyz format_int 100
          (record checks { writer = some (codes "gone"); oidc_ready = false })).body
        ≡ codes "writer db: gone"
          ++ (10 ∷ codes "oidc: JWKS not yet fetched from Slack")
          ++ (10 ∷ []))
    × (dispatch (codes "auth.x.io") (codes "app.x.io") ≡ proxy)
unfolding starting
ready_tests = (refl, refl, refl)

abbrev course : Course
course = record {
  config_fails = false;
  db_fails = false;
  subsystem = built [];
  end = signal;
  shutdown_fails = false;
  ssh_times_out = true;
}

abbrev box : Upstream
box = record { port = 2222; target = codes "box:22"; allowed_roles = [] }

run_tests :
    (setup_logging (codes " WARNING ") ≡ Level.warn)
    × (setup_logging (codes "loud") ≡ Level.info)
    × (build_ssh_subsystem [] (record { host_key = false; ca_key = false; known_hosts = false })
        ≡ disabled)
    × (build_ssh_subsystem
          (box ∷ [])
          (record { host_key = true; ca_key = true; known_hosts = false })
        ≡ broken Broken.known_hosts)
    × ((run (record course { end = http_failed })).1 ≡ true)
unfolding starting
run_tests = (refl, refl, refl, refl, refl)
