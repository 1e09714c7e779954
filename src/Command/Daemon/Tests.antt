-- ===== src/Command/Daemon/Tests.antt =====
-- Tests of cmd/forge-proxy/daemon.go.
use forge_proxy.Base.{codes, true, false, [], ◌∷◌, none, some, ◌≡◌, ◌⊎◌, refl, arith}
use forge_proxy.Command.Daemon.{
  World, complete, unopened, Outside, Error, already_running, no_pid_file, err, daemonized,
  recorded, child, pid_path, daemonize,
}
use forge_proxy.Command.Daemon.Single.{daemonize_twice}

abbrev system : Outside
system = record {
  run_writable = true;
  log_writable = false;
  unreadable = false;
  may_signal = λ p. true;
  log_fails = false;
  start_fails = false;
  new_pid = 42;
  write = complete;
}

abbrev later_system : Outside
later_system = record system { new_pid = 43; log_writable = true }

abbrev empty : World
empty = record { files = []; live = [] }

abbrev running : World
running = (unfold daemonize in (daemonize system [] [] [] empty).1)

daemon_tests :
    ((daemonize system [] [] [] empty).0
      ≡ daemonized 42 (codes "/tmp/forge-proxy.log") (codes "/var/run/forge-proxy.pid"))
    × ((daemonize (record system { write = unopened }) [] [] [] empty) ≡ (err no_pid_file, empty))
    × ((daemonize later_system [] [] [] (record running { live = [] })).0
        ≡ daemonized 43 (codes "/var/log/forge-proxy.log") (codes "/var/run/forge-proxy.pid"))
    × (recorded (codes " 17 ") ≡ some 17)
    × (recorded (codes "-17") ≡ none)
unfolding daemonize recorded
daemon_tests = (refl, refl, refl, refl, refl)

daemonize_twice_example :
    let r = daemonize system [] [] [] empty in
    ((e : Error) × (r.0 ≡ err e) × (r.1.live ≡ []))
    ⊎ ((r.0 ≡ daemonized 42 (codes "/tmp/forge-proxy.log") (codes "/var/run/forge-proxy.pid"))
        × (r.1.live ≡ child system [] (codes "/tmp/forge-proxy.log") ∷ [])
        × (daemonize later_system [] [] [] running ≡ (err (already_running 42), running)))
unfolding pid_path daemonize
daemonize_twice_example =
    daemonize_twice system later_system [] [] [] [] [] [] 41 empty running refl (omega arith) refl
      refl refl refl refl
