-- ===== src/Command/Flags/Child.antt =====
-- The daemon's child.
use forge_proxy.Base.{
  Bytes, Bool, true, false, List, [], ◌∷◌, ◌≡◌, ◌≢◌, ◌⊎◌, inl, inr, refl, sym, ◌∙◌, arith,
}
use forge_proxy.Command.Flags.{
  Extracted, ok, no_value, extract_value_flag, extract_bool_flag, env_file_flag, daemon_flag,
  pid_file_flag, log_file_flag, rebuild_child_args, Outside, Command, fails, daemonizes, serves,
  serve_or_fork, chosen, loaded, file_for, failed, after_log_file, after_pid_file, after_env_file,
  start,
}

-- The surroundings of the child: the mark is set, and the rest is as the parent saw it.
abbrev pub marked : Outside → Outside
marked o = record o { is_daemon_child = true }

serve_or_fork-marked :
    (o : Outside) (daemon : Bool) (env : Bytes) (args : List Bytes) (p l : Bytes)
    → o.is_daemon_child ≡ true
    → serve_or_fork o daemon env args p l ≡ serves
unfolding serve_or_fork
serve_or_fork-marked o true env args p l m = rw m refl
serve_or_fork-marked o false env args p l m = refl

chosen-marked :
    (o : Outside) (daemon : Bool) (env : Bytes) (args child : List Bytes) (p l p' l' : Bytes)
    → o.is_daemon_child ≡ true
    → chosen o daemon env args p l ≢ daemonizes child p' l'
unfolding chosen
chosen-marked o daemon env [] child p l p' l' m h =
    absurd (ground (arith, serve_or_fork-marked o daemon env [] p l m))
chosen-marked o daemon env (a ∷ more) child p l p' l' m h =
    absurd (ground (arith, serve_or_fork-marked o daemon env (a ∷ more) p l m))

loaded-command :
    (o : Outside) (path : Bytes) (c : Command)
    → ((loaded o path c).command ≡ c) ⊎ ((loaded o path c).command ≡ fails)
unfolding loaded
loaded-command o path c = ground arith

after_log_file-marked :
    (o : Outside) (env : Bytes) (daemon : Bool) (pid : Bytes) (r : Extracted) (child : List Bytes)
    (p l : Bytes)
    → o.is_daemon_child ≡ true
    → (after_log_file o env daemon pid r).command ≢ daemonizes child p l
unfolding after_log_file failed
after_log_file-marked o env daemon pid no_value child p l m h = absurd (ground arith)
after_log_file-marked o env daemon pid (ok args log) child p l m h =
    let c = chosen o daemon env args pid log in
    elim (loaded-command o (file_for o env) c) [
      | inl same ↦ chosen-marked o daemon env args child pid log p l m (sym same ∙ h)
      | inr fail ↦ absurd (ground (arith, sym fail ∙ h))
    ]

after_pid_file-marked :
    (o : Outside) (env : Bytes) (daemon : Bool) (r : Extracted) (child : List Bytes) (p l : Bytes)
    → o.is_daemon_child ≡ true
    → (after_pid_file o env daemon r).command ≢ daemonizes child p l
unfolding after_pid_file failed
after_pid_file-marked o env daemon no_value child p l m h = absurd (ground arith)
after_pid_file-marked o env daemon (ok args pid) child p l m h =
    after_log_file-marked o env daemon pid (extract_value_flag args log_file_flag) child p l m h

after_env_file-marked :
    (o : Outside) (r : Extracted) (child : List Bytes) (p l : Bytes)
    → o.is_daemon_child ≡ true
    → (after_env_file o r).command ≢ daemonizes child p l
unfolding after_env_file failed
after_env_file-marked o no_value child p l m h = absurd (ground arith)
after_env_file-marked o (ok args env) child p l m h =
    let r = extract_bool_flag args daemon_flag in
    after_pid_file-marked o env r.1 (extract_value_flag r.0 pid_file_flag) child p l m h

-- A process that has the mark of a daemon's child starts no other daemon, whatever its arguments.
pub start-marked :
    (o : Outside) (args child : List Bytes) (p l : Bytes)
    → o.is_daemon_child ≡ true
    → (start o args).command ≢ daemonizes child p l
unfolding start
start-marked o args child p l m h =
    after_env_file-marked o (extract_value_flag args env_file_flag) child p l m h

-- The flags in their order start a daemon whose child gets the file of variables and no flag of the
-- daemon; the child loads the same file and serves.
pub start-daemon :
    (o : Outside) (env pid log : Bytes)
    → env ≢ []
    → o.loads env ≡ true
    → o.is_daemon_child ≡ false
    → (start o (env_file_flag ∷ env ∷ daemon_flag ∷ pid_file_flag ∷ pid ∷ log_file_flag ∷ log ∷ [])
        ≡ record { env_file = env; command = daemonizes (env_file_flag ∷ env ∷ []) pid log })
      × (start (marked o) (env_file_flag ∷ env ∷ []) ≡ record { env_file = env; command = serves })
unfolding start after_env_file after_pid_file after_log_file chosen serve_or_fork loaded
    extract_value_flag extract_bool_flag rebuild_child_args
start-daemon o [] pid log given loads unmarked = absurd (given refl)
start-daemon o (c ∷ env) pid log given loads unmarked = (rw (loads, unmarked) refl, rw loads refl)
