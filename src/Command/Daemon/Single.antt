-- ===== src/Command/Daemon/Single.antt =====
-- cmd/forge-proxy/daemon.go: a second start, and what a failed start leaves.
use forge_proxy.Base.{
  ℕ, suc, ◌^◌, ◌<◌, Bytes, true, false, ◌∷◌, List, Option, none, some, ◌≡◌, ◌⊎◌, inl, inr, refl, ap,
  ◌∙◌, arith, All, all-All-true, Bool-cases, =ᵇ_refl, [],
}
use forge_proxy.Base.Dict.{lookup, lookup-insert}
use forge_proxy.Strings.{is_digit, is_space}
use forge_proxy.Strings.Trimming.{trim_space-line}
use forge_proxy.Decimal.{format_int, format_int-digits}
use forge_proxy.Decimal.Signed.{parse_int-format_int}
use forge_proxy.Command.Daemon.{
  Process, World, Write, unopened, complete, partial, Outside, Error, already_running, no_log_file,
  no_start, no_pid_file, Result, err, daemonized, runs, positive, recorded, probed, read_pid_file,
  check_existing_pid_file, kill, pid_line, record_pid, spawn, unless_running, pid_path, log_path,
  daemonize, child,
}

digits-plain : (s : Bytes) → All (λ c. is_digit c ≡ true) s → All (λ c. is_space c ≡ false) s
unfolding is_digit is_space
digits-plain [] h = tt
digits-plain (c ∷ s) (h, hs) = (ground arith, digits-plain s hs)

recorded-pid_line : (n : ℕ) → suc n < 2 ^ 63 → recorded (pid_line (suc n)) ≡ some (suc n)
unfolding recorded pid_line
recorded-pid_line n h =
    let plain =
      digits-plain (format_int (suc n))
        (all-All-true is_digit (format_int (suc n)) (format_int-digits (suc n)).0) in
    rw (trim_space-line (format_int (suc n)) plain, parse_int-format_int (suc n) h)
      (unfold positive in refl)

kill-head : (p : Process) (ps : List Process) → kill p.pid (p ∷ ps) ≡ ps
unfolding kill
kill-head p ps = ground arith

-- How a start ends: no process more runs, or the child runs and its number is in the file.
abbrev pub Ends : Outside → List Bytes → Bytes → Bytes → World → Result × World → Type 0
Ends o args path log w r =
    ((e : Error) × (r.0 ≡ err e) × (r.1.live ≡ w.live))
    ⊎ ((r.0 ≡ daemonized o.new_pid log path)
        × (r.1.live ≡ child o args log ∷ w.live)
        × (lookup path r.1.files ≡ some (pid_line o.new_pid)))

record_pid-Ends :
    (o : Outside) (args : List Bytes) (path log : Bytes) (out : Write) (w : World)
    → Ends o args path log w
        (record_pid o path log out (record w { live = child o args log ∷ w.live }))
unfolding record_pid
record_pid-Ends o args path log unopened w =
    inl (no_pid_file, refl, kill-head (child o args log) w.live)
record_pid-Ends o args path log (partial text) w =
    inl (no_pid_file, refl, kill-head (child o args log) w.live)
record_pid-Ends o args path log complete w =
    inr (refl, refl, rw (lookup-insert path path (pid_line o.new_pid) w.files, =ᵇ_refl path) refl)

spawn-Ends :
    (o : Outside) (args : List Bytes) (path log : Bytes) (w : World)
    → Ends o args path log w (spawn o args path log w)
unfolding spawn
spawn-Ends o args path log w = elim (Bool-cases o.log_fails) [
  | inl fails ↦ rw fails (inl (no_log_file, refl, refl))
  | inr opens ↦ elim (Bool-cases o.start_fails) [
    | inl fails ↦ rw (opens, fails) (inl (no_start, refl, refl))
    | inr starts ↦ rw (opens, starts) (record_pid-Ends o args path log o.write w)
  ]
]

unless_running-Ends :
    (o : Outside) (args : List Bytes) (path log : Bytes) (found : Option Error) (w : World)
    → Ends o args path log w (unless_running o args path log found w)
unfolding unless_running
unless_running-Ends o args path log (some e) w = inl (e, refl, refl)
unless_running-Ends o args path log none w = spawn-Ends o args path log w

daemonize-Ends :
    (o : Outside) (args : List Bytes) (pid_file log_file : Bytes) (w : World)
    → Ends o args
        (pid_path o pid_file)
        (log_path o log_file)
        w
        (daemonize o args pid_file log_file w)
unfolding daemonize
daemonize-Ends o args pid_file log_file w =
    unless_running-Ends o args (pid_path o pid_file) (log_path o log_file)
      (check_existing_pid_file o (pid_path o pid_file) w) w

check-running :
    (o : Outside) (path : Bytes) (n : ℕ) (w : World)
    → suc n < 2 ^ 63
    → lookup path w.files ≡ some (pid_line (suc n))
    → runs (suc n) w.live ≡ true
    → o.unreadable ≡ false
    → o.may_signal (suc n) ≡ true
    → check_existing_pid_file o path w ≡ some (already_running (suc n))
unfolding check_existing_pid_file read_pid_file probed
check-running o path n w small file live readable may =
    rw file (rw (readable, recorded-pid_line n small) (rw (live, may) refl))

-- A start ends with an error and no process more than before, or the child runs and is reported by its
-- number. In that case, as long as the child runs and nobody changes the PID file, a later start with
-- the same file by somebody who may read the file and signal the child is refused, whatever else has
-- changed, and changes nothing.
pub daemonize_twice :
    (o o' : Outside) (args args' : List Bytes) (pid_file pid_file' log_file log_file' : Bytes)
    (n : ℕ) (w v : World)
    → o.new_pid ≡ suc n
    → suc n < 2 ^ 63
    → pid_path o' pid_file' ≡ pid_path o pid_file
    → lookup (pid_path o pid_file) v.files
      ≡ lookup (pid_path o pid_file) (daemonize o args pid_file log_file w).1.files
    → runs (suc n) v.live ≡ true
    → o'.unreadable ≡ false
    → o'.may_signal (suc n) ≡ true
    → let r = daemonize o args pid_file log_file w in
      ((e : Error) × (r.0 ≡ err e) × (r.1.live ≡ w.live))
      ⊎ ((r.0 ≡ daemonized (suc n) (log_path o log_file) (pid_path o pid_file))
          × (r.1.live ≡ child o args (log_path o log_file) ∷ w.live)
          × (daemonize o' args' pid_file' log_file' v ≡ (err (already_running (suc n)), v)))
daemonize_twice o o' args args' pid_file pid_file' log_file log_file' n w v fresh small same kept
      live readable may =
    elim (daemonize-Ends o args pid_file log_file w) [
      | inl failed ↦ inl failed
      | inr (reported, more, file) ↦ inr (
        reported ∙ ap (λ p. daemonized p (log_path o log_file) (pid_path o pid_file)) fresh,
        more,
        (unfold daemonize unless_running in
            rw
              (check-running o' (pid_path o' pid_file') n v small
                (ap (λ p. lookup p v.files) same ∙ kept ∙ file ∙ ap (λ p. some (pid_line p)) fresh)
                live readable may)
              refl),
      )
    ]
