-- ===== src/Command/Daemon.antt =====
-- cmd/forge-proxy/daemon.go: the fork of a daemon and its PID file. What the operating system answers is
-- an argument; the log file is opened, but what stands in it is not kept.
pub mod Single
pub mod Tests
use forge_proxy.Base.{
  ℕ, zero, suc, Bytes, codes, is_empty, Bool, true, false, ◌&&◌, ◌||◌, ◌==◌, ◌++◌, List, [], ◌∷◌,
  Option, none, some, if◌then◌else◌,
}
use forge_proxy.Base.Dict.{Dict, lookup, insert}
use forge_proxy.Strings.{trim_space}
use forge_proxy.Decimal.{format_int}
use forge_proxy.Decimal.Signed.{ℤ, pos, negsuc, parse_int}

-- A process that runs: its number, and the arguments and the log of a daemon.
pub record Process : Type 0 where
  pub pid : ℕ
  pub args : List Bytes
  pub log_file : Bytes

-- The files by their paths, and the processes that run.
pub record World : Type 0 where
  pub files : Dict Bytes
  pub live : List Process

-- How the write of a file ends: it is not opened, it breaks off, or it is complete.
pub data Write : Type 0 where
  unopened complete : Write
  partial : Bytes → Write

-- What the operating system answers: which directories can be written, whether the file is unreadable
-- though it is there, which processes may be signalled, and how the calls end.
pub record Outside : Type 0 where
  pub run_writable : Bool
  pub log_writable : Bool
  pub unreadable : Bool
  pub may_signal : ℕ → Bool
  pub log_fails : Bool
  pub start_fails : Bool
  pub new_pid : ℕ
  pub write : Write

pub data Error : Type 0 where
  unreadable_pid_file : Error
  already_running : ℕ → Error
  no_log_file no_start no_pid_file : Error

pub data Result : Type 0 where
  err : Error → Result
  daemonized : ℕ → Bytes → Bytes → Result

-- `resolvePIDFile`
unfoldable pub resolve_pid_file : Outside → Bytes
resolve_pid_file o =
    if o.run_writable then codes "/var/run/forge-proxy.pid" else codes "/tmp/forge-proxy.pid"

-- `resolveLogFile`
unfoldable pub resolve_log_file : Outside → Bytes
resolve_log_file o =
    if o.log_writable then codes "/var/log/forge-proxy.log" else codes "/tmp/forge-proxy.log"

pub runs : ℕ → List Process → Bool
runs pid [] = false
runs pid (p ∷ ps) = (p.pid == pid) || runs pid ps

-- The number in a PID file, unless it is malformed.
positive : Option ℤ → Option ℕ
positive none = none
positive (some (pos zero)) = none
positive (some (pos (suc n))) = some (suc n)
positive (some (negsuc n)) = none

unfoldable pub recorded : Bytes → Option ℕ
unfolding positive parse_int trim_space
recorded text = positive (parse_int (trim_space text))

-- Signal 0, where the file has a number.
probed : Outside → List Process → Option ℕ → Option Error
unfolding runs
probed o live none = none
probed o live (some pid) =
    if runs pid live && o.may_signal pid then some (already_running pid) else none

read_pid_file : Outside → List Process → Option Bytes → Option Error
unfolding probed recorded
read_pid_file o live none = none
read_pid_file o live (some text) =
    if o.unreadable then some unreadable_pid_file else probed o live (recorded text)

-- `checkExistingPIDFile`
unfoldable pub check_existing_pid_file : Outside → Bytes → World → Option Error
unfolding read_pid_file lookup
check_existing_pid_file o path w = read_pid_file o w.live (lookup path w.files)

-- `Process.Kill`
unfoldable pub kill : ℕ → List Process → List Process
kill pid [] = []
kill pid (p ∷ ps) = let rest = kill pid ps in if p.pid == pid then ps else p ∷ rest

pub pid_line : ℕ → Bytes
unfolding format_int
pid_line pid = format_int pid ++ codes "\n"

-- The number of the child, which runs, is written, or the child is killed.
record_pid : Outside → Bytes → Bytes → Write → World → Result × World
unfolding pid_line kill insert
record_pid o pid_file log_file complete w = (
  daemonized o.new_pid log_file pid_file,
  record w { files = insert pid_file (pid_line o.new_pid) w.files },
)
record_pid o pid_file log_file unopened w =
    (err no_pid_file, record w { live = kill o.new_pid w.live })
record_pid o pid_file log_file (partial text) w =
    (err no_pid_file, record { files = insert pid_file text w.files; live = kill o.new_pid w.live })

-- The child, in a session of its own, with its log as output.
abbrev pub child : Outside → List Bytes → Bytes → Process
child o args log_file = record { pid = o.new_pid; args = args; log_file = log_file }

spawn : Outside → List Bytes → Bytes → Bytes → World → Result × World
unfolding record_pid
spawn o args pid_file log_file w =
    if o.log_fails
    then (err no_log_file, w)
    else if o.start_fails
    then (err no_start, w)
    else record_pid o pid_file log_file o.write (record w { live = child o args log_file ∷ w.live })

unless_running : Outside → List Bytes → Bytes → Bytes → Option Error → World → Result × World
unfolding spawn
unless_running o args pid_file log_file (some e) w = (err e, w)
unless_running o args pid_file log_file none w = spawn o args pid_file log_file w

unfoldable pub pid_path : Outside → Bytes → Bytes
unfolding resolve_pid_file
pid_path o pid_file = if is_empty pid_file then resolve_pid_file o else pid_file

unfoldable pub log_path : Outside → Bytes → Bytes
unfolding resolve_log_file
log_path o log_file = if is_empty log_file then resolve_log_file o else log_file

-- `daemonize`
unfoldable pub daemonize : Outside → List Bytes → Bytes → Bytes → World → Result × World
unfolding unless_running check_existing_pid_file pid_path log_path
daemonize o args pid_file log_file w =
    let path = pid_path o pid_file in
    unless_running o args path (log_path o log_file) (check_existing_pid_file o path w) w
