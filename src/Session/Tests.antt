-- ===== src/Session/Tests.antt =====
-- internal/session on a concrete table.
use forge_proxy.Base.{
  ℕ, ◌+◌, ◌*◌, ◌≤◌, ◌<◌, codes, true, false, List, [], ◌∷◌, ◌≡◌, ◌≢◌, ◌⊎◌, refl, none, some, arith,
  All,
}
use forge_proxy.Clock.{second, unix}
use forge_proxy.Session.Rows.{Row, find}
use forge_proxy.Session.{
  Table, Session, Options, not_found, expired, failed, ok, err, create, get, touch, delete,
  delete_all_for_user, sweep,
}
use forge_proxy.Session.Lookup.{
  get-delete, get-delete_all_for_user, get-delete_all_for_user_other, get-sweep, sweep-fresh,
}
use forge_proxy.Session.Written.{
  get-create, IsTouched, touch-IsTouched, no_tx_faults, no_faults, find-touch,
}
use forge_proxy.Session.Capped.{Op, creates, touches, run, get-run_capped}
use forge_proxy.Session.Sweeper.{Sweeper, Tick, tick, Ticked, tick_cases, run-last_success}
use forge_proxy.Session.Sweeper

storing : Unit {0}
unfolding create get touch delete delete_all_for_user sweep find run tick Sweeper.run
storing = tt

abbrev day : ℕ
day = 86_400_000_000_000

abbrev hour : ℕ
hour = 3_600_000_000_000

abbrev options : Options
options = record { lifetime = 2 * hour; idle_timeout = hour; cookie_domain = [] }

abbrev creation : List Op
creation =
    creates (some (codes "a")) day no_tx_faults false 7 (codes "ua") (codes "ip")
    ∷ creates (some (codes "b")) (day + 1_500_000_000) no_tx_faults false 8 (codes "ua")
        (codes "ip")
    ∷ []

abbrev table : Table
table = run options creation []

-- A touch after half an hour, and one after an hour and a half more that the cap cuts short.
abbrev later : List Op
later =
    touches (day + 1_800_000_000_000) no_faults (codes "a") table
    ∷ touches (day + 5_000_000_000_000) no_faults (codes "a")
        (run options (touches (day + 1_800_000_000_000) no_faults (codes "a") table ∷ []) table)
    ∷ []

abbrev ops : List Op
ops =
    creates (some (codes "a")) day no_tx_faults false 7 (codes "ua") (codes "ip")
    ∷ creates (some (codes "b")) (day + 1_500_000_000) no_tx_faults false 8 (codes "ua")
        (codes "ip")
    ∷ later

abbrev row_a : Row
row_a = record {
  id = codes "a";
  user_id = 7;
  created_at = 86_400;
  last_seen_at = 86_400;
  expires_at = 90_000;
  user_agent = some (codes "ua");
  ip = some (codes "ip");
}

abbrev session_a : Session
session_a = record {
  id = codes "a";
  user_id = 7;
  created_at = day;
  last_seen_at = day;
  expires_at = day + hour;
  user_agent = codes "ua";
  ip = codes "ip";
}

-- The same session after both touches.
abbrev capped_a : Session
capped_a = record session_a { last_seen_at = day + 5_000_000_000_000; expires_at = day + 2 * hour }

table_tests :
    (find (codes "a") table ≡ some row_a)
    × (get day false (codes "a") table ≡ ok session_a)
    × (get day true (codes "a") table ≡ err failed)
    × (get day false (codes "c") table ≡ err not_found)
unfolding storing
table_tests = (refl, refl, refl, refl)

get-run_capped_example :
    (day + 7_000_000_000_000 < capped_a.expires_at)
    × (capped_a.expires_at < capped_a.created_at + options.lifetime + second)
unfolding storing
get-run_capped_example =
    get-run_capped options ops (day + 7_000_000_000_000) (codes "a") capped_a (omega arith) refl

get-create_concrete :
    (session_a.id ≡ codes "a")
    × (session_a.user_id ≡ 7)
    × (session_a.expires_at ≡ day + hour)
    × (get
          (day + second)
          false
          (codes "a")
          (create options
            (some (codes "a"))
            day
            no_tx_faults
            false
            7
            (codes "ua")
            (codes "ip")
            []).1
        ≡ ok session_a)
unfolding storing
get-create_concrete =
    get-create options (codes "a") day no_tx_faults false 7 (codes "ua") (codes "ip") []
      (create options (some (codes "a")) day no_tx_faults false 7 (codes "ua") (codes "ip") []).1
      session_a (day + second) (codes "a") refl

touch-IsTouched_example :
    IsTouched options
      (day + 1_800_000_000_000)
      no_faults
      (codes "a")
      (codes "a")
      table
      (touch options (day + 1_800_000_000_000) no_faults (codes "a") table table).1
touch-IsTouched_example =
    touch-IsTouched options (day + 1_800_000_000_000) no_faults (codes "a") (codes "a") table table

find-touch_concrete :
    ((touch options (day + 1_800_000_000_000) no_faults (codes "a") table table).0 ≡ none)
    × (find
          (codes "a")
          (touch options (day + 1_800_000_000_000) no_faults (codes "a") table table).1
        ≡ some (record row_a { last_seen_at = 88_200; expires_at = 91_800 }))
unfolding storing
find-touch_concrete =
    find-touch options (day + 1_800_000_000_000) (codes "a") table row_a refl (omega arith)
      (omega arith)

abbrev without_a : Table
without_a = (delete no_tx_faults false (codes "a") table).1

get-delete_concrete : get day false (codes "a") without_a ≡ err not_found
unfolding storing
get-delete_concrete = get-delete no_tx_faults false (codes "a") (codes "a") table without_a day refl

abbrev session_b : Session
session_b = record {
  id = codes "b";
  user_id = 8;
  created_at = day + second;
  last_seen_at = day + second;
  expires_at = day + hour + second;
  user_agent = codes "ua";
  ip = codes "ip";
}

abbrev without_7 : Table
without_7 = (delete_all_for_user no_tx_faults false 7 table).1

get-delete_all_for_user_concrete : session_b.user_id ≢ 7
unfolding storing
get-delete_all_for_user_concrete =
    get-delete_all_for_user no_tx_faults false 7 table without_7 day (codes "b") session_b refl refl

get-delete_all_for_user_other_concrete : get day false (codes "b") without_7 ≡ ok session_b
unfolding storing
get-delete_all_for_user_other_concrete =
    get-delete_all_for_user_other no_tx_faults false 7 table without_7 day (codes "b") session_b
      refl refl (omega arith)

-- A time at which the one session has expired and the other has not.
abbrev between : ℕ
between = day + hour + 500_000_000

abbrev swept : Table
swept = (sweep no_tx_faults false (day + hour + second) table).1

get-sweep_example :
    get (day + hour) false (codes "b") (sweep no_tx_faults false (day + hour) table).1
    ≡ ok session_b
unfolding storing
get-sweep_example =
    get-sweep no_tx_faults false (day + hour) table (sweep no_tx_faults false (day + hour) table).1
      (day + hour) (codes "b") session_b refl refl (omega arith)

sweep-fresh_concrete : All (λ r. unix (day + hour + second) ≤ r.expires_at) swept
unfolding storing
sweep-fresh_concrete = sweep-fresh no_tx_faults false (day + hour + second) table swept refl

sweep_tests :
    (get between false (codes "a") table ≡ err expired)
    × (get between false (codes "b") table ≡ ok session_b)
    × (find (codes "a") swept ≡ none)
unfolding storing
sweep_tests = (refl, refl, refl)

abbrev resting : Sweeper
resting = record { last_successful_sweep_at = none; table = table }

tick_cases_concrete :
    (((tick no_tx_faults false (day + 2 * hour) resting).last_successful_sweep_at
        ≡ some (day + 2 * hour))
      × All
          (λ q. unix (day + 2 * hour) ≤ q.expires_at)
          (tick no_tx_faults false (day + 2 * hour) resting).table)
    ⊎ (tick no_tx_faults false (day + 2 * hour) resting ≡ resting)
tick_cases_concrete = tick_cases no_tx_faults false (day + 2 * hour) resting

abbrev ticks : List Tick
ticks =
    record { now = day; tx = no_tx_faults; fails = false; before = table }
    ∷ record { now = day + hour; tx = no_tx_faults; fails = true; before = table }
    ∷ []

run_tests : (Sweeper.run ticks resting).last_successful_sweep_at ≡ some day
unfolding storing
run_tests = refl
