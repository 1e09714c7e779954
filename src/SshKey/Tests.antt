-- ===== src/SshKey/Tests.antt =====
-- internal/sshkey on a concrete table.
use forge_proxy.Base.{codes, false, List, [], ◌∷◌, ◌≡◌, ◌≢◌, refl, none, some, arith}
use forge_proxy.Db.{TxFaults}
use forge_proxy.SshKey.{
  Row, Table, not_found, fingerprint_taken, err, find, get, add, remove, touch_last_used,
  list_by_user,
}
use forge_proxy.SshKey.Owned.{IsOwned, Op, adds, touches, removes, run, run-IsOwned}

keeping : Unit {0}
unfolding find get add remove touch_last_used list_by_user run
keeping = tt

abbrev no_faults : TxFaults
no_faults = record { begin = false; commit = false }

abbrev laptop : Row
laptop = record {
  id = 1;
  user_id = 7;
  fingerprint = codes "f1";
  key_type = codes "ssh-rsa";
  public_key = 1 ∷ [];
  label = none;
  created_at = 3;
  last_used_at = none;
}

abbrev table : Table
table = laptop ∷ []

abbrev ops : List Op
ops =
    adds no_faults false 2 5_000_000_000 8 (codes "f1") (codes "ssh-rsa") [] (codes "mine")
    ∷ adds no_faults false 2 5_000_000_000 8 (codes "f2") (codes "ssh-rsa") [] (codes "desk")
    ∷ touches no_faults false 6_500_000_000 (codes "f1")
    ∷ removes no_faults false (codes "f2")
    ∷ []

other-ne : codes "f2" ≢ codes "f1"
other-ne e = ground arith

run-IsOwned_example : IsOwned (codes "f1") 7 (run ops table)
unfolding keeping
run-IsOwned_example = run-IsOwned (codes "f1") 7 ops table (other-ne, tt) (laptop, refl, refl)

table_tests :
    (run ops table ≡ record laptop { last_used_at = some 6 } ∷ [])
    × ((add no_faults false 2 0 8 (codes "f1") [] [] [] table).0 ≡ err fingerprint_taken)
    × (get false (codes "f9") table ≡ err not_found)
    × (list_by_user false 8 table ≡ some [])
unfolding keeping
table_tests = (refl, refl, refl, refl)
