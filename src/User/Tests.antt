-- ===== src/User/Tests.antt =====
-- internal/user on a concrete table.
use forge_proxy.Base.{
  ℕ, Bytes, codes, true, false, List, [], ◌∷◌, ◌≡◌, ◌⊎◌, refl, none, some, arith, All,
}
use forge_proxy.Strings.{join}
use forge_proxy.Clock.{second}
use forge_proxy.Db.{TxFaults}
use forge_proxy.User.{User, found, missing, OidcClaims}
use forge_proxy.User.Roles.{is_role_name, IsRole, parse_roles}
use forge_proxy.User.Store.{
  Row, Table, find, has_id, user_of, get, get_by_slack_id, invalid_role, not_found, set_roles,
  UpsertFaults, upsert_from_oidc,
}
use forge_proxy.User.Store.Granted.{get-set_roles}
use forge_proxy.User.Store.Upserted.{stored, get-upsert_from_oidc}

accounts : Unit {0}
unfolding parse_roles join get get_by_slack_id set_roles upsert_from_oidc find is_role_name
accounts = tt

abbrev no_tx_faults : TxFaults
no_tx_faults = record { begin = false; commit = false }

abbrev no_faults : UpsertFaults
no_faults = record { tx = no_tx_faults; select = false; insert = false; update = false }

abbrev bob : Row
bob = record {
  id = 8;
  slack_user_id = codes "U8";
  slack_team_id = codes "T1";
  email = codes "bob@x.io";
  name = codes "Bob";
  avatar_url = [];
  roles = [];
  created_at = 1;
  last_login_at = 1;
}

abbrev ann : Row
ann = record bob {
  id = 7;
  slack_user_id = codes "U7";
  email = codes "ann@x.io";
  name = codes "Ann";
  roles = codes "dev, ,ops";
}

abbrev table : Table
table = ann ∷ bob ∷ []

abbrev names : List Bytes
names = codes "dev" ∷ codes "on-call_2" ∷ []

roles_tests :
    (parse_roles (codes "dev, ,ops") ≡ some (codes "dev" ∷ codes "ops" ∷ []))
    × (parse_roles (codes "dev,a b") ≡ none)
    × (set_roles no_tx_faults false 8 (codes "a,b" ∷ []) table ≡ (some invalid_role, table))
    × (set_roles no_tx_faults false 9 names table ≡ (some not_found, table))
unfolding accounts
roles_tests = (refl, refl, refl, refl)

get-set_roles_concrete :
    All IsRole names
    × ((r : Row) × (find (has_id 8) table ≡ some r)
        × (get false 8 (set_roles no_tx_faults false 8 names table).1 ≡ found (user_of r names)))
    × (get false 7 (set_roles no_tx_faults false 8 names table).1 ≡ get false 7 table)
unfolding accounts
get-set_roles_concrete =
    get-set_roles no_tx_faults false 8 7 names table (set_roles no_tx_faults false 8 names table).1
      refl (omega arith)

abbrev claims : OidcClaims
claims = record {
  slack_user_id = codes "U7";
  slack_team_id = codes "T1";
  email = codes "ann@y.io";
  name = codes "Ann";
  avatar_url = [];
}

abbrev now : ℕ
now = 5_500_000_000

abbrev signed_in : User
signed_in = record {
  id = 7;
  slack_user_id = codes "U7";
  slack_team_id = codes "T1";
  email = codes "ann@y.io";
  name = codes "Ann";
  avatar_url = [];
  roles = codes "dev" ∷ codes "ops" ∷ [];
  created_at = second;
  last_login_at = now;
}

abbrev after : Table
after = (upsert_from_oidc no_faults 9 now claims table).1

get-upsert_from_oidc_example :
    (get_by_slack_id false (codes "U7") after ≡ found (stored signed_in))
    × (codes "T1" ≡ codes "T1")
    × (codes "ann@y.io" ≡ codes "ann@y.io")
    × (codes "Ann" ≡ codes "Ann")
    × ([] ≡ claims.avatar_url)
    × (now ≡ now)
    × (((get_by_slack_id false (codes "U7") table ≡ missing)
          × (signed_in.id ≡ 9)
          × (signed_in.roles ≡ []))
        ⊎ ((old : User) × (get_by_slack_id false (codes "U7") table ≡ found old)
            × (signed_in.id ≡ old.id)
            × (signed_in.roles ≡ old.roles)
            × (signed_in.created_at ≡ old.created_at)))
unfolding accounts
get-upsert_from_oidc_example =
    get-upsert_from_oidc no_faults 9 now claims table after signed_in refl

newcomer_tests :
    ((upsert_from_oidc no_faults 9 now (record claims { slack_user_id = codes "U9" }) table).0
      ≡ some
          (record signed_in { id = 9; slack_user_id = codes "U9"; roles = []; created_at = now }))
    × (upsert_from_oidc (record no_faults { update = true }) 9 now claims table ≡ (none, table))
unfolding accounts
newcomer_tests = (refl, refl)
