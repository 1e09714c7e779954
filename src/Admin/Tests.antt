-- ===== src/Admin/Tests.antt =====
-- cmd/forge-proxy/admin.go on concrete tables.
use forge_proxy.Base.{ℕ, codes, true, false, [], ◌∷◌, ◌≡◌, refl, none, some}
use forge_proxy.Decimal.{format_int}
use forge_proxy.User.{User, found}
use forge_proxy.User.Roles.{parse_roles}
use forge_proxy.User.Store as Users
use forge_proxy.User.Search.{search, get_by_email}
use forge_proxy.User.Search.Tests.{ann, dev, table}
use forge_proxy.Session
use forge_proxy.Session.Rows
use forge_proxy.SshKey
use forge_proxy.Admin.Args.{parse_roles_arg, parse_flags}
use forge_proxy.Admin.{
  Tables, Faults, unknown, no_process, no_user, unexpected_args, database, Line, classify_busy,
  set_roles, force_logout, ssh_remove_key, dispatch_admin,
}
use forge_proxy.Admin.Effects.{dispatch_admin-error}
use forge_proxy.Admin.Revoked.{
  IsLoggedOut, force_logout-IsLoggedOut, HasRoles, set_roles-HasRoles, IsRemoved,
  ssh_remove_key-IsRemoved,
}

running : Unit {0}
unfolding dispatch_admin parse_roles_arg parse_flags search get_by_email parse_roles classify_busy
    Users.find Users.get Users.set_roles Users.queried Session.delete_all_for_user SshKey.get
    SshKey.remove SshKey.find
running = tt

abbrev quiet : Faults
quiet = record {
  select = false;
  list = false;
  tx = record { begin = false; commit = false };
  exec = false;
  message = [];
}

abbrev locked : Faults
locked = record quiet {
  tx = record { begin = false; commit = true };
  message = codes "Database is locked (5)";
}

abbrev session : ℕ → Rows.Row
session user_id = record {
  id = codes "s";
  user_id = user_id;
  created_at = 0;
  last_seen_at = 0;
  expires_at = 100;
  user_agent = none;
  ip = none;
}

abbrev key : SshKey.Row
key = record {
  id = 1;
  user_id = 7;
  fingerprint = codes "f1";
  key_type = codes "ssh-rsa";
  public_key = [];
  label = none;
  created_at = 3;
  last_used_at = none;
}

abbrev tables : Tables
tables = record { users = table; sessions = session 7 ∷ session 8 ∷ []; keys = key ∷ [] }

abbrev ann_user : User
ann_user = Users.user_of ann dev

dispatch_admin-error_example :
    (dispatch_admin format_int locked (codes "force-logout" ∷ codes "ann@x.io" ∷ []) tables).tables
    ≡ tables
unfolding running
dispatch_admin-error_example =
    dispatch_admin-error format_int locked (codes "force-logout" ∷ codes "ann@x.io" ∷ []) tables
      (database (classify_busy (codes "Database is locked (5)"))) refl

force_logout-IsLoggedOut_example :
    (u : User) × (get_by_email false (codes "ann@x.io") table ≡ found u)
    × IsLoggedOut u tables (force_logout quiet (codes "ann@x.io" ∷ []) tables).tables
unfolding running force_logout
force_logout-IsLoggedOut_example = force_logout-IsLoggedOut quiet (codes "ann@x.io") tables refl

set_roles-HasRoles_example :
    (u : User) × (get_by_email false (codes "ann@x.io") table ≡ found u)
    × HasRoles u
        (codes "ops" ∷ codes "dev" ∷ [])
        tables
        (set_roles quiet (codes "ann@x.io" ∷ codes "ops, dev," ∷ []) tables).tables
unfolding running set_roles
set_roles-HasRoles_example =
    set_roles-HasRoles quiet (codes "ann@x.io") (codes "ops, dev,") tables refl

ssh_remove_key-IsRemoved_concrete :
    IsRemoved (codes "f1") tables (ssh_remove_key quiet (codes "f1" ∷ []) tables).tables
unfolding running ssh_remove_key
ssh_remove_key-IsRemoved_concrete = ssh_remove_key-IsRemoved quiet (codes "f1") tables refl

command_tests :
    (parse_roles_arg (codes " ops, dev,") ≡ codes "ops" ∷ codes "dev" ∷ [])
    × ((dispatch_admin format_int quiet
          (codes "list-users" ∷ codes "--match=ann" ∷ [])
          tables).output
        ≡ Line.header_users
          ∷ Line.user_line 7
              (codes "ann@x.io")
              (codes "Ann")
              (codes "dev")
              (format_int 3_000_000_000)
          ∷ [])
    × ((dispatch_admin format_int quiet
          (codes "list-users" ∷ codes "-match" ∷ codes "a" ∷ codes "b" ∷ [])
          tables).error
        ≡ some unexpected_args)
    × ((dispatch_admin format_int quiet (codes "force-logout-all" ∷ []) tables).tables
        ≡ record tables { sessions = [] })
    × ((dispatch_admin format_int quiet
          (codes "ssh-force-logout" ∷ codes "ann@x.io" ∷ [])
          tables).error
        ≡ some no_process)
    × ((dispatch_admin format_int quiet (codes "force-logout" ∷ codes "eve" ∷ []) tables).error
        ≡ some no_user)
    × ((dispatch_admin format_int quiet (codes "reboot" ∷ []) tables).error ≡ some unknown)
unfolding running
command_tests = (refl, refl, refl, refl, refl, refl, refl)
