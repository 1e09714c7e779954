-- ===== src/Admin.antt =====
-- cmd/forge-proxy/admin.go: the administration commands, over the tables of the stores. The clock's
-- text form is a parameter. A command has its output, an error or none, and the tables after it.
pub mod Args
pub mod Results
pub mod Named
pub mod Effects
pub mod Revoked
pub mod Tests
use forge_proxy.Base.{
  ℕ, Bytes, codes, Bool, true, false, not, ◌||◌, List, [], ◌∷◌, ◌++◌, Option, none, some, ◌=ᵇ◌,
  is_empty, length, if◌then◌else◌,
}
use forge_proxy.Strings.{join, trim_space, to_lower, has_substring}
use forge_proxy.Decimal.{format_int}
use forge_proxy.Db.{TxFaults, with_write_tx}
use forge_proxy.User.{User, Lookup, found, missing, failed}
use forge_proxy.User.Store as Users
use forge_proxy.User.Search.{search, get_by_email}
use forge_proxy.Session
use forge_proxy.SshKey
use forge_proxy.SshKey.{Key}
use forge_proxy.Admin.Args.{Flags, parse_flags, parse_roles_arg}
pub use forge_proxy.Admin.Results.{
  Tables, Faults, Error, Line, Outcome, usage, required, unexpected_args, bad_flags, no_user,
  invalid_role, no_process, unknown, database, user_line, key_line, header_users, header_keys,
  nothing_to_do, roles_set, logged_out, all_logged_out, key_removed,
}
unfoldable pub use forge_proxy.Admin.Results.{fails, prints, broken, classify_busy}

module _ (format_time : ℕ → Bytes) where
  line_of_user : User → Line
  unfolding join
  line_of_user u =
      user_line u.id u.email u.name (join u.roles (b',' ∷ [])) (format_time u.last_login_at)

  lines_of_users : List User → List Line
  unfolding line_of_user
  lines_of_users [] = []
  lines_of_users (u ∷ us) = line_of_user u ∷ lines_of_users us

  listed : Faults → Option (List User) → Tables → Outcome
  unfolding lines_of_users prints broken
  listed x none t = broken x t
  listed x (some us) t = prints (header_users ∷ lines_of_users us) t

  with_flags : Faults → Option Flags → Tables → Outcome
  unfolding listed fails search
  with_flags x none t = fails bad_flags t
  with_flags x (some flags) t =
      if flags.has_positional
      then fails unexpected_args t
      else listed x (search x.select flags.match t.users) t

  -- `adminListUsers`
  unfoldable pub list_users : Faults → List Bytes → Tables → Outcome
  unfolding with_flags parse_flags
  list_users x args t = with_flags x (parse_flags args) t

  -- `formatLastUsed`
  unfoldable pub format_last_used : Option ℕ → Bytes
  format_last_used none = codes "never"
  format_last_used (some at) = format_time at

  line_of_key : Key → Line
  unfolding format_last_used
  line_of_key k =
      key_line k.id k.fingerprint k.key_type k.label (format_time k.created_at)
        (format_last_used k.last_used_at)

  lines_of_keys : List Key → List Line
  unfolding line_of_key
  lines_of_keys [] = []
  lines_of_keys (k ∷ ks) = line_of_key k ∷ lines_of_keys ks

  keys_listed : Faults → Option (List Key) → Tables → Outcome
  unfolding lines_of_keys prints broken
  keys_listed x none t = broken x t
  keys_listed x (some ks) t = prints (header_keys ∷ lines_of_keys ks) t

  keys_of : Faults → Lookup → Tables → Outcome
  unfolding keys_listed fails broken SshKey.list_by_user
  keys_of x missing t = fails no_user t
  keys_of x failed t = broken x t
  keys_of x (found u) t = keys_listed x (SshKey.list_by_user x.list u.id t.keys) t

  -- `adminSSHListKeys`
  unfoldable pub ssh_list_keys : Faults → List Bytes → Tables → Outcome
  unfolding keys_of fails get_by_email trim_space
  ssh_list_keys x (arg ∷ []) t =
      if is_empty (trim_space arg)
      then fails required t
      else keys_of x (get_by_email x.select (trim_space arg) t.users) t
  ssh_list_keys x _ t = fails usage t

after_set : Faults → User → List Bytes → Tables → Option Users.Error × Users.Table → Outcome
unfolding prints fails broken join
after_set x u names t (none, users) =
    prints (roles_set u.email u.id (join names (b',' ∷ [])) ∷ []) (record t { users = users })
after_set x u names t (some Users.Error.invalid_role, users) =
    fails invalid_role (record t { users = users })
after_set x u names t (some Users.Error.not_found, users) = broken x (record t { users = users })
after_set x u names t (some Users.Error.database, users) = broken x (record t { users = users })

set_for : Faults → List Bytes → Lookup → Tables → Outcome
unfolding after_set fails broken Users.set_roles
set_for x names missing t = fails no_user t
set_for x names failed t = broken x t
set_for x names (found u) t = after_set x u names t (Users.set_roles x.tx x.exec u.id names t.users)

-- `adminSetRoles`
unfoldable pub set_roles : Faults → List Bytes → Tables → Outcome
unfolding set_for fails get_by_email parse_roles_arg trim_space
set_roles x (email ∷ names ∷ []) t =
    if is_empty (trim_space email)
    then fails required t
    else set_for x (parse_roles_arg names) (get_by_email x.select email t.users) t
set_roles x _ t = fails usage t

-- The lines of a deletion that succeeded.
after_delete : Faults → List Line → Tables → Option Session.Error × Session.Table → Outcome
unfolding prints broken
after_delete x lines t (none, sessions) = prints lines (record t { sessions = sessions })
after_delete x lines t (some e, sessions) = broken x (record t { sessions = sessions })

log_out : Faults → Lookup → Tables → Outcome
unfolding after_delete fails broken Session.delete_all_for_user
log_out x missing t = fails no_user t
log_out x failed t = broken x t
log_out x (found u) t =
    after_delete x (logged_out u.email u.id ∷ []) t
      (Session.delete_all_for_user x.tx x.exec u.id t.sessions)

-- `adminForceLogout`
unfoldable pub force_logout : Faults → List Bytes → Tables → Outcome
unfolding log_out fails get_by_email
force_logout x (email ∷ []) t = log_out x (get_by_email x.select email t.users) t
force_logout x _ t = fails usage t

delete_every : Bool → Session.Table → Option Session.Error × Session.Table
delete_every fails t = if fails then (some Session.Error.failed, t) else (none, [])

-- `adminForceLogoutAll`
unfoldable pub force_logout_all : Faults → List Bytes → Tables → Outcome
unfolding after_delete delete_every fails with_write_tx
force_logout_all x [] t =
    after_delete x (all_logged_out (length t.sessions) ∷ []) t
      (with_write_tx x.tx Session.Error.failed (delete_every x.exec) t.sessions)
force_logout_all x _ t = fails usage t

removed : Faults → Bytes → Key → Tables → Option SshKey.Error × SshKey.Table → Outcome
unfolding prints broken
removed x f k t (none, keys) = prints (key_removed f k.id k.user_id ∷ []) (record t { keys = keys })
removed x f k t (some SshKey.Error.not_found, keys) =
    prints (nothing_to_do ∷ []) (record t { keys = keys })
removed x f k t (some SshKey.Error.fingerprint_taken, keys) = broken x (record t { keys = keys })
removed x f k t (some SshKey.Error.failed, keys) = broken x (record t { keys = keys })

remove_found : Faults → Bytes → SshKey.Result → Tables → Outcome
unfolding removed prints broken SshKey.remove
remove_found x f (SshKey.Result.err SshKey.Error.not_found) t = prints (nothing_to_do ∷ []) t
remove_found x f (SshKey.Result.err SshKey.Error.fingerprint_taken) t = broken x t
remove_found x f (SshKey.Result.err SshKey.Error.failed) t = broken x t
remove_found x f (SshKey.Result.ok k) t = removed x f k t (SshKey.remove x.tx x.exec f t.keys)

remove_by : Faults → Bytes → Tables → Outcome
unfolding remove_found fails SshKey.get
remove_by x f t =
    if is_empty f then fails required t else remove_found x f (SshKey.get x.select f t.keys) t

-- `adminSSHRemoveKey`
unfoldable pub ssh_remove_key : Faults → List Bytes → Tables → Outcome
unfolding remove_by fails trim_space
ssh_remove_key x (arg ∷ []) t = remove_by x (trim_space arg) t
ssh_remove_key x _ t = fails usage t

unreachable : Faults → Lookup → Tables → Outcome
unfolding fails broken
unreachable x missing t = fails no_user t
unreachable x failed t = broken x t
unreachable x (found u) t = fails no_process t

-- `adminSSHForceLogout`
unfoldable pub ssh_force_logout : Faults → List Bytes → Tables → Outcome
unfolding unreachable fails get_by_email trim_space
ssh_force_logout x (arg ∷ []) t =
    if is_empty (trim_space arg)
    then fails required t
    else unreachable x (get_by_email x.select (trim_space arg) t.users) t
ssh_force_logout x _ t = fails usage t

-- `dispatchAdmin`
unfoldable pub dispatch_admin : (ℕ → Bytes) → Faults → List Bytes → Tables → Outcome
unfolding list_users set_roles force_logout force_logout_all ssh_list_keys ssh_remove_key
    ssh_force_logout fails ◌=ᵇ◌
dispatch_admin format_time x [] t = fails usage t
dispatch_admin format_time x (sub ∷ args) t =
    if sub =ᵇ codes "list-users"
    then list_users format_time x args t
    else if sub =ᵇ codes "set-roles"
    then set_roles x args t
    else if sub =ᵇ codes "force-logout"
    then force_logout x args t
    else if sub =ᵇ codes "force-logout-all"
    then force_logout_all x args t
    else if sub =ᵇ codes "ssh-list-keys"
    then ssh_list_keys format_time x args t
    else if sub =ᵇ codes "ssh-remove-key"
    then ssh_remove_key x args t
    else if sub =ᵇ codes "ssh-force-logout"
    then ssh_force_logout x args t
    else fails unknown t
