-- ===== src/Admin/Effects.antt =====
-- What the administration commands leave behind.
use forge_proxy.Base.{
  ℕ, Bytes, codes, Bool, true, false, List, [], ◌∷◌, ◌≡◌, refl, ap, Option, none, some, is_empty,
  if◌then◌else◌, ◌=ᵇ◌,
}
use forge_proxy.Strings.{trim_space}
use forge_proxy.Db.{with_write_tx, with_write_tx-error}
use forge_proxy.User.{User, Lookup, found, missing, failed}
use forge_proxy.User.Store as Users
use forge_proxy.User.Store.Granted.{set_roles-error}
use forge_proxy.User.Search.{get_by_email}
use forge_proxy.Session
use forge_proxy.Session.{Session}
use forge_proxy.Session.Lookup.{delete_all_for_user-error}
use forge_proxy.SshKey
use forge_proxy.SshKey.Bound.{remove-error}
use forge_proxy.SshKey.{Key}
use forge_proxy.Admin.Args.{Flags, parse_flags, parse_roles_arg}
use forge_proxy.Admin.{
  Tables, Faults, Error, Line, Outcome, fails, prints, broken, listed, with_flags, keys_listed,
  keys_of, ssh_list_keys, after_set, set_for, set_roles, after_delete, log_out, force_logout,
  delete_every, force_logout_all, removed, remove_found, remove_by, ssh_remove_key, unreachable,
  ssh_force_logout, dispatch_admin,
}

-- An error leaves the tables as they were.
abbrev Keeps : Tables → Outcome → Type 0
Keeps t o = (e : Error) → o.error ≡ some e → o.tables ≡ t

fails-Keeps : (e : Error) (t : Tables) → Keeps t (fails e t)
unfolding fails
fails-Keeps e t d h = refl

broken-Keeps : (x : Faults) (t : Tables) → Keeps t (broken x t)
unfolding broken
broken-Keeps x t d h = refl

prints-Keeps : (lines : List Line) (s t : Tables) → Keeps t (prints lines s)
unfolding prints
prints-Keeps lines s t d h = cc

if-Keeps :
    (b : Bool) (o p : Outcome) (t : Tables) → Keeps t o → Keeps t p → Keeps t (if b then o else p)
if-Keeps true o p t h k = h
if-Keeps false o p t h k = k

module _ (format_time : ℕ → Bytes) (x : Faults) (t : Tables) where
  listed-Keeps : (us : Option (List User)) → Keeps t (listed format_time x us t)
  unfolding listed prints
  listed-Keeps none = broken-Keeps x t
  listed-Keeps (some us) = λ e h. cc

  with_flags-Keeps : (flags : Option Flags) → Keeps t (with_flags format_time x flags t)
  unfolding with_flags
  with_flags-Keeps none = fails-Keeps _ t
  with_flags-Keeps (some flags) =
      if-Keeps flags.has_positional _ _ t (fails-Keeps _ t) (listed-Keeps _)

  keys_listed-Keeps : (ks : Option (List Key)) → Keeps t (keys_listed format_time x ks t)
  unfolding keys_listed prints
  keys_listed-Keeps none = broken-Keeps x t
  keys_listed-Keeps (some ks) = λ e h. cc

  keys_of-Keeps : (l : Lookup) → Keeps t (keys_of format_time x l t)
  unfolding keys_of
  keys_of-Keeps missing = fails-Keeps _ t
  keys_of-Keeps failed = broken-Keeps x t
  keys_of-Keeps (found u) = keys_listed-Keeps _

  ssh_list_keys-Keeps : (args : List Bytes) → Keeps t (ssh_list_keys format_time x args t)
  unfolding ssh_list_keys
  ssh_list_keys-Keeps [] = fails-Keeps _ t
  ssh_list_keys-Keeps (arg ∷ []) =
      if-Keeps (is_empty (trim_space arg)) _ _ t (fails-Keeps _ t) (keys_of-Keeps _)
  ssh_list_keys-Keeps (arg ∷ other ∷ rest) = fails-Keeps _ t

module _ (x : Faults) (t : Tables) where
  after_set-Keeps :
      (u : User) (names : List Bytes) (r : Option Users.Error × Users.Table)
      → ((e : Users.Error) → r.0 ≡ some e → r.1 ≡ t.users)
      → Keeps t (after_set x u names t r)
  unfolding after_set fails broken prints
  after_set-Keeps u names (none, users) h e k = cc
  after_set-Keeps u names (some Users.Error.invalid_role, users) h e k =
      ap (λ z. record t { users = z }) (h _ refl)
  after_set-Keeps u names (some Users.Error.not_found, users) h e k =
      ap (λ z. record t { users = z }) (h _ refl)
  after_set-Keeps u names (some Users.Error.database, users) h e k =
      ap (λ z. record t { users = z }) (h _ refl)

  set_for-Keeps : (names : List Bytes) (l : Lookup) → Keeps t (set_for x names l t)
  unfolding set_for
  set_for-Keeps names missing = fails-Keeps _ t
  set_for-Keeps names failed = broken-Keeps x t
  set_for-Keeps names (found u) =
      after_set-Keeps u names (Users.set_roles x.tx x.exec u.id names t.users)
        (λ e h. set_roles-error x.tx x.exec u.id names t.users e h)

  set_roles-Keeps : (args : List Bytes) → Keeps t (set_roles x args t)
  unfolding set_roles
  set_roles-Keeps [] = fails-Keeps _ t
  set_roles-Keeps (email ∷ []) = fails-Keeps _ t
  set_roles-Keeps (email ∷ names ∷ []) =
      if-Keeps (is_empty (trim_space email)) _ _ t (fails-Keeps _ t)
        (set_for-Keeps (parse_roles_arg names) (get_by_email x.select email t.users))
  set_roles-Keeps (email ∷ names ∷ other ∷ rest) = fails-Keeps _ t

  after_delete-Keeps :
      (lines : List Line) (r : Option Session.Error × Session.Table)
      → ((e : Session.Error) → r.0 ≡ some e → r.1 ≡ t.sessions)
      → Keeps t (after_delete x lines t r)
  unfolding after_delete broken fails prints
  after_delete-Keeps lines (none, s) h e k = cc
  after_delete-Keeps lines (some d, s) h e k = ap (λ z. record t { sessions = z }) (h d refl)

  log_out-Keeps : (l : Lookup) → Keeps t (log_out x l t)
  unfolding log_out
  log_out-Keeps missing = fails-Keeps _ t
  log_out-Keeps failed = broken-Keeps x t
  log_out-Keeps (found u) =
      after_delete-Keeps _ (Session.delete_all_for_user x.tx x.exec u.id t.sessions)
        (λ e h. delete_all_for_user-error x.tx x.exec u.id t.sessions e h)

  force_logout-Keeps : (args : List Bytes) → Keeps t (force_logout x args t)
  unfolding force_logout
  force_logout-Keeps [] = fails-Keeps _ t
  force_logout-Keeps (email ∷ []) = log_out-Keeps _
  force_logout-Keeps (email ∷ other ∷ rest) = fails-Keeps _ t

  force_logout_all-Keeps : (args : List Bytes) → Keeps t (force_logout_all x args t)
  unfolding force_logout_all
  force_logout_all-Keeps [] =
      after_delete-Keeps _
        (with_write_tx x.tx Session.Error.failed (delete_every x.exec) t.sessions)
        (λ e h. with_write_tx-error x.tx Session.Error.failed (delete_every x.exec) t.sessions e h)
  force_logout_all-Keeps (other ∷ rest) = fails-Keeps _ t

  removed-Keeps :
      (f : Bytes) (k : Key) (r : Option SshKey.Error × SshKey.Table)
      → ((e : SshKey.Error) → r.0 ≡ some e → r.1 ≡ t.keys)
      → Keeps t (removed x f k t r)
  unfolding removed broken fails prints
  removed-Keeps f k (none, s) h e q = cc
  removed-Keeps f k (some SshKey.Error.not_found, s) h e q = cc
  removed-Keeps f k (some SshKey.Error.fingerprint_taken, s) h e q =
      ap (λ z. record t { keys = z }) (h _ refl)
  removed-Keeps f k (some SshKey.Error.failed, s) h e q = ap (λ z. record t { keys = z }) (h _ refl)

  remove_found-Keeps : (f : Bytes) (r : SshKey.Result) → Keeps t (remove_found x f r t)
  unfolding remove_found prints
  remove_found-Keeps f (SshKey.Result.err SshKey.Error.not_found) = λ e h. cc
  remove_found-Keeps f (SshKey.Result.err SshKey.Error.fingerprint_taken) = broken-Keeps x t
  remove_found-Keeps f (SshKey.Result.err SshKey.Error.failed) = broken-Keeps x t
  remove_found-Keeps f (SshKey.Result.ok k) =
      removed-Keeps f k (SshKey.remove x.tx x.exec f t.keys)
        (λ e h. remove-error x.tx x.exec f t.keys e h)

  ssh_remove_key-Keeps : (args : List Bytes) → Keeps t (ssh_remove_key x args t)
  unfolding ssh_remove_key remove_by
  ssh_remove_key-Keeps [] = fails-Keeps _ t
  ssh_remove_key-Keeps (arg ∷ []) =
      if-Keeps (is_empty (trim_space arg)) _ _ t (fails-Keeps _ t) (remove_found-Keeps _ _)
  ssh_remove_key-Keeps (arg ∷ other ∷ rest) = fails-Keeps _ t

  unreachable-Keeps : (l : Lookup) → Keeps t (unreachable x l t)
  unfolding unreachable
  unreachable-Keeps missing = fails-Keeps _ t
  unreachable-Keeps failed = broken-Keeps x t
  unreachable-Keeps (found u) = fails-Keeps _ t

  ssh_force_logout-Keeps : (args : List Bytes) → Keeps t (ssh_force_logout x args t)
  unfolding ssh_force_logout
  ssh_force_logout-Keeps [] = fails-Keeps _ t
  ssh_force_logout-Keeps (arg ∷ []) =
      if-Keeps (is_empty (trim_space arg)) _ _ t (fails-Keeps _ t) (unreachable-Keeps _)
  ssh_force_logout-Keeps (arg ∷ other ∷ rest) = fails-Keeps _ t

-- A command that ends with an error leaves the users, the sessions and the keys as they were,
-- whatever command it is and whatever goes wrong.
pub dispatch_admin-error :
    (format_time : ℕ → Bytes) (x : Faults) (args : List Bytes) (t : Tables) (e : Error)
    → (dispatch_admin format_time x args t).error ≡ some e
    → (dispatch_admin format_time x args t).tables ≡ t
unfolding dispatch_admin
dispatch_admin-error format_time x [] t e h = refl
dispatch_admin-error format_time x (sub ∷ args) t e h =
    if-Keeps (sub =ᵇ codes "list-users") _ _ t (with_flags-Keeps format_time x t (parse_flags args))
      (if-Keeps (sub =ᵇ codes "set-roles") _ _ t (set_roles-Keeps x t args) (
        if-Keeps (sub =ᵇ codes "force-logout") _ _ t (force_logout-Keeps x t args) (
          if-Keeps (sub =ᵇ codes "force-logout-all") _ _ t (force_logout_all-Keeps x t args) (
            if-Keeps (sub =ᵇ codes "ssh-list-keys") _ _ t (ssh_list_keys-Keeps format_time x t args)
              (if-Keeps (sub =ᵇ codes "ssh-remove-key") _ _ t (ssh_remove_key-Keeps x t args) (
                if-Keeps (sub =ᵇ codes "ssh-force-logout") _ _ t (ssh_force_logout-Keeps x t args)
                  (fails-Keeps _ t)))))))
      e h
