-- ===== src/Admin/Revoked.antt =====
-- What a command that succeeds has changed.
use forge_proxy.Base.{
  ℕ, suc, Bytes, Bool, true, false, List, [], ◌∷◌, map, ◌≡◌, ◌≢◌, refl, sym, subst, Option, none,
  some, arith, is_empty, if◌then◌else◌,
}
use forge_proxy.Strings.{split, trim_space}
use forge_proxy.User.{User, Lookup, found, missing, failed}
use forge_proxy.User.Store as Users
use forge_proxy.User.Store.Granted.{get-set_roles}
use forge_proxy.User.Search.{get_by_email}
use forge_proxy.Session
use forge_proxy.Session.{Session}
use forge_proxy.Session.Lookup.{get-delete_all_for_user, get-delete_all_for_user_other}
use forge_proxy.SshKey
use forge_proxy.SshKey.{Key}
use forge_proxy.SshKey.Bound.{get-remove, remove-found}
use forge_proxy.Admin.Args.{parse_roles_arg}
use forge_proxy.Admin.Named.{without_empty, parse_roles_arg_lem}
use forge_proxy.Admin.{
  Tables, Faults, Error, Line, fails, prints, broken, after_set, set_for, set_roles, after_delete,
  log_out, force_logout, removed, remove_found, remove_by, ssh_remove_key,
}

-- The sessions of a user are gone, those of the others are as they were, and so is the rest.
pub record IsLoggedOut (u : User) (t t' : Tables) : Type 0 where
  pub gone :
      (now : ℕ) (id : Bytes) (s : Session)
      → Session.get now false id t'.sessions ≡ Session.Result.ok s
      → s.user_id ≢ u.id
  pub others :
      (now : ℕ) (id : Bytes) (s : Session)
      → Session.get now false id t.sessions ≡ Session.Result.ok s
      → s.user_id ≢ u.id
      → Session.get now false id t'.sessions ≡ Session.Result.ok s
  pub same_users : t'.users ≡ t.users
  pub same_keys : t'.keys ≡ t.keys

after_delete-none :
    (x : Faults) (lines : List Line) (t : Tables) (r : Option Session.Error × Session.Table)
    → (after_delete x lines t r).error ≡ none
    → (r ≡ (none, r.1)) × ((after_delete x lines t r).tables ≡ record t { sessions = r.1 })
unfolding after_delete prints broken fails
after_delete-none x lines t (none, s) h = (refl, refl)
after_delete-none x lines t (some e, s) h = cc

delete_all-IsLoggedOut :
    (x : Faults) (u : User) (t : Tables) (s : Session.Table)
    → Session.delete_all_for_user x.tx x.exec u.id t.sessions ≡ (none, s)
    → IsLoggedOut u t (record t { sessions = s })
delete_all-IsLoggedOut x u t s h = record {
  gone = λ now id q g. get-delete_all_for_user x.tx x.exec u.id t.sessions s now id q h g;
  others =
      λ now id q g ne. get-delete_all_for_user_other x.tx x.exec u.id t.sessions s now id q h g ne;
  same_users = refl;
  same_keys = refl;
}

log_out-IsLoggedOut :
    (x : Faults) (l : Lookup) (t : Tables)
    → (log_out x l t).error ≡ none
    → (u : User) × (l ≡ found u) × IsLoggedOut u t (log_out x l t).tables
unfolding log_out fails broken
log_out-IsLoggedOut x missing t h = cc
log_out-IsLoggedOut x failed t h = cc
log_out-IsLoggedOut x (found u) t h =
    let r = Session.delete_all_for_user x.tx x.exec u.id t.sessions in
    let (done, after) = after_delete-none x _ t r h in
    (u, refl, subst (IsLoggedOut u t) (sym after) (delete_all-IsLoggedOut x u t r.1 done))

-- When `force-logout` succeeds, the address is a user's, no lookup finds a session of that user any
-- more, those of the other users are found as before, and users and keys are as they were.
pub force_logout-IsLoggedOut :
    (x : Faults) (email : Bytes) (t : Tables)
    → (force_logout x (email ∷ []) t).error ≡ none
    → (u : User) × (get_by_email x.select email t.users ≡ found u)
      × IsLoggedOut u t (force_logout x (email ∷ []) t).tables
unfolding force_logout
force_logout-IsLoggedOut x email t h =
    log_out-IsLoggedOut x (get_by_email x.select email t.users) t h

-- The user has the roles, another user is found as before, and so is the rest.
pub record HasRoles (u : User) (names : List Bytes) (t t' : Tables) : Type 0 where
  pub stored : User
  pub has : Users.get false u.id t'.users ≡ found stored
  pub roles : stored.roles ≡ names
  pub others : (id : ℕ) → id ≢ u.id → Users.get false id t'.users ≡ Users.get false id t.users
  pub same_sessions : t'.sessions ≡ t.sessions
  pub same_keys : t'.keys ≡ t.keys

after_set-none :
    (x : Faults) (u : User) (names : List Bytes) (t : Tables) (r : Option Users.Error × Users.Table)
    → (after_set x u names t r).error ≡ none
    → (r ≡ (none, r.1)) × ((after_set x u names t r).tables ≡ record t { users = r.1 })
unfolding after_set prints broken fails
after_set-none x u names t (none, s) h = (refl, refl)
after_set-none x u names t (some Users.Error.invalid_role, s) h = cc
after_set-none x u names t (some Users.Error.not_found, s) h = cc
after_set-none x u names t (some Users.Error.database, s) h = cc

set-HasRoles :
    (x : Faults) (u : User) (names : List Bytes) (t : Tables) (s : Users.Table)
    → Users.set_roles x.tx x.exec u.id names t.users ≡ (none, s)
    → HasRoles u names t (record t { users = s })
unfolding Users.user_of
set-HasRoles x u names t s h =
    let other =
      λ (id : ℕ) (ne : id ≢ u.id). (get-set_roles x.tx x.exec u.id id names t.users s h ne).2 in
    let (r, _, has) =
      (get-set_roles x.tx x.exec u.id (suc u.id) names t.users s h (omega arith)).1 in
    record {
      stored = Users.user_of r names;
      has = has;
      roles = refl;
      others = other;
      same_sessions = refl;
      same_keys = refl;
    }

set_for-HasRoles :
    (x : Faults) (names : List Bytes) (l : Lookup) (t : Tables)
    → (set_for x names l t).error ≡ none
    → (u : User) × (l ≡ found u) × HasRoles u names t (set_for x names l t).tables
unfolding set_for fails broken
set_for-HasRoles x names missing t h = cc
set_for-HasRoles x names failed t h = cc
set_for-HasRoles x names (found u) t h =
    let r = Users.set_roles x.tx x.exec u.id names t.users in
    let (done, after) = after_set-none x u names t r h in
    (u, refl, subst (HasRoles u names t) (sym after) (set-HasRoles x u names t r.1 done))

set_roles-parsed :
    (x : Faults) (email names : Bytes) (t : Tables)
    → (set_roles x (email ∷ names ∷ []) t).error ≡ none
    → (u : User) × (get_by_email x.select email t.users ≡ found u)
      × HasRoles u (parse_roles_arg names) t (set_roles x (email ∷ names ∷ []) t).tables
unfolding set_roles fails
set_roles-parsed x email names t = given (is_empty (trim_space email))
  where
    l : Lookup
    l = get_by_email x.select email t.users

    given :
        (b : Bool)
        → (if b then fails Error.required t else set_for x (parse_roles_arg names) l t).error ≡ none
        → (u : User) × (l ≡ found u)
          × HasRoles u
              (parse_roles_arg names)
              t
              (if b then fails Error.required t else set_for x (parse_roles_arg names) l t).tables
    given true h = cc
    given false h = set_for-HasRoles x (parse_roles_arg names) l t h

-- When `set-roles` succeeds, the address is a user's, a lookup of the user gives the roles of the
-- argument, which are the parts between its commas, trimmed and without the empty ones, the other users
-- are found as before, and sessions and keys are as they were.
pub set_roles-HasRoles :
    (x : Faults) (email names : Bytes) (t : Tables)
    → (set_roles x (email ∷ names ∷ []) t).error ≡ none
    → (u : User) × (get_by_email x.select email t.users ≡ found u)
      × HasRoles u
          (without_empty (map trim_space (split (trim_space names) b',')))
          t
          (set_roles x (email ∷ names ∷ []) t).tables
set_roles-HasRoles x email names t h =
    let (u, is_user, has) = set_roles-parsed x email names t h in
    let after = (set_roles x (email ∷ names ∷ []) t).tables in
    (u, is_user, subst (λ rs. HasRoles u rs t after) (parse_roles_arg_lem names) has)

-- The fingerprint is unknown, every other is found as before, and so is the rest.
pub record IsRemoved (f : Bytes) (t t' : Tables) : Type 0 where
  pub gone : SshKey.get false f t'.keys ≡ SshKey.Result.err SshKey.Error.not_found
  pub others : (g : Bytes) → g ≢ f → SshKey.get false g t'.keys ≡ SshKey.get false g t.keys
  pub same_users : t'.users ≡ t.users
  pub same_sessions : t'.sessions ≡ t.sessions

remove-IsRemoved :
    (x : Faults) (f : Bytes) (t : Tables) (s : SshKey.Table)
    → SshKey.remove x.tx x.exec f t.keys ≡ (none, s)
    → IsRemoved f t (record t { keys = s })
remove-IsRemoved x f t s h = record {
  gone = (get-remove x.tx x.exec f f t.keys s h).0;
  others = λ g ne. (get-remove x.tx x.exec f g t.keys s h).1 ne;
  same_users = refl;
  same_sessions = refl;
}

removed-IsRemoved :
    (x : Faults) (f : Bytes) (k : Key) (t : Tables) (r : Option SshKey.Error × SshKey.Table)
    → SshKey.remove x.tx x.exec f t.keys ≡ r
    → r.0 ≢ some SshKey.Error.not_found
    → (removed x f k t r).error ≡ none
    → IsRemoved f t (removed x f k t r).tables
unfolding removed prints broken fails
removed-IsRemoved x f k t (none, s) e n h = remove-IsRemoved x f t s e
removed-IsRemoved x f k t (some SshKey.Error.not_found, s) e n h = absurd (n refl)
removed-IsRemoved x f k t (some SshKey.Error.fingerprint_taken, s) e n h = cc
removed-IsRemoved x f k t (some SshKey.Error.failed, s) e n h = cc

get-fails :
    (f : Bytes) (t : SshKey.Table) (r : SshKey.Result)
    → SshKey.get true f t ≡ r
    → r ≡ SshKey.Result.err SshKey.Error.failed
unfolding SshKey.get
get-fails f t r h = sym h

absent-IsRemoved :
    (select : Bool) (f : Bytes) (t : Tables)
    → SshKey.get select f t.keys ≡ SshKey.Result.err SshKey.Error.not_found
    → IsRemoved f t t
absent-IsRemoved true f t h = absurd (ground (arith, get-fails f t.keys _ h))
absent-IsRemoved false f t h = record {
  gone = h;
  others = λ g ne. refl;
  same_users = refl;
  same_sessions = refl;
}

remove_found-IsRemoved :
    (x : Faults) (f : Bytes) (r : SshKey.Result) (t : Tables)
    → SshKey.get x.select f t.keys ≡ r
    → (remove_found x f r t).error ≡ none
    → IsRemoved f t (remove_found x f r t).tables
unfolding remove_found prints broken fails
remove_found-IsRemoved x f (SshKey.Result.err SshKey.Error.not_found) t e h =
    absent-IsRemoved x.select f t e
remove_found-IsRemoved x f (SshKey.Result.err SshKey.Error.fingerprint_taken) t e h = cc
remove_found-IsRemoved x f (SshKey.Result.err SshKey.Error.failed) t e h = cc
remove_found-IsRemoved x f (SshKey.Result.ok k) t e h =
    removed-IsRemoved x f k t (SshKey.remove x.tx x.exec f t.keys) refl
      (remove-found x.tx x.exec f t.keys) h

-- When `ssh-remove-key` succeeds, a lookup no longer finds the fingerprint, whether it was registered
-- or not; every other fingerprint is found as before, and users and sessions are as they were.
pub ssh_remove_key-IsRemoved :
    (x : Faults) (arg : Bytes) (t : Tables)
    → (ssh_remove_key x (arg ∷ []) t).error ≡ none
    → IsRemoved (trim_space arg) t (ssh_remove_key x (arg ∷ []) t).tables
unfolding ssh_remove_key remove_by fails
ssh_remove_key-IsRemoved x arg t = given (trim_space arg) (is_empty (trim_space arg))
  where
    given :
        (f : Bytes) (b : Bool)
        → (if b
            then fails Error.required t
            else remove_found x f (SshKey.get x.select f t.keys) t).error
          ≡ none
        → IsRemoved f t
            (if b
              then fails Error.required t
              else remove_found x f (SshKey.get x.select f t.keys) t).tables
    given f true h = cc
    given f false h = remove_found-IsRemoved x f (SshKey.get x.select f t.keys) t refl h
