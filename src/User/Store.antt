-- ===== src/User/Store.antt =====
-- internal/user/store.go: the users table, a list of rows.
pub mod Granted
pub mod Upserted
use forge_proxy.Base.{
  ℕ, Bytes, Bool, true, false, not, List, [], ◌∷◌, Option, none, some, ◌==◌, ◌=ᵇ◌, all, is_empty,
  if◌then◌else◌,
}
use forge_proxy.Strings.{join}
use forge_proxy.Clock.{unix, from_unix}
use forge_proxy.Db.{TxFaults, with_write_tx}
use forge_proxy.User.{User, Lookup, found, missing, failed, OidcClaims}
use forge_proxy.User.Roles.{is_role_name, parse_roles}

-- Timestamps are in Unix seconds.
pub record Row : Type 0 where
  pub id : ℕ
  pub slack_user_id : Bytes
  pub slack_team_id : Bytes
  pub email : Bytes
  pub name : Bytes
  pub avatar_url : Bytes
  pub roles : Bytes
  pub created_at : ℕ
  pub last_login_at : ℕ

abbrev pub Table : Type 0
Table = List Row

-- The row that a SELECT of one row finds.
unfoldable pub find : (Row → Bool) → Table → Option Row
find p [] = none
find p (r ∷ rs) = let rest = find p rs in if p r then some r else rest

-- An UPDATE of the rows that pass a test.
unfoldable pub update : (Row → Bool) → (Row → Row) → Table → Table
update p f [] = []
update p f (r ∷ rs) = (if p r then f r else r) ∷ update p f rs

abbrev pub has_id : ℕ → Row → Bool
has_id id r = r.id == id

abbrev pub has_slack_id : Bytes → Row → Bool
has_slack_id slack r = r.slack_user_id =ᵇ slack

unfoldable pub user_of : Row → List Bytes → User
user_of r roles = record {
  id = r.id;
  slack_user_id = r.slack_user_id;
  slack_team_id = r.slack_team_id;
  email = r.email;
  name = r.name;
  avatar_url = r.avatar_url;
  roles = roles;
  created_at = from_unix r.created_at;
  last_login_at = from_unix r.last_login_at;
}

decoded : Row → Option (List Bytes) → Lookup
unfolding user_of
decoded r none = failed
decoded r (some roles) = found (user_of r roles)

unfoldable pub queried : Option Row → Lookup
unfolding decoded parse_roles
queried none = missing
queried (some r) = decoded r (parse_roles r.roles)

-- `Get`
unfoldable pub get : Bool → ℕ → Table → Lookup
unfolding queried find
get fails id t = if fails then failed else queried (find (has_id id) t)

-- `GetBySlackID`
unfoldable pub get_by_slack_id : Bool → Bytes → Table → Lookup
unfolding queried find ◌=ᵇ◌
get_by_slack_id fails slack t = if fails then failed else queried (find (has_slack_id slack) t)

pub data Error : Type 0 where
  not_found invalid_role database : Error

pub data RolesResult : Type 0 where
  ok : List Bytes → RolesResult
  err : Error → RolesResult

parsed : Option (List Bytes) → RolesResult
parsed none = err invalid_role
parsed (some rs) = ok rs

roles_of : Option Row → RolesResult
unfolding parsed parse_roles
roles_of none = err not_found
roles_of (some r) = parsed (parse_roles r.roles)

-- `Roles`
unfoldable pub roles : Bool → ℕ → Table → RolesResult
unfolding roles_of find
roles fails id t = if fails then err database else roles_of (find (has_id id) t)

-- No row affected is an error.
updated : Option Row → ℕ → Bytes → Table → Option Error × Table
unfolding update
updated none id text t = (some not_found, t)
updated (some r) id text t = (none, update (has_id id) (λ r. record r { roles = text }) t)

set_body : Bool → ℕ → Bytes → Table → Option Error × Table
unfolding updated find
set_body fails id text t =
    if fails then (some database, t) else updated (find (has_id id) t) id text t

-- `SetRoles`
unfoldable pub set_roles : TxFaults → Bool → ℕ → List Bytes → Table → Option Error × Table
unfolding is_role_name set_body join with_write_tx
set_roles f fails id names t =
    if all is_role_name names
    then with_write_tx f database (set_body fails id (join names (b',' ∷ []))) t
    else (some invalid_role, t)

-- The statements of `UpsertFromOIDC` that can fail.
pub record UpsertFaults : Type 0 where
  pub tx : TxFaults
  pub select : Bool
  pub insert : Bool
  pub update : Bool

inserted : ℕ → ℕ → OidcClaims → Row
inserted new_id now c = record {
  id = new_id;
  slack_user_id = c.slack_user_id;
  slack_team_id = c.slack_team_id;
  email = c.email;
  name = c.name;
  avatar_url = c.avatar_url;
  roles = [];
  created_at = unix now;
  last_login_at = unix now;
}

unfoldable pub refreshed : ℕ → OidcClaims → Row → Row
refreshed now c r = record r {
  slack_team_id = c.slack_team_id;
  email = c.email;
  name = c.name;
  avatar_url = c.avatar_url;
  last_login_at = unix now;
}

-- The user that the handler gets, which has the time of the clock and not that of the row.
signed_in : ℕ → OidcClaims → Row → List Bytes → User
unfolding user_of refreshed
signed_in now c r names = record (user_of (refreshed now c r) names) { last_login_at = now }

fresh : ℕ → ℕ → OidcClaims → User
unfolding user_of inserted
fresh new_id now c = record (user_of (inserted new_id now c) []) {
  created_at = now;
  last_login_at = now;
}

-- The state of the transaction: the user to return, and the table.
abbrev Upserting : Type 0
Upserting = Option User × Table

with_roles : ℕ → OidcClaims → Row → Table → Option (List Bytes) → Option Error × Upserting
unfolding signed_in refreshed update
with_roles now c r t none = (some invalid_role, (none, update (has_id r.id) (refreshed now c) t))
with_roles now c r t (some names) =
    (none, (some (signed_in now c r names), update (has_id r.id) (refreshed now c) t))

upsert_row : UpsertFaults → ℕ → ℕ → OidcClaims → Option Row → Table → Option Error × Upserting
unfolding fresh inserted with_roles parse_roles
upsert_row f new_id now c none t =
    if f.insert
    then (some database, (none, t))
    else (none, (some (fresh new_id now c), inserted new_id now c ∷ t))
upsert_row f new_id now c (some r) t =
    if f.update then (some database, (none, t)) else with_roles now c r t (parse_roles r.roles)

upsert_body : UpsertFaults → ℕ → ℕ → OidcClaims → Upserting → Option Error × Upserting
unfolding upsert_row find ◌=ᵇ◌
upsert_body f new_id now c (u, t) =
    if f.select
    then (some database, (u, t))
    else upsert_row f new_id now c (find (has_slack_id c.slack_user_id) t) t

-- `UpsertFromOIDC`, for the id that the database gives to a new row. A failure rolls back, and
-- returns no user.
unfoldable pub upsert_from_oidc : UpsertFaults → ℕ → ℕ → OidcClaims → Table → Option User × Table
unfolding upsert_body with_write_tx
upsert_from_oidc f new_id now c t =
    (with_write_tx f.tx database (upsert_body f new_id now c) (none, t)).1
