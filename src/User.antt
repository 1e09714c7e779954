-- ===== src/User.antt =====
-- internal/user: the accounts.
pub mod Roles
pub mod Store
pub mod Search
pub mod Tests
use forge_proxy.Base.{ℕ, Bytes, List}

-- A decoded row; the id is a positive int64 of the database.
pub record User : Type 0 where
  pub id : ℕ
  pub slack_user_id : Bytes
  pub slack_team_id : Bytes
  pub email : Bytes
  pub name : Bytes
  pub avatar_url : Bytes
  pub roles : List Bytes
  pub created_at : ℕ
  pub last_login_at : ℕ

-- What `Get` of the store returns: `failed` is any error that is not the sentinel.
pub data Lookup : Type 0 where
  found : User → Lookup
  missing failed : Lookup

pub record OidcClaims : Type 0 where
  pub slack_user_id : Bytes
  pub slack_team_id : Bytes
  pub email : Bytes
  pub name : Bytes
  pub avatar_url : Bytes
