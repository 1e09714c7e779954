-- ===== src/Admin/Results.antt =====
-- What an administration command works on, and how it ends.
use forge_proxy.Base.{
  ℕ, Bytes, codes, Bool, ◌||◌, List, [], ◌++◌, Option, none, some, if◌then◌else◌,
}
use forge_proxy.Strings.{to_lower, has_substring}
use forge_proxy.Db.{TxFaults}
use forge_proxy.User.Store as Users
use forge_proxy.Session
use forge_proxy.SshKey
use forge_proxy.SshKey.{Key}

pub record Tables : Type 0 where
  pub users : Users.Table
  pub sessions : Session.Table
  pub keys : SshKey.Table

-- What goes wrong, and the text of the database's error.
pub record Faults : Type 0 where
  pub select : Bool
  pub list : Bool
  pub tx : TxFaults
  pub exec : Bool
  pub message : Bytes

pub data Error : Type 0 where
  usage required unexpected_args bad_flags no_user invalid_role no_process unknown : Error
  database : Bytes → Error

-- `classifyBusy`, on the text of the error.
unfoldable pub classify_busy : Bytes → Bytes
unfolding has_substring to_lower
classify_busy message =
    let lower = to_lower message in
    if has_substring lower (codes "database is locked") || has_substring lower (codes "sqlite_busy")
    then codes "the database write lock is held by the running server; retry in a few seconds: "
      ++ message
    else message

pub data Line : Type 0 where
  user_line : ℕ → Bytes → Bytes → Bytes → Bytes → Line
  key_line : ℕ → Bytes → Bytes → Bytes → Bytes → Bytes → Line
  header_users header_keys nothing_to_do : Line
  roles_set : Bytes → ℕ → Bytes → Line
  logged_out : Bytes → ℕ → Line
  all_logged_out : ℕ → Line
  key_removed : Bytes → ℕ → ℕ → Line

pub record Outcome : Type 0 where
  pub output : List Line
  pub error : Option Error
  pub tables : Tables

unfoldable pub fails : Error → Tables → Outcome
fails e t = record { output = []; error = some e; tables = t }

unfoldable pub prints : List Line → Tables → Outcome
prints lines t = record { output = lines; error = none; tables = t }

-- An error of the database.
unfoldable pub broken : Faults → Tables → Outcome
unfolding fails classify_busy
broken x t = fails (database (classify_busy x.message)) t
