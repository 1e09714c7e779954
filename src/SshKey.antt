-- ===== src/SshKey.antt =====
-- internal/sshkey/store.go: the keys of the bastion, a table with one row for a fingerprint.
pub mod Owned
pub mod Bound
pub mod Tests
use forge_proxy.Base.{
  ℕ, Bytes, Bool, true, false, ◌||◌, ◌&&◌, List, [], ◌∷◌, Option, none, some, ltb, ◌==◌, ◌=ᵇ◌,
  if◌then◌else◌,
}
use forge_proxy.Clock.{unix, from_unix}
use forge_proxy.Db.{TxFaults, with_write_tx}

-- Timestamps are in Unix seconds, and none is NULL.
pub record Row : Type 0 where
  pub id : ℕ
  pub user_id : ℕ
  pub fingerprint : Bytes
  pub key_type : Bytes
  pub public_key : Bytes
  pub label : Option Bytes
  pub created_at : ℕ
  pub last_used_at : Option ℕ

abbrev pub Table : Type 0
Table = List Row

-- A decoded row; a key that was never used has no time of use.
pub record Key : Type 0 where
  pub id : ℕ
  pub user_id : ℕ
  pub fingerprint : Bytes
  pub key_type : Bytes
  pub public_key : Bytes
  pub label : Bytes
  pub created_at : ℕ
  pub last_used_at : Option ℕ

pub data Error : Type 0 where
  not_found fingerprint_taken failed : Error

pub data Result : Type 0 where
  ok : Key → Result
  err : Error → Result

unfoldable pub find : Bytes → Table → Option Row
unfolding ◌=ᵇ◌
find f [] = none
find f (r ∷ rs) = let rest = find f rs in if r.fingerprint =ᵇ f then some r else rest

text_or_empty : Option Bytes → Bytes
text_or_empty none = []
text_or_empty (some s) = s

time_of : Option ℕ → Option ℕ
time_of none = none
time_of (some sec) = some (from_unix sec)

decode : Row → Key
unfolding text_or_empty time_of
decode r = record {
  id = r.id;
  user_id = r.user_id;
  fingerprint = r.fingerprint;
  key_type = r.key_type;
  public_key = r.public_key;
  label = text_or_empty r.label;
  created_at = from_unix r.created_at;
  last_used_at = time_of r.last_used_at;
}

got : Option Row → Result
unfolding decode
got none = err not_found
got (some r) = ok (decode r)

-- `Get`
unfoldable pub get : Bool → Bytes → Table → Result
unfolding find got
get fails f t = if fails then err failed else got (find f t)

-- The INSERT, which the UNIQUE constraint refuses where the fingerprint is there.
insert_found : Bool → Row → Option Row → Table → Option Error × Table
insert_found fails r (some other) t = (some fingerprint_taken, t)
insert_found fails r none t = if fails then (some failed, t) else (none, r ∷ t)

insert_row : Bool → Row → Table → Option Error × Table
unfolding insert_found find
insert_row fails r t = insert_found fails r (find r.fingerprint t) t

new_row : ℕ → ℕ → Bytes → Bytes → Bytes → Bytes → ℕ → Row
new_row id user_id fingerprint key_type public_key label now = record {
  id = id;
  user_id = user_id;
  fingerprint = fingerprint;
  key_type = key_type;
  public_key = public_key;
  label = some label;
  created_at = unix now;
  last_used_at = none;
}

pub added : Key → Option Error × Table → Result × Table
added k (none, t) = (ok k, t)
added k (some e, t) = (err e, t)

-- `Add`, for the id that the database gives.
unfoldable pub add :
    TxFaults → Bool → ℕ → ℕ → ℕ → Bytes → Bytes → Bytes → Bytes → Table → Result × Table
unfolding new_row insert_row added decode with_write_tx
add f fails id now user_id fingerprint key_type public_key label t =
    let r = new_row id user_id fingerprint key_type public_key label now in
    added (record (decode r) { created_at = now }) (with_write_tx f failed (insert_row fails r) t)

unfoldable pub without : Bytes → Table → Table
unfolding ◌=ᵇ◌
without f [] = []
without f (r ∷ rs) = let rest = without f rs in if r.fingerprint =ᵇ f then rest else r ∷ rest

remove_body : Bool → Bytes → Table → Option Error × Table
unfolding without
remove_body fails f t = if fails then (some failed, t) else (none, without f t)

-- `Remove`
unfoldable pub remove : TxFaults → Bool → Bytes → Table → Option Error × Table
unfolding remove_body with_write_tx
remove x fails f t = with_write_tx x failed (remove_body fails f) t

stamp : Bytes → ℕ → Row → Row
unfolding ◌=ᵇ◌
stamp f at r = if r.fingerprint =ᵇ f then record r { last_used_at = some at } else r

stamped : Bytes → ℕ → Table → Table
unfolding stamp
stamped f at [] = []
stamped f at (r ∷ rs) = stamp f at r ∷ stamped f at rs

touch_body : Bool → Bytes → ℕ → Table → Option Error × Table
unfolding stamped
touch_body fails f at t = if fails then (some failed, t) else (none, stamped f at t)

-- `TouchLastUsed`
unfoldable pub touch_last_used : TxFaults → Bool → ℕ → Bytes → Table → Option Error × Table
unfolding touch_body with_write_tx
touch_last_used x fails now f t = with_write_tx x failed (touch_body fails f (unix now)) t

-- The order of the listing: by creation, then by id.
is_before : Row → Row → Bool
is_before a b = ltb a.created_at b.created_at || ((a.created_at == b.created_at) && ltb a.id b.id)

insert_sorted : Row → Table → Table
unfolding is_before
insert_sorted r [] = r ∷ []
insert_sorted r (s ∷ rs) =
    let rest = insert_sorted r rs in if is_before s r then s ∷ rest else r ∷ s ∷ rs

owned : ℕ → Table → Table
unfolding insert_sorted
owned user_id [] = []
owned user_id (r ∷ rs) =
    let rest = owned user_id rs in if r.user_id == user_id then insert_sorted r rest else rest

decode_all : Table → List Key
unfolding decode
decode_all [] = []
decode_all (r ∷ rs) = decode r ∷ decode_all rs

-- `ListByUser`; none is a failure of the query.
unfoldable pub list_by_user : Bool → ℕ → Table → Option (List Key)
unfolding owned decode_all
list_by_user fails user_id t = if fails then none else some (decode_all (owned user_id t))
