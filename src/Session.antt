-- ===== src/Session.antt =====
-- internal/session: the store, whose table is a list of rows, its cookie, and the sweeper.
pub mod Rows
pub mod Lookup
pub mod Written
pub mod Capped
pub mod Sweeper
pub mod Cookie
pub mod Tests
use forge_proxy.Base.{
  ℕ, ◌+◌, ◌-◌, ◌*◌, ◌/◌, ◌<◌, Bytes, Bool, true, false, not, ◌||◌, List, [], ◌∷◌, ◌≡◌, refl, arith,
  Option, none, some, ltb, ◌==◌, ◌=ᵇ◌, if◌then◌else◌,
}
use forge_proxy.Clock.{second, unix, from_unix}
use forge_proxy.Db.{TxFaults, with_write_tx}
use Rows.{Row, find, remove_where, update_where}

abbrev pub Table : Type 0
Table = List Row

abbrev pub touch_throttle : ℕ
touch_throttle = 60_000_000_000

-- A decoded row.
pub record Session : Type 0 where
  pub id : Bytes
  pub user_id : ℕ
  pub created_at : ℕ
  pub last_seen_at : ℕ
  pub expires_at : ℕ
  pub user_agent : Bytes
  pub ip : Bytes

pub record Options : Type 0 where
  pub lifetime : ℕ
  pub idle_timeout : ℕ
  pub cookie_domain : Bytes

-- `failed` is any error that is not a sentinel: of the random source, or of the database.
pub data Error : Type 0 where
  not_found expired failed : Error

pub data Result (A : Type 0) : Type 0 where
  ok : A → Result A
  err : Error → Result A

-- The INSERT is refused when the id is taken, and when the database fails it.
insert_row : Bool → Row → Table → Option Error × Table
unfolding find
insert_row fails r t = elim (find r.id t) [
  | none ↦ if fails then (some failed, t) else (none, r ∷ t)
  | some _ ↦ (some failed, t)
]

created : Options → Bytes → ℕ → ℕ → Bytes → Bytes → Session
created opts id now user_id user_agent ip = record {
  id = id;
  user_id = user_id;
  created_at = now;
  last_seen_at = now;
  expires_at = now + opts.idle_timeout;
  user_agent = user_agent;
  ip = ip;
}

encode : Session → Row
encode s = record {
  id = s.id;
  user_id = s.user_id;
  created_at = unix s.created_at;
  last_seen_at = unix s.last_seen_at;
  expires_at = unix s.expires_at;
  user_agent = some s.user_agent;
  ip = some s.ip;
}

answer : Session → Option Error × Table → Result Session × Table
answer s (none, t) = (ok s, t)
answer s (some e, t) = (err e, t)

-- `Create`. The id is what the random source gave, or none.
unfoldable pub create :
    Options
    → Option Bytes
    → ℕ
    → TxFaults
    → Bool
    → ℕ
    → Bytes
    → Bytes
    → Table
    → Result Session × Table
unfolding created encode insert_row answer with_write_tx
create opts none now f fails user_id user_agent ip t = (err failed, t)
create opts (some id) now f fails user_id user_agent ip t =
    let s = created opts id now user_id user_agent ip in
    answer s (with_write_tx f failed (insert_row fails (encode s)) t)

text_or_empty : Option Bytes → Bytes
text_or_empty none = []
text_or_empty (some s) = s

decode : Row → Session
unfolding text_or_empty
decode r = record {
  id = r.id;
  user_id = r.user_id;
  created_at = from_unix r.created_at;
  last_seen_at = from_unix r.last_seen_at;
  expires_at = from_unix r.expires_at;
  user_agent = text_or_empty r.user_agent;
  ip = text_or_empty r.ip;
}

got : ℕ → Option Row → Result Session
unfolding decode
got now none = err not_found
got now (some r) = if ltb now (from_unix r.expires_at) then ok (decode r) else err expired

-- `Get`
unfoldable pub get : ℕ → Bool → Bytes → Table → Result Session
unfolding find got
get now fails id t = if fails then err failed else got now (find id t)

got-ok :
    (now : ℕ) (found : Option Row) (s : Session)
    → got now found ≡ ok s
    → (r : Row) × (found ≡ some r) × (now < from_unix r.expires_at) × (s ≡ decode r)
unfolding got
got-ok now none s h = cc
got-ok now (some r) s h = (r, refl, ground arith, ground arith)

-- The new values that `Touch` writes, if it writes.
unfoldable pub renewed : Options → ℕ → Row → Row
renewed opts now r =
    let cap = from_unix r.created_at + opts.lifetime in
    let idle = now + opts.idle_timeout in
    record r { last_seen_at = unix now; expires_at = unix (if ltb cap idle then cap else idle) }

-- Whether a row that was read is too young to be written.
unfoldable pub is_throttled : ℕ → Row → Bool
is_throttled now r = ltb (now - from_unix r.last_seen_at) touch_throttle

-- The statements of `Touch` that can fail.
pub record TouchFaults : Type 0 where
  pub pre_check : Bool
  pub tx : TxFaults
  pub select : Bool
  pub update : Bool

touch_row : Options → ℕ → TouchFaults → Bytes → Option Row → Table → Option Error × Table
unfolding renewed is_throttled update_where
touch_row opts now f id none t = (none, t)
touch_row opts now f id (some r) t =
    if not (ltb now (from_unix r.expires_at))
    then (none, t)
    else if is_throttled now r
    then (none, t)
    else if f.update
    then (some failed, t)
    else (none, update_where (λ q. q.id =ᵇ id) (renewed opts now r) t)

touch_body : Options → ℕ → TouchFaults → Bytes → Table → Option Error × Table
unfolding find touch_row
touch_body opts now f id t =
    if f.select then (some failed, t) else touch_row opts now f id (find id t) t

touch_seen : Options → ℕ → TouchFaults → Bytes → Option Row → Table → Option Error × Table
unfolding is_throttled with_write_tx touch_body
touch_seen opts now f id none t = (none, t)
touch_seen opts now f id (some r) t =
    if is_throttled now r then (none, t) else with_write_tx f.tx failed (touch_body opts now f id) t

-- `Touch`. The first check reads the table through the reader pool, the transaction that follows
-- finds the table as other writers have left it since.
unfoldable pub touch : Options → ℕ → TouchFaults → Bytes → Table → Table → Option Error × Table
unfolding find touch_seen
touch opts now f id seen t =
    if f.pre_check then (some failed, t) else touch_seen opts now f id (find id seen) t

delete_body : Bool → (Row → Bool) → Table → Option Error × Table
unfolding remove_where
delete_body fails p t = if fails then (some failed, t) else (none, remove_where p t)

-- `Delete`
unfoldable pub delete : TxFaults → Bool → Bytes → Table → Option Error × Table
unfolding delete_body with_write_tx ◌=ᵇ◌
delete f fails id = with_write_tx f failed (delete_body fails (λ r. r.id =ᵇ id))

-- `DeleteAllForUser`
unfoldable pub delete_all_for_user : TxFaults → Bool → ℕ → Table → Option Error × Table
unfolding delete_body with_write_tx
delete_all_for_user f fails user_id =
    with_write_tx f failed (delete_body fails (λ r. r.user_id == user_id))

unfoldable pub is_stale : ℕ → Row → Bool
is_stale now r = ltb r.expires_at (unix now)

-- `Sweep`; the count that it returns is the number of rows that are gone.
unfoldable pub sweep : TxFaults → Bool → ℕ → Table → Option Error × Table
unfolding delete_body with_write_tx is_stale
sweep f fails now = with_write_tx f failed (delete_body fails (is_stale now))
