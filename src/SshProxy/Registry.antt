-- ===== src/SshProxy/Registry.antt =====
-- internal/sshproxy/sessions.go and server.go: the registry of live connections. Its mutex makes each
-- operation one step, and a connection is named by a number.
pub mod Listed
use forge_proxy.Base.{
  ℕ, Bytes, Bool, true, false, not, ◌||◌, List, [], ◌∷◌, ◌==◌, ◌=ᵇ◌, is_empty, length,
  if◌then◌else◌,
}

-- `sessionEntry`; the two functions of an entry are there or not.
pub record Entry : Type 0 where
  pub user_id : ℕ
  pub email : Bytes
  pub port : ℕ
  pub client_addr : Bytes
  pub connected_at : ℕ
  pub cancel : Bool
  pub close_conn : Bool

abbrev pub Registry : Type 0
Registry = List (ℕ × Entry)

-- `SessionInfo`
pub record SessionInfo : Type 0 where
  pub user_id : ℕ
  pub email : Bytes
  pub port : ℕ
  pub client_addr : Bytes
  pub connected_at : ℕ

-- The function that `registerConn` returns.
unfoldable pub unregister : ℕ → Registry → Registry
unregister c [] = []
unregister c ((d, e) ∷ rest) =
    let kept = unregister c rest in if d == c then kept else (d, e) ∷ kept

entered : ℕ → Bytes → ℕ → Bool → Entry
entered port client_addr now close_conn = record {
  user_id = 0;
  email = [];
  port = port;
  client_addr = client_addr;
  connected_at = now;
  cancel = false;
  close_conn = close_conn;
}

-- `registerConnWith`
unfoldable pub register : ℕ → ℕ → Bytes → ℕ → Bool → Registry → Registry
unfolding entered unregister
register c port client_addr now close_conn r =
    (c, entered port client_addr now close_conn) ∷ unregister c r

-- `attachIdentity`: a connection that is gone stays so.
unfoldable pub attach_identity : ℕ → ℕ → Bytes → Registry → Registry
attach_identity c user_id email [] = []
attach_identity c user_id email ((d, e) ∷ rest) =
    let others = attach_identity c user_id email rest in
    if d == c
    then (d, record e { user_id = user_id; email = email; cancel = true }) ∷ others
    else (d, e) ∷ others

pub info_of : Entry → SessionInfo
info_of e = record {
  user_id = e.user_id;
  email = e.email;
  port = e.port;
  client_addr = e.client_addr;
  connected_at = e.connected_at;
}

-- `List`
unfoldable pub list : Registry → List SessionInfo
unfolding info_of
list [] = []
list ((c, e) ∷ rest) =
    let others = list rest in if is_empty e.email then others else info_of e ∷ others

-- `forceClose`: the entries that are cancelled and closed.
unfoldable pub force_close : (Entry → Bool) → Registry → Registry
force_close p [] = []
force_close p ((c, e) ∷ rest) =
    let others = force_close p rest in if not e.cancel || not (p e) then others else (c, e) ∷ others

-- `ForceCloseByEmail`
unfoldable pub force_close_by_email : Bytes → Registry → Registry
unfolding force_close ◌=ᵇ◌
force_close_by_email email r = if is_empty email then [] else force_close (λ e. e.email =ᵇ email) r

-- `ForceCloseByUser`
unfoldable pub force_close_by_user : ℕ → Registry → Registry
unfolding force_close
force_close_by_user user_id r =
    if user_id == 0 then [] else force_close (λ e. e.user_id == user_id) r

-- The connections that `Shutdown` closes.
unfoldable pub closers : Registry → List ℕ
closers [] = []
closers ((c, e) ∷ rest) = let others = closers rest in if e.close_conn then c ∷ others else others
