-- ===== src/Enrollment/Pages/Comes.antt =====
-- How a request comes to the key store of internal/sshkey, and how it ends otherwise.
use forge_proxy.Base.{ℕ, Bytes, Bool, ◌≡◌, ◌≢◌, refl, ◌⊎◌, inl, inr, Option, none, some, arith}
use forge_proxy.Db.{TxFaults}
use forge_proxy.Net.Header.{Header}
use forge_proxy.Session
use forge_proxy.Session.{Session}
use forge_proxy.Session.Cookie.{read}
use forge_proxy.User.{User, Lookup, found, missing, failed}
use forge_proxy.SshKey.{Table, add, get}
use forge_proxy.Enrollment
use forge_proxy.Enrollment.{Enrollment, Store, consume}
use forge_proxy.Enrollment.Pages.{
  KeyStore, State, Answer, shows, redirects, write_invalid_link, bound, redeemed, for_user,
  for_session, for_cookie, label_of, handle_complete,
}

-- What goes wrong in one request, and what the key store takes from its surroundings.
pub record Run : Type 0 where
  pub tx : TxFaults
  pub insert_fails : Bool
  pub get_fails : Bool
  pub new_id : ℕ
  pub now : ℕ

-- The key store of the program.
unfoldable pub key_store : Run → KeyStore Table
unfolding add get
key_store x = record {
  add = λ user_id fingerprint key_type public_key label t.
      add x.tx x.insert_fails x.new_id x.now user_id fingerprint key_type public_key label t;
  get = λ fingerprint t. get x.get_fails fingerprint t;
}

-- The request is of a user that is signed in, and the token is of the enrollment.
pub record IsRedeemed (sessions : Bytes → Session.Result Session) (users : ℕ → Lookup) (h : Header)
    (token : Bytes) (now : ℕ) (tokens : Store) (user_id : ℕ) (e : Enrollment) : Type 0 where
  pub cookie : Bytes
  pub session : Session
  pub user : User
  pub has_cookie : read h ≡ some cookie
  pub has_session : sessions cookie ≡ Session.Result.ok session
  pub has_user : users session.user_id ≡ found user
  pub is_user : user_id ≡ user.id
  pub has_token : (consume token now tokens).0 ≡ Enrollment.Result.ok e

abbrev pub status : Answer → ℕ
status (shows n p) = n
status (redirects url) = 302

-- No page of success.
abbrev pub Refused : Answer → Type 0
Refused a = status a ≢ 200

invalid-Refused : Refused write_invalid_link
unfolding write_invalid_link
invalid-Refused e = ground arith

module _ (sessions : Bytes → Session.Result Session) (users : ℕ → Lookup) (auth_host : Bytes)
    (x : Run) (h : Header) (token : Bytes) (s : State Table) where
  -- What the request comes to: nothing is registered, or the key of the token for the user.
  abbrev pub Comes : Answer × State Table → Type 0
  Comes r =
      ((r.1.keys ≡ s.keys) × Refused r.0)
      ⊎ ((user_id : ℕ) × (e : Enrollment) × IsRedeemed sessions users h token x.now s.tokens user_id
            e
          × (r.0 ≡ (bound (key_store x) (label_of h) user_id (Enrollment.Result.ok e) s.keys).0)
          × (r.1.keys
              ≡ (bound (key_store x) (label_of h) user_id (Enrollment.Result.ok e) s.keys).1))

  redeemed-Comes :
      (cookie : Bytes) (session : Session) (u : User) (r : Enrollment.Result)
      → read h ≡ some cookie
      → sessions cookie ≡ Session.Result.ok session
      → users session.user_id ≡ found u
      → (consume token x.now s.tokens).0 ≡ r
      → Comes (redeemed (key_store x) token (label_of h) x.now u.id s)
  unfolding redeemed
  redeemed-Comes cookie session u (Enrollment.Result.err e) c d f q =
      rw q (inl (unfold bound in refl, unfold bound in invalid-Refused))
  redeemed-Comes cookie session u (Enrollment.Result.ok e) c d f q = rw q (
      inr (
        u.id,
        e,
        record {
          cookie = cookie;
          session = session;
          user = u;
          has_cookie = c;
          has_session = d;
          has_user = f;
          is_user = refl;
          has_token = q;
        },
        refl,
        refl,
      ))

  for_user-Comes :
      (cookie : Bytes) (session : Session) (l : Lookup)
      → read h ≡ some cookie
      → sessions cookie ≡ Session.Result.ok session
      → users session.user_id ≡ l
      → Comes (for_user (key_store x) token (label_of h) x.now l s)
  unfolding for_user
  for_user-Comes cookie session missing c d f = inl (refl, invalid-Refused)
  for_user-Comes cookie session failed c d f = inl (refl, invalid-Refused)
  for_user-Comes cookie session (found u) c d f =
      redeemed-Comes cookie session u (consume token x.now s.tokens).0 c d f refl

  for_session-Comes :
      (cookie : Bytes) (r : Session.Result Session)
      → read h ≡ some cookie
      → sessions cookie ≡ r
      → Comes (for_session (key_store x) sessions users auth_host token (label_of h) x.now r s)
  unfolding for_session
  for_session-Comes cookie (Session.Result.err e) c d = inl (refl, λ e. ground arith)
  for_session-Comes cookie (Session.Result.ok session) c d =
      for_user-Comes cookie session (users session.user_id) c d refl

  for_cookie-Comes :
      (r : Option Bytes)
      → read h ≡ r
      → Comes (for_cookie (key_store x) sessions users auth_host token (label_of h) x.now r s)
  unfolding for_cookie
  for_cookie-Comes none c = inl (refl, λ e. ground arith)
  for_cookie-Comes (some cookie) c = for_session-Comes cookie (sessions cookie) c refl

  pub handle_complete-Comes :
      Comes (handle_complete (key_store x) sessions users auth_host h token x.now s)
  unfolding handle_complete
  handle_complete-Comes = for_cookie-Comes (read h) refl
