-- ===== src/Enrollment/Pages/Single.antt =====
-- internal/sshenroll/handlers.go: later requests with a token, and the key after the first.
use forge_proxy.Base.{
  ℕ, Bytes, false, ◌≡◌, ◌≢◌, refl, sym, ap, subst, ◌∙◌, inl, inr, none, some, arith, List, =ᵇ_refl,
}
use forge_proxy.Base.Dict.{lookup-delete}
use forge_proxy.Net.Header.{Header}
use forge_proxy.Net.Html.{escape_string}
use forge_proxy.Session
use forge_proxy.Session.{Session}
use forge_proxy.Session.Cookie.{read}
use forge_proxy.User.{User, Lookup, found}
use forge_proxy.SshKey
use forge_proxy.SshKey.{Table, find, get, add}
use forge_proxy.SshKey.Owned.{IsOwned}
use forge_proxy.SshKey.Bound.{no_faults, add-fresh, add-binds}
use forge_proxy.Enrollment
use forge_proxy.Enrollment.{Enrollment, Store, checked, consume, peek}
use forge_proxy.Enrollment.Pages.{
  State, Answer, shows, success_page, write_success, add_answer, bound, redeemed, for_user,
  for_session, for_cookie, label_of, handle_complete,
}
use forge_proxy.Enrollment.Pages.Comes.{Run, key_store, status, handle_complete-Comes}
use forge_proxy.Enrollment.Pages.Spent.{Event, NeverMints, IsGone, advance_all, advance_all-IsGone}

-- The browser is signed in as the user.
pub record IsSignedIn (sessions : Bytes → Session.Result Session) (users : ℕ → Lookup) (h : Header)
    (u : User) : Type 0 where
  pub cookie : Bytes
  pub session : Session
  pub has_cookie : read h ≡ some cookie
  pub has_session : sessions cookie ≡ Session.Result.ok session
  pub has_user : users session.user_id ≡ found u

module _ (sessions : Bytes → Session.Result Session) (users : ℕ → Lookup) (auth_host : Bytes) where
  -- What a request of a signed-in user comes to.
  handle_complete-redeemed :
      (x : Run) (h : Header) (token : Bytes) (s : State Table) (u : User)
      → IsSignedIn sessions users h u
      → handle_complete (key_store x) sessions users auth_host h token x.now s
        ≡ redeemed (key_store x) token (label_of h) x.now u.id s
  unfolding handle_complete for_cookie for_session for_user
  handle_complete-redeemed x h token s u i = rw i.has_cookie (rw i.has_session (rw i.has_user refl))

  -- The token is gone after it.
  handle_complete-IsGone :
      (x : Run) (h : Header) (token : Bytes) (s : State Table) (u : User)
      → IsSignedIn sessions users h u
      → IsGone token
          (handle_complete (key_store x) sessions users auth_host h token x.now s).1.tokens
  unfolding consume
  handle_complete-IsGone x h token s u i =
      let spent =
        ap (λ (r : Answer × State Table). r.1.tokens) (handle_complete-redeemed x h token s u i) in
      subst (IsGone token) (sym spent)
        (unfold redeemed in ground (arith, lookup-delete token token s.tokens, =ᵇ_refl token))

consume-gone :
    (token : Bytes) (now : ℕ) (tokens : Store)
    → IsGone token tokens
    → (consume token now tokens).0 ≡ Enrollment.Result.err Enrollment.Error.not_found
unfolding consume checked
consume-gone token now tokens gone = rw gone refl

-- When a signed-in user has opened the second page with a token, a later request with that token
-- registers no key and does not show the page of success, whoever sends it, whatever the sessions
-- and the users are by then, and whatever requests, new tokens and changes of the keys lie between
-- the two, as long as the random source does not give that token again.
pub handle_complete_twice :
    (sessions sessions' : Bytes → Session.Result Session) (users users' : ℕ → Lookup)
    (auth_host : Bytes) (x y : Run) (h g : Header) (token : Bytes) (s : State Table) (u : User)
    (between : List Event)
    → IsSignedIn sessions users h u
    → NeverMints token between
    → let first = handle_complete (key_store x) sessions users auth_host h token x.now s in
      let later = advance_all between first.1 in
      let again = handle_complete (key_store y) sessions' users' auth_host g token y.now later in
      (again.1.keys ≡ later.keys) × (status again.0 ≢ 200)
handle_complete_twice sessions sessions' users users' auth_host x y h g token s u between i never =
    let first = handle_complete (key_store x) sessions users auth_host h token x.now s in
    let later = advance_all between first.1 in
    let gone : IsGone token later.tokens =
      advance_all-IsGone token between first.1 never
        (handle_complete-IsGone sessions users auth_host x h token s u i) in
    elim (handle_complete-Comes sessions' users' auth_host y g token later) [
      | inl r ↦ r
      | inr (user_id, e, redeemed, _, _) ↦
          absurd
            (ground (arith, sym (consume-gone token y.now later.tokens gone) ∙ redeemed.has_token))
    ]

-- A request in which nothing fails.
abbrev pub quiet : ℕ → ℕ → Run
quiet id now = record {
  tx = no_faults;
  insert_fails = false;
  get_fails = false;
  new_id = id;
  now = now;
}

add_answer-ok :
    (x : Run) (user_id : ℕ) (f : Bytes) (r : SshKey.Result × Table) (k : SshKey.Key)
    → r.0 ≡ SshKey.Result.ok k
    → add_answer (key_store x) user_id f r ≡ (write_success f, r.1)
unfolding add_answer
add_answer-ok x user_id f (SshKey.Result.ok q, t) k h = refl
add_answer-ok x user_id f (SshKey.Result.err e, t) k h = cc

bound-binds :
    (id now : ℕ) (label : Bytes) (user_id : ℕ) (e : Enrollment) (t : Table)
    → find e.fingerprint t ≡ none
    → let r = bound (key_store (quiet id now)) label user_id (Enrollment.Result.ok e) t in
      (r.0 ≡ shows 200 (success_page (escape_string e.fingerprint)))
      × IsOwned e.fingerprint user_id r.1
unfolding bound key_store write_success
bound-binds id now label user_id e t h =
    let (k, is_ok) = add-fresh id now user_id e.fingerprint e.key_type e.public_key label t h in
    let owned =
      add-binds no_faults false id now user_id e.fingerprint e.key_type e.public_key label t k
        is_ok in
    let r = add no_faults false id now user_id e.fingerprint e.key_type e.public_key label t in
    rw (add_answer-ok (quiet id now) user_id e.fingerprint r k is_ok) (refl, owned)

-- A signed-in user with a good token for a fingerprint that nobody owns gets the page of success,
-- and the fingerprint, where nothing fails.
pub handle_complete-binds :
    (sessions : Bytes → Session.Result Session) (users : ℕ → Lookup) (auth_host : Bytes)
    (id now : ℕ) (h : Header) (token : Bytes) (s : State Table) (u : User) (e : Enrollment)
    → IsSignedIn sessions users h u
    → peek token now s.tokens ≡ Enrollment.Result.ok e
    → find e.fingerprint s.keys ≡ none
    → let r = handle_complete (key_store (quiet id now)) sessions users auth_host h token now s in
      (r.0 ≡ shows 200 (success_page (escape_string e.fingerprint)))
      × IsOwned e.fingerprint u.id r.1.keys
unfolding redeemed consume peek
handle_complete-binds sessions users auth_host id now h token s u e i good free =
    rw (handle_complete-redeemed sessions users auth_host (quiet id now) h token s u i)
      (rw good (bound-binds id now (label_of h) u.id e s.keys free))
