-- ===== src/Auth/Callback/Backed.antt =====
-- The callback over the stores of internal/user and internal/session.
use forge_proxy.Base.{
  ℕ, ◌+◌, Bytes, codes, Bool, false, [], ◌∷◌, ◌≡◌, ◌≢◌, inl, inr, refl, subst, ◌∙◌, Option, none,
  some, arith, ltb, if◌then◌else◌, =ᵇ_refl,
}
use forge_proxy.Clock.{unix, from_unix}
use forge_proxy.Db.{TxFaults}
use forge_proxy.Net.Url.{Url}
use forge_proxy.Net.Header.{get}
use forge_proxy.Session
use forge_proxy.Session.{Session, Options, Error, Result, ok, err, create, expired}
use forge_proxy.Session.Cookie
use forge_proxy.Session.Written.{get-create}
use forge_proxy.User.{User, found}
use forge_proxy.User.Store
use forge_proxy.User.Store.{UpsertFaults, upsert_from_oidc, get_by_slack_id}
use forge_proxy.User.Store.Upserted.{stored, get-upsert_from_oidc}
use forge_proxy.Auth.Settings.{Settings, Redirect}
use forge_proxy.Auth.PreAuth.{PreAuthPayload, Codec, clear_pre_auth}
use forge_proxy.Auth.Callback.{
  Claims, Provider, Request, NewSession, Stores, stored_claims, handle_callback,
}
use forge_proxy.Auth.Callback.Verified.{
  IsVerified, IsCallback, IsSignedIn, handle_callback-IsCallback,
}

-- A session as a later lookup returns it, at whole seconds.
abbrev pub whole : Session → Session
whole s = record s {
  created_at = from_unix (unix s.created_at);
  last_seen_at = from_unix (unix s.last_seen_at);
  expires_at = from_unix (unix s.expires_at);
}

new_session : Result Session × Session.Table → Option NewSession × Session.Table
new_session (err e, t) = (none, t)
new_session (ok s, t) = (some (record { id = s.id; expires_at = s.expires_at }), t)

-- What a sign-in meets: the id that the database gives to a new user, the id that the random source
-- gave, the clock, and the failures.
pub record Moment : Type 0 where
  pub now : ℕ
  pub new_user : ℕ
  pub session_id : Option Bytes
  pub upsert_faults : UpsertFaults
  pub tx : TxFaults
  pub insert : Bool

unfoldable pub real_stores : Options → Moment → Stores Store.Table Session.Table
unfolding upsert_from_oidc create new_session
real_stores opts m = record {
  upsert = λ c t. upsert_from_oidc m.upsert_faults m.new_user m.now c t;
  create =
      λ user_id ua ip t. new_session (create opts m.session_id m.now m.tx m.insert user_id ua ip t);
}

created-ok :
    (r : Result Session × Session.Table) (n : NewSession) (t' : Session.Table)
    → new_session r ≡ (some n, t')
    → (s : Session) × (r ≡ (ok s, t')) × (n.id ≡ s.id) × (n.expires_at ≡ s.expires_at)
unfolding new_session
created-ok (err e, t) n t' h = absurd cc
created-ok (ok s, t) n t' h = (s, ground arith, ground arith, ground arith)

create-id :
    (opts : Options) (sid : Option Bytes) (now : ℕ) (f : TxFaults) (fails : Bool) (user_id : ℕ)
    (ua ip : Bytes) (t t' : Session.Table) (s : Session)
    → create opts sid now f fails user_id ua ip t ≡ (ok s, t')
    → (id : Bytes) × (sid ≡ some id)
unfolding create
create-id opts none now f fails user_id ua ip t t' s h = absurd cc
create-id opts (some id) now f fails user_id ua ip t t' s h = (id, refl)

-- A lookup of the new session, at any time.
found_later :
    (opts : Options) (sid : Option Bytes) (now : ℕ) (f : TxFaults) (fails : Bool) (user_id : ℕ)
    (ua ip : Bytes) (t t' : Session.Table) (s : Session) (later : ℕ)
    → create opts sid now f fails user_id ua ip t ≡ (ok s, t')
    → (s.user_id ≡ user_id)
      × (s.expires_at ≡ now + opts.idle_timeout)
      × (Session.get later false s.id t'
          ≡ (if ltb later (from_unix (unix s.expires_at)) then ok (whole s) else err expired))
found_later opts sid now f fails user_id ua ip t t' s later h =
    let (id, given) = create-id opts sid now f fails user_id ua ip t t' s h in
    let (same, owner, ends, got) =
      get-create opts id now f fails user_id ua ip t t' s later s.id (rw given at h) in
    (owner, ends, got ∙ rw (same, =ᵇ_refl id) refl)

module _ (opts : Options) (m : Moment) (parse : Bytes → Option Url) (provider : Provider)
    (codec : Codec) (cfg : Settings) (r : Request) (u u' : Store.Table) (s s' : Session.Table)
    (answer : Redirect) where
  -- Who has been signed in, and what a browser that presents the new cookie later gets.
  pub record IsBacked (later : ℕ) : Type 0 where
    pub pre : PreAuthPayload
    pub claims : Claims
    pub account : User
    pub session : Session
    pub verified : IsVerified provider codec cfg r pre claims
    pub known :
        get_by_slack_id false (stored_claims claims).slack_user_id u' ≡ found (stored account)
    pub owner : session.user_id ≡ account.id
    pub ends : session.expires_at ≡ m.now + opts.idle_timeout
    pub cookies :
        answer.cookies
        ≡ clear_pre_auth ∷ Cookie.set session.id session.expires_at cfg.cookie_domain ∷ []
    pub presented : Session.get later false session.id s' ≡ (
        if ltb later (from_unix (unix session.expires_at)) then ok (whole session) else err expired)

  backed :
      (later : ℕ)
      → IsSignedIn parse (real_stores opts m) provider codec cfg r u s answer u' s'
      → IsBacked later
  unfolding real_stores
  backed later a =
      let agent = get r.header (codes "User-Agent") in
      let (n, made, same_id, same_end) =
        created-ok (create opts m.session_id m.now m.tx m.insert a.account.id agent r.client_ip s)
          a.session s' a.created in
      let (owner, ends, got) =
        found_later opts m.session_id m.now m.tx m.insert a.account.id agent r.client_ip s s' n
          later made in
      let upserted =
        get-upsert_from_oidc m.upsert_faults m.new_user m.now (stored_claims a.claims) u u'
          a.account a.stored in
      record {
        pre = a.pre;
        claims = a.claims;
        account = a.account;
        session = n;
        verified = a.verified;
        known = upserted.0;
        owner = owner;
        ends = ends;
        cookies = a.cookies ∙ rw (same_id, same_end) refl;
        presented = got;
      }

-- A callback over the stores of the program that sets any cookie but the deleted one has verified
-- its request. In the tables that it leaves, the account of the claims is found, and the id in the
-- cookie that it sets is found as a session of that account at every time before the expiry of the
-- session, and as expired from then on; the expiry is the end of the idle timeout, rounded down to a
-- whole second.
pub handle_callback-IsBacked :
    (opts : Options) (m : Moment) (parse : Bytes → Option Url) (provider : Provider) (codec : Codec)
    (cfg : Settings) (r : Request) (u u' : Store.Table) (s s' : Session.Table) (answer : Redirect)
    (later : ℕ)
    → handle_callback parse (real_stores opts m) cfg r provider codec u s ≡ (answer, u', s')
    → answer.cookies ≢ clear_pre_auth ∷ []
    → IsBacked opts m parse provider codec cfg r u u' s s' answer later
handle_callback-IsBacked opts m parse provider codec cfg r u u' s s' answer later h sets =
    elim (subst (IsCallback parse (real_stores opts m) provider codec cfg r u s) h
      (handle_callback-IsCallback parse (real_stores opts m) provider codec cfg r u s)) [
        | inl (failure, _) ↦ absurd (sets failure.0)
        | inr a ↦ backed opts m parse provider codec cfg r u u' s s' answer later a
      ]
