-- ===== src/Auth/Callback/Verified.antt =====
-- Who is signed in by the callback, and what every other call leaves behind.
use forge_proxy.Base.{
  Bytes, codes, is_empty, Bool, true, false, not, [], ◌∷◌, ◌≡◌, ◌≢◌, ◌⊎◌, inl, inr, refl, sym, ap,
  ◌∙◌, Option, none, some, ◌=ᵇ◌, =ᵇ_iff,
}
use forge_proxy.Net.Url.{Url}
use forge_proxy.Net.Header.{get}
use forge_proxy.Session.Cookie
use forge_proxy.User.{User}
use forge_proxy.Auth.Settings.{
  Settings, Redirect, auth_failed, not_in_workspace, error_url, resolve_return_to,
}
use forge_proxy.Auth.PreAuth.{PreAuthPayload, Codec, read_pre_auth, clear_pre_auth}
use forge_proxy.Auth.Callback.{
  Claims, IdToken, Provider, Request, Check, pass, fail, ◌>>=◌, guard, expect, parse_claims,
  verify_callback, stored_claims, NewSession, Stores, failed, signed_in, upserted, finish,
  handle_callback,
}

-- The request ends a sign-in that this browser began, for a member of the workspace.
pub record IsVerified (provider : Provider) (codec : Codec) (cfg : Settings) (r : Request)
    (pre : PreAuthPayload) (claims : Claims) : Type 0 where
  pub raw : Bytes
  pub token : IdToken
  pub bound : read_pre_auth codec r.header ≡ some pre
  pub state : r.state ≡ pre.state
  pub ready : provider.ready ≡ true
  pub code : r.code ≢ []
  pub exchanged : provider.exchange r.code ≡ some raw
  pub verified : provider.verify raw ≡ some token
  pub parsed : parse_claims token ≡ some claims
  pub nonce : claims.nonce ≡ pre.nonce
  pub team : claims.slack_team_id ≡ cfg.slack_team_id

expect-pass :
    {A B : Type 0} (o : Option A) (code : Bytes) (f : A → Check B) {b : B}
    → (expect o code >>= f) ≡ pass b
    → (a : A) × (o ≡ some a) × (f a ≡ pass b)
expect-pass none code f h = cc
expect-pass (some a) code f h = (a, refl, h)

guard-pass :
    {B : Type 0} (t : Bool) (code : Bytes) (k : Check B) {b : B}
    → (guard t code >>= λ _. k) ≡ pass b
    → (t ≡ true) × (k ≡ pass b)
guard-pass true code k h = (refl, h)
guard-pass false code k h = cc

pass-injective : {A : Type 0} {a b : A} → pass a ≡ pass b → a ≡ b
pass-injective h = cc

passed-pre :
    (p pre : PreAuthPayload) (c claims : Claims)
    → ◌≡◌ {A = Check (PreAuthPayload × Claims)} (pass (p, c)) (pass (pre, claims))
    → p ≡ pre
passed-pre p pre c claims h = ap (λ (x : PreAuthPayload × Claims). x.0) (pass-injective h)

passed-claims :
    (p pre : PreAuthPayload) (c claims : Claims)
    → ◌≡◌ {A = Check (PreAuthPayload × Claims)} (pass (p, c)) (pass (pre, claims))
    → c ≡ claims
passed-claims p pre c claims h = ap (λ (x : PreAuthPayload × Claims). x.1) (pass-injective h)

not_empty : (s : Bytes) → not (is_empty s) ≡ true → s ≢ []
not_empty [] h = cc
not_empty (c ∷ s) h = λ e. cc

verify_callback-IsVerified :
    (provider : Provider) (codec : Codec) (cfg : Settings) (r : Request) (pre : PreAuthPayload)
    (claims : Claims)
    → verify_callback provider codec cfg r ≡ pass (pre, claims)
    → IsVerified provider codec cfg r pre claims
unfolding verify_callback
verify_callback-IsVerified provider codec cfg r pre claims h =
    let (p, bound, h1) = expect-pass (read_pre_auth codec r.header) auth_failed _ h in
    let (state, h2) = guard-pass (r.state =ᵇ p.state) auth_failed _ h1 in
    let (ready, h3) = guard-pass provider.ready auth_failed _ h2 in
    let (code, h4) = guard-pass (not (is_empty r.code)) auth_failed _ h3 in
    let (raw, exchanged, h5) = expect-pass (provider.exchange r.code) auth_failed _ h4 in
    let (present, h6) = guard-pass (not (is_empty raw)) auth_failed _ h5 in
    let (token, verified, h7) = expect-pass (provider.verify raw) auth_failed _ h6 in
    let (c, parsed, h8) = expect-pass (parse_claims token) auth_failed _ h7 in
    let (same_nonce, h9) = guard-pass (c.nonce =ᵇ p.nonce) auth_failed _ h8 in
    let (team, h10) = guard-pass (c.slack_team_id =ᵇ cfg.slack_team_id) not_in_workspace _ h9 in
    let same_pre : p ≡ pre = passed-pre p pre c claims h10 in
    let same_claims : c ≡ claims = passed-claims p pre c claims h10 in
    let code_given : r.code ≢ [] = not_empty r.code code in
    record {
      raw = raw;
      token = token;
      bound = bound ∙ ap some same_pre;
      state = (=ᵇ_iff r.state p.state).0 state ∙ ap (λ (x : PreAuthPayload). x.state) same_pre;
      ready = ready;
      code = code_given;
      exchanged = exchanged;
      verified = verified;
      parsed = parsed ∙ ap some same_claims;
      nonce =
          ap (λ (x : Claims). x.nonce) (sym same_claims)
          ∙ (=ᵇ_iff c.nonce p.nonce).0 same_nonce
          ∙ ap (λ (x : PreAuthPayload). x.nonce) same_pre;
      team =
          ap (λ (x : Claims). x.slack_team_id) (sym same_claims)
          ∙ (=ᵇ_iff c.slack_team_id cfg.slack_team_id).0 team;
    }

-- A check that fails gives one of the two codes.
abbrev IsCoded : {A : Type 0} → Check A → Type 0
IsCoded (pass a) = Unit
IsCoded (fail code) = (code ≡ auth_failed) ⊎ (code ≡ not_in_workspace)

expect-IsCoded :
    {A B : Type 0} (o : Option A) (f : A → Check B)
    → ((a : A) → IsCoded (f a))
    → IsCoded (expect o auth_failed >>= f)
expect-IsCoded none f h = inl refl
expect-IsCoded (some a) f h = h a

guard-IsCoded :
    {B : Type 0} (t : Bool) (code : Bytes) (k : Check B)
    → (code ≡ auth_failed) ⊎ (code ≡ not_in_workspace)
    → IsCoded k
    → IsCoded (guard t code >>= λ _. k)
guard-IsCoded true code k c h = h
guard-IsCoded false code k c h = c

verify_callback-IsCoded :
    (provider : Provider) (codec : Codec) (cfg : Settings) (r : Request)
    → IsCoded (verify_callback provider codec cfg r)
unfolding verify_callback
verify_callback-IsCoded provider codec cfg r =
    expect-IsCoded (read_pre_auth codec r.header) _ λ pre.
      guard-IsCoded (r.state =ᵇ pre.state) auth_failed _ (inl refl) (
        guard-IsCoded provider.ready auth_failed _ (inl refl) (
          guard-IsCoded (not (is_empty r.code)) auth_failed _ (inl refl) (
            expect-IsCoded (provider.exchange r.code) _ λ raw.
              guard-IsCoded (not (is_empty raw)) auth_failed _ (inl refl) (
                expect-IsCoded (provider.verify raw) _ λ token.
                  expect-IsCoded (parse_claims token) _ λ claims.
                    guard-IsCoded (claims.nonce =ᵇ pre.nonce) auth_failed _ (inl refl) (
                      guard-IsCoded (claims.slack_team_id =ᵇ cfg.slack_team_id) not_in_workspace _
                        (inr refl) tt)))))

module _ {U S : Type 0} (parse : Bytes → Option Url) (stores : Stores U S) (provider : Provider)
    (codec : Codec) (cfg : Settings) (r : Request) where
  -- The account is that of the verified claims, and the session that of the account; the answer
  -- deletes the pre-auth cookie, sets that of the session, and goes to the validated target.
  pub record IsSignedIn (u : U) (s : S) (answer : Redirect) (u' : U) (s' : S) : Type 0 where
    pub pre : PreAuthPayload
    pub claims : Claims
    pub account : User
    pub session : NewSession
    pub verified : IsVerified provider codec cfg r pre claims
    pub stored : stores.upsert (stored_claims claims) u ≡ (some account, u')
    pub created :
        stores.create account.id (get r.header (codes "User-Agent")) r.client_ip s
        ≡ (some session, s')
    pub cookies :
        answer.cookies
        ≡ clear_pre_auth ∷ Cookie.set session.id session.expires_at cfg.cookie_domain ∷ []
    pub location : answer.location ≡ resolve_return_to parse cfg pre.return_to

  -- A failure deletes the pre-auth cookie, sets no other, and goes to an error page.
  abbrev pub IsFailure : Redirect → Type 0
  IsFailure answer =
      (answer.cookies ≡ clear_pre_auth ∷ [])
      × ((answer.location ≡ error_url auth_failed) ⊎ (answer.location ≡ error_url not_in_workspace))

  -- Only a verified request reaches the stores.
  abbrev pub IsCallback : U → S → Redirect × U × S → Type 0
  IsCallback u s (answer, u', s') =
      (IsFailure answer
        × (((u' ≡ u) × (s' ≡ s))
            ⊎ ((pre : PreAuthPayload) × (claims : Claims) × IsVerified provider codec cfg r pre
                  claims)))
      ⊎ IsSignedIn u s answer u' s'

  failed-IsFailure : IsFailure (failed auth_failed)
  unfolding failed
  failed-IsFailure = (refl, inl refl)

  module _ (pre : PreAuthPayload) (claims : Claims)
      (verified : IsVerified provider codec cfg r pre claims) where
    signed_in-IsCallback :
        (account : User) (made : Option NewSession × S) (u u' : U) (s : S)
        → stores.upsert (stored_claims claims) u ≡ (some account, u')
        → stores.create account.id (get r.header (codes "User-Agent")) r.client_ip s ≡ made
        → IsCallback u s (signed_in parse stores cfg r pre made u')
    unfolding signed_in
    signed_in-IsCallback account (none, s') u u' s e c =
        inl (failed-IsFailure, inr (pre, claims, verified))
    signed_in-IsCallback account (some n, s') u u' s e c = inr (record {
      pre = pre;
      claims = claims;
      account = account;
      session = n;
      verified = verified;
      stored = e;
      created = c;
      cookies = refl;
      location = refl;
    })

    upserted-IsCallback :
        (up : Option User × U) (u : U) (s : S)
        → stores.upsert (stored_claims claims) u ≡ up
        → IsCallback u s (upserted parse stores cfg r pre up s)
    unfolding upserted
    upserted-IsCallback (none, u') u s e = inl (failed-IsFailure, inr (pre, claims, verified))
    upserted-IsCallback (some account, u') u s e =
        signed_in-IsCallback account
          (stores.create account.id (get r.header (codes "User-Agent")) r.client_ip s) u u' s e refl

  finish-IsCallback :
      (checked : Check (PreAuthPayload × Claims)) (u : U) (s : S)
      → verify_callback provider codec cfg r ≡ checked
      → IsCoded checked
      → IsCallback u s (finish parse stores cfg r checked u s)
  unfolding finish
  finish-IsCallback (fail code) u s e coded = inl (failed_with code coded, inl (refl, refl))
    where
      failed_with :
          (code : Bytes)
          → IsCoded {A = PreAuthPayload × Claims} (fail code)
          → IsFailure (failed code)
      failed_with code (inl h) = unfold failed in (refl, inl (ap error_url h))
      failed_with code (inr h) = unfold failed in (refl, inr (ap error_url h))
  finish-IsCallback (pass (pre, claims)) u s e coded =
      upserted-IsCallback pre claims (verify_callback-IsVerified provider codec cfg r pre claims e)
        (stores.upsert (stored_claims claims) u) u s refl

-- A call of the callback either signs in the account of verified claims, under a session of that
-- account, or ends at an error page. The stores are reached only by a request that has the state
-- and the nonce of this browser's cookie and a verified token of the workspace; every answer
-- deletes the pre-auth cookie first, and a failure sets no session cookie.
pub handle_callback-IsCallback :
    {U S : Type 0} (parse : Bytes → Option Url) (stores : Stores U S) (provider : Provider)
    (codec : Codec) (cfg : Settings) (r : Request) (u : U) (s : S)
    → IsCallback parse stores provider codec cfg r u s
        (handle_callback parse stores cfg r provider codec u s)
unfolding handle_callback
handle_callback-IsCallback parse stores provider codec cfg r u s =
    finish-IsCallback parse stores provider codec cfg r (verify_callback provider codec cfg r) u s
      refl (verify_callback-IsCoded provider codec cfg r)
