-- ===== src/Auth/Keyset.antt =====
-- internal/auth/oidc.go: the client of the sign-in service and the loop that makes it ready. The
-- libraries make the verifier, so that it is there or not.
use forge_proxy.Base.{
  ℕ, zero, suc, ◌+◌, ◌*◌, ◌^◌, ◌≤◌, ◌<◌, min, Bytes, codes, Bool, true, false, not, List, [], ◌∷◌,
  ◌++◌, map, length, ◌≡◌, ◌≢◌, ◌⊎◌, inl, inr, refl, sym, ap, ap₂, ◌∙◌, All, arith, ltb, ◌==◌,
  Bool-cases, if◌then◌else◌,
}
pub mod Tests
use forge_proxy.Clock.{second}

abbrev pub jwks_retry_initial : ℕ
jwks_retry_initial = second

abbrev pub jwks_retry_cap : ℕ
jwks_retry_cap = 60 * second

-- `OIDC`: what is sent to the authorization, whether the verifier is there, and how often the channel
-- `keysetReady` was closed, where a second close would panic.
pub record Oidc : Type 0 where
  pub client_id : Bytes
  pub client_secret : Bytes
  pub redirect_url : Bytes
  pub scopes : List Bytes
  pub verifier : Bool
  pub closed : ℕ

-- `NewWithEndpoints`
unfoldable pub new_with_endpoints : Bytes → Bytes → Bytes → Oidc
new_with_endpoints client_id client_secret auth_host = record {
  client_id = client_id;
  client_secret = client_secret;
  redirect_url = codes "https://" ++ auth_host ++ codes "/auth/callback";
  scopes = codes "openid" ∷ codes "profile" ∷ codes "email" ∷ [];
  verifier = false;
  closed = 0;
}

-- `IsReady`
unfoldable pub is_ready : Oidc → Bool
is_ready o = o.verifier

-- The answer to one request for the keys: an error, or a status.
pub data Response : Type 0 where
  fails : Response
  status : ℕ → Response

-- `pingJWKS`
unfoldable pub ping_jwks : Response → Bool
ping_jwks fails = false
ping_jwks (status n) = n == 200

-- One round of the loop: whether the context is cancelled before it, what the service answers, and
-- whether it is cancelled during the wait.
pub record Round : Type 0 where
  pub cancelled : Bool
  pub response : Response
  pub cancelled_in_wait : Bool

-- How the loop ends within the rounds that are given, if it does.
pub data Ended : Type 0 where
  published stopped goes_on : Ended

-- `Store` and the guarded close.
publish : Oidc → Oidc
publish o = record o { verifier = true; closed = if o.closed == 0 then 1 else o.closed }

unfoldable pub next_delay : ℕ → ℕ
next_delay delay = if ltb jwks_retry_cap (delay * 2) then jwks_retry_cap else delay * 2

pub record Run : Type 0 where
  pub ended : Ended
  pub waits : List ℕ
  pub oidc : Oidc

-- The loop from a delay on; the waits that it begins are listed.
unfoldable pub init_from : ℕ → List Round → Oidc → Run
unfolding ping_jwks publish next_delay
init_from delay [] o = record { ended = goes_on; waits = []; oidc = o }
init_from delay (r ∷ rs) o =
    let later = init_from (next_delay delay) rs o in
    if r.cancelled
    then record { ended = stopped; waits = []; oidc = o }
    else if ping_jwks r.response
    then record { ended = published; waits = []; oidc = publish o }
    else if r.cancelled_in_wait
    then record { ended = stopped; waits = delay ∷ []; oidc = o }
    else record later { waits = delay ∷ later.waits }

-- `initVerifier`
unfoldable pub init_verifier : List Round → Oidc → Run
unfolding init_from
init_verifier = init_from jwks_retry_initial

-- A round that fails, and after which the loop goes on.
abbrev pub IsFailure : Round → Type 0
IsFailure r = (r.cancelled ≡ false) × (ping_jwks r.response ≡ false) × (r.cancelled_in_wait ≡ false)

-- The delay doubles from one second and stops at a minute.
abbrev pub backoff : ℕ → List Round → List ℕ
backoff delay [] = []
backoff delay (r ∷ rs) = delay ∷ backoff (min (2 * delay) jwks_retry_cap) rs

next_delay-min : (delay : ℕ) → next_delay delay ≡ min (2 * delay) jwks_retry_cap
unfolding next_delay
next_delay-min delay = ground arith

init_from-published :
    (delay : ℕ) (failures : List Round) (r : Round) (rest : List Round) (o : Oidc)
    → All IsFailure failures
    → r.cancelled ≡ false
    → ping_jwks r.response ≡ true
    → init_from delay (failures ++ r ∷ rest) o
      ≡ record { ended = published; waits = backoff delay failures; oidc = publish o }
unfolding init_from
init_from-published delay [] r rest o h c p = rw (c, p) refl
init_from-published delay (f ∷ fs) r rest o ((go, fail, wait), hs) c p =
    let ih = init_from-published (next_delay delay) fs r rest o hs c p in
    rw (go, fail, wait) (rw (ih, next_delay-min delay) refl)

-- When the service answers after any number of failed rounds, and nobody cancels the loop before,
-- the loop ends with that round: the client is ready, its channel is closed once, and the waits were
-- one second, two seconds and so on, doubled up to a minute.
pub init_verifier-ready :
    (id secret host : Bytes) (failures : List Round) (r : Round) (rest : List Round)
    → All IsFailure failures
    → r.cancelled ≡ false
    → ping_jwks r.response ≡ true
    → let run = init_verifier (failures ++ r ∷ rest) (new_with_endpoints id secret host) in
      (run.ended ≡ published)
      × (is_ready run.oidc ≡ true)
      × (run.oidc.closed ≡ 1)
      × (run.waits ≡ backoff jwks_retry_initial failures)
unfolding init_verifier new_with_endpoints is_ready publish
init_verifier-ready id secret host failures r rest h c p =
    rw
      (init_from-published jwks_retry_initial failures r rest (new_with_endpoints id secret host) h
        c p)
      (refl, refl, refl, refl)

-- What every run of the loop keeps.
abbrev Safe : Oidc → Run → Type 0
Safe o run =
    All (λ d. (jwks_retry_initial ≤ d) × (d ≤ jwks_retry_cap)) run.waits
    × (((run.ended ≡ published) × (run.oidc ≡ publish o))
        ⊎ ((run.ended ≢ published) × (run.oidc ≡ o)))

next_delay_bounds :
    (d : ℕ)
    → jwks_retry_initial ≤ d
    → (jwks_retry_initial ≤ next_delay d) × (next_delay d ≤ jwks_retry_cap)
unfolding next_delay
next_delay_bounds d h = (ground arith, ground arith)

init_from-Safe :
    (delay : ℕ) (rounds : List Round) (o : Oidc)
    → jwks_retry_initial ≤ delay
    → delay ≤ jwks_retry_cap
    → Safe o (init_from delay rounds o)
unfolding init_from
init_from-Safe delay [] o lo hi = (tt, inr (λ e. cc, refl))
init_from-Safe delay (r ∷ rs) o lo hi =
    let (lo', hi') = next_delay_bounds delay lo in
    let (waits, ends) = init_from-Safe (next_delay delay) rs o lo' hi' in
    elim (Bool-cases r.cancelled) [
      | inl c ↦ rw c (tt, inr (λ e. cc, refl))
      | inr go ↦ elim (Bool-cases (ping_jwks r.response)) [
        | inl up ↦ rw (go, up) (tt, inl (refl, refl))
        | inr down ↦ elim (Bool-cases r.cancelled_in_wait) [
          | inl c ↦ rw (go, down, c) (((lo, hi), tt), inr (λ e. cc, refl))
          | inr wait ↦ rw (go, down, wait) (((lo, hi), waits), ends)
        ]
      ]
    ]

-- Whatever the service answers and whenever the loop is cancelled, each wait is between a second and
-- a minute, and the client is ready exactly when the loop has ended with an answer of the service;
-- its channel is then closed once, and is open otherwise.
pub init_verifier-safe :
    (id secret host : Bytes) (rounds : List Round)
    → let run = init_verifier rounds (new_with_endpoints id secret host) in
      All (λ d. (jwks_retry_initial ≤ d) × (d ≤ jwks_retry_cap)) run.waits
      × (((run.ended ≡ published) × (is_ready run.oidc ≡ true) × (run.oidc.closed ≡ 1))
          ⊎ ((run.ended ≢ published) × (is_ready run.oidc ≡ false) × (run.oidc.closed ≡ 0)))
unfolding init_verifier new_with_endpoints is_ready publish
init_verifier-safe id secret host rounds =
    let o = new_with_endpoints id secret host in
    let (waits, ends) = init_from-Safe jwks_retry_initial rounds o (omega arith) (omega arith) in
    (
      waits,
      elim ends [
        | inl (e, same) ↦ inl (e, (rw same refl), (rw same refl))
        | inr (e, same) ↦ inr (e, (rw same refl), (rw same refl))
      ],
    )
