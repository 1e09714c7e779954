-- ===== src/Command/Ready.antt =====
-- cmd/forge-proxy/main.go: the health pages, and which host is served by whom.
use forge_proxy.Base.{
  ℕ, ◌+◌, ◌-◌, ◌≤◌, Bytes, codes, Bool, true, false, List, [], ◌∷◌, ◌++◌, ◌≡◌, ◌⊎◌, ◌↔◌, inl, inr,
  refl, Option, none, some, arith, ltb, ◌=ᵇ◌, =ᵇ_iff, if◌then◌else◌,
}
use forge_proxy.Strings.{join, to_lower}
use forge_proxy.Strings.Splitting.{Lacks}
use forge_proxy.Proxy.Host.{normalize_host, normalize_host_lem}

pub record Response : Type 0 where
  pub status : ℕ
  pub body : Bytes

-- `healthz`
unfoldable pub healthz : Response
healthz = record { status = 200; body = codes "ok" }

-- Two hours.
abbrev pub stale_after : ℕ
stale_after = 7_200_000_000_000

-- What the checks find: the errors of the two pools, if any, whether the OpenID client is ready, and
-- when the sweeper last succeeded, if it ever did.
pub record Checks : Type 0 where
  pub writer : Option Bytes
  pub reader : Option Bytes
  pub oidc_ready : Bool
  pub last_success : Option ℕ

ping_problem : Bytes → Option Bytes → List Bytes
ping_problem name none = []
ping_problem name (some message) = (name ++ message) ∷ []

oidc_problem : Bool → List Bytes
oidc_problem true = []
oidc_problem false = codes "oidc: JWKS not yet fetched from Slack" ∷ []

sweeper_problem : (ℕ → Bytes) → ℕ → Option ℕ → List Bytes
sweeper_problem duration now none = []
sweeper_problem duration now (some last) =
    let text =
      codes "sweeper: last successful run was " ++ (duration (now - last) ++ codes " ago") in
    if ltb stale_after (now - last) then text ∷ [] else []

problems : (ℕ → Bytes) → ℕ → Checks → List Bytes
unfolding ping_problem oidc_problem sweeper_problem
problems duration now c =
    ping_problem (codes "writer db: ") c.writer
    ++ (ping_problem (codes "reader db: ") c.reader
        ++ (oidc_problem c.oidc_ready ++ sweeper_problem duration now c.last_success))

answer : List Bytes → Response
unfolding join
answer [] = record { status = 200; body = codes "ready" ++ (10 ∷ []) }
answer (p ∷ ps) = record { status = 503; body = join (p ∷ ps) (10 ∷ []) ++ (10 ∷ []) }

-- `readyzHandler`, for the text form of a duration.
unfoldable pub readyz : (ℕ → Bytes) → ℕ → Checks → Response
unfolding problems answer
readyz duration now c = answer (problems duration now c)

answer-ready : (ps : List Bytes) → ((answer ps).status ≡ 200) ↔ (ps ≡ [])
unfolding answer
answer-ready [] = (λ e. refl, λ e. refl)
answer-ready (p ∷ ps) = (λ e. absurd (omega (arith, e)), λ e. cc)

append-nil_iff : (xs ys : List Bytes) → (xs ++ ys ≡ []) ↔ ((xs ≡ []) × (ys ≡ []))
append-nil_iff [] ys = (λ e. (refl, e), λ e. e.1)
append-nil_iff (x ∷ xs) ys = (λ e. cc, λ e. absurd (ground (arith, e.0)))

ping-nil : (name : Bytes) (w : Option Bytes) → (ping_problem name w ≡ []) ↔ (w ≡ none)
unfolding ping_problem
ping-nil name none = (λ e. refl, λ e. refl)
ping-nil name (some m) = (λ e. cc, λ e. cc)

oidc-nil : (b : Bool) → (oidc_problem b ≡ []) ↔ (b ≡ true)
unfolding oidc_problem
oidc-nil true = (λ e. refl, λ e. refl)
oidc-nil false = (λ e. cc, λ e. cc)

-- The sweeper never succeeded, or did so in the last two hours.
abbrev pub IsFresh : ℕ → Option ℕ → Type 0
IsFresh now none = Unit
IsFresh now (some last) = now ≤ last + stale_after

sweeper-nil :
    (duration : ℕ → Bytes) (now : ℕ) (o : Option ℕ)
    → (sweeper_problem duration now o ≡ []) ↔ IsFresh now o
unfolding sweeper_problem
sweeper-nil duration now none = (λ e. tt, λ e. refl)
sweeper-nil duration now (some last) = (λ e. ground arith, λ e. ground arith)

answer-status : (ps : List Bytes) → ((answer ps).status ≡ 200) ⊎ ((answer ps).status ≡ 503)
unfolding answer
answer-status [] = inl refl
answer-status (p ∷ ps) = inr refl

problems-nil :
    (duration : ℕ → Bytes) (now : ℕ) (c : Checks)
    → (problems duration now c ≡ [])
      ↔ ((c.writer ≡ none) × (c.reader ≡ none) × (c.oidc_ready ≡ true) × IsFresh now c.last_success)
unfolding problems
problems-nil duration now c =
    let w = ping_problem (codes "writer db: ") c.writer in
    let r = ping_problem (codes "reader db: ") c.reader in
    let o = oidc_problem c.oidc_ready in
    let s = sweeper_problem duration now c.last_success in
    (
      λ e.
          let (w_nil, e₁) = (append-nil_iff w (r ++ (o ++ s))).0 e in
          let (r_nil, e₂) = (append-nil_iff r (o ++ s)).0 e₁ in
          let (o_nil, s_nil) = (append-nil_iff o s).0 e₂ in
          (
            (ping-nil (codes "writer db: ") c.writer).0 w_nil,
            (ping-nil (codes "reader db: ") c.reader).0 r_nil,
            (oidc-nil c.oidc_ready).0 o_nil,
            (sweeper-nil duration now c.last_success).0 s_nil,
          ),
      λ (w_ok, r_ok, o_ok, s_ok). (append-nil_iff w (r ++ (o ++ s))).1 (
        (ping-nil (codes "writer db: ") c.writer).1 w_ok,
        (append-nil_iff r (o ++ s)).1 (
          (ping-nil (codes "reader db: ") c.reader).1 r_ok,
          (append-nil_iff o s).1
              ((oidc-nil c.oidc_ready).1 o_ok, (sweeper-nil duration now c.last_success).1 s_ok),
        ),
      ),
    )

-- The service says that it is ready exactly when both pools answer, the keys of the sign-in service
-- have been fetched, and the sweeper, if it ever succeeded, did so within the last two hours. Where
-- it is not, the status is 503.
pub readyz_iff :
    (duration : ℕ → Bytes) (now : ℕ) (c : Checks)
    → (((readyz duration now c).status ≡ 200) ⊎ ((readyz duration now c).status ≡ 503))
      × (((readyz duration now c).status ≡ 200) ↔ (
          (c.writer ≡ none)
          × (c.reader ≡ none)
          × (c.oidc_ready ≡ true)
          × IsFresh now c.last_success))
unfolding readyz
readyz_iff duration now c =
    let (ready, nothing) = answer-ready (problems duration now c) in
    let (to_ok, from_ok) = problems-nil duration now c in
    (answer-status (problems duration now c), (λ e. to_ok (ready e), λ ok. nothing (from_ok ok)))

-- `hostMatches`
unfoldable pub host_matches : Bytes → Bytes → Bool
unfolding normalize_host ◌=ᵇ◌
host_matches inbound auth_host = normalize_host inbound =ᵇ normalize_host auth_host

pub data Target : Type 0 where
  auth_mux proxy : Target

-- The dispatcher of `run`.
unfoldable pub dispatch : Bytes → Bytes → Target
unfolding host_matches
dispatch auth_host host = if host_matches host auth_host then auth_mux else proxy

auth_iff :
    (host auth_host : Bytes)
    → normalize_host auth_host ≡ to_lower auth_host
    → normalize_host host ≡ to_lower host
    → (dispatch auth_host host ≡ auth_mux) ↔ (to_lower host ≡ to_lower auth_host)
unfolding dispatch host_matches
auth_iff host auth_host a h =
    rw (a, h)
      (
        λ e. ground (arith, =ᵇ_iff (to_lower host) (to_lower auth_host)),
        λ e. ground (arith, =ᵇ_iff (to_lower host) (to_lower auth_host)),
      )

-- A request is for the sign-in pages exactly when its host is that of the sign-in, in whatever case;
-- a port makes no difference, on either side.
pub dispatch_iff :
    (auth_host host port : Bytes)
    → Lacks b':' auth_host
    → Lacks b':' host
    → ((dispatch auth_host host ≡ auth_mux) ↔ (to_lower host ≡ to_lower auth_host))
      × (dispatch auth_host (host ++ b':' ∷ port) ≡ dispatch auth_host host)
      × (dispatch (auth_host ++ b':' ∷ port) host ≡ dispatch auth_host host)
unfolding dispatch host_matches
dispatch_iff auth_host host port plain bare =
    let (a, a') = normalize_host_lem auth_host port plain in
    let (h, h') = normalize_host_lem host port bare in
    (auth_iff host auth_host a h, rw (a, h, h') refl, rw (a, a', h) refl)
