-- ===== src/Auth/Keyset/Tests.antt =====
-- Tests of internal/auth/oidc.go.
use forge_proxy.Base.{◌≤◌, codes, true, false, List, [], ◌∷◌, ◌++◌, ◌≡◌, ◌≢◌, ◌⊎◌, refl, All}
use forge_proxy.Auth.Keyset

abbrev failing : Keyset.Round
failing = record { cancelled = false; response = Keyset.fails; cancelled_in_wait = false }

abbrev failing_status : Keyset.Round
failing_status = record {
  cancelled = false;
  response = Keyset.status 503;
  cancelled_in_wait = false;
}

abbrev answering : Keyset.Round
answering = record { cancelled = false; response = Keyset.status 200; cancelled_in_wait = false }

abbrev failures : List Keyset.Round
failures = failing ∷ failing_status ∷ failing ∷ []

init_verifier-ready_example :
    let o = Keyset.new_with_endpoints (codes "id") (codes "secret") (codes "auth.x.io") in
    let run = Keyset.init_verifier (failures ++ answering ∷ []) o in
    (run.ended ≡ Keyset.published)
    × (Keyset.is_ready run.oidc ≡ true)
    × (run.oidc.closed ≡ 1)
    × (run.waits ≡ Keyset.backoff Keyset.jwks_retry_initial failures)
init_verifier-ready_example =
    Keyset.init_verifier-ready (codes "id") (codes "secret") (codes "auth.x.io") failures answering
      []
      (unfold Keyset.ping_jwks in
        ((refl, refl, refl), ((refl, refl, refl), ((refl, refl, refl), tt))))
      refl (unfold Keyset.ping_jwks in refl)

init_verifier-safe_example :
    let o = Keyset.new_with_endpoints (codes "id") (codes "secret") (codes "auth.x.io") in
    let run = Keyset.init_verifier failures o in
    All (λ d. (Keyset.jwks_retry_initial ≤ d) × (d ≤ Keyset.jwks_retry_cap)) run.waits
    × (((run.ended ≡ Keyset.published) × (Keyset.is_ready run.oidc ≡ true) × (run.oidc.closed ≡ 1))
        ⊎ ((run.ended ≢ Keyset.published)
            × (Keyset.is_ready run.oidc ≡ false)
            × (run.oidc.closed ≡ 0)))
init_verifier-safe_example =
    Keyset.init_verifier-safe (codes "id") (codes "secret") (codes "auth.x.io") failures
