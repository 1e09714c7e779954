-- ===== src/RateLimit/Tests.antt =====
-- internal/httplog/ratelimit.go on a run of requests.
use forge_proxy.Base.{ℕ, ◌+◌, ◌-◌, ◌*◌, ◌≤◌, codes, List, [], ◌∷◌, ◌≡◌, refl, arith}
use forge_proxy.Clock.{second}
use forge_proxy.RateLimit.{token, new_rate_limiter, passed, rate_limit_middleware, allow}
use forge_proxy.RateLimit.Bounds.{served, served_le, last}

limiting : Unit {0}
unfolding served new_rate_limiter rate_limit_middleware allow
limiting = tt

-- Two at once, a third too early, and one after half a minute.
abbrev times : List ℕ
times = second ∷ 2 * second ∷ 31 * second ∷ []

run_tests :
    (served (new_rate_limiter 2) (codes "10.0.0.1") (0 ∷ times) ≡ 3)
    × ((rate_limit_middleware {A = ℕ} 5 (new_rate_limiter 2) 0 (codes "10.0.0.1")).0 ≡ passed 5)
unfolding limiting
run_tests = (refl, refl)

served_le_example :
    served (new_rate_limiter 2) (codes "10.0.0.1") (0 ∷ times) * token
    ≤ (2 * token) + (last 0 times - 0) * 2
unfolding limiting
served_le_example =
    served_le (new_rate_limiter 2) (codes "10.0.0.1") 0 times (omega arith) refl
      (omega arith, (omega arith, (omega arith, tt)))
