-- ===== src/RateLimit/Bounds.antt =====
-- internal/httplog/ratelimit.go: how often an address is served.
use forge_proxy.Base.{
  ℕ, ◌+◌, ◌-◌, ◌*◌, ◌≤◌, Bytes, List, [], ◌∷◌, ◌≡◌, refl, ◌∙◌, Option, none, some, arith,
  if◌then◌else◌, =ᵇ_refl,
}
use forge_proxy.Base.Dict.{lookup, insert, lookup-insert}
use forge_proxy.RateLimit.{token, Bucket, RateLimiter, capacity, refill, spend, decide, allow}

-- The decisions on a run of requests of one address, at the given times, that were let through.
unfoldable pub served : RateLimiter → Bytes → List ℕ → ℕ
unfolding allow
served rl ip [] = 0
served rl ip (now ∷ times) = let r = allow rl now ip in (if r.0 then 1 else 0) + served r.1 ip times

-- Times that do not go back, the first not before the start; the last of them, or the start.
abbrev pub Ascends : ℕ → List ℕ → Type 0
Ascends start [] = Unit
Ascends start (now ∷ times) = (start ≤ now) × Ascends now times

abbrev pub last : ℕ → List ℕ → ℕ
last start [] = start
last start (now ∷ times) = last now times

-- What the address can still spend at a time.
abbrev level : RateLimiter → Option Bucket → ℕ
level rl none = capacity rl.per_minute
level rl (some b) = b.tokens

decide-pays :
    (per_minute now start : ℕ) (b : Bucket)
    → b.last_seen ≡ start
    → start ≤ now
    → (if (decide per_minute now (some b)).0 then 1 else 0) * token
        + (decide per_minute now (some b)).1.tokens
      ≤ b.tokens + (now - start) * per_minute
unfolding decide refill spend
decide-pays per_minute now start b e h = ground arith

le-last : (start : ℕ) (times : List ℕ) → Ascends start times → start ≤ last start times
le-last start [] _ = omega arith
le-last start (now ∷ times) (h, hs) = omega (arith, le-last now times hs)

elapsed_split : (s n l p : ℕ) → s ≤ n → n ≤ l → (l - s) * p ≡ (l - n) * p + (n - s) * p
elapsed_split s n l p h k = let e : l - s ≡ (l - n) + (n - s) = omega arith in rw e (omega arith)

decide-seen : (per_minute now : ℕ) (o : Option Bucket) → (decide per_minute now o).1.last_seen ≡ now
unfolding decide refill spend
decide-seen per_minute now none = refl
decide-seen per_minute now (some b) = ground arith

served_from :
    (rl : RateLimiter) (ip : Bytes) (b : Bucket) (start : ℕ) (times : List ℕ)
    → lookup ip rl.buckets ≡ some b
    → b.last_seen ≡ start
    → Ascends start times
    → served rl ip times * token ≤ b.tokens + (last start times - start) * rl.per_minute
unfolding served
served_from rl ip b start [] e s _ = omega arith
served_from rl ip b start (now ∷ times) e s (h, hs) =
    let d = decide rl.per_minute now (some b) in
    let rl' : RateLimiter = record rl { buckets = insert ip d.1 rl.buckets } in
    let rest =
      served_from rl' ip d.1 now times (lookup-insert ip ip d.1 rl.buckets ∙ rw (=ᵇ_refl ip))
        (decide-seen rl.per_minute now (some b)) hs in
    let pays = decide-pays rl.per_minute now start b s h in
    let split = elapsed_split start now (last now times) rl.per_minute h (le-last now times hs) in
    unfold allow in rw e (omega (arith, pays, rest, split))

-- Where `per_minute` is not 0, an address that the limiter has not seen is served, in any run of
-- requests whose times do not go back, at most `per_minute` times and once more for each share of
-- a minute that has passed from the first of them to the last.
pub served_le :
    (rl : RateLimiter) (ip : Bytes) (now : ℕ) (times : List ℕ)
    → 1 ≤ rl.per_minute
    → lookup ip rl.buckets ≡ none
    → Ascends now times
    → served rl ip (now ∷ times) * token
      ≤ (rl.per_minute * token) + (last now times - now) * rl.per_minute
unfolding served
served_le rl ip now times pos e hs =
    let d = decide rl.per_minute now none in
    let rl' : RateLimiter = record rl { buckets = insert ip d.1 rl.buckets } in
    let rest =
      served_from rl' ip d.1 now times (lookup-insert ip ip d.1 rl.buckets ∙ rw (=ᵇ_refl ip))
        (decide-seen rl.per_minute now none) hs in
    unfold allow decide in rw e (omega (arith, rest))
