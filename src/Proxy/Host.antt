-- ===== src/Proxy/Host.antt =====
-- internal/proxy/hostmap.go
use forge_proxy.Base.{
  ℕ, Bytes, List, [], ◌∷◌, ◌++◌, ◌≡◌, ◌≢◌, refl, subst, ◌⊎◌, ap₂, ◌∙◌, Option, none, some, arith,
  =ᵇ_iff, =ᵇ_refl, inl, inr,
}
use forge_proxy.Base.Dict
use forge_proxy.Base.Dict.{Dict, lookup, insert, lookup-insert}
use forge_proxy.Strings.{to_lower, before, lower_byte}
use forge_proxy.Strings.Splitting.{Lacks}
use forge_proxy.Config.Upstream.{Upstream}

abbrev pub HostMap : Type 0
HostMap = Dict Upstream

add_hosts : Dict Upstream → HostMap → HostMap
unfolding to_lower insert
add_hosts [] m = m
add_hosts ((host, u) ∷ rest) m = add_hosts rest (insert (to_lower host) u m)

-- `NewHostMap`, for the order in which the range loop meets the entries.
unfoldable pub new_host_map : Dict Upstream → HostMap
unfolding add_hosts
new_host_map upstreams = add_hosts upstreams []

unfoldable pub normalize_host : Bytes → Bytes
unfolding before to_lower
normalize_host host = before b':' (to_lower host)

unfoldable pub resolve : HostMap → Bytes → Option Upstream
unfolding normalize_host lookup
resolve m host = lookup (normalize_host host) m

unfoldable pub hosts : HostMap → List Bytes
hosts = Dict.keys

lower_byte_idem : (c : ℕ) → lower_byte (lower_byte c) ≡ lower_byte c
unfolding lower_byte
lower_byte_idem c = ground arith

lower_byte-colon : (c : ℕ) → c ≢ b':' → lower_byte c ≢ b':'
unfolding lower_byte
lower_byte-colon c h = ground arith

pub to_lower_idem : (s : Bytes) → to_lower (to_lower s) ≡ to_lower s
unfolding to_lower
to_lower_idem [] = refl
to_lower_idem (c ∷ s) = ap₂ (λ a t. a ∷ t) (lower_byte_idem c) (to_lower_idem s)

before-colon :
    (s port : Bytes) → Lacks b':' s → before b':' (to_lower (s ++ b':' ∷ port)) ≡ to_lower s
unfolding before to_lower
before-colon [] port _ = unfold lower_byte in refl
before-colon (c ∷ s) port (h, hs) = ground (arith, before-colon s port hs, lower_byte-colon c h)

before-none : (s : Bytes) → Lacks b':' s → before b':' (to_lower s) ≡ to_lower s
unfolding before to_lower
before-none [] _ = refl
before-none (c ∷ s) (h, hs) = ground (arith, before-none s hs, lower_byte-colon c h)

-- A host is looked up in lower case and without its port.
pub normalize_host_lem :
    (s port : Bytes)
    → Lacks b':' s
    → (normalize_host s ≡ to_lower s) × (normalize_host (s ++ b':' ∷ port) ≡ to_lower s)
unfolding normalize_host
normalize_host_lem s port h = (before-none s h, before-colon s port h)

-- No entry has this host, in whatever case.
abbrev pub Absent : Bytes → Dict Upstream → Type 0
Absent k [] = Unit
Absent k ((host, u) ∷ rest) = (to_lower host ≢ k) × Absent k rest

-- No two entries have hosts that differ in case alone.
abbrev pub IsDistinct : Dict Upstream → Type 0
IsDistinct [] = Unit
IsDistinct ((host, u) ∷ rest) = Absent (to_lower host) rest × IsDistinct rest

abbrev pub Listed : Bytes → Upstream → Dict Upstream → Type 0
Listed host u [] = ⊥
Listed host u ((j, v) ∷ rest) = ((j ≡ host) × (v ≡ u)) ⊎ Listed host u rest

add_hosts-Absent :
    (k : Bytes) (ups : Dict Upstream) (m : HostMap)
    → Absent k ups
    → lookup k (add_hosts ups m) ≡ lookup k m
unfolding add_hosts
add_hosts-Absent k [] m _ = refl
add_hosts-Absent k ((host, u) ∷ rest) m (ne, absent) =
    add_hosts-Absent k rest (insert (to_lower host) u m) absent
    ∙ (ground (arith, lookup-insert (to_lower host) k u m, =ᵇ_iff (to_lower host) k))

add_hosts-Listed :
    (host : Bytes) (u : Upstream) (ups : Dict Upstream) (m : HostMap)
    → IsDistinct ups
    → Listed host u ups
    → lookup (to_lower host) (add_hosts ups m) ≡ some u
unfolding add_hosts
add_hosts-Listed host u [] m _ l = absurd l
add_hosts-Listed host u ((j, v) ∷ rest) m (absent, d) (inl (e, f)) =
    add_hosts-Absent (to_lower host) rest (insert (to_lower j) v m)
      (subst (λ x. Absent (to_lower x) rest) e absent)
    ∙ (rw (e, f)
        (ground
          (arith, lookup-insert (to_lower host) (to_lower host) u m, =ᵇ_refl (to_lower host))))
add_hosts-Listed host u ((j, v) ∷ rest) m (absent, d) (inr l) =
    add_hosts-Listed host u rest (insert (to_lower j) v m) d l

-- A request reaches a configured upstream whatever the case of its host and whatever its port,
-- where no two configured hosts differ in case alone.
pub resolve-Listed :
    (ups : Dict Upstream) (host asked port : Bytes) (u : Upstream)
    → IsDistinct ups
    → Listed host u ups
    → Lacks b':' asked
    → to_lower asked ≡ to_lower host
    → (resolve (new_host_map ups) asked ≡ some u)
      × (resolve (new_host_map ups) (asked ++ b':' ∷ port) ≡ some u)
unfolding resolve new_host_map
resolve-Listed ups host asked port u d l lacks same =
    let (bare, ported) = normalize_host_lem asked port lacks in
    let found = add_hosts-Listed host u ups [] d l in
    (rw (bare, same) found, rw (ported, same) found)

-- A request for a host that no entry has is not resolved.
pub resolve-Absent :
    (ups : Dict Upstream) (asked : Bytes)
    → Absent (normalize_host asked) ups
    → resolve (new_host_map ups) asked ≡ none
unfolding resolve new_host_map
resolve-Absent ups asked absent =
    add_hosts-Absent (normalize_host asked) ups [] absent ∙ (unfold lookup in refl)
