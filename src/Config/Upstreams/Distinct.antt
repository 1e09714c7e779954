-- ===== src/Config/Upstreams/Distinct.antt =====
-- internal/config/config.go: the hosts of a parsed configuration, and how the proxy finds them.
use forge_proxy.Base.{
  Bytes, ◌||◌, List, [], ◌∷◌, ◌++◌, ◌≡◌, ◌≢◌, inl, inr, refl, sym, subst, ap, ◌∙◌, Option, none,
  some, All, arith, is_empty, ◌=ᵇ◌, =ᵇ_iff, Bool-cases,
}
use mathlib.Core.Option.{some-injective}
use forge_proxy.Base.Dict.{Dict, lookup, insert}
use forge_proxy.Strings.{to_lower, trim_space, split, cut}
use forge_proxy.Strings.Splitting.{Lacks}
use forge_proxy.Net.Url.{Url}
use forge_proxy.Config.Upstream.{Upstream}
use forge_proxy.Config.Upstreams.{
  gate_cut, named, hosted, host_cut, unclaimed, add_new, trimmed, add_entry, add_entries, filled,
  parse_upstreams,
}
use forge_proxy.Config.Upstreams.Servable.{IsServable, gate_cut-IsServable}
use forge_proxy.Proxy.Host.{
  Absent, IsDistinct, Listed, new_host_map, resolve, resolve-Listed, to_lower_idem,
}

-- Every host is in lower case, and every upstream can be served.
abbrev IsEntry : Bytes × Upstream → Type 0
IsEntry (host, u) = (to_lower host ≡ host) × IsServable u

-- What holds of the map at every step.
abbrev IsParsed : Dict Upstream → Type 0
IsParsed m = All IsEntry m × IsDistinct m

insert-Absent :
    (k host : Bytes) (u : Upstream) (m : Dict Upstream)
    → to_lower host ≢ k
    → Absent k m
    → Absent k (insert host u m)
unfolding insert
insert-Absent k host u [] ne _ = (ne, tt)
insert-Absent k host u ((j, w) ∷ m) ne (h, hs) = ground (arith, insert-Absent k host u m ne hs)

insert-IsParsed :
    (host : Bytes) (u : Upstream) (m : Dict Upstream)
    → lookup host m ≡ none
    → IsEntry (host, u)
    → IsParsed m
    → IsParsed (insert host u m)
unfolding insert lookup
insert-IsParsed host u [] fresh e _ = ((e, tt), (tt, tt))
insert-IsParsed host u ((j, w) ∷ m) fresh (low, serves)
      (((jlow, jserves), hs), (absent, distinct)) =
    elim (Bool-cases (j =ᵇ host)) [
      | inl same ↦ absurd (ground arith)
      | inr differ ↦
          let rest = insert-IsParsed host u m (rw differ at fresh) (low, serves) (hs, distinct) in
          let apart : to_lower host ≢ to_lower j = ground (arith, =ᵇ_iff j host) in
          rw differ
            (((jlow, jserves), rest.0), (insert-Absent (to_lower j) host u m apart absent, rest.1))
    ]

module _ (parse : Bytes → Option Url) where
  named-some :
      (host : Bytes) (o : Option Upstream) (h : Bytes) (u : Upstream)
      → named parse host o ≡ some (h, u)
      → (o ≡ some u) × (h ≡ host)
  unfolding named
  named-some host none h u e = cc
  named-some host (some v) h u e = (ground arith, ground arith)

  hosted-IsEntry :
      (host rest h : Bytes) (u : Upstream)
      → to_lower host ≡ host
      → hosted parse host rest ≡ some (h, u)
      → IsEntry (h, u)
  unfolding hosted
  hosted-IsEntry host rest h u low e = elim (Bool-cases (is_empty host || is_empty rest)) [
    | inl blank ↦ absurd (ground arith)
    | inr given ↦
        let (found, same) =
          named-some host (gate_cut parse rest (cut b'|' rest)) h u (rw given at e) in
        (rw same low, gate_cut-IsServable parse rest (cut b'|' rest) u found)
  ]

  host_cut-IsEntry :
      (o : Option (Bytes × Bytes)) (h : Bytes) (u : Upstream)
      → host_cut parse o ≡ some (h, u)
      → IsEntry (h, u)
  unfolding host_cut
  host_cut-IsEntry none h u e = absurd cc
  host_cut-IsEntry (some (x, r)) h u e =
      hosted-IsEntry (to_lower (trim_space x)) (trim_space r) h u (to_lower_idem (trim_space x)) e

  unclaimed-IsParsed :
      (o : Option Upstream) (host : Bytes) (u : Upstream) (m m' : Dict Upstream)
      → lookup host m ≡ o
      → IsEntry (host, u)
      → IsParsed m
      → unclaimed parse o host u m ≡ some m'
      → IsParsed m'
  unfolding unclaimed
  unclaimed-IsParsed (some other) host u m m' f good p e = absurd cc
  unclaimed-IsParsed none host u m m' f good p e =
      subst IsParsed (some-injective _ _ e) (insert-IsParsed host u m f good p)

  add_new-IsParsed :
      (m m' : Dict Upstream) (o : Option (Bytes × Upstream))
      → ((h : Bytes) (u : Upstream) → o ≡ some (h, u) → IsEntry (h, u))
      → IsParsed m
      → add_new parse m o ≡ some m'
      → IsParsed m'
  unfolding add_new
  add_new-IsParsed m m' none good p e = absurd cc
  add_new-IsParsed m m' (some (host, u)) good p e =
      unclaimed-IsParsed (lookup host m) host u m m' refl (good host u refl) p e

  trimmed-IsParsed :
      (entry : Bytes) (m m' : Dict Upstream)
      → IsParsed m
      → trimmed parse entry m ≡ some m'
      → IsParsed m'
  unfolding trimmed
  trimmed-IsParsed entry m m' p e = elim (Bool-cases (is_empty entry)) [
    | inl blank ↦ subst IsParsed (some-injective m m' (rw blank at e)) p
    | inr given ↦
        add_new-IsParsed m m' (host_cut parse (cut b'=' entry)) (host_cut-IsEntry (cut b'=' entry))
          p (rw given at e)
  ]

  pub add_entries-none : (es : List Bytes) → add_entries parse es none ≡ none
  unfolding add_entries add_entry
  add_entries-none [] = refl
  add_entries-none (e ∷ es) = add_entries-none es

  add_entries-IsParsed :
      (es : List Bytes) (o : Option (Dict Upstream)) (m' : Dict Upstream)
      → ((m : Dict Upstream) → o ≡ some m → IsParsed m)
      → add_entries parse es o ≡ some m'
      → IsParsed m'
  unfolding add_entries add_entry
  add_entries-IsParsed [] o m' p e = p m' e
  add_entries-IsParsed (x ∷ es) none m' p e = absurd (ground (arith, add_entries-none es))
  add_entries-IsParsed (x ∷ es) (some m) m' p e =
      add_entries-IsParsed es (trimmed parse (trim_space x) m) m'
        (λ n h. trimmed-IsParsed (trim_space x) m n (p m refl) h) e

  filled-IsParsed :
      (o : Option (Dict Upstream)) (m' : Dict Upstream)
      → ((m : Dict Upstream) → o ≡ some m → IsParsed m)
      → filled parse o ≡ some m'
      → IsParsed m' × (m' ≢ [])
  unfolding filled
  filled-IsParsed none m' p e = absurd cc
  filled-IsParsed (some []) m' p e = absurd cc
  filled-IsParsed (some (x ∷ m)) m' p e =
      let same : x ∷ m ≡ m' = some-injective _ _ e in
      (p m' (ap some same), subst (λ n. n ≢ []) same (λ h. cc))

  parse_upstreams-IsParsed :
      (raw : Bytes) (m : Dict Upstream) → parse_upstreams parse raw ≡ some m → IsParsed m × (m ≢ [])
  unfolding parse_upstreams
  parse_upstreams-IsParsed raw m h =
      filled-IsParsed (add_entries parse (split raw b';') (some [])) m
        (λ n e.
          add_entries-IsParsed (split raw b';') (some []) n
            (λ k f. subst IsParsed (some-injective [] k f) (tt, tt)) e)
        h

Listed-IsServable :
    (host : Bytes) (u : Upstream) (m : Dict Upstream)
    → Listed host u m
    → All IsEntry m
    → (to_lower host ≡ host) × IsServable u
Listed-IsServable host u [] l _ = absurd l
Listed-IsServable host u ((j, v) ∷ m) (inl (e, f)) ((low, serves), _) =
    (subst (λ x. to_lower x ≡ x) e low, subst IsServable f serves)
Listed-IsServable host u ((j, v) ∷ m) (inr l) (_, hs) = Listed-IsServable host u m l hs

-- A member of the parsed map can be served, and is what a request for its host resolves to.
pub Listed-resolves :
    (parse : Bytes → Option Url) (raw : Bytes) (m : Dict Upstream) (host asked port : Bytes)
    (u : Upstream)
    → parse_upstreams parse raw ≡ some m
    → Listed host u m
    → Lacks b':' asked
    → to_lower asked ≡ host
    → IsServable u
      × (resolve (new_host_map m) asked ≡ some u)
      × (resolve (new_host_map m) (asked ++ b':' ∷ port) ≡ some u)
Listed-resolves parse raw m host asked port u h l lacks same =
    let ((entries, distinct), given) = parse_upstreams-IsParsed parse raw m h in
    let (low, serves) = Listed-IsServable host u m l entries in
    let reached = resolve-Listed m host asked port u distinct l lacks (same ∙ sym low) in
    (serves, reached.0, reached.1)
