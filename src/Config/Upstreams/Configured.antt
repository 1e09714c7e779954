-- ===== src/Config/Upstreams/Configured.antt =====
-- internal/config/config.go, `parseUpstreams`: every configured entry reaches the proxy.
use forge_proxy.Base.{
  Bytes, List, [], ◌∷◌, ◌++◌, ◌≡◌, inl, inr, refl, sym, subst, ◌∙◌, Option, none, some, arith,
  is_empty, false, ◌=ᵇ◌, Bool-cases, Option-cases,
}
use mathlib.Core.Option.{some-injective}
use forge_proxy.Base.Dict.{Dict, lookup, insert}
use forge_proxy.Strings.{to_lower, trim_space, split, cut}
use forge_proxy.Strings.Splitting.{Lacks}
use forge_proxy.Net.Url.{Url}
use forge_proxy.Config.Upstream.{Upstream}
use forge_proxy.Config.Upstreams.{
  host_cut, unclaimed, add_new, trimmed, add_entry, add_entries, filled, parse_upstreams,
}
use forge_proxy.Config.Upstreams.Servable.{IsServable}
use forge_proxy.Config.Upstreams.Distinct.{add_entries-none, Listed-resolves}
use forge_proxy.Config.Upstreams.Entry.{Says, cut-found, host_cut-Says}
use forge_proxy.Proxy.Host.{Listed, new_host_map, resolve}

insert-keeps :
    (host k : Bytes) (u w : Upstream) (m : Dict Upstream)
    → lookup k m ≡ none
    → Listed host u m
    → Listed host u (insert k w m)
unfolding insert lookup
insert-keeps host k u w [] fresh l = absurd l
insert-keeps host k u w ((j, v) ∷ m) fresh l = elim (Bool-cases (j =ᵇ k)) [
  | inl same ↦ absurd (ground arith)
  | inr differs ↦ rw differs (elim l [
    | inl here ↦ inl here
    | inr later ↦ inr (insert-keeps host k u w m (rw differs at fresh) later)
  ])
]

insert-Listed : (k : Bytes) (w : Upstream) (m : Dict Upstream) → Listed k w (insert k w m)
unfolding insert
insert-Listed k w [] = inl (refl, refl)
insert-Listed k w ((j, v) ∷ m) = elim (Bool-cases (j =ᵇ k)) [
  | inl same ↦ rw same (inl (refl, refl))
  | inr differs ↦ rw differs (inr (insert-Listed k w m))
]

-- The second map has every member of the first.
abbrev Extends : Dict Upstream → Dict Upstream → Type 0
Extends m m' = (host : Bytes) (u : Upstream) → Listed host u m → Listed host u m'

not_blank : (name rest : Bytes) → is_empty (name ++ b'=' ∷ rest) ≡ false
not_blank [] rest = refl
not_blank (c ∷ name) rest = refl

filled-some :
    (parse : Bytes → Option Url) (o : Option (Dict Upstream)) (m : Dict Upstream)
    → filled parse o ≡ some m
    → o ≡ some m
unfolding filled
filled-some parse none m h = cc
filled-some parse (some []) m h = cc
filled-some parse (some (x ∷ n)) m h = h

module _ (parse : Bytes → Option Url) where
  unclaimed-adds :
      (o : Option Upstream) (k : Bytes) (w : Upstream) (m m' : Dict Upstream)
      → lookup k m ≡ o
      → unclaimed parse o k w m ≡ some m'
      → Extends m m' × Listed k w m'
  unfolding unclaimed
  unclaimed-adds (some other) k w m m' f e = absurd cc
  unclaimed-adds none k w m m' f e =
      subst (λ n. Extends m n × Listed k w n) (some-injective _ _ e)
        ((λ host u l. insert-keeps host k u w m f l), insert-Listed k w m)

  add_new-adds :
      (o : Option (Bytes × Upstream)) (m m' : Dict Upstream)
      → add_new parse m o ≡ some m'
      → Extends m m' × ((k : Bytes) × (w : Upstream) × (o ≡ some (k, w)) × Listed k w m')
  unfolding add_new
  add_new-adds none m m' e = absurd cc
  add_new-adds (some (k, w)) m m' e =
      let (extends, listed) = unclaimed-adds (lookup k m) k w m m' refl e in
      (extends, (k, w, refl, listed))

  trimmed-Extends :
      (entry : Bytes) (m m' : Dict Upstream) → trimmed parse entry m ≡ some m' → Extends m m'
  unfolding trimmed
  trimmed-Extends entry m m' e = elim (Bool-cases (is_empty entry)) [
    | inl blank ↦ subst (Extends m) (some-injective m m' (rw blank at e)) (λ host u l. l)
    | inr given ↦ (add_new-adds (host_cut parse (cut b'=' entry)) m m' (rw given at e)).0
  ]

  add_entries-Extends :
      (es : List Bytes) (m m' : Dict Upstream)
      → add_entries parse es (some m) ≡ some m'
      → Extends m m'
  unfolding add_entries add_entry
  add_entries-Extends [] m m' e = subst (Extends m) (some-injective m m' e) (λ host u l. l)
  add_entries-Extends (x ∷ es) m m' e = elim (Option-cases (trimmed parse (trim_space x) m)) [
    | inl stops ↦ absurd (ground (arith, add_entries-none parse es))
    | inr (n, goes) ↦ λ host u l.
        add_entries-Extends es n m' (subst (λ o. add_entries parse es o ≡ some m') goes e) host u
          (trimmed-Extends (trim_space x) m n goes host u l)
  ]

  entry-adds :
      (name rest : Bytes) (m n : Dict Upstream)
      → Lacks b'=' name
      → trimmed parse (name ++ b'=' ∷ rest) m ≡ some n
      → (k : Bytes) × (w : Upstream) × (host_cut parse (some (name, rest)) ≡ some (k, w))
        × Listed k w n
  unfolding trimmed
  entry-adds name rest m n lacks goes =
      let at_cut = cut-found b'=' name rest lacks in
      let added =
        add_new-adds (host_cut parse (some (name, rest))) m n
          (rw (not_blank name rest, at_cut) at goes) in
      added.1

  -- An entry that is not blank is read, and ends in the map.
  add_entries-Listed :
      (front back : List Bytes) (entry name rest : Bytes) (m m' : Dict Upstream)
      → trim_space entry ≡ name ++ b'=' ∷ rest
      → Lacks b'=' name
      → add_entries parse (front ++ entry ∷ back) (some m) ≡ some m'
      → (k : Bytes) × (w : Upstream) × (host_cut parse (some (name, rest)) ≡ some (k, w))
        × Listed k w m'
  unfolding add_entries add_entry
  add_entries-Listed [] back entry name rest m m' is_entry lacks e =
      elim (Option-cases (trimmed parse (trim_space entry) m)) [
        | inl stops ↦ absurd (ground (arith, add_entries-none parse back))
        | inr (n, goes) ↦
            let (k, w, read, listed) = entry-adds name rest m n lacks (rw is_entry at goes) in
            (
              k,
              w,
              read,
              add_entries-Extends back n m' (subst (λ o. add_entries parse back o ≡ some m') goes e)
                  k w listed,
            )
      ]
  add_entries-Listed (x ∷ front) back entry name rest m m' is_entry lacks e =
      elim (Option-cases (trimmed parse (trim_space x) m)) [
        | inl stops ↦ absurd (ground (arith, add_entries-none parse (front ++ entry ∷ back)))
        | inr (n, goes) ↦
            add_entries-Listed front back entry name rest n m' is_entry lacks
              (subst (λ o. add_entries parse (front ++ entry ∷ back) o ≡ some m') goes e)
      ]

-- Where the configuration is accepted, each entry of its text that is a name, "=" and a rest says an
-- upstream: the rest is a URL that is followed by "|" and a role list or by nothing. That upstream can
-- be served, and is what a request for the entry's name resolves to, whatever the case of the name
-- and with or without a port: no entry takes the place of another. The requested host has no colon
-- of its own.
pub parse_upstreams-resolve :
    (parse : Bytes → Option Url) (raw : Bytes) (m : Dict Upstream) (front back : List Bytes)
    (entry name rest asked port : Bytes)
    → parse_upstreams parse raw ≡ some m
    → split raw b';' ≡ front ++ entry ∷ back
    → trim_space entry ≡ name ++ b'=' ∷ rest
    → Lacks b'=' name
    → Lacks b':' asked
    → to_lower asked ≡ to_lower (trim_space name)
    → (u : Upstream) × Says parse (trim_space rest) u
      × IsServable u
      × (resolve (new_host_map m) asked ≡ some u)
      × (resolve (new_host_map m) (asked ++ b':' ∷ port) ≡ some u)
unfolding parse_upstreams
parse_upstreams-resolve parse raw m front back entry name rest asked port h parts is_entry plain
      lacks same =
    let (k, u, read, listed) =
      add_entries-Listed parse front back entry name rest [] m is_entry plain (
        subst (λ es. add_entries parse es (some []) ≡ some m) parts
          (filled-some parse (add_entries parse (split raw b';') (some [])) m h)) in
    let (host, says) = host_cut-Says parse name rest k u read in
    let (serves, bare, with_port) =
      Listed-resolves parse raw m k asked port u h listed lacks (same ∙ sym host) in
    (u, says, serves, bare, with_port)
