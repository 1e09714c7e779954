-- ===== src/Config/Upstreams/Entry.antt =====
-- internal/config/config.go, `parseUpstreams`: what one entry says.
use forge_proxy.Base.{
  ℕ, Bytes, codes, not, ◌||◌, ◌&&◌, List, [], ◌∷◌, ◌++◌, map, ◌≡◌, ◌⊎◌, inl, inr, refl, sym, ap,
  ap₂, ◌∙◌, Option, none, some, arith, is_empty, ◌==◌, ◌=ᵇ◌, Bool-cases,
}
use mathlib.Core.Option.{some-injective}
use forge_proxy.Strings.{to_lower, trim_space, split, cut, prepend}
use forge_proxy.Strings.Splitting.{Lacks}
use forge_proxy.Net.Url.{Url}
use forge_proxy.User.Roles.{is_role_name}
use forge_proxy.Config.Upstream.{Upstream}
use forge_proxy.Config.Upstreams.{
  add_role, role_list, roles_of, is_legacy, with_roles, with_url, target_of, gate_cut, named,
  hosted, host_cut,
}

-- The text behind the first "=" says this upstream: a URL, or a URL, "|" and a role list.
abbrev pub Says : (Bytes → Option Url) → Bytes → Upstream → Type 0
Says parse text u =
    (Lacks b'|' text × (parse (trim_space text) ≡ some u.target) × (u.required_roles ≡ []))
    ⊎ ((url : Bytes) × (roles : Bytes) × (text ≡ url ++ b'|' ∷ roles)
        × Lacks b'|' url
        × (parse (trim_space url) ≡ some u.target)
        × (u.required_roles ≡ map trim_space (split (trim_space roles) b',')))

pub cut-found : (b : ℕ) (l r : Bytes) → Lacks b l → cut b (l ++ b ∷ r) ≡ some (l, r)
unfolding cut prepend
cut-found b [] r lacks = ground arith
cut-found b (c ∷ l) r (ne, lacks) = ground (arith, cut-found b l r lacks)

prepend-some :
    (c : ℕ) (o : Option (Bytes × Bytes)) (l r : Bytes)
    → prepend c o ≡ some (l, r)
    → (k : Bytes) × (o ≡ some (k, r)) × (l ≡ c ∷ k)
unfolding prepend
prepend-some c none l r h = cc
prepend-some c (some (k, q)) l r h = (k, ground arith, ground arith)

prepend-none : (c : ℕ) (o : Option (Bytes × Bytes)) → prepend c o ≡ none → o ≡ none
unfolding prepend
prepend-none c none h = refl
prepend-none c (some (k, q)) h = cc

cut-some : (b : ℕ) (s l r : Bytes) → cut b s ≡ some (l, r) → (s ≡ l ++ b ∷ r) × Lacks b l
unfolding cut
cut-some b [] l r h = cc
cut-some b (c ∷ s) l r h = elim (Bool-cases (c == b)) [
  | inl same ↦
      let e : [] ≡ l = ground arith in
      let f : s ≡ r = ground arith in
      let is_b : c ≡ b = ground arith in rw (sym e) (ap₂ ◌∷◌ is_b f, tt)
  | inr differs ↦
      let (k, found, e) = prepend-some c (cut b s) l r (rw differs at h) in
      let (f, lacks) = cut-some b s k r found in
      rw e (ap (λ t. c ∷ t) f, ((λ q. ground arith), lacks))
]

cut-none : (b : ℕ) (s : Bytes) → cut b s ≡ none → Lacks b s
unfolding cut
cut-none b [] h = tt
cut-none b (c ∷ s) h = elim (Bool-cases (c == b)) [
  | inl same ↦ absurd (ground arith)
  | inr differs ↦ ((λ q. ground arith), cut-none b s (prepend-none c (cut b s) (rw differs at h)))
]

add_role-some :
    (r : Bytes) (o : Option (List Bytes)) (rs : List Bytes)
    → add_role r o ≡ some rs
    → (ts : List Bytes) × (o ≡ some ts) × (rs ≡ r ∷ ts)
unfolding add_role
add_role-some r none rs h = cc
add_role-some r (some ts) rs h = elim (Bool-cases (is_role_name r)) [
  | inl good ↦ (ts, refl, sym (some-injective _ _ (rw good at h)))
  | inr bad ↦ absurd (ground arith)
]

role_list-map : (ps rs : List Bytes) → role_list ps ≡ some rs → rs ≡ map trim_space ps
unfolding role_list
role_list-map [] rs h = sym (some-injective _ _ h)
role_list-map (p ∷ ps) rs h =
    let (ts, found, e) = add_role-some (trim_space p) (role_list ps) rs h in
    e ∙ ap (λ xs. trim_space p ∷ xs) (role_list-map ps ts found)

roles_of-none : (rs : List Bytes) → roles_of none ≡ some rs → rs ≡ []
unfolding roles_of
roles_of-none rs h = sym (some-injective _ _ h)

roles_of-some :
    (raw : Bytes) (rs : List Bytes)
    → roles_of (some raw) ≡ some rs
    → rs ≡ map trim_space (split raw b',')
unfolding roles_of
roles_of-some raw rs h = elim (Bool-cases (is_empty raw)) [
  | inl blank ↦ absurd (ground arith)
  | inr given ↦ role_list-map (split raw b',') rs (rw given at h)
]

with_roles-is :
    (url : Url) (o : Option (List Bytes)) (u : Upstream)
    → with_roles url o ≡ some u
    → (url ≡ u.target) × (o ≡ some u.required_roles)
unfolding with_roles
with_roles-is url none u h = cc
with_roles-is url (some rs) u h = (
  ap (λ (x : Upstream). x.target) (some-injective _ _ h),
  ap (λ (x : Upstream). some x.required_roles) (some-injective _ _ h),
)

with_url-is :
    (o : Option Url) (roles : Option (List Bytes)) (u : Upstream)
    → with_url o roles ≡ some u
    → (o ≡ some u.target) × (roles ≡ some u.required_roles)
unfolding with_url
with_url-is none roles u h = absurd cc
with_url-is (some url) roles u h =
    elim (Bool-cases (not (url.scheme =ᵇ codes "http") && not (url.scheme =ᵇ codes "https"))) [
      | inl foreign ↦ absurd (ground arith)
      | inr web ↦ elim (Bool-cases (is_empty url.host)) [
        | inl blank ↦ absurd (ground arith)
        | inr given ↦
            let (e, f) = with_roles-is url roles u (rw (web, given) at h) in (ap some e, f)
      ]
    ]

module _ (parse : Bytes → Option Url) where
  target_of-is :
      (raw_url : Bytes) (roles : Option Bytes) (u : Upstream)
      → target_of parse raw_url roles ≡ some u
      → (parse raw_url ≡ some u.target) × (roles_of roles ≡ some u.required_roles)
  unfolding target_of
  target_of-is raw_url roles u h = elim (Bool-cases (is_empty raw_url)) [
    | inl blank ↦ absurd (ground arith)
    | inr given ↦ elim (Bool-cases (is_legacy raw_url)) [
      | inl old ↦ absurd (ground arith)
      | inr new ↦ with_url-is (parse raw_url) (roles_of roles) u (rw (given, new) at h)
    ]
  ]

  gate_cut-Says :
      (text : Bytes) (o : Option (Bytes × Bytes)) (u : Upstream)
      → cut b'|' text ≡ o
      → gate_cut parse text o ≡ some u
      → Says parse text u
  unfolding gate_cut
  gate_cut-Says text none u c h =
      let (e, f) = target_of-is (trim_space text) none u h in
      inl (cut-none b'|' text c, e, roles_of-none u.required_roles f)
  gate_cut-Says text (some (url, roles)) u c h =
      let (e, f) = target_of-is (trim_space url) (some (trim_space roles)) u h in
      let (g, lacks) = cut-some b'|' text url roles c in
      inr (url, roles, g, lacks, e, roles_of-some (trim_space roles) u.required_roles f)

  named-is :
      (host : Bytes) (o : Option Upstream) (h : Bytes) (u : Upstream)
      → named parse host o ≡ some (h, u)
      → (o ≡ some u) × (h ≡ host)
  unfolding named
  named-is host none h u e = cc
  named-is host (some v) h u e = (ground arith, ground arith)

  hosted-Says :
      (host text h : Bytes) (u : Upstream)
      → hosted parse host text ≡ some (h, u)
      → (h ≡ host) × Says parse text u
  unfolding hosted
  hosted-Says host text h u e = elim (Bool-cases (is_empty host || is_empty text)) [
    | inl blank ↦ absurd (ground arith)
    | inr given ↦
        let (found, same) =
          named-is host (gate_cut parse text (cut b'|' text)) h u (rw given at e) in
        (same, gate_cut-Says text (cut b'|' text) u refl found)
  ]

  -- An entry that is read says its host in lower case and its upstream.
  pub host_cut-Says :
      (name rest h : Bytes) (u : Upstream)
      → host_cut parse (some (name, rest)) ≡ some (h, u)
      → (h ≡ to_lower (trim_space name)) × Says parse (trim_space rest) u
  unfolding host_cut
  host_cut-Says name rest h u e = hosted-Says (to_lower (trim_space name)) (trim_space rest) h u e
