-- ===== src/Config/Upstreams/Servable.antt =====
-- What every configured upstream is.
use forge_proxy.Base.{
  Bytes, codes, false, not, ◌&&◌, List, [], ◌∷◌, ◌≡◌, ◌≢◌, ◌⊎◌, inl, inr, refl, subst, Option, none,
  some, All, arith, is_empty, ◌=ᵇ◌, =ᵇ_iff, Bool-cases,
}
use forge_proxy.Strings.{trim_space, split}
use forge_proxy.Net.Url.{Url}
use forge_proxy.User.Roles.{is_role_name, IsRole}
use forge_proxy.Config.Upstream.{Upstream}
use forge_proxy.Config.Upstreams.{
  add_role, role_list, roles_of, with_roles, with_url, target_of, gate_cut, is_legacy,
}

-- The scheme is of HTTP, there is a host, and the gate holds role names.
abbrev pub IsServable : Upstream → Type 0
IsServable u =
    ((u.target.scheme ≡ codes "http") ⊎ (u.target.scheme ≡ codes "https"))
    × (u.target.host ≢ [])
    × All IsRole u.required_roles

add_role-IsRole :
    (r : Bytes) (o : Option (List Bytes)) (rs : List Bytes)
    → ((ts : List Bytes) → o ≡ some ts → All IsRole ts)
    → add_role r o ≡ some rs
    → All IsRole rs
unfolding add_role
add_role-IsRole r none rs h e = cc
add_role-IsRole r (some ts) rs h e = elim (Bool-cases (is_role_name r)) [
  | inl good ↦ let same : r ∷ ts ≡ rs = ground arith in subst (All IsRole) same (good, h ts refl)
  | inr bad ↦ absurd (ground arith)
]

pub role_list-IsRole : (ps rs : List Bytes) → role_list ps ≡ some rs → All IsRole rs
unfolding role_list
role_list-IsRole [] rs h = let same : [] ≡ rs = ground arith in subst (All IsRole) same tt
role_list-IsRole (p ∷ ps) rs h =
    add_role-IsRole (trim_space p) (role_list ps) rs (role_list-IsRole ps) h

roles_of-IsRole : (o : Option Bytes) (rs : List Bytes) → roles_of o ≡ some rs → All IsRole rs
unfolding roles_of
roles_of-IsRole none rs h = let same : [] ≡ rs = ground arith in subst (All IsRole) same tt
roles_of-IsRole (some raw) rs h = elim (Bool-cases (is_empty raw)) [
  | inl blank ↦ absurd (ground arith)
  | inr given ↦ role_list-IsRole (split raw b',') rs (rw given at h)
]

with_roles-some :
    (u : Url) (o : Option (List Bytes)) (up : Upstream)
    → with_roles u o ≡ some up
    → (rs : List Bytes) × (o ≡ some rs) × (up ≡ record { target = u; required_roles = rs })
unfolding with_roles
with_roles-some u none up h = cc
with_roles-some u (some rs) up h = (rs, refl, ground arith)

pub empty-nil : (s : Bytes) → is_empty s ≡ false → s ≢ []
empty-nil [] h = cc
empty-nil (c ∷ s) h = λ e. cc

with_url-IsServable :
    (o : Option Url) (roles : Option (List Bytes)) (up : Upstream)
    → ((rs : List Bytes) → roles ≡ some rs → All IsRole rs)
    → with_url o roles ≡ some up
    → IsServable up
unfolding with_url
with_url-IsServable none roles up good h = absurd cc
with_url-IsServable (some u) roles up good h =
    elim (Bool-cases (not (u.scheme =ᵇ codes "http") && not (u.scheme =ᵇ codes "https"))) [
      | inl foreign ↦ absurd (ground arith)
      | inr web ↦ elim (Bool-cases (is_empty u.host)) [
        | inl blank ↦ absurd (ground arith)
        | inr given ↦
            let (rs, e, same) = with_roles-some u roles up (rw (web, given) at h) in
            rw same (
              (ground (arith, =ᵇ_iff u.scheme (codes "http"), =ᵇ_iff u.scheme (codes "https"))),
              empty-nil u.host given,
              good rs e,
            )
      ]
    ]

module _ (parse : Bytes → Option Url) where
  target_of-IsServable :
      (raw_url : Bytes) (roles_raw : Option Bytes) (u : Upstream)
      → target_of parse raw_url roles_raw ≡ some u
      → IsServable u
  unfolding target_of
  target_of-IsServable raw_url roles_raw u h = elim (Bool-cases (is_empty raw_url)) [
    | inl blank ↦ absurd (ground arith)
    | inr given ↦ elim (Bool-cases (is_legacy raw_url)) [
      | inl old ↦ absurd (ground arith)
      | inr new ↦
          with_url-IsServable (parse raw_url) (roles_of roles_raw) u (roles_of-IsRole roles_raw)
            (rw (given, new) at h)
    ]
  ]

  pub gate_cut-IsServable :
      (rest : Bytes) (o : Option (Bytes × Bytes)) (u : Upstream)
      → gate_cut parse rest o ≡ some u
      → IsServable u
  unfolding gate_cut
  gate_cut-IsServable rest none u h = target_of-IsServable (trim_space rest) none u h
  gate_cut-IsServable rest (some (raw_url, roles_raw)) u h =
      target_of-IsServable (trim_space raw_url) (some (trim_space roles_raw)) u h
