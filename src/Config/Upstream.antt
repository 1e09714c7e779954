-- ===== src/Config/Upstream.antt =====
-- internal/config: an upstream and the roles that gate it.
use forge_proxy.Base.{
  Bytes, Bool, true, false, not, ◌||◌, List, [], ◌∷◌, ◌≡◌, refl, ◌↔◌, ◌⊎◌, arith, if◌then◌else◌,
  contains, contains_iff, Holds, is_empty,
}
use forge_proxy.Net.Url.{Url}

pub record Upstream : Type 0 where
  pub target : Url
  pub required_roles : List Bytes

unfoldable pub gated : Upstream → Bool
gated u = not (is_empty u.required_roles)

-- The loop over the user's roles.
unfoldable pub holds_one : List Bytes → List Bytes → Bool
unfolding contains
holds_one required [] = false
holds_one required (have ∷ roles) = contains required have || holds_one required roles

unfoldable pub permits : Upstream → List Bytes → Bool
unfolding gated holds_one
permits u roles = if not (gated u) then true else holds_one u.required_roles roles

-- Some role is in both lists.
abbrev pub Shares : List Bytes → List Bytes → Type 0
Shares required [] = ⊥
Shares required (have ∷ roles) = Holds have required ⊎ Shares required roles

pub holds_one_iff :
    (required roles : List Bytes) → (holds_one required roles ≡ true) ↔ Shares required roles
unfolding holds_one
holds_one_iff required [] = ground arith
holds_one_iff required (have ∷ roles) =
    ground (arith, contains_iff required have, holds_one_iff required roles)

permits_required :
    (u : Upstream) (required roles : List Bytes)
    → u.required_roles ≡ required
    → (permits u roles ≡ true) ↔ ((required ≡ []) ⊎ Shares required roles)
unfolding permits gated
permits_required u [] roles e = ground arith
permits_required u (r ∷ rs) roles e = ground (arith, holds_one_iff (r ∷ rs) roles)

-- An upstream permits a user exactly when it requires no role or the user has one that it lists.
pub permits_iff :
    (u : Upstream) (roles : List Bytes)
    → (permits u roles ≡ true) ↔ ((u.required_roles ≡ []) ⊎ Shares u.required_roles roles)
permits_iff u roles = permits_required u u.required_roles roles refl
