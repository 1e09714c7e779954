-- ===== src/SshProxy/Roles.antt =====
-- internal/sshproxy/server.go: `rolesIntersect`.
use forge_proxy.Base.{
  Bytes, Bool, true, false, ◌||◌, List, [], ◌∷◌, ◌≡◌, ◌↔◌, arith, is_empty, if◌then◌else◌,
}
use forge_proxy.Config.Upstream.{Shares, holds_one, holds_one_iff}

-- The loop over the user's roles, whose set lookups are membership in the allowed roles.
unfoldable pub roles_intersect : List Bytes → List Bytes → Bool
unfolding holds_one
roles_intersect user_roles allowed_roles =
    if is_empty user_roles || is_empty allowed_roles
    then false
    else holds_one allowed_roles user_roles

Shares-nil : (roles : List Bytes) → ¬ Shares [] roles
Shares-nil [] h = h
Shares-nil (r ∷ roles) h = Shares-nil roles (ground arith)

-- Two lists of roles intersect exactly when some role is in both: an empty list of allowed roles
-- admits nobody.
pub roles_intersect_iff :
    (user_roles allowed_roles : List Bytes)
    → (roles_intersect user_roles allowed_roles ≡ true) ↔ Shares allowed_roles user_roles
unfolding roles_intersect
roles_intersect_iff [] allowed = ground arith
roles_intersect_iff (r ∷ roles) [] = ((λ h. cc), (λ h. absurd (Shares-nil (r ∷ roles) h)))
roles_intersect_iff (r ∷ roles) (a ∷ allowed) = holds_one_iff (a ∷ allowed) (r ∷ roles)
