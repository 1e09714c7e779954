-- ===== src/User/Store/Upserted.antt =====
-- What the lookups find after a sign-in.
use forge_proxy.Base.{
  ℕ, Bytes, false, List, [], ◌∷◌, ◌≡◌, refl, sym, ap, ◌∙◌, ◌⊎◌, inl, inr, Option, none, some, arith,
  =ᵇ_refl, Bool-cases,
}
use forge_proxy.Clock.{unix, from_unix}
use forge_proxy.Db.{with_write_tx, with_write_tx-none, with_write_tx-some}
use forge_proxy.User.{User, found, missing, OidcClaims}
use forge_proxy.User.Roles.{parse_roles}
use forge_proxy.User.Store.{
  Row, Table, find, update, has_id, has_slack_id, user_of, decoded, queried, get_by_slack_id, Error,
  database, UpsertFaults, inserted, refreshed, signed_in, fresh, with_roles, upsert_row,
  upsert_body, upsert_from_oidc,
}
use forge_proxy.User.Store.Granted.{changed-held, find-update}

-- Which statements an upsert that succeeds has run: the INSERT of a user without roles, or the
-- UPDATE of the row that has the Slack id.
abbrev IsUpserted : ℕ → ℕ → OidcClaims → Table → User → Table → Type 0
IsUpserted new_id now c t u t' =
    ((find (has_slack_id c.slack_user_id) t ≡ none)
      × (u ≡ fresh new_id now c)
      × (t' ≡ inserted new_id now c ∷ t))
    ⊎ ((r : Row) × (names : List Bytes) × (find (has_slack_id c.slack_user_id) t ≡ some r)
        × (parse_roles r.roles ≡ some names)
        × (u ≡ signed_in now c r names)
        × (t' ≡ update (has_id r.id) (refreshed now c) t))

module _ (f : UpsertFaults) (new_id now : ℕ) (c : OidcClaims) (t t' : Table) (u : User) where
  with_roles-none :
      (r : Row) (names : Option (List Bytes))
      → find (has_slack_id c.slack_user_id) t ≡ some r
      → parse_roles r.roles ≡ names
      → with_roles now c r t names ≡ (none, (some u, t'))
      → IsUpserted new_id now c t u t'
  unfolding with_roles
  with_roles-none r none e p h = absurd cc
  with_roles-none r (some names) e p h = inr (r, names, e, p, ground arith, ground arith)

  upsert_row-none :
      (o : Option Row)
      → find (has_slack_id c.slack_user_id) t ≡ o
      → upsert_row f new_id now c o t ≡ (none, (some u, t'))
      → IsUpserted new_id now c t u t'
  unfolding upsert_row
  upsert_row-none none e h = elim (Bool-cases f.insert) [
    | inl bad ↦ absurd (ground arith)
    | inr good ↦ inl (e, ground arith, ground arith)
  ]
  upsert_row-none (some r) e h = elim (Bool-cases f.update) [
    | inl bad ↦ absurd (ground arith)
    | inr good ↦ with_roles-none r (parse_roles r.roles) e refl (rw good at h)
  ]

  upsert_body-none :
      upsert_body f new_id now c (none, t) ≡ (none, (some u, t')) → IsUpserted new_id now c t u t'
  unfolding upsert_body
  upsert_body-none h = elim (Bool-cases f.select) [
    | inl bad ↦ absurd (ground arith)
    | inr good ↦ upsert_row-none (find (has_slack_id c.slack_user_id) t) refl (rw good at h)
  ]

  committed :
      (r : Option Error × (Option User × Table))
      → with_write_tx f.tx database (upsert_body f new_id now c) (none, t) ≡ r
      → r.1 ≡ (some u, t')
      → IsUpserted new_id now c t u t'
  committed (none, s) h e = upsert_body-none (
      with_write_tx-none f.tx database (upsert_body f new_id now c) (none, t) s h
      ∙ ap (λ x. (none, x)) e)
  committed (some x, s) h e =
      let kept : s ≡ (none, t) =
        with_write_tx-some f.tx database (upsert_body f new_id now c) (none, t) s x h in
      absurd (ground (arith, sym kept ∙ e))

  upsert_from_oidc-IsUpserted :
      upsert_from_oidc f new_id now c t ≡ (some u, t') → IsUpserted new_id now c t u t'
  unfolding upsert_from_oidc
  upsert_from_oidc-IsUpserted h =
      committed (with_write_tx f.tx database (upsert_body f new_id now c) (none, t)) refl h

-- A user as a later lookup returns it, at whole seconds.
abbrev pub stored : User → User
stored u = record u {
  created_at = from_unix (unix u.created_at);
  last_login_at = from_unix (unix u.last_login_at);
}

after_fresh :
    (new_id now : ℕ) (c : OidcClaims) (t : Table)
    → get_by_slack_id false c.slack_user_id (inserted new_id now c ∷ t)
      ≡ found (stored (fresh new_id now c))
unfolding get_by_slack_id queried decoded find fresh inserted user_of
after_fresh new_id now c t = rw (=ᵇ_refl c.slack_user_id) (unfold parse_roles in refl)

whole_second : (x : ℕ) → from_unix (unix (from_unix x)) ≡ from_unix x
whole_second x = omega arith

after_known :
    (now : ℕ) (c : OidcClaims) (t : Table) (r : Row) (names : List Bytes)
    → find (has_slack_id c.slack_user_id) t ≡ some r
    → parse_roles r.roles ≡ some names
    → get_by_slack_id false c.slack_user_id (update (has_id r.id) (refreshed now c) t)
      ≡ found (stored (signed_in now c r names))
unfolding get_by_slack_id queried
after_known now c t r names e p =
    ap queried {y = some (refreshed now c r)} (
      find-update (has_slack_id c.slack_user_id) (has_id r.id) (refreshed now c) t
        (λ r. (unfold refreshed in refl))
      ∙ rw e (changed-held (has_id r.id) (refreshed now c) r (ground arith)))
    ∙ ap (decoded (refreshed now c r)) {x = parse_roles (refreshed now c r).roles} {y = some names}
        (unfold refreshed in p)
    ∙ (unfold decoded user_of signed_in refreshed in rw (whole_second r.created_at) refl)

missing_before :
    (c : OidcClaims) (t : Table)
    → find (has_slack_id c.slack_user_id) t ≡ none
    → get_by_slack_id false c.slack_user_id t ≡ missing
unfolding get_by_slack_id queried
missing_before c t e = rw e refl

found_before :
    (c : OidcClaims) (t : Table) (r : Row) (names : List Bytes)
    → find (has_slack_id c.slack_user_id) t ≡ some r
    → parse_roles r.roles ≡ some names
    → get_by_slack_id false c.slack_user_id t ≡ found (user_of r names)
unfolding get_by_slack_id queried decoded
found_before c t r names e p = rw (e, p) refl

-- An upsert that succeeds returns the account of the Slack id, with the texts of the claims and
-- this moment as its last sign-in, and later lookups by that id find the account. An account that
-- is new has no roles; one that was there keeps its id, its roles and its creation time.
pub get-upsert_from_oidc :
    (f : UpsertFaults) (new_id now : ℕ) (c : OidcClaims) (t t' : Table) (u : User)
    → upsert_from_oidc f new_id now c t ≡ (some u, t')
    → (get_by_slack_id false c.slack_user_id t' ≡ found (stored u))
      × (u.slack_team_id ≡ c.slack_team_id)
      × (u.email ≡ c.email)
      × (u.name ≡ c.name)
      × (u.avatar_url ≡ c.avatar_url)
      × (u.last_login_at ≡ now)
      × (((get_by_slack_id false c.slack_user_id t ≡ missing) × (u.id ≡ new_id) × (u.roles ≡ []))
          ⊎ ((old : User) × (get_by_slack_id false c.slack_user_id t ≡ found old)
              × (u.id ≡ old.id)
              × (u.roles ≡ old.roles)
              × (u.created_at ≡ old.created_at)))
unfolding fresh inserted signed_in refreshed user_of
get-upsert_from_oidc f new_id now c t t' u h =
    elim (upsert_from_oidc-IsUpserted f new_id now c t t' u h) [
      | inl (e, same_u, same_t) ↦
          rw (same_u, same_t)
            (
              after_fresh new_id now c t,
              refl,
              refl,
              refl,
              refl,
              refl,
              inl (missing_before c t e, refl, refl),
            )
      | inr (r, names, e, p, same_u, same_t) ↦
          rw (same_u, same_t)
            (
              after_known now c t r names e p,
              refl,
              refl,
              refl,
              refl,
              refl,
              inr (user_of r names, found_before c t r names e p, refl, refl, refl),
            )
    ]
