-- ===== src/Config/Upstreams.antt =====
-- internal/config/config.go: `parseUpstreams`. An error is none, whatever its text; the URL parser is
-- a parameter.
pub mod Distinct
pub mod Entry
pub mod Configured
pub mod Servable
use forge_proxy.Base.{
  ℕ, Bytes, codes, Bool, true, false, not, ◌||◌, ◌&&◌, List, [], ◌∷◌, Option, none, some, is_empty,
  ◌=ᵇ◌, if◌then◌else◌,
}
use forge_proxy.Base.Dict
use forge_proxy.Base.Dict.{Dict}
use forge_proxy.Strings.{to_lower, trim_space, split, cut, has_byte}
use forge_proxy.Net.Url.{Url}
use forge_proxy.User.Roles.{is_role_name}
use forge_proxy.Config.Upstream.{Upstream}

add_role : Bytes → Option (List Bytes) → Option (List Bytes)
unfolding is_role_name
add_role r none = none
add_role r (some rs) = if is_role_name r then some (r ∷ rs) else none

-- The role list of an entry: an empty name is an error, as a name of another shape is.
unfoldable pub role_list : List Bytes → Option (List Bytes)
unfolding add_role trim_space
role_list [] = some []
role_list (p ∷ ps) = add_role (trim_space p) (role_list ps)

-- No list is no gate; an empty list is an error.
roles_of : Option Bytes → Option (List Bytes)
unfolding role_list split
roles_of none = some []
roles_of (some raw) = if is_empty raw then none else role_list (split raw b',')

with_roles : Url → Option (List Bytes) → Option Upstream
with_roles u none = none
with_roles u (some rs) = some (record { target = u; required_roles = rs })

-- `legacyEntryErr`: a comma in the URL is the old form.
unfoldable pub is_legacy : Bytes → Bool
unfolding has_byte
is_legacy raw_url = has_byte b',' raw_url

with_url : Option Url → Option (List Bytes) → Option Upstream
unfolding with_roles ◌=ᵇ◌
with_url none rs = none
with_url (some u) rs =
    if not (u.scheme =ᵇ codes "http") && not (u.scheme =ᵇ codes "https")
    then none
    else if is_empty u.host
    then none
    else with_roles u rs

module _ (parse : Bytes → Option Url) where
  -- The URL and the role list of an entry, both trimmed.
  target_of : Bytes → Option Bytes → Option Upstream
  unfolding is_legacy with_url roles_of
  target_of raw_url roles_raw =
      if is_empty raw_url
      then none
      else if is_legacy raw_url
      then none
      else with_url (parse raw_url) (roles_of roles_raw)

  pub gate_cut : Bytes → Option (Bytes × Bytes) → Option Upstream
  unfolding target_of trim_space
  gate_cut rest none = target_of (trim_space rest) none
  gate_cut rest (some (raw_url, roles_raw)) =
      target_of (trim_space raw_url) (some (trim_space roles_raw))

  named : Bytes → Option Upstream → Option (Bytes × Upstream)
  named host none = none
  named host (some u) = some (host, u)

  -- An entry whose host is in lower case.
  hosted : Bytes → Bytes → Option (Bytes × Upstream)
  unfolding named gate_cut cut
  hosted host rest =
      if is_empty host || is_empty rest then none else named host (gate_cut rest (cut b'|' rest))

  pub host_cut : Option (Bytes × Bytes) → Option (Bytes × Upstream)
  unfolding hosted to_lower trim_space
  host_cut none = none
  host_cut (some (h, r)) = hosted (to_lower (trim_space h)) (trim_space r)

  -- A second entry of a host is an error.
  unclaimed : Option Upstream → Bytes → Upstream → Dict Upstream → Option (Dict Upstream)
  unfolding Dict.insert
  unclaimed none host u m = some (Dict.insert host u m)
  unclaimed (some other) host u m = none

  add_new : Dict Upstream → Option (Bytes × Upstream) → Option (Dict Upstream)
  unfolding Dict.lookup unclaimed
  add_new m none = none
  add_new m (some (host, u)) = unclaimed (Dict.lookup host m) host u m

  -- A blank entry is passed over.
  trimmed : Bytes → Dict Upstream → Option (Dict Upstream)
  unfolding add_new host_cut cut
  trimmed entry m = if is_empty entry then some m else add_new m (host_cut (cut b'=' entry))

  add_entry : Bytes → Option (Dict Upstream) → Option (Dict Upstream)
  unfolding trimmed trim_space
  add_entry e none = none
  add_entry e (some m) = trimmed (trim_space e) m

  -- The loop. An error stays.
  pub add_entries : List Bytes → Option (Dict Upstream) → Option (Dict Upstream)
  unfolding add_entry
  add_entries [] m = m
  add_entries (e ∷ es) m = add_entries es (add_entry e m)

  filled : Option (Dict Upstream) → Option (Dict Upstream)
  filled none = none
  filled (some m) = if is_empty m then none else some m

  -- `parseUpstreams`
  unfoldable pub parse_upstreams : Bytes → Option (Dict Upstream)
  unfolding filled add_entries split
  parse_upstreams raw = filled (add_entries (split raw b';') (some []))
