-- ===== src/Config/SshUpstreams.antt =====
-- internal/config/config.go: `parsePortSpec` and `parseSSHUpstreams`. An error is none; the URL parser
-- is a parameter.
pub mod Ports
pub mod Listeners
use forge_proxy.Base.{
  ℕ, zero, suc, ◌+◌, ◌-◌, Bytes, codes, Bool, true, false, not, ◌||◌, ◌&&◌, List, [], ◌∷◌, ◌++◌,
  Option, none, some, is_empty, ltb, ◌==◌, if◌then◌else◌,
}
use forge_proxy.Strings.{trim_space, split, cut}
use forge_proxy.Net.Url.{Url, hostname, port}
use forge_proxy.Decimal.{format_int}
use forge_proxy.Decimal.Signed.{ℤ, pos, negsuc, parse_int}
use forge_proxy.User.Roles.{is_role_name}
use forge_proxy.Config.Upstreams.{role_list}

-- `SSHUpstream`
pub record SshUpstream : Type 0 where
  pub port : ℕ
  pub target : Url
  pub allowed_roles : List Bytes

-- A map by ports.
abbrev pub PortMap : Type 0
PortMap = List (ℕ × SshUpstream)

unfoldable pub at_port : ℕ → PortMap → Option SshUpstream
at_port p [] = none
at_port p ((q, u) ∷ m) = if q == p then some u else at_port p m

abbrev pub max_ssh_port_range : ℕ
max_ssh_port_range = 256

in_range : Option ℤ → Option ℕ
in_range none = none
in_range (some (negsuc n)) = none
in_range (some (pos p)) = if ltb p 1 || ltb 65535 p then none else some p

parse_port : Bytes → Option ℕ
unfolding in_range parse_int trim_space
parse_port raw = in_range (parse_int (trim_space raw))

pub record PortSpec : Type 0 where
  pub lo : ℕ
  pub hi : ℕ
  pub is_range : Bool

single : Option ℕ → Option PortSpec
single none = none
single (some p) = some (record { lo = p; hi = p; is_range = false })

bounds : Option ℕ → Option ℕ → Option PortSpec
bounds none hi = none
bounds (some lo) none = none
bounds (some lo) (some hi) =
    if ltb hi lo
    then none
    else if ltb max_ssh_port_range (hi - lo + 1)
    then none
    else some (record { lo = lo; hi = hi; is_range = true })

spec_of : Bytes → Option (Bytes × Bytes) → Option PortSpec
unfolding single bounds parse_port
spec_of raw none = single (parse_port raw)
spec_of raw (some (lo, hi)) = bounds (parse_port lo) (parse_port hi)

-- `parsePortSpec`
unfoldable pub parse_port_spec : Bytes → Option PortSpec
unfolding spec_of cut
parse_port_spec raw = spec_of raw (cut b'-' raw)

module _ (parse : Bytes → Option Url) where
  -- The target of one port: in a range the port is the inbound one.
  target_at : Bool → Url → ℕ → Option Url
  unfolding hostname format_int
  target_at false u p = some u
  target_at true u p = parse (codes "ssh://" ++ hostname u ++ codes ":" ++ format_int p)

  place : ℕ → List Bytes → Option Url → PortMap → Option PortMap
  place p roles none m = none
  place p roles (some u) m = some ((p, record { port = p; target = u; allowed_roles = roles }) ∷ m)

  -- A second entry of a port is an error.
  add_port : Bool → Url → List Bytes → ℕ → Option SshUpstream → PortMap → Option PortMap
  unfolding place target_at
  add_port is_range u roles p none m = place p roles (target_at is_range u p) m
  add_port is_range u roles p (some other) m = none

  add_at : Bool → Url → List Bytes → ℕ → Option PortMap → Option PortMap
  unfolding add_port at_port
  add_at is_range u roles p none = none
  add_at is_range u roles p (some m) = add_port is_range u roles p (at_port p m) m

  -- The loop over `count` ports from `p` on. An error stays.
  expand : Bool → Url → List Bytes → ℕ → ℕ → Option PortMap → Option PortMap
  unfolding add_at
  expand is_range u roles zero p m = m
  expand is_range u roles (suc count) p m =
      expand is_range u roles count (suc p) (add_at is_range u roles p m)

  with_roles : PortSpec → Url → Option (List Bytes) → PortMap → Option PortMap
  unfolding expand
  with_roles s u none m = none
  with_roles s u (some roles) m =
      if is_empty roles then none else expand s.is_range u roles (s.hi - s.lo + 1) s.lo (some m)

  -- A range takes a bare host, and a single port a host with a port.
  with_target : PortSpec → Option Url → Bytes → PortMap → Option PortMap
  unfolding with_roles port role_list split
  with_target s none roles_raw m = none
  with_target s (some u) roles_raw m =
      if is_empty u.host
      then none
      else if (if s.is_range then not (is_empty (port u)) else is_empty (port u))
      then none
      else with_roles s u (role_list (split roles_raw b',')) m

  target_and_roles : PortSpec → Bytes → Bytes → PortMap → Option PortMap
  unfolding with_target
  target_and_roles s target_raw roles_raw m =
      if is_empty target_raw || is_empty roles_raw
      then none
      else with_target s (parse (codes "ssh://" ++ target_raw)) roles_raw m

  with_spec : Option PortSpec → Option (Bytes × Bytes) → PortMap → Option PortMap
  unfolding target_and_roles trim_space
  with_spec none rest m = none
  with_spec (some s) none m = none
  with_spec (some s) (some (target_raw, roles_raw)) m =
      target_and_roles s (trim_space target_raw) (trim_space roles_raw) m

  port_cut : Option (Bytes × Bytes) → PortMap → Option PortMap
  unfolding with_spec parse_port_spec cut trim_space
  port_cut none m = none
  port_cut (some (port_raw, rest)) m =
      if is_empty (trim_space port_raw)
      then none
      else with_spec (parse_port_spec (trim_space port_raw)) (cut b'|' (trim_space rest)) m

  trimmed : Bytes → PortMap → Option PortMap
  unfolding port_cut cut
  trimmed entry m = if is_empty entry then some m else port_cut (cut b'=' entry) m

  add_entry : Bytes → Option PortMap → Option PortMap
  unfolding trimmed trim_space
  add_entry e none = none
  add_entry e (some m) = trimmed (trim_space e) m

  add_entries : List Bytes → Option PortMap → Option PortMap
  unfolding add_entry
  add_entries [] m = m
  add_entries (e ∷ es) m = add_entries es (add_entry e m)

  filled : Option PortMap → Option PortMap
  filled none = none
  filled (some m) = if is_empty m then none else some m

  -- `parseSSHUpstreams`
  unfoldable pub parse_ssh_upstreams : Bytes → Option PortMap
  unfolding filled add_entries split
  parse_ssh_upstreams raw = filled (add_entries (split raw b';') (some []))
