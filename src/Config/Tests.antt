-- ===== src/Config/Tests.antt =====
-- internal/config on concrete settings.
use forge_proxy.Base.{
  ℕ, Bytes, codes, true, false, [], ◌∷◌, ◌≡◌, ◌≢◌, refl, Option, none, some, All, arith, ◌=ᵇ◌,
  if◌then◌else◌,
}
use forge_proxy.Base.Dict.{Dict}
use forge_proxy.Strings.{to_lower, trim_space, split}
use forge_proxy.Net.Url.{Url}
use forge_proxy.User.Roles.{is_role_name}
use forge_proxy.Config.Upstream.{Upstream}
use forge_proxy.Config.Upstreams.{parse_upstreams}
use forge_proxy.Config.Upstreams.Servable.{IsServable}
use forge_proxy.Config.Upstreams.Entry.{Says}
use forge_proxy.Config.Upstreams.Configured.{parse_upstreams-resolve}
use forge_proxy.Config.SshUpstreams.{SshUpstream, PortMap, parse_port_spec, parse_ssh_upstreams}
use forge_proxy.Config.SshUpstreams.Listeners.{IsListener, IsFresh, parse_ssh_upstreams-IsListener}
use forge_proxy.Proxy.Host.{new_host_map, resolve}

reading : Unit {0}
unfolding parse_upstreams to_lower trim_space split new_host_map resolve is_role_name
    parse_port_spec parse_ssh_upstreams
reading = tt

abbrev wiki_url : Url
wiki_url = record {
  scheme = codes "http";
  has_user = false;
  host = codes "wiki:80";
  text = codes "http://wiki:80";
}

-- A parser that knows one URL.
abbrev parse : Bytes → Option Url
parse raw = if raw =ᵇ wiki_url.text then some wiki_url else none

abbrev open_wiki : Upstream
open_wiki = record { target = wiki_url; required_roles = [] }

abbrev gated_wiki : Upstream
gated_wiki = record open_wiki { required_roles = codes "dev" ∷ codes "ops" ∷ [] }

abbrev setting : Bytes
setting = codes "Wiki.x.io=http://wiki:80 ; ops.x.io = http://wiki:80 | dev, ops;"

abbrev configured : Dict Upstream
configured = (codes "wiki.x.io", open_wiki) ∷ (codes "ops.x.io", gated_wiki) ∷ []

upstreams_tests :
    (parse_upstreams parse setting ≡ some configured)
    × (parse_upstreams parse (codes "a=http://wiki:80;A=http://wiki:80|ops") ≡ none)
    × (parse_upstreams parse (codes "a=http://wiki:80|") ≡ none)
    × (parse_upstreams parse (codes "a=http://wiki:80,b=http://wiki:80") ≡ none)
    × (parse_upstreams parse (codes " ; ") ≡ none)
unfolding reading
upstreams_tests = (refl, refl, refl, refl, refl)

parse_upstreams-resolve_example :
    (u : Upstream) × Says parse (codes "http://wiki:80 | dev, ops") u
    × IsServable u
    × (resolve (new_host_map configured) (codes "OPS.x.io") ≡ some u)
    × (resolve (new_host_map configured) (codes "OPS.x.io:443") ≡ some u)
unfolding reading
parse_upstreams-resolve_example =
    parse_upstreams-resolve parse setting configured (codes "Wiki.x.io=http://wiki:80 " ∷ [])
      ([] ∷ []) (codes " ops.x.io = http://wiki:80 | dev, ops") (codes "ops.x.io ")
      (codes " http://wiki:80 | dev, ops") (codes "OPS.x.io") (codes "443") refl refl refl
      (omega arith) (omega arith) refl

port_tests :
    (parse_port_spec (codes "2300-2302") ≡ some (record { lo = 2300; hi = 2302; is_range = true }))
    × (parse_port_spec (codes "2302-2300") ≡ none)
    × (parse_port_spec (codes "1-257") ≡ none)
    × (parse_port_spec (codes "65536") ≡ none)
unfolding reading
port_tests = (refl, refl, refl, refl)

-- A parser of the targets of SSH.
abbrev parse_ssh : Bytes → Option Url
parse_ssh raw =
    some (record { scheme = codes "ssh"; has_user = false; host = codes "box"; text = raw })

abbrev box_at : Bytes → Url
box_at text = record { scheme = codes "ssh"; has_user = false; host = codes "box"; text = text }

abbrev listener : ℕ → Bytes → ℕ × SshUpstream
listener p text = (p, record { port = p; target = box_at text; allowed_roles = codes "ops" ∷ [] })

abbrev listening : PortMap
listening = listener 2301 (codes "ssh://box:2301") ∷ listener 2300 (codes "ssh://box:2300") ∷ []

ssh_tests :
    (parse_ssh_upstreams parse_ssh (codes "2300-2301 = box | ops;") ≡ some listening)
    × (parse_ssh_upstreams parse_ssh (codes "2300-2301=box|ops;2301-2302=box|ops") ≡ none)
    × (parse_ssh_upstreams parse_ssh (codes "2300-2301=box|") ≡ none)
unfolding reading
ssh_tests = (refl, refl, refl)

parse_ssh_upstreams-IsListener_example :
    All IsListener listening × IsFresh listening × (listening ≢ [])
unfolding reading
parse_ssh_upstreams-IsListener_example =
    parse_ssh_upstreams-IsListener parse_ssh (codes "2300-2301 = box | ops;") listening refl
