-- ===== src/Config/SshUpstreams/Listeners.antt =====
-- The listeners of a parsed configuration.
use mathlib.Core.Option.{some-injective}
use forge_proxy.Base.{
  ℕ, zero, suc, ◌+◌, ◌-◌, ◌≤◌, Bytes, codes, Bool, false, not, ◌||◌, List, [], ◌∷◌, ◌++◌, ◌≡◌, ◌≢◌,
  refl, subst, Option, none, some, All, arith, is_empty, if◌then◌else◌, Bool-cases, inl, inr,
}
use forge_proxy.Strings.{trim_space, split, cut}
use forge_proxy.Net.Url.{Url, port}
use forge_proxy.User.Roles.{IsRole}
use forge_proxy.Config.Upstreams.{role_list}
use forge_proxy.Config.Upstreams.Servable.{role_list-IsRole}
use forge_proxy.Config.SshUpstreams.{
  SshUpstream, PortMap, at_port, PortSpec, parse_port_spec, target_at, place, add_port, add_at,
  expand, with_roles, with_target, target_and_roles, with_spec, port_cut, trimmed, add_entry,
  add_entries, filled, parse_ssh_upstreams,
}
use forge_proxy.Config.SshUpstreams.Ports.{IsSpec, parse_port_spec-IsSpec}

abbrev pub IsListener : ℕ × SshUpstream → Type 0
IsListener (p, u) =
    (u.port ≡ p) × (1 ≤ p) × (p ≤ 65535) × (u.allowed_roles ≢ []) × All IsRole u.allowed_roles

-- No port has two entries.
abbrev pub IsFresh : PortMap → Type 0
IsFresh [] = Unit
IsFresh ((p, u) ∷ m) = (at_port p m ≡ none) × IsFresh m

abbrev IsPorts : PortMap → Type 0
IsPorts m = All IsListener m × IsFresh m

-- What is known of a result that is not an error.
abbrev Checked : Option PortMap → Type 0
Checked none = Unit
Checked (some m) = IsPorts m

module _ (parse : Bytes → Option Url) where
  add_port-Checked :
      (is_range : Bool) (u : Url) (roles : List Bytes) (p : ℕ) (o : Option SshUpstream)
      (m : PortMap)
      → at_port p m ≡ o
      → (1 ≤ p) × (p ≤ 65535) × (roles ≢ []) × All IsRole roles
      → IsPorts m
      → Checked (add_port parse is_range u roles p o m)
  unfolding add_port
  add_port-Checked is_range u roles p (some other) m e h hs = tt
  add_port-Checked is_range u roles p none m e (low, high, given, named) (all_listen, fresh) =
      placed (target_at parse is_range u p)
    where
      placed : (o : Option Url) → Checked (place parse p roles o m)
      placed none = unfold place in tt
      placed (some v) = unfold place in (((refl, low, high, given, named), all_listen), (e, fresh))

  add_at-Checked :
      (is_range : Bool) (u : Url) (roles : List Bytes) (p : ℕ) (o : Option PortMap)
      → (1 ≤ p) × (p ≤ 65535) × (roles ≢ []) × All IsRole roles
      → Checked o
      → Checked (add_at parse is_range u roles p o)
  unfolding add_at
  add_at-Checked is_range u roles p none h c = tt
  add_at-Checked is_range u roles p (some m) h c =
      add_port-Checked is_range u roles p (at_port p m) m refl h c

  expand-Checked :
      (is_range : Bool) (u : Url) (roles : List Bytes) (count p : ℕ) (o : Option PortMap)
      → 1 ≤ p
      → p + count ≤ 65536
      → roles ≢ []
      → All IsRole roles
      → Checked o
      → Checked (expand parse is_range u roles count p o)
  unfolding expand
  expand-Checked is_range u roles zero p o low high given named c = c
  expand-Checked is_range u roles (suc count) p o low high given named c =
      expand-Checked is_range u roles count (suc p) (add_at parse is_range u roles p o)
        (omega arith) (omega arith) given named
        (add_at-Checked is_range u roles p o (low, omega arith, given, named) c)

  with_roles-Checked :
      (s : PortSpec) (u : Url) (o : Option (List Bytes)) (m : PortMap)
      → IsSpec s
      → ((rs : List Bytes) → o ≡ some rs → All IsRole rs)
      → IsPorts m
      → Checked (with_roles parse s u o m)
  unfolding with_roles
  with_roles-Checked s u none m spec named c = tt
  with_roles-Checked s u (some roles) m (low, ordered, high, narrow) named c =
      elim (Bool-cases (is_empty roles)) [
        | inl blank ↦ rw blank tt
        | inr given ↦ rw given (
            expand-Checked s.is_range u roles (s.hi - s.lo + 1) s.lo (some m) low (omega arith)
              (given_roles roles given) (named roles refl) c)
      ]
    where
      given_roles : (rs : List Bytes) → is_empty rs ≡ false → rs ≢ []
      given_roles [] h = absurd cc
      given_roles (r ∷ rs) h = λ e. cc

  with_target-Checked :
      (s : PortSpec) (o : Option Url) (roles_raw : Bytes) (m : PortMap)
      → IsSpec s
      → IsPorts m
      → Checked (with_target parse s o roles_raw m)
  unfolding with_target
  with_target-Checked s none roles_raw m spec c = tt
  with_target-Checked s (some u) roles_raw m spec c = elim (Bool-cases (is_empty u.host)) [
    | inl blank ↦ rw blank tt
    | inr given ↦
        elim (Bool-cases (if s.is_range then not (is_empty (port u)) else is_empty (port u))) [
          | inl bad ↦ rw (given, bad) tt
          | inr good ↦
              rw (given, good)
                (with_roles-Checked s u (role_list (split roles_raw b',')) m spec
                  (role_list-IsRole (split roles_raw b',')) c)
        ]
  ]

  target_and_roles-Checked :
      (s : PortSpec) (target_raw roles_raw : Bytes) (m : PortMap)
      → IsSpec s
      → IsPorts m
      → Checked (target_and_roles parse s target_raw roles_raw m)
  unfolding target_and_roles
  target_and_roles-Checked s target_raw roles_raw m spec c =
      elim (Bool-cases (is_empty target_raw || is_empty roles_raw)) [
        | inl blank ↦ rw blank tt
        | inr given ↦
            rw given
              (with_target-Checked s (parse (codes "ssh://" ++ target_raw)) roles_raw m spec c)
      ]

  with_spec-Checked :
      (o : Option PortSpec) (rest : Option (Bytes × Bytes)) (m : PortMap)
      → ((s : PortSpec) → o ≡ some s → IsSpec s)
      → IsPorts m
      → Checked (with_spec parse o rest m)
  unfolding with_spec
  with_spec-Checked none rest m spec c = tt
  with_spec-Checked (some s) none m spec c = tt
  with_spec-Checked (some s) (some (target_raw, roles_raw)) m spec c =
      target_and_roles-Checked s (trim_space target_raw) (trim_space roles_raw) m (spec s refl) c

  port_cut-Checked :
      (o : Option (Bytes × Bytes)) (m : PortMap) → IsPorts m → Checked (port_cut parse o m)
  unfolding port_cut
  port_cut-Checked none m c = tt
  port_cut-Checked (some (port_raw, rest)) m c =
      elim (Bool-cases (is_empty (trim_space port_raw))) [
        | inl blank ↦ rw blank tt
        | inr given ↦ rw given (
            with_spec-Checked (parse_port_spec (trim_space port_raw)) (cut b'|' (trim_space rest)) m
              (parse_port_spec-IsSpec (trim_space port_raw)) c)
      ]

  trimmed-Checked : (entry : Bytes) (m : PortMap) → IsPorts m → Checked (trimmed parse entry m)
  unfolding trimmed
  trimmed-Checked entry m c = elim (Bool-cases (is_empty entry)) [
    | inl blank ↦ rw blank c
    | inr given ↦ rw given (port_cut-Checked (cut b'=' entry) m c)
  ]

  add_entries-Checked :
      (es : List Bytes) (o : Option PortMap) → Checked o → Checked (add_entries parse es o)
  unfolding add_entries add_entry
  add_entries-Checked [] o c = c
  add_entries-Checked (e ∷ es) none c = add_entries-Checked es none tt
  add_entries-Checked (e ∷ es) (some m) c =
      add_entries-Checked es (trimmed parse (trim_space e) m) (trimmed-Checked (trim_space e) m c)

  filled-some :
      (o : Option PortMap) (m : PortMap)
      → Checked o
      → filled parse o ≡ some m
      → IsPorts m × (m ≢ [])
  unfolding filled
  filled-some none m c h = absurd cc
  filled-some (some []) m c h = absurd cc
  filled-some (some (x ∷ n)) m c h =
      let same : x ∷ n ≡ m = some-injective _ _ h in
      (subst IsPorts same c, subst (λ k. k ≢ []) same (λ e. cc))

-- Where the SSH configuration is accepted there is a listener, each has a port from 1 to 65535 and
-- a list of role names that is not empty, and no port has two.
pub parse_ssh_upstreams-IsListener :
    (parse : Bytes → Option Url) (raw : Bytes) (m : PortMap)
    → parse_ssh_upstreams parse raw ≡ some m
    → All IsListener m × IsFresh m × (m ≢ [])
unfolding parse_ssh_upstreams
parse_ssh_upstreams-IsListener parse raw m h =
    let ((listening, fresh), given) =
      filled-some parse (add_entries parse (split raw b';') (some [])) m
        (add_entries-Checked parse (split raw b';') (some []) (tt, tt)) h in
    (listening, fresh, given)
