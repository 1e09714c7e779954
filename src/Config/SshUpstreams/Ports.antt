-- ===== src/Config/SshUpstreams/Ports.antt =====
-- The ports of one entry.
use mathlib.Core.Option.{some-injective}
use forge_proxy.Base.{
  ℕ, ◌+◌, ◌-◌, ◌≤◌, ◌<◌, Bytes, ◌≡◌, refl, subst, Option, none, some, arith, ltb, Bool-cases, inl,
  inr,
}
use forge_proxy.Strings.{trim_space, cut}
use forge_proxy.Decimal.Signed.{ℤ, pos, negsuc, parse_int}
use forge_proxy.Config.SshUpstreams.{
  in_range, parse_port, PortSpec, single, bounds, spec_of, parse_port_spec, max_ssh_port_range,
}

in_range-some : (o : Option ℤ) (p : ℕ) → in_range o ≡ some p → (1 ≤ p) × (p ≤ 65535)
unfolding in_range
in_range-some none p h = absurd cc
in_range-some (some (negsuc n)) p h = absurd cc
in_range-some (some (pos n)) p h = ground arith

-- The ports of an entry.
abbrev pub IsSpec : PortSpec → Type 0
IsSpec s = (1 ≤ s.lo) × (s.lo ≤ s.hi) × (s.hi ≤ 65535) × (s.hi < s.lo + max_ssh_port_range)

single-IsSpec :
    (o : Option ℕ) (s : PortSpec)
    → ((p : ℕ) → o ≡ some p → (1 ≤ p) × (p ≤ 65535))
    → single o ≡ some s
    → IsSpec s
unfolding single
single-IsSpec none s r h = absurd cc
single-IsSpec (some p) s r h =
    let (low, high) = r p refl in
    subst IsSpec (some-injective _ _ h) (low, omega arith, high, omega arith)

bounds-IsSpec :
    (a b : Option ℕ) (s : PortSpec)
    → ((p : ℕ) → a ≡ some p → (1 ≤ p) × (p ≤ 65535))
    → ((p : ℕ) → b ≡ some p → (1 ≤ p) × (p ≤ 65535))
    → bounds a b ≡ some s
    → IsSpec s
unfolding bounds
bounds-IsSpec none b s r q h = absurd cc
bounds-IsSpec (some lo) none s r q h = absurd cc
bounds-IsSpec (some lo) (some hi) s r q h =
    let (low, lo_high) = r lo refl in
    let (hi_low, high) = q hi refl in
    elim (Bool-cases (ltb hi lo)) [
      | inl reversed ↦ absurd (ground arith)
      | inr ordered ↦ elim (Bool-cases (ltb max_ssh_port_range (hi - lo + 1))) [
        | inl wide ↦ absurd (ground arith)
        | inr narrow ↦
            subst IsSpec (some-injective _ _ (rw (ordered, narrow) at h))
              (low, ground arith, high, ground arith)
      ]
    ]

spec_of-IsSpec :
    (raw : Bytes) (o : Option (Bytes × Bytes)) (s : PortSpec) → spec_of raw o ≡ some s → IsSpec s
unfolding spec_of parse_port
spec_of-IsSpec raw none s h =
    single-IsSpec (parse_port raw) s (in_range-some (parse_int (trim_space raw))) h
spec_of-IsSpec raw (some (lo, hi)) s h =
    bounds-IsSpec (parse_port lo) (parse_port hi) s (in_range-some (parse_int (trim_space lo)))
      (in_range-some (parse_int (trim_space hi))) h

-- The ports of an entry are ports, in order, and at most 256.
pub parse_port_spec-IsSpec : (raw : Bytes) (s : PortSpec) → parse_port_spec raw ≡ some s → IsSpec s
unfolding parse_port_spec
parse_port_spec-IsSpec raw s h = spec_of-IsSpec raw (cut b'-' raw) s h
