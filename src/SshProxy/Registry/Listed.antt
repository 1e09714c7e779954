-- ===== src/SshProxy/Registry/Listed.antt =====
-- internal/sshproxy/sessions.go: the listed sessions and the forced close.
use forge_proxy.Base.{
  ℕ, Bytes, Bool, true, List, [], ◌∷◌, map, ◌≡◌, ◌≢◌, ◌⊎◌, inl, inr, refl, sym, All, arith, ◌==◌,
  ◌=ᵇ◌, =ᵇ_iff, is_empty, if◌then◌else◌, Bool-cases,
}
use forge_proxy.SshProxy.Registry.{
  Entry, Registry, SessionInfo, register, unregister, entered, attach_identity, info_of, list,
  force_close, force_close_by_email,
}

-- The steps of the handlers, in any order.
pub data Op : Type 0 where
  registers : ℕ → ℕ → Bytes → ℕ → Bool → Op
  attaches : ℕ → ℕ → Bytes → Op
  unregisters : ℕ → Op

unfoldable pub step : Op → Registry → Registry
unfolding register attach_identity unregister
step (registers c port client_addr now close_conn) r = register c port client_addr now close_conn r
step (attaches c user_id email) r = attach_identity c user_id email r
step (unregisters c) r = unregister c r

unfoldable pub run : List Op → Registry → Registry
unfolding step
run [] r = r
run (op ∷ ops) r = run ops (step op r)

-- An entry that has an address can be cancelled.
abbrev IsCoherent : ℕ × Entry → Type 0
IsCoherent (c, e) = (e.cancel ≡ true) ⊎ (e.email ≡ [])

unregister-IsCoherent : (c : ℕ) (r : Registry) → All IsCoherent r → All IsCoherent (unregister c r)
unfolding unregister
unregister-IsCoherent c [] _ = tt
unregister-IsCoherent c ((d, e) ∷ rest) (h, hs) = ground (arith, unregister-IsCoherent c rest hs)

attach_identity-IsCoherent :
    (c user_id : ℕ) (email : Bytes) (r : Registry)
    → All IsCoherent r
    → All IsCoherent (attach_identity c user_id email r)
unfolding attach_identity
attach_identity-IsCoherent c user_id email [] _ = tt
attach_identity-IsCoherent c user_id email ((d, e) ∷ rest) (h, hs) = elim (Bool-cases (d == c)) [
  | inl same ↦ rw same (inl refl, attach_identity-IsCoherent c user_id email rest hs)
  | inr other ↦ rw other (h, attach_identity-IsCoherent c user_id email rest hs)
]

step-IsCoherent : (op : Op) (r : Registry) → All IsCoherent r → All IsCoherent (step op r)
unfolding step register entered
step-IsCoherent (registers c port client_addr now close_conn) r h =
    (inr refl, unregister-IsCoherent c r h)
step-IsCoherent (attaches c user_id email) r h = attach_identity-IsCoherent c user_id email r h
step-IsCoherent (unregisters c) r h = unregister-IsCoherent c r h

run-IsCoherent : (ops : List Op) (r : Registry) → All IsCoherent r → All IsCoherent (run ops r)
unfolding run
run-IsCoherent [] r h = h
run-IsCoherent (op ∷ ops) r h = run-IsCoherent ops (step op r) (step-IsCoherent op r h)

-- The listed sessions of an address.
unfoldable pub of_email : Bytes → List SessionInfo → List SessionInfo
of_email email [] = []
of_email email (i ∷ is) =
    let rest = of_email email is in if i.email =ᵇ email then i ∷ rest else rest

closed-of_email :
    (email : Bytes) (r : Registry)
    → email ≢ []
    → All IsCoherent r
    → map (λ (p : ℕ × Entry). info_of p.1) (force_close (λ e. e.email =ᵇ email) r)
      ≡ of_email email (list r)
unfolding force_close list of_email info_of
closed-of_email email [] ne _ = refl
closed-of_email email ((c, e) ∷ rest) ne (inl held, hs) =
    ground (arith, closed-of_email email rest ne hs, =ᵇ_iff e.email email)
closed-of_email email ((c, e) ∷ rest) ne (inr none, hs) =
    ground (arith, closed-of_email email rest ne hs, =ᵇ_iff e.email email)

is_empty_iff : (s : Bytes) → (is_empty s ≡ true) → s ≡ []
is_empty_iff [] h = refl
is_empty_iff (c ∷ s) h = cc

of_email-nil : (r : Registry) → of_email [] (list r) ≡ []
unfolding of_email list info_of
of_email-nil [] = refl
of_email-nil ((c, e) ∷ rest) = ground (arith, of_email-nil rest, =ᵇ_iff e.email [])

-- After any steps of the handlers, a forced close of an address reaches the sessions that are
-- listed with that address, each of them, and no other; for the empty address it reaches none.
pub force_close_by_email-run :
    (ops : List Op) (email : Bytes)
    → map (λ (p : ℕ × Entry). info_of p.1) (force_close_by_email email (run ops []))
      ≡ of_email email (list (run ops []))
unfolding force_close_by_email
force_close_by_email-run ops [] = sym (of_email-nil (run ops []))
force_close_by_email-run ops (c ∷ s) =
    closed-of_email (c ∷ s) (run ops []) (λ e. cc) (run-IsCoherent ops [] tt)
