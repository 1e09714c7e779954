-- ===== src/SshProxy/Forward/Requests.antt =====
-- Which requests reach the other end, and which are replied to.
use forge_proxy.Base.{
  ℕ, suc, Bytes, codes, Bool, true, false, List, [], ◌∷◌, ◌++◌, map, length, take, All, ◌↔◌, ◌≡◌,
  ◌≢◌, ◌⊎◌, inl, inr, refl, ap, ap₂, Option, none, some, arith, ◌=ᵇ◌, =ᵇ_iff, Bool-cases,
  if◌then◌else◌,
}
use forge_proxy.SshProxy.Forward.{
  Request, Reply, Effect, reply_if, is_ok, is_reverse, sent_on, global_request,
  forward_global_requests, forward_client_request,
}

abbrev pub wanted : Request → ℕ
wanted r = if r.want_reply then 1 else 0

abbrev pub reply_count : Effect → ℕ
reply_count e = length e.replies

-- Everything that was sent, in order.
abbrev pub all_sent : List Effect → List Request
all_sent [] = []
all_sent (e ∷ es) = e.sent ++ all_sent es

-- The requests without the reverse forwards.
unfoldable pub without_reverse : List Request → List Request
unfolding is_reverse
without_reverse [] = []
without_reverse (r ∷ rs) = let rest = without_reverse rs in if is_reverse r then rest else r ∷ rest

reply_if-length : (w ok : Bool) (p : Bytes) → length (reply_if w ok p) ≡ (if w then 1 else 0)
unfolding reply_if
reply_if-length true ok p = refl
reply_if-length false ok p = refl

-- What one request does.
abbrev Handled : Request → Effect → Type 0
Handled r e = (e.sent ≡ (if is_reverse r then [] else r ∷ [])) × (reply_count e ≡ wanted r)

reply_if-All :
    (P : Reply → Type 0) (w ok : Bool) (p : Bytes)
    → P (record { ok = ok; payload = p })
    → All P (reply_if w ok p)
unfolding reply_if
reply_if-All P true ok p h = (h, tt)
reply_if-All P false ok p h = tt

module _ {S : Type 0} (send : Request → S → Option Reply × S) where
  -- Sending fails for some request at some time.
  abbrev pub CanFail : Type 0
  CanFail = (r : Request) × (s : S) × ((send r s).0 ≡ none)

  abbrev Good : List Request → List Effect → Type 0
  Good rs es =
      (all_sent es ≡ without_reverse (take (length es) rs))
      × (map reply_count es ≡ map wanted (take (length es) rs))
      × ((length es ≡ length rs) ⊎ CanFail)

  sent-cons :
      (r : Request) (e : Effect) (rs : List Request) (sent : List Request)
      → e.sent ≡ (if is_reverse r then [] else r ∷ [])
      → sent ≡ without_reverse rs
      → e.sent ++ sent ≡ without_reverse (r ∷ rs)
  unfolding without_reverse
  sent-cons r e rs sent h k = elim (Bool-cases (is_reverse r)) [
    | inl reverse ↦ rw (h, k, reverse) refl
    | inr forward ↦ rw (h, k, forward) refl
  ]

  Good-cons :
      (r : Request) (e : Effect) (rs : List Request) (es : List Effect)
      → Handled r e
      → Good rs es
      → Good (r ∷ rs) (e ∷ es)
  Good-cons r e rs es (sent, replies) (all, counts, length_of) = (
    sent-cons r e (take (length es) rs) (all_sent es) sent all,
    ap₂ ◌∷◌ replies counts,
    elim length_of [ inl same ↦ inl (ap suc same) | inr fails ↦ inr fails ],
  )

  Good-last :
      (r : Request) (e : Effect) (rs : List Request)
      → Handled r e
      → CanFail
      → Good (r ∷ rs) (e ∷ [])
  Good-last r e rs (sent, replies) fails = (
    sent-cons r e [] [] sent (unfold without_reverse in refl),
    ap (λ (n : ℕ). n ∷ []) replies,
    inr fails,
  )

  sent_on-Handled :
      (r : Request) (a : Option Reply) (s : S) → is_reverse r ≡ false → Handled r (sent_on r a s).0
  unfolding sent_on
  sent_on-Handled r none s f = (rw f refl, reply_if-length r.want_reply false [])
  sent_on-Handled r (some a) s f = (rw f refl, reply_if-length r.want_reply a.ok a.payload)

  sent_on-stops : (r : Request) (a : Option Reply) (s : S) → (sent_on r a s).1 ≡ true → a ≡ none
  unfolding sent_on
  sent_on-stops r none s h = refl
  sent_on-stops r (some a) s h = cc

  global_request_lem :
      (r : Request) (s : S)
      → Handled r (global_request send r s).0 × ((global_request send r s).1 ≡ true → CanFail)
  unfolding global_request
  global_request_lem r s = elim (Bool-cases (is_reverse r)) [
    | inl reverse ↦ rw reverse ((refl, reply_if-length r.want_reply false []), λ h. absurd (cc))
    | inr forward ↦
        let handled = sent_on-Handled r (send r s).0 (send r s).1 forward in
        let plain = rw forward at handled in
        rw forward (plain, λ h. (r, s, sent_on-stops r (send r s).0 (send r s).1 h))
  ]

  -- What is sent on are the requests that are read, in their order and unchanged, without the
  -- reverse forwards; each that wants a reply gets one, and the others none. Every request is read,
  -- unless sending fails.
  pub forward_global_requests_lem :
      (rs : List Request) (s : S)
      → let es = (forward_global_requests send rs s).0 in
        (all_sent es ≡ without_reverse (take (length es) rs))
        × (map reply_count es ≡ map wanted (take (length es) rs))
        × ((length es ≡ length rs) ⊎ CanFail)
  unfolding forward_global_requests
  forward_global_requests_lem [] s = (unfold without_reverse in refl, refl, inl refl)
  forward_global_requests_lem (r ∷ rs) s =
      let (handled, fails) = global_request_lem r s in
      elim (Bool-cases (global_request send r s).1) [
        | inl stops ↦ rw stops (Good-last r (global_request send r s).0 rs handled (fails stops))
        | inr goes_on ↦ rw goes_on (
            Good-cons r (global_request send r s).0 rs _ handled
              (forward_global_requests_lem rs (global_request send r s).2))
      ]

-- A request to forward the agent is never sent on, and is refused. Any other request of a channel is
-- sent on as it is, and the reply says what the upstream answered.
pub forward_client_request_lem :
    {S : Type 0} (send : Request → S → Option Reply × S) (r : Request) (s : S)
    → let (e, s') = forward_client_request send r s in
      (length e.replies ≡ wanted r)
      × (((r.request_type ≡ codes "auth-agent-req@openssh.com")
            × (e.sent ≡ [])
            × (s' ≡ s)
            × All (λ (q : Reply). q.ok ≡ false) e.replies)
          ⊎ ((r.request_type ≢ codes "auth-agent-req@openssh.com")
              × (e.sent ≡ r ∷ [])
              × (s' ≡ (send r s).1)
              × All (λ (q : Reply). (q.ok ≡ true) ↔ (is_ok (send r s).0 ≡ true)) e.replies))
unfolding forward_client_request
forward_client_request_lem send r s =
    elim (Bool-cases (r.request_type =ᵇ codes "auth-agent-req@openssh.com")) [
      | inl agent ↦ rw agent (
        reply_if-length r.want_reply false [],
        inl (
          (=ᵇ_iff r.request_type (codes "auth-agent-req@openssh.com")).0 agent,
          refl,
          refl,
          reply_if-All (λ q. q.ok ≡ false) r.want_reply false [] refl,
        ),
      )
      | inr other ↦ rw other (
        reply_if-length r.want_reply (is_ok (send r s).0) [],
        inr (
          (λ e. ground (arith, =ᵇ_iff r.request_type (codes "auth-agent-req@openssh.com"))),
          refl,
          refl,
          reply_if-All (λ q. (q.ok ≡ true) ↔ (is_ok (send r s).0 ≡ true)) r.want_reply
              (is_ok (send r s).0) [] (λ e. e, λ e. e),
        ),
      )
    ]
