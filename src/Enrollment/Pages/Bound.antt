-- ===== src/Enrollment/Pages/Bound.antt =====
-- Whose key the second page registers.
use forge_proxy.Base.{ℕ, Bytes, ◌≡◌, refl, sym, subst, ◌∙◌, ◌⊎◌, inl, inr, arith, ◌==◌, Bool-cases}
use forge_proxy.Net.Header.{Header}
use forge_proxy.Net.Html.{escape_string}
use forge_proxy.Session
use forge_proxy.Session.{Session}
use forge_proxy.User.{Lookup}
use forge_proxy.SshKey
use forge_proxy.SshKey.{Table, add, get}
use forge_proxy.SshKey.Owned.{IsOwned, add-IsOwned}
use forge_proxy.SshKey.Bound.{add-binds, add-new, get-owner}
use forge_proxy.Enrollment
use forge_proxy.Enrollment.{Enrollment, Store, consume}
use forge_proxy.Enrollment.Pages.{
  State, Answer, shows, success_page, write_success, write_invalid_link, write_key_taken,
  owner_answer, add_answer, bound, redeemed, label_of, handle_complete,
}
use forge_proxy.Enrollment.Pages.Comes.{Run, key_store, IsRedeemed, status, handle_complete-Comes}

-- The page of success is about the fingerprint, which is the user's.
abbrev Bound : Bytes → ℕ → Answer × Table → Type 0
Bound f user_id (a, t) =
    status a ≡ 200 → (a ≡ shows 200 (success_page (escape_string f))) × IsOwned f user_id t

module _ (x : Run) (label : Bytes) (user_id : ℕ) where
  owner_answer-Bound :
      (f : Bytes) (t : Table) (r : SshKey.Result)
      → get x.get_fails f t ≡ r
      → Bound f user_id (owner_answer (key_store x) user_id f r, t)
  unfolding owner_answer write_success write_key_taken
  owner_answer-Bound f t (SshKey.Result.err e) g = λ h. absurd (ground arith)
  owner_answer-Bound f t (SshKey.Result.ok k) g = elim (Bool-cases (k.user_id == user_id)) [
    | inl same ↦
        let is_user : k.user_id ≡ user_id = ground arith in
        rw same (λ h. (refl, subst (λ n. IsOwned f n t) is_user (get-owner x.get_fails f t k g)))
    | inr differ ↦ rw differ (λ h. absurd (ground arith))
  ]

  add_answer-Bound :
      (f : Bytes) (r : SshKey.Result × Table)
      → ((k : SshKey.Key) → r.0 ≡ SshKey.Result.ok k → IsOwned f user_id r.1)
      → Bound f user_id (add_answer (key_store x) user_id f r)
  unfolding add_answer write_success write_invalid_link key_store
  add_answer-Bound f (SshKey.Result.ok k, t) owned h = (refl, owned k refl)
  add_answer-Bound f (SshKey.Result.err SshKey.Error.fingerprint_taken, t) owned h =
      owner_answer-Bound f t (get x.get_fails f t) refl h
  add_answer-Bound f (SshKey.Result.err SshKey.Error.not_found, t) owned h = absurd (ground arith)
  add_answer-Bound f (SshKey.Result.err SshKey.Error.failed, t) owned h = absurd (ground arith)

  add_answer-table :
      (f : Bytes) (r : SshKey.Result × Table) → (add_answer (key_store x) user_id f r).1 ≡ r.1
  unfolding add_answer
  add_answer-table f (SshKey.Result.ok k, t) = refl
  add_answer-table f (SshKey.Result.err SshKey.Error.fingerprint_taken, t) = refl
  add_answer-table f (SshKey.Result.err SshKey.Error.not_found, t) = refl
  add_answer-table f (SshKey.Result.err SshKey.Error.failed, t) = refl

  bound-Bound :
      (e : Enrollment) (t : Table)
      → Bound e.fingerprint user_id (bound (key_store x) label user_id (Enrollment.Result.ok e) t)
  unfolding bound key_store
  bound-Bound e t =
      add_answer-Bound e.fingerprint
        (add x.tx x.insert_fails x.new_id x.now user_id e.fingerprint e.key_type e.public_key label
          t)
        (add-binds x.tx x.insert_fails x.new_id x.now user_id e.fingerprint e.key_type e.public_key
          label t)

  bound-table :
      (e : Enrollment) (t : Table)
      → (bound (key_store x) label user_id (Enrollment.Result.ok e) t).1
        ≡ (add x.tx x.insert_fails x.new_id x.now user_id e.fingerprint e.key_type e.public_key
            label t).1
  unfolding bound key_store
  bound-table e t = add_answer-table e.fingerprint _

module _ (sessions : Bytes → Session.Result Session) (users : ℕ → Lookup) (auth_host : Bytes)
    (x : Run) (h : Header) (token : Bytes) (s : State Table) where
  abbrev completed : Answer × State Table
  completed = handle_complete (key_store x) sessions users auth_host h token x.now s

  -- A page of success is shown only to a signed-in user whose token is good. It names the
  -- fingerprint of the token, escaped, and that fingerprint is then the user's.
  pub handle_complete-success :
      status (handle_complete (key_store x) sessions users auth_host h token x.now s).0 ≡ 200
      → (user_id : ℕ) × (e : Enrollment) × IsRedeemed sessions users h token x.now s.tokens user_id
          e
        × ((handle_complete (key_store x) sessions users auth_host h token x.now s).0
            ≡ shows 200 (success_page (escape_string e.fingerprint)))
        × IsOwned e.fingerprint user_id
            (handle_complete (key_store x) sessions users auth_host h token x.now s).1.keys
  handle_complete-success ok = elim (handle_complete-Comes sessions users auth_host x h token s) [
    | inl (same, refused) ↦ absurd (refused ok)
    | inr (user_id, e, redeemed, a, t) ↦
        let (page, owned) = bound-Bound x (label_of h) user_id e s.keys (rw a at ok) in
        (user_id, e, redeemed, a ∙ page, subst (IsOwned e.fingerprint user_id) (sym t) owned)
  ]

  handle_complete-new :
      (f : Bytes) (owner : ℕ)
      → IsOwned f owner
          (handle_complete (key_store x) sessions users auth_host h token x.now s).1.keys
      → IsOwned f owner s.keys
        ⊎ ((e : Enrollment) × IsRedeemed sessions users h token x.now s.tokens owner e
            × (f ≡ e.fingerprint))
  handle_complete-new f owner owned =
      elim (handle_complete-Comes sessions users auth_host x h token s) [
        | inl (same, refused) ↦ inl (subst (IsOwned f owner) same owned)
        | inr (user_id, e, redeemed, a, t) ↦
            elim (add-new f owner x.tx x.insert_fails x.new_id x.now user_id e.fingerprint
              e.key_type e.public_key (label_of h) s.keys
              (subst (IsOwned f owner) (t ∙ bound-table x (label_of h) user_id e s.keys) owned)) [
                | inl before ↦ inl before
                | inr (is_f, is_owner) ↦ inr (
                  e,
                  subst (λ n. IsRedeemed sessions users h token x.now s.tokens n e) (sym is_owner)
                      redeemed,
                  is_f,
                )
              ]
      ]

  handle_complete-keeps :
      (f : Bytes) (owner : ℕ)
      → IsOwned f owner s.keys
      → IsOwned f owner
          (handle_complete (key_store x) sessions users auth_host h token x.now s).1.keys
  handle_complete-keeps f owner owned =
      elim (handle_complete-Comes sessions users auth_host x h token s) [
        | inl (same, refused) ↦ subst (IsOwned f owner) (sym same) owned
        | inr (user_id, e, redeemed, a, t) ↦
            subst (IsOwned f owner) (sym (t ∙ bound-table x (label_of h) user_id e s.keys)) (
              add-IsOwned f owner x.tx x.insert_fails x.new_id x.now user_id e.fingerprint
                e.key_type e.public_key (label_of h) s.keys owned)
      ]

  -- Nobody loses a fingerprint by the request, whatever it answers and whatever fails. A user who
  -- owns a fingerprint after it and did not before is the user that is signed in, and the
  -- fingerprint is that of the token.
  pub handle_complete_owners :
      (f : Bytes) (owner : ℕ)
      → (IsOwned f owner s.keys
          → IsOwned f owner
              (handle_complete (key_store x) sessions users auth_host h token x.now s).1.keys)
        × (IsOwned f owner
              (handle_complete (key_store x) sessions users auth_host h token x.now s).1.keys
            → IsOwned f owner s.keys
              ⊎ ((e : Enrollment) × IsRedeemed sessions users h token x.now s.tokens owner e
                  × (f ≡ e.fingerprint)))
  handle_complete_owners f owner = (handle_complete-keeps f owner, handle_complete-new f owner)
