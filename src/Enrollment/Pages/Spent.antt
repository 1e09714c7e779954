-- ===== src/Enrollment/Pages/Spent.antt =====
-- internal/sshenroll/handlers.go: a token that is gone, over the later events.
use forge_proxy.Base.{
  ℕ, Bytes, List, [], ◌∷◌, ◌≡◌, ◌≢◌, refl, ◌∙◌, Option, none, some, arith, Bool-cases, inl, inr,
  ◌=ᵇ◌, =ᵇ_iff,
}
use forge_proxy.Base.Dict.{lookup, lookup-insert, lookup-delete}
use forge_proxy.Net.Header.{Header}
use forge_proxy.Session
use forge_proxy.Session.{Session}
use forge_proxy.Session.Cookie.{read}
use forge_proxy.User.{Lookup, found, missing, failed}
use forge_proxy.SshKey.{Table}
use forge_proxy.Enrollment.{Store, sweep, mint, consume}
use forge_proxy.Enrollment.Pages.{
  State, redeemed, for_user, for_session, for_cookie, label_of, handle_complete,
}
use forge_proxy.Enrollment.Pages.Comes.{Run, key_store}

-- What may happen between two requests: another request for the second page, by any browser and
-- with any token, while the sessions and the users are any; a new token; any change of the keys.
pub data Event : Type 0 where
  opens : Run → (Bytes → Session.Result Session) → (ℕ → Lookup) → Bytes → Header → Bytes → Event
  mints : Option Bytes → ℕ → Bytes → Bytes → Bytes → Event
  rekeys : Table → Event

unfoldable pub advance : Event → State Table → State Table
unfolding handle_complete key_store mint
advance (opens x sessions users auth_host h token) s =
    (handle_complete (key_store x) sessions users auth_host h token x.now s).1
advance (mints token now fingerprint key_type public_key) s = record s {
  tokens = (mint token now fingerprint key_type public_key s.tokens).1;
}
advance (rekeys keys) s = record s { keys = keys }

unfoldable pub advance_all : List Event → State Table → State Table
unfolding advance
advance_all [] s = s
advance_all (e ∷ es) s = advance_all es (advance e s)

-- The random source does not give the token again.
abbrev pub NeverMints : Bytes → List Event → Type 0
NeverMints k [] = Unit
NeverMints k (mints token now fingerprint key_type public_key ∷ es) =
    (token ≢ some k) × NeverMints k es
NeverMints k (opens x sessions users auth_host h token ∷ es) = NeverMints k es
NeverMints k (rekeys keys ∷ es) = NeverMints k es

abbrev pub IsGone : Bytes → Store → Type 0
IsGone k tokens = lookup k tokens ≡ none

module _ (k : Bytes) where
  consume-IsGone :
      (token : Bytes) (now : ℕ) (tokens : Store)
      → IsGone k tokens
      → IsGone k (consume token now tokens).1
  unfolding consume
  consume-IsGone token now tokens gone = ground (arith, lookup-delete token k tokens)

  sweep-IsGone : (now : ℕ) (tokens : Store) → IsGone k tokens → IsGone k (sweep now tokens)
  unfolding sweep lookup
  sweep-IsGone now [] gone = gone
  sweep-IsGone now ((j, e) ∷ tokens) gone = ground (arith, sweep-IsGone now tokens)

  mint-IsGone :
      (token : Option Bytes) (now : ℕ) (fingerprint key_type public_key : Bytes) (tokens : Store)
      → token ≢ some k
      → IsGone k tokens
      → IsGone k (mint token now fingerprint key_type public_key tokens).1
  unfolding mint
  mint-IsGone none now fingerprint key_type public_key tokens ne gone = gone
  mint-IsGone (some token) now fingerprint key_type public_key tokens ne gone =
      let swept = sweep-IsGone now tokens gone in
      elim (Bool-cases (token =ᵇ k)) [
        | inl same ↦ absurd (ne (ground (arith, =ᵇ_iff token k)))
        | inr differ ↦ lookup-insert token k _ (sweep now tokens) ∙ rw (differ, swept) refl
      ]

  module _ (x : Run) (sessions : Bytes → Session.Result Session) (users : ℕ → Lookup)
      (auth_host : Bytes) (token label : Bytes) (now : ℕ) (s : State Table)
      (gone : IsGone k s.tokens) where
    for_user-IsGone : (l : Lookup) → IsGone k (for_user (key_store x) token label now l s).1.tokens
    unfolding for_user redeemed
    for_user-IsGone missing = gone
    for_user-IsGone failed = gone
    for_user-IsGone (found u) = consume-IsGone token now s.tokens gone

    for_session-IsGone :
        (r : Session.Result Session)
        → IsGone k (for_session (key_store x) sessions users auth_host token label now r s).1.tokens
    unfolding for_session
    for_session-IsGone (Session.Result.err e) = gone
    for_session-IsGone (Session.Result.ok session) = for_user-IsGone (users session.user_id)

    for_cookie-IsGone :
        (r : Option Bytes)
        → IsGone k (for_cookie (key_store x) sessions users auth_host token label now r s).1.tokens
    unfolding for_cookie
    for_cookie-IsGone none = gone
    for_cookie-IsGone (some id) = for_session-IsGone (sessions id)

  -- A token that is gone stays gone, whatever happens, unless it is minted again.
  pub advance_all-IsGone :
      (es : List Event) (s : State Table)
      → NeverMints k es
      → IsGone k s.tokens
      → IsGone k (advance_all es s).tokens
  unfolding advance_all advance handle_complete
  advance_all-IsGone [] s never gone = gone
  advance_all-IsGone (opens x sessions users auth_host h token ∷ es) s never gone =
      advance_all-IsGone es
        (handle_complete (key_store x) sessions users auth_host h token x.now s).1 never
        (for_cookie-IsGone x sessions users auth_host token (label_of h) x.now s gone (read h))
  advance_all-IsGone (mints token now fingerprint key_type public_key ∷ es) s (ne, never) gone =
      advance_all-IsGone es _ never
        (mint-IsGone token now fingerprint key_type public_key s.tokens ne gone)
  advance_all-IsGone (rekeys keys ∷ es) s never gone = advance_all-IsGone es _ never gone
