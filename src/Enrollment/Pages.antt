-- ===== src/Enrollment/Pages.antt =====
-- internal/sshenroll/handlers.go: the two pages of the enrollment. Sessions, users and keys are what
-- the handlers look up through their interfaces.
pub mod Comes
pub mod Bound
pub mod Spent
pub mod Single
pub mod Start
pub mod Tests
use forge_proxy.Base.{
  ℕ, Bytes, codes, is_empty, Bool, true, false, ltb, ◌==◌, ◌++◌, Option, none, some, length, take,
  if◌then◌else◌,
}
use forge_proxy.Strings.{trim_space}
use forge_proxy.Net.Header.{Header, get}
use forge_proxy.Net.Html.{escape_string}
use forge_proxy.Net.Query.{query_escape, path_escape}
use forge_proxy.Session
use forge_proxy.Session.{Session}
use forge_proxy.Session.Cookie.{read}
use forge_proxy.User.{User, Lookup, found, missing, failed}
use forge_proxy.SshKey
use forge_proxy.Enrollment
use forge_proxy.Enrollment.{Enrollment, Store, peek, consume}

-- `KeyStore`
pub record KeyStore (K : Type 0) : Type 0 where
  pub add : ℕ → Bytes → Bytes → Bytes → Bytes → K → SshKey.Result × K
  pub get : Bytes → K → SshKey.Result

-- What the handlers change.
pub record State (K : Type 0) : Type 0 where
  pub tokens : Store
  pub keys : K

-- The templates with the texts that are put in.
pub data Page : Type 0 where
  start_page : Bytes → Bytes → Page
  success_page : Bytes → Page
  invalid_page key_taken_page : Page

pub data Answer : Type 0 where
  shows : ℕ → Page → Answer
  redirects : Bytes → Answer

-- `EnrollURL`
unfoldable pub enroll_url : Bytes → Bytes → Bytes
unfolding path_escape
enroll_url auth_host token =
    codes "https://" ++ auth_host ++ codes "/ssh/enroll/" ++ path_escape token

-- `completeURL`
unfoldable pub complete_url : Bytes → Bytes → Bytes
unfolding path_escape
complete_url auth_host token =
    codes "https://" ++ auth_host ++ codes "/ssh/enroll/" ++ path_escape token ++ codes "/complete"

unfoldable pub login_url : Bytes → Bytes → Bytes
unfolding complete_url query_escape
login_url auth_host token =
    codes "/auth/login?return_to=" ++ query_escape (complete_url auth_host token)

unfoldable pub write_invalid_link : Answer
write_invalid_link = shows 404 invalid_page

unfoldable pub write_key_taken : Answer
write_key_taken = shows 409 key_taken_page

unfoldable pub write_success : Bytes → Answer
unfolding escape_string
write_success fingerprint = shows 200 (success_page (escape_string fingerprint))

started : Bytes → Bytes → Enrollment.Result → Answer
unfolding write_invalid_link login_url escape_string
started auth_host token (Enrollment.Result.err e) = write_invalid_link
started auth_host token (Enrollment.Result.ok e) =
    shows 200 (start_page (escape_string e.fingerprint) (escape_string (login_url auth_host token)))

-- `HandleStart`, which leaves the tokens as they are.
unfoldable pub handle_start : Bytes → Bytes → ℕ → Store → Answer
unfolding started peek
handle_start auth_host token now s = started auth_host token (peek token now s)

short_trimmed : Bytes → Bytes
short_trimmed ua =
    if is_empty ua then codes "unknown" else if ltb 64 (length ua) then take 64 ua else ua

-- `shortUserAgent`
unfoldable pub short_user_agent : Bytes → Bytes
unfolding short_trimmed trim_space
short_user_agent ua = short_trimmed (trim_space ua)

unfoldable pub label_of : Header → Bytes
unfolding short_user_agent get
label_of h = codes "enrolled from " ++ short_user_agent (get h (codes "User-Agent"))

module _ {K : Type 0} (store : KeyStore K) where
  -- Who owns a fingerprint that was taken.
  owner_answer : ℕ → Bytes → SshKey.Result → Answer
  unfolding write_key_taken write_success
  owner_answer user_id fingerprint (SshKey.Result.err e) = write_key_taken
  owner_answer user_id fingerprint (SshKey.Result.ok k) =
      if k.user_id == user_id then write_success fingerprint else write_key_taken

  add_answer : ℕ → Bytes → SshKey.Result × K → Answer × K
  unfolding owner_answer write_invalid_link write_success
  add_answer user_id fingerprint (SshKey.Result.ok k, t) = (write_success fingerprint, t)
  add_answer user_id fingerprint (SshKey.Result.err SshKey.Error.fingerprint_taken, t) =
      (owner_answer user_id fingerprint (store.get fingerprint t), t)
  add_answer user_id fingerprint (SshKey.Result.err SshKey.Error.not_found, t) =
      (write_invalid_link, t)
  add_answer user_id fingerprint (SshKey.Result.err SshKey.Error.failed, t) =
      (write_invalid_link, t)

  pub bound : Bytes → ℕ → Enrollment.Result → K → Answer × K
  unfolding write_invalid_link add_answer
  bound label user_id (Enrollment.Result.err e) k = (write_invalid_link, k)
  bound label user_id (Enrollment.Result.ok e) k =
      add_answer user_id e.fingerprint
        (store.add user_id e.fingerprint e.key_type e.public_key label k)

  redeemed : Bytes → Bytes → ℕ → ℕ → State K → Answer × State K
  unfolding bound consume
  redeemed token label now user_id s =
      let r = consume token now s.tokens in
      let b = bound label user_id r.0 s.keys in (b.0, record { tokens = r.1; keys = b.1 })

  for_user : Bytes → Bytes → ℕ → Lookup → State K → Answer × State K
  unfolding redeemed write_invalid_link
  for_user token label now missing s = (write_invalid_link, s)
  for_user token label now failed s = (write_invalid_link, s)
  for_user token label now (found u) s = redeemed token label now u.id s

  module _ (sessions : Bytes → Session.Result Session) (users : ℕ → Lookup)
      (auth_host : Bytes) where
    for_session : Bytes → Bytes → ℕ → Session.Result Session → State K → Answer × State K
    unfolding for_user login_url
    for_session token label now (Session.Result.err e) s =
        (redirects (login_url auth_host token), s)
    for_session token label now (Session.Result.ok sess) s =
        for_user token label now (users sess.user_id) s

    for_cookie : Bytes → Bytes → ℕ → Option Bytes → State K → Answer × State K
    unfolding for_session login_url
    for_cookie token label now none s = (redirects (login_url auth_host token), s)
    for_cookie token label now (some id) s = for_session token label now (sessions id) s

    -- `HandleComplete`
    unfoldable pub handle_complete : Header → Bytes → ℕ → State K → Answer × State K
    unfolding for_cookie label_of read
    handle_complete h token now s = for_cookie token (label_of h) now (read h) s
