-- ===== src/Auth/Account.antt =====
-- internal/auth/handlers.go: `HandleMe` and `HandleLogout`.
use forge_proxy.Base.{
  ℕ, Bytes, codes, is_empty, Bool, true, false, not, ◌||◌, ◌&&◌, ltb, ◌==◌, List, [], ◌∷◌, ◌++◌,
  map, ◌≡◌, ◌≢◌, refl, arith, Option, none, some, ◌=ᵇ◌, =ᵇ_iff, if◌then◌else◌, Bool-cases, inl, inr,
  ◌⊎◌,
}
use forge_proxy.Base.Dict
use forge_proxy.Base.Dict.{Dict}
use forge_proxy.Net.Header.{Header, get}
use forge_proxy.Net.Cookie.{SetCookie}
use forge_proxy.Config.Upstream.{Upstream}
use forge_proxy.Session.{Session, Result, ok, err}
use forge_proxy.Session.Cookie.{read, clear}
use forge_proxy.User.{Lookup, found, missing, failed}
use forge_proxy.Auth.Settings.{Settings}

-- `meAppInfo`
pub record AppInfo : Type 0 where
  pub host : Bytes
  pub url : Bytes

-- `meResponse` without the build.
pub record MeResponse : Type 0 where
  pub signed_in : Bool
  pub name : Bytes
  pub email : Bytes
  pub avatar_url : Bytes
  pub tags : List Bytes
  pub apps : List AppInfo

signed_out : MeResponse
signed_out = record {
  signed_in = false;
  name = [];
  email = [];
  avatar_url = [];
  tags = [];
  apps = [];
}

app_of : Bytes → AppInfo
app_of host = record { host = host; url = codes "https://" ++ host ++ codes "/" }

-- The byte order of Go's strings.
before_host : Bytes → Bytes → Bool
before_host [] [] = false
before_host [] (y ∷ ys) = true
before_host (x ∷ xs) [] = false
before_host (x ∷ xs) (y ∷ ys) = ltb x y || ((x == y) && before_host xs ys)

insert_app : AppInfo → List AppInfo → List AppInfo
unfolding before_host
insert_app a [] = a ∷ []
insert_app a (b ∷ bs) =
    let rest = insert_app a bs in if before_host b.host a.host then b ∷ rest else a ∷ b ∷ bs

-- `sort.Slice` by host; hosts are distinct, so the sorted order is one.
sort_apps : List AppInfo → List AppInfo
unfolding insert_app
sort_apps [] = []
sort_apps (a ∷ rest) = insert_app a (sort_apps rest)

me_user : Dict Upstream → Lookup → MeResponse
unfolding signed_out sort_apps app_of
me_user upstreams missing = signed_out
me_user upstreams failed = signed_out
me_user upstreams (found u) = record {
  signed_in = true;
  name = u.name;
  email = u.email;
  avatar_url = u.avatar_url;
  tags = u.roles;
  apps = sort_apps (map app_of (Dict.keys upstreams));
}

me_session : Dict Upstream → (ℕ → Lookup) → Result Session → MeResponse
unfolding me_user signed_out
me_session upstreams users (err e) = signed_out
me_session upstreams users (ok s) = me_user upstreams (users s.user_id)

me_cookie : Dict Upstream → (Bytes → Result Session) → (ℕ → Lookup) → Option Bytes → MeResponse
unfolding me_session signed_out
me_cookie upstreams sessions users none = signed_out
me_cookie upstreams sessions users (some id) = me_session upstreams users (sessions id)

-- `HandleMe`
unfoldable pub handle_me :
    Dict Upstream → (Bytes → Result Session) → (ℕ → Lookup) → Header → MeResponse
unfolding me_cookie read
handle_me upstreams sessions users h = me_cookie upstreams sessions users (read h)

pub data LogoutAnswer : Type 0 where
  forbidden : LogoutAnswer
  signed_out_to : List SetCookie → Bytes → LogoutAnswer

module _ {S : Type 0} (delete : Bytes → S → Bool × S) (cfg : Settings) where
  -- A failed deletion is logged, and changes nothing else.
  ended : Option Bytes → S → S
  ended none s = s
  ended (some id) s = (delete id s).1

  -- `HandleLogout`
  unfoldable pub handle_logout : Header → S → LogoutAnswer × S
  unfolding ended get read clear
  handle_logout h s =
      let origin = get h (codes "Origin") in
      if is_empty origin || not (origin =ᵇ (codes "https://" ++ cfg.auth_host))
      then (forbidden, s)
      else (signed_out_to (clear cfg.cookie_domain ∷ []) (codes "/"), ended (read h) s)

ended_cases :
    {S : Type 0} (delete : Bytes → S → Bool × S) (cfg : Settings) (cookie : Option Bytes) (s : S)
    → ((cookie ≡ none) × (ended delete cfg cookie s ≡ s))
      ⊎ ((id : Bytes) × (cookie ≡ some id) × (ended delete cfg cookie s ≡ (delete id s).1))
unfolding ended
ended_cases delete cfg none s = inl (refl, refl)
ended_cases delete cfg (some id) s = inr (id, refl, refl)

empty_or_other : (o : Bytes) (c : ℕ) (rest : Bytes) → (o =ᵇ (c ∷ rest)) ≡ true → is_empty o ≡ false
unfolding ◌=ᵇ◌
empty_or_other [] c rest h = cc
empty_or_other (x ∷ o) c rest h = refl

or-true : (b : Bool) → (b || true) ≡ true
or-true true = refl
or-true false = refl

-- A sign-out from another origin changes nothing. One from the auth host deletes the session of
-- the cookie, if there is one, and the cookie in any case.
pub handle_logout_cases :
    {S : Type 0} (delete : Bytes → S → Bool × S) (cfg : Settings) (h : Header) (s : S)
    → ((get h (codes "Origin") ≢ codes "https://" ++ cfg.auth_host)
        × (handle_logout delete cfg h s ≡ (forbidden, s)))
      ⊎ ((get h (codes "Origin") ≡ codes "https://" ++ cfg.auth_host)
          × ((handle_logout delete cfg h s).0
              ≡ signed_out_to (clear cfg.cookie_domain ∷ []) (codes "/"))
          × (((read h ≡ none) × ((handle_logout delete cfg h s).1 ≡ s))
              ⊎ ((id : Bytes) × (read h ≡ some id)
                  × ((handle_logout delete cfg h s).1 ≡ (delete id s).1))))
unfolding handle_logout
handle_logout_cases delete cfg h s =
    let origin = get h (codes "Origin") in
    let expected = codes "https://" ++ cfg.auth_host in
    elim (Bool-cases (origin =ᵇ expected)) [
      | inl same ↦ inr (
        (=ᵇ_iff origin expected).0 same,
        (rw (same, empty_or_other origin b'h' (codes "ttps://" ++ cfg.auth_host) same) refl),
        (rw (same, empty_or_other origin b'h' (codes "ttps://" ++ cfg.auth_host) same)
            (ended_cases delete cfg (read h) s)),
      )
      | inr differ ↦ inl (
        (λ e. ground (arith, =ᵇ_iff origin expected)),
        (rw (differ, or-true (is_empty origin)) refl),
      )
    ]
