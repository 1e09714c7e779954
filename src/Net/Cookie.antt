-- ===== src/Net/Cookie.antt =====
-- `net/http`: the cookies of a request, and those that a response sets.
use forge_proxy.Base.{
  ℕ, Bytes, codes, is_empty, Bool, false, ◌&&◌, ◌||◌, not, List, [], ◌∷◌, Option, none, some, all,
  ltb, leb, ◌==◌, ◌=ᵇ◌, if◌then◌else◌,
}
use forge_proxy.Base.Dict
use forge_proxy.Strings.{split, cut}
use forge_proxy.Net.Header.{Header, is_token_byte}

-- `textproto.TrimString`
unfoldable pub is_blank : ℕ → Bool
is_blank c = (c == 32) || (c == 9) || (c == 10) || (c == 13)

skip_blank : Bytes → Bytes
unfolding is_blank
skip_blank [] = []
skip_blank (c ∷ s) = let rest = skip_blank s in if is_blank c then rest else c ∷ s

keep_blank : ℕ → Bytes → Bytes
unfolding is_blank
keep_blank c [] = if is_blank c then [] else c ∷ []
keep_blank c (d ∷ s) = c ∷ d ∷ s

drop_blank : Bytes → Bytes
unfolding keep_blank
drop_blank [] = []
drop_blank (c ∷ s) = keep_blank c (drop_blank s)

unfoldable pub trim_string : Bytes → Bytes
unfolding skip_blank drop_blank
trim_string s = drop_blank (skip_blank s)

is_value_byte : ℕ → Bool
is_value_byte c = leb 32 c && ltb c 127 && not (c == 34) && not (c == 59) && not (c == 92)

-- A value in double quotes loses them.
last_is_quote : Bytes → Bool
last_is_quote [] = false
last_is_quote (c ∷ []) = c == 34
last_is_quote (c ∷ d ∷ s) = last_is_quote (d ∷ s)

init : Bytes → Bytes
init [] = []
init (c ∷ []) = []
init (c ∷ d ∷ s) = c ∷ init (d ∷ s)

unquote : Bytes → Bytes
unfolding last_is_quote init
unquote [] = []
unquote (c ∷ s) = if c == 34 && last_is_quote s then init s else c ∷ s

name_and_value : Bytes → Option (Bytes × Bytes) → Bytes × Bytes
name_and_value part none = (part, [])
name_and_value part (some (n, v)) = (n, v)

-- A pair that is well formed, under its trimmed name.
pair_of : Bytes × Bytes → Option (Bytes × Bytes)
unfolding trim_string is_token_byte unquote is_value_byte
pair_of (n, v) =
    let name = trim_string n in
    let value = unquote v in
    if not (is_empty name) && all is_token_byte name && all is_value_byte value
    then some (name, value)
    else none

-- The value of the first well-formed cookie of a name among the parts of one header value.
part_cookie : Bytes → Option (Bytes × Bytes) → Option Bytes → Option Bytes
part_cookie name none rest = rest
part_cookie name (some (n, v)) rest = if n =ᵇ name then some v else rest

parts_cookie : Bytes → List Bytes → Option Bytes → Option Bytes
unfolding pair_of name_and_value cut trim_string part_cookie ◌=ᵇ◌
parts_cookie name [] rest = rest
parts_cookie name (p ∷ ps) rest =
    let part = trim_string p in
    part_cookie name (pair_of (name_and_value part (cut b'=' part))) (parts_cookie name ps rest)

lines_cookie : Bytes → List Bytes → Option Bytes
unfolding parts_cookie split
lines_cookie name [] = none
lines_cookie name (l ∷ ls) = parts_cookie name (split l b';') (lines_cookie name ls)

lines_of : Option (List Bytes) → List Bytes
lines_of none = []
lines_of (some ls) = ls

-- `Request.Cookie`
unfoldable pub request_cookie : Bytes → Header → Option Bytes
unfolding lines_cookie lines_of Dict.lookup
request_cookie name h = lines_cookie name (lines_of (Dict.lookup (codes "Cookie") h))

pub data SameSite : Type 0 where
  lax strict : SameSite

-- What a `Set-Cookie` header says. A `max_age` of none is no attribute, and one that is negative
-- deletes the cookie.
pub data MaxAge : Type 0 where
  unset deleted : MaxAge
  seconds : ℕ → MaxAge

pub record SetCookie : Type 0 where
  pub name : Bytes
  pub value : Bytes
  pub path : Bytes
  pub domain : Bytes
  pub expires : Option ℕ
  pub max_age : MaxAge
  pub http_only : Bool
  pub secure : Bool
  pub same_site : SameSite
