-- ===== src/Net/Query.antt =====
-- `url.QueryEscape`, the reader that undoes it, and `url.PathEscape`.
use forge_proxy.Base.{
  ℕ, ◌+◌, ◌-◌, ◌*◌, ◌/◌, ◌%◌, ◌<◌, Bytes, Bool, true, ◌||◌, [], ◌∷◌, ◌≡◌, ◌≢◌, refl, All, arith,
  leb, ◌==◌, if◌then◌else◌,
}
use forge_proxy.Strings.{is_upper, is_lower, is_digit}

hex : ℕ → ℕ
hex d = if leb d 9 then b'0' + d else 55 + d

is_plain : ℕ → Bool
unfolding is_upper is_lower is_digit
is_plain c =
    is_upper c
    || is_lower c
    || is_digit c
    || (c == b'-')
    || (c == b'_')
    || (c == b'.')
    || (c == b'~')

unfoldable pub query_escape : Bytes → Bytes
unfolding is_plain hex
query_escape [] = []
query_escape (c ∷ s) =
    let rest = query_escape s in
    if is_plain c
    then c ∷ rest
    else if c == 32
    then b'+' ∷ rest
    else b'%' ∷ hex (c / 16) ∷ hex (c % 16) ∷ rest

-- The bytes that a path segment keeps.
is_segment : ℕ → Bool
unfolding is_plain
is_segment c =
    is_plain c
    || (c == b'$')
    || (c == b'&')
    || (c == b'+')
    || (c == b':')
    || (c == b'=')
    || (c == b'@')

unfoldable pub path_escape : Bytes → Bytes
unfolding is_segment hex
path_escape [] = []
path_escape (c ∷ s) =
    let rest = path_escape s in
    if is_segment c then c ∷ rest else b'%' ∷ hex (c / 16) ∷ hex (c % 16) ∷ rest

-- The reader stands between two characters, behind "%", or behind "%" and a digit.
pub data Place : Type 0 where
  between behind_percent : Place
  behind_digit : ℕ → Place

unhex : ℕ → ℕ
unhex c = if leb c b'9' then c - b'0' else c - 55

unescape_from : Place → Bytes → Bytes
unfolding unhex
unescape_from p [] = []
unescape_from between (c ∷ s) =
    let escape = unescape_from behind_percent s in
    let plain = unescape_from between s in
    if c == b'%' then escape else if c == b'+' then 32 ∷ plain else c ∷ plain
unescape_from behind_percent (c ∷ s) = unescape_from (behind_digit (unhex c)) s
unescape_from (behind_digit d) (c ∷ s) = (d * 16 + unhex c) ∷ unescape_from between s

unfoldable pub query_unescape : Bytes → Bytes
unfolding unescape_from
query_unescape = unescape_from between

unhex-hex : (d : ℕ) → d < 16 → unhex (hex d) ≡ d
unfolding unhex hex
unhex-hex d h = ground arith

is_plain-ne : (c : ℕ) → is_plain c ≡ true → (c ≢ b'%') × (c ≢ b'+')
unfolding is_plain
is_plain-ne c h = ground arith

pub query_unescape-query_escape :
    (s : Bytes) → All (λ c. c < 256) s → query_unescape (query_escape s) ≡ s
unfolding query_unescape query_escape unescape_from
query_unescape-query_escape [] _ = refl
query_unescape-query_escape (c ∷ s) (h, hs) =
    ground (
      arith,
      query_unescape-query_escape s hs,
      unhex-hex (c / 16),
      unhex-hex (c % 16),
      is_plain-ne c,
    )

-- A printable ASCII byte.
abbrev pub IsVisible : ℕ → Type 0
IsVisible c = (32 < c) × (c < 127)

hex-IsVisible : (d : ℕ) → d < 16 → IsVisible (hex d)
unfolding hex
hex-IsVisible d h = ground arith

is_segment-IsVisible : (c : ℕ) → is_segment c ≡ true → IsVisible c
unfolding is_segment is_plain
is_segment-IsVisible c h = ground arith

pub path_escape-IsVisible : (s : Bytes) → All (λ c. c < 256) s → All IsVisible (path_escape s)
unfolding path_escape
path_escape-IsVisible [] _ = tt
path_escape-IsVisible (c ∷ s) (h, hs) = ground (
  arith,
  path_escape-IsVisible s hs,
  hex-IsVisible (c / 16),
  hex-IsVisible (c % 16),
  is_segment-IsVisible c,
)
