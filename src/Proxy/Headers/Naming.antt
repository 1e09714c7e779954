-- ===== src/Proxy/Headers/Naming.antt =====
-- internal/proxy/headers.go: the display name on the wire.
use forge_proxy.Base.{
  ℕ, ◌+◌, ◌-◌, ◌*◌, ◌/◌, ◌%◌, ◌<◌, ◌≢◌, Bytes, codes, true, false, [], ◌∷◌, ◌++◌, leb, any, ◌==◌,
  if◌then◌else◌, ◌≡◌, refl, All, All-append, ◌⊎◌, arith, Bool-cases, inl, inr,
}
use forge_proxy.Proxy.Headers.{hex, is_unreserved, percent_encode, encode_display_name}

-- A reader of percent-encoded text, which stands between two characters, behind "%", or behind "%"
-- and a digit.
pub data Place : Type 0 where
  between behind_percent : Place
  behind_digit : ℕ → Place

unfoldable pub unhex : ℕ → ℕ
unhex c = if leb c b'9' then c - b'0' else c - 55

unfoldable pub percent_decode : Place → Bytes → Bytes
unfolding unhex
percent_decode p [] = []
percent_decode between (c ∷ s) =
    let escape = percent_decode behind_percent s in
    let plain = percent_decode between s in if c == b'%' then escape else c ∷ plain
percent_decode behind_percent (c ∷ s) = percent_decode (behind_digit (unhex c)) s
percent_decode (behind_digit d) (c ∷ s) = (d * 16 + unhex c) ∷ percent_decode between s

unhex-hex : (d : ℕ) → d < 16 → unhex (hex d) ≡ d
unfolding unhex hex
unhex-hex d h = ground arith

is_unreserved-ne-percent : (c : ℕ) → is_unreserved c ≡ true → c ≢ b'%'
unfolding is_unreserved
is_unreserved-ne-percent c h = ground arith

abbrev pub IsByte : ℕ → Type 0
IsByte c = c < 256

percent_decode-encode : (s : Bytes) → All IsByte s → percent_decode between (percent_encode s) ≡ s
unfolding percent_decode percent_encode
percent_decode-encode [] _ = refl
percent_decode-encode (c ∷ s) (h, hs) = ground (
  arith,
  percent_decode-encode s hs,
  unhex-hex (c / 16),
  unhex-hex (c % 16),
  is_unreserved-ne-percent c,
)

abbrev pub IsAscii : ℕ → Type 0
IsAscii c = c < 128

percent_encode-IsAscii : (s : Bytes) → All IsByte s → All IsAscii (percent_encode s)
unfolding percent_encode is_unreserved hex
percent_encode-IsAscii [] _ = tt
percent_encode-IsAscii (c ∷ s) (h, hs) = ground (arith, percent_encode-IsAscii s hs)

any_of_IsAscii : (s : Bytes) → All IsAscii s → any (λ c. leb 128 c) s ≡ false
any_of_IsAscii [] _ = refl
any_of_IsAscii (c ∷ s) (h, hs) = ground (arith, any_of_IsAscii s hs)

IsAscii-of_any : (s : Bytes) → any (λ c. leb 128 c) s ≡ false → All IsAscii s
IsAscii-of_any [] _ = tt
IsAscii-of_any (c ∷ s) h = (ground arith, IsAscii-of_any s (ground arith))

-- What an upstream does with the header: a text behind "UTF-8''" is percent-decoded.
abbrev pub encoded_mark : Bytes
encoded_mark = codes "UTF-8''"

-- Whatever the name, the header's value is ASCII.
pub encode_display_name-IsAscii :
    (name : Bytes) → All IsByte name → All IsAscii (encode_display_name name)
unfolding encode_display_name
encode_display_name-IsAscii name h = elim (Bool-cases (any (λ c. leb 128 c) name)) [
  | inl wide ↦ rw wide (
      All-append IsAscii encoded_mark (percent_encode name) (omega arith)
        (percent_encode-IsAscii name h))
  | inr plain ↦ rw plain (IsAscii-of_any name plain)
]

-- A name of ASCII is sent as it is. Any other name of bytes is sent behind the mark, and
-- percent-decoding what stands behind the mark gives the bytes of the name.
pub encode_display_name_cases :
    (name : Bytes)
    → All IsByte name
    → (All IsAscii name × (encode_display_name name ≡ name))
      ⊎ ((wire : Bytes) × (encode_display_name name ≡ encoded_mark ++ wire)
          × (percent_decode between wire ≡ name))
unfolding encode_display_name
encode_display_name_cases name h = elim (Bool-cases (any (λ c. leb 128 c) name)) [
  | inl wide ↦ inr (percent_encode name, rw wide, percent_decode-encode name h)
  | inr plain ↦ inl (IsAscii-of_any name plain, rw plain)
]

-- The header does not say which name was meant: the encoding of a name of bytes, taken as a name,
-- is sent in the same form.
pub encode_display_name_idem :
    (name : Bytes)
    → All IsByte name
    → encode_display_name (encode_display_name name) ≡ encode_display_name name
encode_display_name_idem name h =
    let ascii = encode_display_name-IsAscii name h in
    unfold encode_display_name in rw (any_of_IsAscii (encode_display_name name) ascii)
