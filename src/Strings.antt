-- ===== src/Strings.antt =====
-- The functions of Go's `strings` package that the program calls, on the bytes of a string.
-- `to_lower` and `trim_space` are exact on ASCII text: the Unicode letters and spaces, which these
-- functions would also treat, are left as they are. A separator is one byte.
pub mod Splitting
pub mod Trimming
use forge_proxy.Base.{
  ℕ, ◌+◌, ◌-◌, Bytes, Bool, true, false, ◌&&◌, ◌||◌, List, [], ◌∷◌, ◌++◌, map, Option, none, some,
  leb, ◌==◌, if◌then◌else◌, ◌=ᵇ◌,
}

unfoldable pub is_upper : ℕ → Bool
is_upper c = leb b'A' c && leb c b'Z'

unfoldable pub is_lower : ℕ → Bool
is_lower c = leb b'a' c && leb c b'z'

unfoldable pub is_digit : ℕ → Bool
is_digit c = leb b'0' c && leb c b'9'

unfoldable pub lower_byte : ℕ → ℕ
unfolding is_upper
lower_byte c = if is_upper c then c + 32 else c

-- `strings.ToLower`
unfoldable pub to_lower : Bytes → Bytes
unfolding lower_byte
to_lower = map lower_byte

-- `strings.HasPrefix`
unfoldable pub has_prefix : Bytes → Bytes → Bool
has_prefix s [] = true
has_prefix [] (p ∷ ps) = false
has_prefix (c ∷ s) (p ∷ ps) = (c == p) && has_prefix s ps

-- `strings.TrimPrefix`, with `s` for a text that does not begin with the prefix.
drop_prefix : Bytes → Bytes → Bytes → Bytes
drop_prefix whole s [] = s
drop_prefix whole [] (p ∷ ps) = whole
drop_prefix whole (c ∷ s) (p ∷ ps) =
    let rest = drop_prefix whole s ps in if c == p then rest else whole

unfoldable pub trim_prefix : Bytes → Bytes → Bytes
unfolding drop_prefix
trim_prefix s p = drop_prefix s s p

-- `strings.HasSuffix`: some tail of the text is the suffix.
unfoldable pub has_suffix : Bytes → Bytes → Bool
unfolding ◌=ᵇ◌
has_suffix [] p = [] =ᵇ p
has_suffix (c ∷ s) p = ((c ∷ s) =ᵇ p) || has_suffix s p

-- `strings.Contains` of a one-byte text.
unfoldable pub has_byte : ℕ → Bytes → Bool
has_byte b [] = false
has_byte b (c ∷ s) = (c == b) || has_byte b s

-- What stands before the first `b`: `host[:strings.IndexByte(host, b)]`, or all of it.
unfoldable pub before : ℕ → Bytes → Bytes
before b [] = []
before b (c ∷ s) = let rest = before b s in if c == b then [] else c ∷ rest

-- `strings.Cut`: none when the separator does not occur.
unfoldable pub prepend : ℕ → Option (Bytes × Bytes) → Option (Bytes × Bytes)
prepend c none = none
prepend c (some (l, r)) = some (c ∷ l, r)

unfoldable pub cut : ℕ → Bytes → Option (Bytes × Bytes)
unfolding prepend
cut b [] = none
cut b (c ∷ s) = let rest = cut b s in if c == b then some ([], s) else prepend c rest

-- `strings.Split` and `strings.SplitSeq`
unfoldable pub push_head : ℕ → List Bytes → List Bytes
push_head c [] = (c ∷ []) ∷ []
push_head c (p ∷ ps) = (c ∷ p) ∷ ps

unfoldable pub split : Bytes → ℕ → List Bytes
unfolding push_head
split [] sep = [] ∷ []
split (c ∷ s) sep = let rest = split s sep in if c == sep then [] ∷ rest else push_head c rest

-- `strings.Join`
joined : List Bytes → Bytes → Bytes
joined [] sep = []
joined (p ∷ ps) sep = sep ++ p ++ joined ps sep

unfoldable pub join : List Bytes → Bytes → Bytes
unfolding joined
join [] sep = []
join (p ∷ ps) sep = p ++ joined ps sep

unfoldable pub is_space : ℕ → Bool
is_space c = (leb 9 c && leb c 13) || (c == 32)

trim_left : Bytes → Bytes
unfolding is_space
trim_left [] = []
trim_left (c ∷ s) = let rest = trim_left s in if is_space c then rest else c ∷ s

keep_or_drop : ℕ → Bytes → Bytes
unfolding is_space
keep_or_drop c [] = if is_space c then [] else c ∷ []
keep_or_drop c (d ∷ s) = c ∷ d ∷ s

trim_right : Bytes → Bytes
unfolding keep_or_drop
trim_right [] = []
trim_right (c ∷ s) = keep_or_drop c (trim_right s)

-- `strings.TrimSpace`
unfoldable pub trim_space : Bytes → Bytes
unfolding trim_left trim_right
trim_space s = trim_right (trim_left s)

-- `strings.Contains`
unfoldable pub has_substring : Bytes → Bytes → Bool
unfolding has_prefix
has_substring [] p = has_prefix [] p
has_substring (c ∷ s) p = has_prefix (c ∷ s) p || has_substring s p
