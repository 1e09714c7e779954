-- ===== src/Net/Header.antt =====
-- `http.Header`: a map from canonical names to values.
use forge_proxy.Base.{
  ℕ, ◌+◌, ◌-◌, Bytes, codes, Bool, true, false, ◌||◌, List, [], ◌∷◌, Option, none, some, all, ◌==◌,
  if◌then◌else◌,
}
use forge_proxy.Base.Dict
use forge_proxy.Base.Dict.{Dict}
use forge_proxy.Strings.{is_upper, is_lower, is_digit, has_byte}

abbrev pub Header : Type 0
Header = Dict (List Bytes)

-- The bytes of a header name (RFC 7230 tokens).
unfoldable pub is_token_byte : ℕ → Bool
unfolding is_upper is_lower is_digit has_byte
is_token_byte c = is_upper c || is_lower c || is_digit c || has_byte c (codes "!#$%&'*+-.^_`|~")

-- The first letter, and each letter behind a dash, in upper case; the others in lower case.
capitalise : Bool → Bytes → Bytes
unfolding is_upper is_lower
capitalise up [] = []
capitalise true (c ∷ s) =
    (if is_lower c then c - 32 else c) ∷ capitalise ((if is_lower c then c - 32 else c) == b'-') s
capitalise false (c ∷ s) =
    (if is_upper c then c + 32 else c) ∷ capitalise ((if is_upper c then c + 32 else c) == b'-') s

-- `http.CanonicalHeaderKey`: a name with another byte stays as it is.
unfoldable pub canonical : Bytes → Bytes
unfolding is_token_byte capitalise
canonical s = if all is_token_byte s then capitalise true s else s

-- `Header.Del` and `Header.Set`, which take the canonical name.
unfoldable pub del : Header → Bytes → Header
unfolding canonical Dict.delete
del h k = Dict.delete (canonical k) h

unfoldable pub set : Header → Bytes → Bytes → Header
unfolding canonical Dict.insert
set h k v = Dict.insert (canonical k) (v ∷ []) h

-- `Header.Get`: the first value, or the empty string.
first : Option (List Bytes) → Bytes
first none = []
first (some []) = []
first (some (v ∷ vs)) = v

unfoldable pub get : Header → Bytes → Bytes
unfolding canonical Dict.lookup first
get h k = first (Dict.lookup (canonical k) h)
