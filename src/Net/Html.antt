-- ===== src/Net/Html.antt =====
-- `html.EscapeString`
use forge_proxy.Base.{
  ℕ, Bytes, codes, [], ◌∷◌, ◌++◌, ◌≢◌, All, All-append, arith, ◌==◌, if◌then◌else◌,
}

entity : ℕ → Bytes
entity c =
    if c == b'&'
    then codes "&amp;"
    else if c == 39
    then codes "&#39;"
    else if c == b'<'
    then codes "&lt;"
    else if c == b'>'
    then codes "&gt;"
    else if c == 34
    then codes "&#34;"
    else c ∷ []

unfoldable pub escape_string : Bytes → Bytes
unfolding entity
escape_string [] = []
escape_string (c ∷ s) = entity c ++ escape_string s

-- Neither a tag nor a quoted attribute can begin or end at such a byte.
abbrev pub IsInert : ℕ → Type 0
IsInert c = (c ≢ b'<') × (c ≢ b'>') × (c ≢ 34) × (c ≢ 39)

entity-IsInert : (c : ℕ) → All IsInert (entity c)
unfolding entity
entity-IsInert c = ground arith

pub escape_string-IsInert : (s : Bytes) → All IsInert (escape_string s)
unfolding escape_string
escape_string-IsInert [] = tt
escape_string-IsInert (c ∷ s) =
    All-append IsInert (entity c) (escape_string s) (entity-IsInert c) (escape_string-IsInert s)
