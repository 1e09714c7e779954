-- ===== src/User/Search.antt =====
-- internal/user/list.go: the listing and the lookup by e-mail address. `LIKE` and `LOWER` of SQLite
-- are exact on ASCII text.
pub mod Liked
pub mod Listed
pub mod Tests
use forge_proxy.Base.{
  ℕ, Bytes, Bool, true, false, not, ◌&&◌, ◌||◌, List, [], ◌∷◌, ◌++◌, Option, none, some, ltb, ◌==◌,
  ◌=ᵇ◌, is_empty, take, if◌then◌else◌,
}
use forge_proxy.Strings.{lower_byte, to_lower, trim_space}
use forge_proxy.User.{User, Lookup, failed}
use forge_proxy.User.Roles.{parse_roles}
use forge_proxy.User.Store.{Row, Table, find, user_of, queried}

abbrev pub default_search_limit : ℕ
default_search_limit = 100

-- Some tail of the text passes.
some_tail : (Bytes → Bool) → Bytes → Bool
some_tail p [] = p []
some_tail p (c ∷ s) = p (c ∷ s) || some_tail p s

-- One character of the pattern, which is no `%`.
one_more : ℕ → (Bytes → Bool) → Bytes → Bool
unfolding lower_byte
one_more c p [] = false
one_more c p (d ∷ s) = ((c == b'_') || (lower_byte c == lower_byte d)) && p s

-- `text LIKE pattern`
unfoldable pub like : Bytes → Bytes → Bool
unfolding some_tail one_more
like [] s = is_empty s
like (c ∷ pattern) s = if c == b'%' then some_tail (like pattern) s else one_more c (like pattern) s

unfoldable pub pattern_of : Bytes → Bytes
pattern_of sub = b'%' ∷ sub ++ (b'%' ∷ [])

unfoldable pub is_match : Bytes → Row → Bool
unfolding like pattern_of
is_match sub r = like (pattern_of sub) r.email || like (pattern_of sub) r.name

unfoldable pub matching : Bytes → Table → Table
unfolding is_match
matching sub [] = []
matching sub (r ∷ rs) = let rest = matching sub rs in if is_match sub r then r ∷ rest else rest

-- The order of the listing: the latest sign-in first, then the greatest id.
unfoldable pub is_before : Row → Row → Bool
is_before a b =
    ltb b.last_login_at a.last_login_at || ((a.last_login_at == b.last_login_at) && ltb b.id a.id)

insert_row : Row → Table → Table
unfolding is_before
insert_row r [] = r ∷ []
insert_row r (s ∷ rs) = let rest = insert_row r rs in if is_before s r then s ∷ rest else r ∷ s ∷ rs

unfoldable pub sort_rows : Table → Table
unfolding insert_row
sort_rows [] = []
sort_rows (r ∷ rs) = insert_row r (sort_rows rs)

-- The rows that the query returns.
unfoldable pub selected : Bytes → Table → Table
unfolding matching sort_rows
selected sub t = take default_search_limit (sort_rows (matching sub t))

add_user : Row → Option (List Bytes) → Option (List User) → Option (List User)
unfolding user_of
add_user r none rest = none
add_user r (some roles) none = none
add_user r (some roles) (some us) = some (user_of r roles ∷ us)

-- A row whose roles cannot be read is an error of the whole.
decode_rows : Table → Option (List User)
unfolding add_user parse_roles
decode_rows [] = some []
decode_rows (r ∷ rs) = add_user r (parse_roles r.roles) (decode_rows rs)

-- `Search`; none is an error.
unfoldable pub search : Bool → Bytes → Table → Option (List User)
unfolding selected decode_rows trim_space
search fails substring t = if fails then none else decode_rows (selected (trim_space substring) t)

abbrev pub has_email : Bytes → Row → Bool
has_email email r = to_lower r.email =ᵇ to_lower email

-- `GetByEmail`
unfoldable pub get_by_email : Bool → Bytes → Table → Lookup
unfolding queried find trim_space to_lower ◌=ᵇ◌
get_by_email fails email t =
    if fails then failed else queried (find (has_email (trim_space email)) t)
