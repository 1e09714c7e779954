-- ===== src/User/Search/Tests.antt =====
-- internal/user/list.go on a concrete table.
use mathlib.Core.List.{Permᴰ}
use forge_proxy.Base.{
  ◌≤◌, Bytes, codes, true, false, List, [], ◌∷◌, ◌++◌, length, ◌≡◌, ◌⊎◌, ◌↔◌, refl, some, arith,
  All,
}
use forge_proxy.Strings.{trim_space}
use forge_proxy.User.{found, missing}
use forge_proxy.User.Roles.{parse_roles}
use forge_proxy.User.Store.{Row, Table, find, user_of}
use forge_proxy.User.Search.{like, is_match, matching, selected, search, get_by_email}
use forge_proxy.User.Search.Liked.{Contains, is_match_iff}
use forge_proxy.User.Search.Listed.{AreUsersOf, IsHit, IsLatestFirst, search_lem}

listing : Unit {0}
unfolding like is_match matching trim_space selected search get_by_email parse_roles find
listing = tt

abbrev pub bob : Row
bob = record {
  id = 8;
  slack_user_id = codes "U8";
  slack_team_id = codes "T1";
  email = codes "Bob@x.io";
  name = codes "Bob";
  avatar_url = [];
  roles = codes "dev";
  created_at = 1;
  last_login_at = 1;
}

abbrev pub ann : Row
ann = record bob {
  id = 7;
  slack_user_id = codes "U7";
  email = codes "ann@x.io";
  name = codes "Ann";
  last_login_at = 3;
}

abbrev pub table : Table
table = bob ∷ ann ∷ []

abbrev pub dev : List Bytes
dev = codes "dev" ∷ []

search_lem_example :
    (rows : Table) × (rest : Table) × (others : Table) × AreUsersOf
      (user_of ann dev ∷ user_of bob dev ∷ [])
      rows
    × Permᴰ ((rows ++ rest) ++ others) table
    × All (IsHit (codes "X.IO")) (rows ++ rest)
    × All (λ r. IsHit (codes "X.IO") r → ⊥) others
    × IsLatestFirst (rows ++ rest)
    × (length rows ≤ 100)
    × ((rest ≡ []) ⊎ (length rows ≡ 100))
unfolding listing
search_lem_example =
    search_lem false (codes " X.IO") table (user_of ann dev ∷ user_of bob dev ∷ [])
      (
        (omega arith, omega arith),
        (
          (omega arith, omega arith),
          ((omega arith, omega arith), ((omega arith, omega arith), tt)),
        ),
      )
      refl

is_match_iff_concrete :
    (is_match (codes "OB") bob ≡ true)
    ↔ (Contains (codes "OB") (codes "Bob@x.io") ⊎ Contains (codes "OB") (codes "Bob"))
is_match_iff_concrete =
    is_match_iff (codes "OB") bob ((omega arith, omega arith), ((omega arith, omega arith), tt))

search_tests :
    (search false (codes "bob") table ≡ some (user_of bob dev ∷ []))
    × (search false (codes "b_b@") table ≡ some (user_of bob dev ∷ []))
    × (search false [] [] ≡ some [])
    × (get_by_email false (codes " ANN@X.io") table ≡ found (user_of ann dev))
    × (get_by_email false (codes "eve@x.io") table ≡ missing)
unfolding listing
search_tests = (refl, refl, refl, refl, refl)
