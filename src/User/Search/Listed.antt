-- ===== src/User/Search/Listed.antt =====
-- The order and the completeness of the listing.
use mathlib.Core.Option.{some-injective}
use mathlib.Core.List.{Permᴰ}
use mathlib.Core.List.Permᴰ as Perm
use forge_proxy.Base.{
  ℕ, zero, suc, ◌≤◌, ◌<◌, Bytes, Bool, true, false, List, [], ◌∷◌, ◌++◌, length, take, ◌≡◌, ◌⊎◌,
  inl, inr, refl, sym, subst, ap, Option, none, some, All, arith, Bool-cases,
}
use forge_proxy.Strings.{trim_space}
use forge_proxy.User.{User}
use forge_proxy.User.Roles.{parse_roles}
use forge_proxy.User.Store.{Row, Table, user_of}
use forge_proxy.User.Search.{
  default_search_limit, matching, is_match, is_before, insert_row, sort_rows, selected, add_user,
  decode_rows, search,
}
use forge_proxy.User.Search.Liked.{Contains, IsPlain, is_match_iff}

-- No later row comes before an earlier one.
abbrev IsOrdered : Table → Type 0
IsOrdered [] = Unit
IsOrdered (r ∷ rs) = All (λ s. is_before s r ≡ false) rs × IsOrdered rs

insert_row-Perm : (r : Row) (rs : Table) → Permᴰ (insert_row r rs) (r ∷ rs)
unfolding insert_row
insert_row-Perm r [] = Perm.refl (r ∷ [])
insert_row-Perm r (s ∷ rs) = elim (Bool-cases (is_before s r)) [
  | inl later ↦
      rw later (Permᴰ.trans (Permᴰ.cons refl (insert_row-Perm r rs)) (Permᴰ.swap refl refl))
  | inr here ↦ rw here (Perm.refl (r ∷ s ∷ rs))
]

sort_rows-Perm : (rs : Table) → Permᴰ (sort_rows rs) rs
unfolding sort_rows
sort_rows-Perm [] = Permᴰ.nil
sort_rows-Perm (r ∷ rs) =
    Permᴰ.trans (insert_row-Perm r (sort_rows rs)) (Permᴰ.cons refl (sort_rows-Perm rs))

is_before-asym : (a b : Row) → is_before a b ≡ true → is_before b a ≡ false
unfolding is_before
is_before-asym a b h = ground arith

is_before_trans :
    (a b c : Row) → is_before b a ≡ false → is_before c b ≡ false → is_before c a ≡ false
unfolding is_before
is_before_trans a b c h k = ground arith

none_before :
    (a b : Row) (rs : Table)
    → is_before b a ≡ false
    → All (λ s. is_before s b ≡ false) rs
    → All (λ s. is_before s a ≡ false) rs
none_before a b [] h k = tt
none_before a b (s ∷ rs) h (k, ks) = (is_before_trans a b s h k, none_before a b rs h ks)

insert_row-All :
    (P : Row → Type 0) (r : Row) (rs : Table) → P r → All P rs → All P (insert_row r rs)
unfolding insert_row
insert_row-All P r [] h hs = (h, tt)
insert_row-All P r (s ∷ rs) h (k, ks) = elim (Bool-cases (is_before s r)) [
  | inl later ↦ rw later (k, insert_row-All P r rs h ks)
  | inr here ↦ rw here (h, (k, ks))
]

insert_row-IsOrdered : (r : Row) (rs : Table) → IsOrdered rs → IsOrdered (insert_row r rs)
unfolding insert_row
insert_row-IsOrdered r [] h = (tt, tt)
insert_row-IsOrdered r (s ∷ rs) (h, hs) = elim (Bool-cases (is_before s r)) [
  | inl later ↦ rw later (
    insert_row-All (λ q. is_before q s ≡ false) r rs (is_before-asym s r later) h,
    insert_row-IsOrdered r rs hs,
  )
  | inr here ↦ rw here ((here, none_before r s rs here h), (h, hs))
]

sort_rows-IsOrdered : (rs : Table) → IsOrdered (sort_rows rs)
unfolding sort_rows
sort_rows-IsOrdered [] = tt
sort_rows-IsOrdered (r ∷ rs) = insert_row-IsOrdered r (sort_rows rs) (sort_rows-IsOrdered rs)

-- The first rows, and what is left out, which is nothing unless the limit is reached.
take-rest :
    (n : ℕ) (xs : Table)
    → (rest : Table) × (take n xs ++ rest ≡ xs)
      × (length (take n xs) ≤ n)
      × ((rest ≡ []) ⊎ (length (take n xs) ≡ n))
take-rest zero xs = (xs, refl, omega arith, inr refl)
take-rest (suc n) [] = ([], refl, omega arith, inl refl)
take-rest (suc n) (x ∷ xs) =
    let (rest, e, few, all) = take-rest n xs in
    (
      rest,
      ap (λ ys. x ∷ ys) e,
      omega (arith, few),
      elim all [ inl nothing ↦ inl nothing | inr full ↦ inr (ap suc full) ],
    )

-- The users, as the rows say.
abbrev pub AreUsersOf : List User → Table → Type 0
AreUsersOf [] [] = Unit
AreUsersOf (u ∷ us) (r ∷ rs) =
    ((names : List Bytes) × (parse_roles r.roles ≡ some names) × (u ≡ user_of r names))
    × AreUsersOf us rs
AreUsersOf [] (r ∷ rs) = ⊥
AreUsersOf (u ∷ us) [] = ⊥

add_user-AreUsersOf :
    (r : Row) (rs : Table) (names : Option (List Bytes)) (rest : Option (List User))
    (us : List User)
    → parse_roles r.roles ≡ names
    → ((vs : List User) → rest ≡ some vs → AreUsersOf vs rs)
    → add_user r names rest ≡ some us
    → AreUsersOf us (r ∷ rs)
unfolding add_user
add_user-AreUsersOf r rs none rest us n h e = cc
add_user-AreUsersOf r rs (some names) none us n h e = cc
add_user-AreUsersOf r rs (some names) (some vs) us n h e =
    let same : user_of r names ∷ vs ≡ us = some-injective _ _ e in
    subst (λ ws. AreUsersOf ws (r ∷ rs)) same ((names, n, refl), h vs refl)

decode_rows-AreUsersOf : (rs : Table) (us : List User) → decode_rows rs ≡ some us → AreUsersOf us rs
unfolding decode_rows
decode_rows-AreUsersOf [] us h =
    let same : [] ≡ us = some-injective _ _ h in subst (λ ws. AreUsersOf ws []) same tt
decode_rows-AreUsersOf (r ∷ rs) us h =
    add_user-AreUsersOf r rs (parse_roles r.roles) (decode_rows rs) us refl
      (decode_rows-AreUsersOf rs) h

-- The e-mail address or the name contains the text, in whatever case.
abbrev pub IsHit : Bytes → Row → Type 0
IsHit sub r = Contains sub r.email ⊎ Contains sub r.name

-- The latest sign-in first, and then the greater id.
abbrev pub NotAfter : Row → Row → Type 0
NotAfter r s =
    (s.last_login_at < r.last_login_at) ⊎ ((s.last_login_at ≡ r.last_login_at) × (s.id ≤ r.id))

abbrev pub IsLatestFirst : Table → Type 0
IsLatestFirst [] = Unit
IsLatestFirst (r ∷ rs) = All (NotAfter r) rs × IsLatestFirst rs

is_before-NotAfter : (r s : Row) → is_before s r ≡ false → NotAfter r s
unfolding is_before
is_before-NotAfter r s h = ground arith

All-NotAfter : (r : Row) (rs : Table) → All (λ s. is_before s r ≡ false) rs → All (NotAfter r) rs
All-NotAfter r [] h = tt
All-NotAfter r (s ∷ rs) (h, hs) = (is_before-NotAfter r s h, All-NotAfter r rs hs)

IsOrdered-IsLatestFirst : (rs : Table) → IsOrdered rs → IsLatestFirst rs
IsOrdered-IsLatestFirst [] h = tt
IsOrdered-IsLatestFirst (r ∷ rs) (h, hs) = (All-NotAfter r rs h, IsOrdered-IsLatestFirst rs hs)

sort_rows-All : (P : Row → Type 0) (rs : Table) → All P rs → All P (sort_rows rs)
unfolding sort_rows
sort_rows-All P [] h = tt
sort_rows-All P (r ∷ rs) (h, hs) = insert_row-All P r (sort_rows rs) h (sort_rows-All P rs hs)

-- The table falls into the rows that match and the others.
matching-parts :
    (sub : Bytes) (t : Table)
    → All IsPlain sub
    → (others : Table) × Permᴰ (matching sub t ++ others) t
      × All (IsHit sub) (matching sub t)
      × All (λ r. IsHit sub r → ⊥) others
unfolding matching
matching-parts sub [] plain = ([], Permᴰ.nil, tt, tt)
matching-parts sub (r ∷ rs) plain =
    let (others, perm, hits, misses) = matching-parts sub rs plain in
    let (to_hit, to_match) = is_match_iff sub r plain in
    elim (Bool-cases (is_match sub r)) [
      | inl matches ↦ rw matches (others, Permᴰ.cons refl perm, (to_hit matches, hits), misses)
      | inr differs ↦ rw differs (
        r ∷ others,
        Permᴰ.trans (Perm.middle r (matching sub rs) others) (Permᴰ.cons refl perm),
        hits,
        ((λ hit. ground (arith, to_match hit)), misses),
      )
    ]

-- A listing for a text without the wildcards of LIKE has the rows of the table whose e-mail address
-- or name contains the trimmed text, in whatever case, and no others: the latest sign-in first, then
-- the greatest id, at most a hundred, and none of them is left out unless there are a hundred. Its
-- users are what these rows say.
pub search_lem :
    (fails : Bool) (substring : Bytes) (t : Table) (us : List User)
    → All IsPlain (trim_space substring)
    → search fails substring t ≡ some us
    → (rows : Table) × (rest : Table) × (others : Table) × AreUsersOf us rows
      × Permᴰ ((rows ++ rest) ++ others) t
      × All (IsHit (trim_space substring)) (rows ++ rest)
      × All (λ r. IsHit (trim_space substring) r → ⊥) others
      × IsLatestFirst (rows ++ rest)
      × (length rows ≤ 100)
      × ((rest ≡ []) ⊎ (length rows ≡ 100))
unfolding search selected
search_lem true substring t us plain h = cc
search_lem false substring t us plain h =
    let sub = trim_space substring in
    let found = matching sub t in
    let sorted = sort_rows found in
    let (rest, e, few, all) = take-rest default_search_limit sorted in
    let (others, perm, hits, misses) = matching-parts sub t plain in
    (
      take default_search_limit sorted,
      rest,
      others,
      decode_rows-AreUsersOf (take default_search_limit sorted) us h,
      subst (λ x. Permᴰ (x ++ others) t) (sym e)
          (Permᴰ.trans (Perm.append_right others (sort_rows-Perm found)) perm),
      subst (All (IsHit sub)) (sym e) (sort_rows-All (IsHit sub) found hits),
      misses,
      subst IsLatestFirst (sym e) (IsOrdered-IsLatestFirst sorted (sort_rows-IsOrdered found)),
      few,
      all,
    )
