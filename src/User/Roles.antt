-- ===== src/User/Roles.antt =====
-- internal/user/store.go: the roles column, a text of names with commas between them.
use forge_proxy.Base.{
  ℕ, Bytes, Bool, true, false, not, ◌&&◌, ◌||◌, List, [], ◌∷◌, ◌≡◌, refl, subst, ap, ◌∙◌, Option,
  none, some, All, all, arith, ◌==◌, is_empty, if◌then◌else◌, Bool-cases, inl, inr,
}
use forge_proxy.Strings.{is_upper, is_lower, is_digit, is_space, split, join, trim_space}
use forge_proxy.Strings.Trimming.{trim_space-plain}
use forge_proxy.Strings.Splitting.{Lacks, split-join, tails}

is_role_byte : ℕ → Bool
unfolding is_upper is_lower is_digit
is_role_byte c = is_upper c || is_lower c || is_digit c || (c == b'_') || (c == b'-')

-- `roleNameRe`
unfoldable pub is_role_name : Bytes → Bool
unfolding is_role_byte
is_role_name s = not (is_empty s) && all is_role_byte s

add_role : Bytes → Option (List Bytes) → Option (List Bytes)
unfolding is_role_name
add_role trimmed none = none
add_role trimmed (some rs) =
    if is_empty trimmed then some rs else if is_role_name trimmed then some (trimmed ∷ rs) else none

-- The loop of `parseRoles`. An invalid entry is an error of the whole.
parse_parts : List Bytes → Option (List Bytes)
unfolding add_role trim_space
parse_parts [] = some []
parse_parts (p ∷ ps) = add_role (trim_space p) (parse_parts ps)

-- `parseRoles`
unfoldable pub parse_roles : Bytes → Option (List Bytes)
unfolding parse_parts split
parse_roles raw = if is_empty raw then some [] else parse_parts (split raw b',')

abbrev pub IsRole : Bytes → Type 0
IsRole s = is_role_name s ≡ true

added-IsRole :
    (p : Bytes) (rest : Option (List Bytes)) (rs : List Bytes)
    → ((ts : List Bytes) → rest ≡ some ts → All IsRole ts)
    → add_role p rest ≡ some rs
    → All IsRole rs
unfolding add_role
added-IsRole p none rs h e = cc
added-IsRole p (some ts) rs h e = elim (Bool-cases (is_empty p)) [
  | inl blank ↦ let same : ts ≡ rs = ground arith in subst (All IsRole) same (h ts refl)
  | inr given ↦ elim (Bool-cases (is_role_name p)) [
    | inl good ↦ let same : p ∷ ts ≡ rs = ground arith in subst (All IsRole) same (good, h ts refl)
    | inr bad ↦ absurd (ground arith)
  ]
]

parse_parts-IsRole : (ps rs : List Bytes) → parse_parts ps ≡ some rs → All IsRole rs
unfolding parse_parts
parse_parts-IsRole [] rs h = let same : [] ≡ rs = ground arith in subst (All IsRole) same tt
parse_parts-IsRole (p ∷ ps) rs h =
    added-IsRole (trim_space p) (parse_parts ps) rs (parse_parts-IsRole ps) h

-- Whatever the column holds, the roles that are read from it are role names.
pub parse_roles-IsRole : (raw : Bytes) (rs : List Bytes) → parse_roles raw ≡ some rs → All IsRole rs
unfolding parse_roles
parse_roles-IsRole raw rs h = elim (Bool-cases (is_empty raw)) [
  | inl e ↦ let same : [] ≡ rs = ground arith in subst (All IsRole) same tt
  | inr e ↦ parse_parts-IsRole (split raw b',') rs (ground arith)
]

role-plain : (s : Bytes) → all is_role_byte s ≡ true → All (λ c. is_space c ≡ false) s
unfolding is_role_byte is_space
role-plain [] h = tt
role-plain (c ∷ s) h = (ground arith, role-plain s (ground arith))

role-Lacks : (s : Bytes) → all is_role_byte s ≡ true → Lacks b',' s
unfolding is_role_byte
role-Lacks [] h = tt
role-Lacks (c ∷ s) h = (ground arith, role-Lacks s (ground arith))

role_bytes : (s : Bytes) → IsRole s → (all is_role_byte s ≡ true) × (is_empty s ≡ false)
unfolding is_role_name
role_bytes s h = (ground arith, ground arith)

roles-Lacks : (rs : List Bytes) → All IsRole rs → All (Lacks b',') rs
roles-Lacks [] _ = tt
roles-Lacks (r ∷ rs) (h, hs) = (role-Lacks r (role_bytes r h).0, roles-Lacks rs hs)

add_role-good : (r : Bytes) (rs : List Bytes) → IsRole r → add_role r (some rs) ≡ some (r ∷ rs)
unfolding add_role
add_role-good r rs h = let (bytes, given) = role_bytes r h in rw (given, bytes)

parse_parts-roles : (rs : List Bytes) → All IsRole rs → parse_parts rs ≡ some rs
unfolding parse_parts
parse_parts-roles [] _ = refl
parse_parts-roles (r ∷ rs) (h, hs) =
    ap (λ t. add_role t (parse_parts rs)) (trim_space-plain r (role-plain r (role_bytes r h).0))
    ∙ ap (add_role r) (parse_parts-roles rs hs)
    ∙ add_role-good r rs h

tails-nil : (rs : List Bytes) → tails [] rs ≡ rs
tails-nil [] = refl
tails-nil (r ∷ rs) = ap (λ t. r ∷ t) (tails-nil rs)

join-given :
    (r : Bytes) (rs : List Bytes)
    → is_empty r ≡ false
    → is_empty (join (r ∷ rs) (b',' ∷ [])) ≡ false
unfolding join
join-given [] rs h = cc
join-given (c ∷ r) rs h = refl

-- Role names that are written with commas between them are read back, in order.
pub parse_roles-join :
    (rs : List Bytes) → All IsRole rs → parse_roles (join rs (b',' ∷ [])) ≡ some rs
unfolding parse_roles
parse_roles-join [] _ = unfold join in refl
parse_roles-join (r ∷ rs) (h, hs) =
    let parts : split (join (r ∷ rs) (b',' ∷ [])) b',' ≡ r ∷ rs =
      split-join b',' [] r rs tt (roles-Lacks (r ∷ rs) (h, hs)) ∙ ap (λ t. r ∷ t) (tails-nil rs) in
    rw (join-given r rs (role_bytes r h).1)
      (ap parse_parts parts ∙ parse_parts-roles (r ∷ rs) (h, hs))
