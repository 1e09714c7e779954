-- ===== src/User/Store/Granted.antt =====
-- What the lookups find after the roles of a user are set.
use forge_proxy.Base.{
  ℕ, Bytes, Bool, true, false, List, [], ◌∷◌, ◌≡◌, ◌≢◌, refl, ap, ◌∙◌, inl, inr, Option, none, some,
  All, all, arith, if◌then◌else◌, Bool-cases, Option-cases,
}
use forge_proxy.Strings.{join}
use forge_proxy.Db.{TxFaults, with_write_tx-none, with_write_tx-error}
use forge_proxy.User.{found}
use forge_proxy.User.Roles.{is_role_name, IsRole, parse_roles-join}
use forge_proxy.User.Store.{
  Row, Table, find, update, has_id, user_of, decoded, queried, get, Error, invalid_role, database,
  updated, set_body, set_roles,
}

-- What an update makes of the row that is found.
pub changed : (Row → Bool) → (Row → Row) → Option Row → Option Row
changed p f none = none
changed p f (some r) = some (if p r then f r else r)

pub changed-held :
    (p : Row → Bool) (f : Row → Row) (r : Row) → p r ≡ true → changed p f (some r) ≡ some (f r)
unfolding changed
changed-held p f r h = rw h

-- An update that keeps what a lookup tests changes the row that is found, and only where its own
-- test holds.
pub find-update :
    (q p : Row → Bool) (f : Row → Row) (t : Table)
    → ((r : Row) → q (f r) ≡ q r)
    → find q (update p f t) ≡ changed p f (find q t)
unfolding find update changed
find-update q p f [] keeps = refl
find-update q p f (r ∷ rs) keeps = ground (arith, find-update q p f rs keeps, keeps r)

find-holds : (q : Row → Bool) (t : Table) (r : Row) → find q t ≡ some r → q r ≡ true
unfolding find
find-holds q [] r h = cc
find-holds q (s ∷ t) r h = ground (arith, find-holds q t r)

all-IsRole : (names : List Bytes) → all is_role_name names ≡ true → All IsRole names
all-IsRole [] h = tt
all-IsRole (n ∷ names) h = (ground arith, all-IsRole names (ground arith))

updated-none :
    (o : Option Row) (id : ℕ) (text : Bytes) (t t' : Table)
    → updated o id text t ≡ (none, t')
    → (r : Row) × (o ≡ some r) × (t' ≡ update (has_id id) (λ r. record r { roles = text }) t)
unfolding updated
updated-none none id text t t' h = absurd cc
updated-none (some r) id text t t' h = (r, refl, ground arith)

set_body-none :
    (fails : Bool) (id : ℕ) (text : Bytes) (t t' : Table)
    → set_body fails id text t ≡ (none, t')
    → (r : Row) × (find (has_id id) t ≡ some r)
      × (t' ≡ update (has_id id) (λ r. record r { roles = text }) t)
unfolding set_body
set_body-none true id text t t' h = absurd cc
set_body-none false id text t t' h = updated-none (find (has_id id) t) id text t t' h

set_roles-none :
    (f : TxFaults) (fails : Bool) (id : ℕ) (names : List Bytes) (t t' : Table)
    → set_roles f fails id names t ≡ (none, t')
    → (r : Row) × All IsRole names
      × (find (has_id id) t ≡ some r)
      × (t' ≡ update (has_id id) (λ r. record r { roles = join names (b',' ∷ []) }) t)
unfolding set_roles
set_roles-none f fails id names t t' h = elim (Bool-cases (all is_role_name names)) [
  | inr bad ↦
      let e : ◌≡◌ {A = Option Error × Table} (some invalid_role, t) (none, t') = rw bad at h in
      absurd cc
  | inl good ↦
      let body = set_body fails id (join names (b',' ∷ [])) in
      let (r, e, same) =
        set_body-none fails id (join names (b',' ∷ [])) t t'
          (with_write_tx-none f database body t t' (rw good at h)) in
      (r, all-IsRole names good, e, same)
]

found_after :
    (id : ℕ) (names : List Bytes) (t : Table) (r : Row)
    → All IsRole names
    → find (has_id id) t ≡ some r
    → get false id (update (has_id id) (λ r. record r { roles = join names (b',' ∷ []) }) t)
      ≡ found (user_of r names)
unfolding get queried
found_after id names t r good e =
    let f = λ (r : Row). record r { roles = join names (b',' ∷ []) } in
    let held : has_id id r ≡ true = find-holds (has_id id) t r e in
    ap queried {y = some (f r)} (
      find-update (has_id id) (has_id id) f t (λ r. refl)
      ∙ rw e (changed-held (has_id id) f r held))
    ∙ ap (decoded (f r)) (parse_roles-join names good)
    ∙ (unfold decoded user_of in refl)

other_after :
    (id other : ℕ) (f : Row → Row) (t : Table)
    → ((r : Row) → has_id other (f r) ≡ has_id other r)
    → other ≢ id
    → find (has_id other) (update (has_id id) f t) ≡ find (has_id other) t
other_after id other f t keeps ne =
    find-update (has_id other) (has_id id) f t keeps
    ∙ (elim (Option-cases (find (has_id other) t)) [
      | inl e ↦ rw e (unfold changed in refl)
      | inr (r, e) ↦
          let held = find-holds (has_id other) t r e in
          let apart : has_id id r ≡ false = ground arith in rw e (unfold changed in rw apart)
    ])

-- After the roles of a user are set without an error they are what a lookup returns, in order, and
-- the rest of the user is as it was; another user is found as before. Only role names are stored.
pub get-set_roles :
    (f : TxFaults) (fails : Bool) (id other : ℕ) (names : List Bytes) (t t' : Table)
    → set_roles f fails id names t ≡ (none, t')
    → other ≢ id
    → All IsRole names
      × ((r : Row) × (find (has_id id) t ≡ some r) × (get false id t' ≡ found (user_of r names)))
      × (get false other t' ≡ get false other t)
get-set_roles f fails id other names t t' h ne =
    let (r, good, e, same) = set_roles-none f fails id names t t' h in
    (
      good,
      (r, e, rw same (found_after id names t r good e)),
      rw same (
          unfold get in
          ap queried (
            other_after id other (λ r. record r { roles = join names (b',' ∷ []) }) t (λ r. refl)
              ne)),
    )

pub set_roles-error :
    (f : TxFaults) (fails : Bool) (id : ℕ) (names : List Bytes) (t : Table) (e : Error)
    → (set_roles f fails id names t).0 ≡ some e
    → (set_roles f fails id names t).1 ≡ t
unfolding set_roles
set_roles-error f fails id names t e h = elim (Bool-cases (all is_role_name names)) [
  | inl good ↦
      let body = set_body fails id (join names (b',' ∷ [])) in
      rw good (with_write_tx-error f database body t e (rw good at h))
  | inr bad ↦ rw bad refl
]
