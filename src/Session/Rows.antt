-- ===== src/Session/Rows.antt =====
-- The rows of the `sessions` table, and the statements that select, change and delete them.
use forge_proxy.Base.{
  ℕ, Bytes, Bool, true, false, List, [], ◌∷◌, ◌≡◌, ◌≢◌, subst, refl, Option, none, some, All, arith,
  if◌then◌else◌, ◌=ᵇ◌, =ᵇ_iff, Bool-cases, inl, inr,
}

-- Timestamps are in Unix seconds.
pub record Row : Type 0 where
  pub id : Bytes
  pub user_id : ℕ
  pub created_at : ℕ
  pub last_seen_at : ℕ
  pub expires_at : ℕ
  pub user_agent : Option Bytes
  pub ip : Option Bytes

unfoldable pub find : Bytes → List Row → Option Row
unfolding ◌=ᵇ◌
find id [] = none
find id (r ∷ rs) = if r.id =ᵇ id then some r else find id rs

unfoldable pub remove_where : (Row → Bool) → List Row → List Row
remove_where p [] = []
remove_where p (r ∷ rs) = let rest = remove_where p rs in if p r then rest else r ∷ rest

-- An UPDATE of the rows that pass a test to the values of another row. The table has one row of
-- each id, and the test is on the id.
unfoldable pub update_where : (Row → Bool) → Row → List Row → List Row
update_where p new [] = []
update_where p new (r ∷ rs) = (if p r then new else r) ∷ update_where p new rs

pub remove_where-All {κ} :
    (P : Row → Type κ) (p : Row → Bool) (rs : List Row) → All P rs → All P (remove_where p rs)
unfolding remove_where
remove_where-All P p [] _ = tt
remove_where-All P p (r ∷ rs) (h, hs) = elim (Bool-cases (p r)) [
  | inl e ↦ rw e (remove_where-All P p rs hs)
  | inr e ↦ rw e (h, remove_where-All P p rs hs)
]

pub update_where-All {κ} :
    (P : Row → Type κ) (p : Row → Bool) (new : Row) (rs : List Row)
    → P new
    → All P rs
    → All P (update_where p new rs)
unfolding update_where
update_where-All P p new [] _ _ = tt
update_where-All P p new (r ∷ rs) n (h, hs) = elim (Bool-cases (p r)) [
  | inl e ↦ rw e (n, update_where-All P p new rs n hs)
  | inr e ↦ rw e (h, update_where-All P p new rs n hs)
]

pub find-All {κ} :
    (P : Row → Type κ) (id : Bytes) (rs : List Row) {r : Row} → All P rs → find id rs ≡ some r → P r
unfolding find
find-All P id [] _ e = cc
find-All P id (q ∷ rs) {r} (h, hs) e = elim (Bool-cases (q.id =ᵇ id)) [
  | inl hit ↦ let same : q ≡ r = ground arith in subst P same h
  | inr miss ↦ find-All P id rs hs (rw (miss, find) at e)
]

-- A deletion that spares the row found under an id leaves what is found there.
pub find-remove_where :
    (p : Row → Bool) (id : Bytes) (rs : List Row) {r : Row}
    → find id rs ≡ some r
    → p r ≡ false
    → find id (remove_where p rs) ≡ some r
unfolding find remove_where
find-remove_where p id [] e h = cc
find-remove_where p id (q ∷ rs) {r} e h = ground (arith, find-remove_where p id rs {r = r})

-- A deletion of every row of an id leaves none.
pub find-remove_where_all :
    (p : Row → Bool) (id : Bytes) (rs : List Row)
    → ((r : Row) → r.id ≡ id → p r ≡ true)
    → find id (remove_where p rs) ≡ none
unfolding find remove_where
find-remove_where_all p id [] h = refl
find-remove_where_all p id (q ∷ rs) h =
    ground (arith, find-remove_where_all p id rs h, h q, =ᵇ_iff q.id id)

-- A deletion of rows of other ids changes nothing.
pub find-remove_where_other :
    (p : Row → Bool) (id : Bytes) (rs : List Row)
    → ((r : Row) → r.id ≡ id → p r ≡ false)
    → find id (remove_where p rs) ≡ find id rs
unfolding find remove_where
find-remove_where_other p id [] h = refl
find-remove_where_other p id (q ∷ rs) h =
    ground (arith, find-remove_where_other p id rs h, h q, =ᵇ_iff q.id id)

pub find-update_self :
    (id : Bytes) (new : Row) (rs : List Row) {r : Row}
    → new.id ≡ id
    → find id rs ≡ some r
    → find id (update_where (λ q. q.id =ᵇ id) new rs) ≡ some new
unfolding find update_where
find-update_self id new [] n e = cc
find-update_self id new (q ∷ rs) {r} n e =
    ground (arith, =ᵇ_iff new.id id, find-update_self id new rs {r = r} n)

pub find-update_ne :
    (id k : Bytes) (new : Row) (rs : List Row)
    → new.id ≡ id
    → id ≢ k
    → find k (update_where (λ q. q.id =ᵇ id) new rs) ≡ find k rs
unfolding find update_where
find-update_ne id k new [] n ne = refl
find-update_ne id k new (q ∷ rs) n ne =
    ground (arith, =ᵇ_iff new.id k, =ᵇ_iff q.id id, =ᵇ_iff q.id k, find-update_ne id k new rs n ne)

pub remove_where-All-false :
    (p : Row → Bool) (rs : List Row) → All (λ r. p r ≡ false) (remove_where p rs)
unfolding remove_where
remove_where-All-false p [] = tt
remove_where-All-false p (r ∷ rs) = ground (arith, remove_where-All-false p rs)

pub find-id : (id : Bytes) (rs : List Row) {r : Row} → find id rs ≡ some r → r.id ≡ id
unfolding find
find-id id [] e = cc
find-id id (q ∷ rs) {r} e = elim (Bool-cases (q.id =ᵇ id)) [
  | inl hit ↦
      let same : q ≡ r = ground arith in
      subst (λ (x : Row). x.id ≡ id) same ((=ᵇ_iff q.id id).0 hit)
  | inr miss ↦ find-id id rs (rw (miss, find) at e)
]

-- An UPDATE of the row of an id, as a law of lookups.
pub find-update_where :
    (id k : Bytes) (new : Row) (rs : List Row) {r : Row}
    → new.id ≡ id
    → find id rs ≡ some r
    → find k (update_where (λ q. q.id =ᵇ id) new rs) ≡ (if id =ᵇ k then some new else find k rs)
find-update_where id k new rs {r} n e = elim (Bool-cases (id =ᵇ k)) [
  | inl same ↦ rw same (
      subst (λ j. find j (update_where (λ q. q.id =ᵇ id) new rs) ≡ some new) ((=ᵇ_iff id k).0 same)
        (find-update_self id new rs {r = r} n e))
  | inr differ ↦ rw differ (find-update_ne id k new rs n (ground (arith, =ᵇ_iff id k)))
]
