-- ===== src/Db.antt =====
-- internal/db: a write transaction over a table. The database driver decides whether a statement
-- fails, which is an argument of each operation.
use forge_proxy.Base.{
  ◌≡◌, refl, ◌⊎◌, ap, arith, Bool-cases, inl, inr, Bool, Option, none, some, if◌then◌else◌,
}

-- What goes wrong when the transaction begins and when it is committed.
pub record TxFaults : Type 0 where
  pub begin : Bool
  pub commit : Bool

module _ {S E : Type 0} where
  -- The state after the body, and its error, if any.
  commit_or_roll_back : TxFaults → E → S → Option E × S → Option E × S
  commit_or_roll_back f failed s (some e, s') = (some e, s)
  commit_or_roll_back f failed s (none, s') = if f.commit then (some failed, s) else (none, s')

  -- An error at any point leaves the state as it was.
  unfoldable pub with_write_tx : TxFaults → E → (S → Option E × S) → S → Option E × S
  unfolding commit_or_roll_back
  with_write_tx f failed body s =
      if f.begin then (some failed, s) else commit_or_roll_back f failed s (body s)

-- What holds before a transaction and after its body holds after the transaction, whatever fails.
pub with_write_tx-keeps {κ} :
    {S E : Type 0} (P : S → Type κ) (f : TxFaults) (failed : E) (body : S → Option E × S) (s : S)
    → P s
    → P (body s).1
    → P (with_write_tx f failed body s).1
unfolding with_write_tx
with_write_tx-keeps {S} {E} P f failed body s before after = elim (Bool-cases f.begin) [
  | inl e ↦ rw e before
  | inr e ↦ rw e (ended (body s) after)
]
  where
    ended : (r : Option E × S) → P r.1 → P (commit_or_roll_back f failed s r).1
    ended (some e, s') h = before
    ended (none, s') h = elim (Bool-cases f.commit) [ inl e ↦ rw e before | inr e ↦ rw e h ]

ended-none :
    {S E : Type 0} (f : TxFaults) (failed : E) (s s' : S) (r : Option E × S)
    → commit_or_roll_back f failed s r ≡ (none, s')
    → r ≡ (none, s')
unfolding commit_or_roll_back
ended-none f failed s s' (some e, t) h = ground (arith, ap (λ (x : Option _ × _). x.0) h)
ended-none f failed s s' (none, t) h = ground arith

-- A transaction that ends without an error has run its body, without an error.
pub with_write_tx-none :
    {S E : Type 0} (f : TxFaults) (failed : E) (body : S → Option E × S) (s s' : S)
    → with_write_tx f failed body s ≡ (none, s')
    → body s ≡ (none, s')
unfolding with_write_tx
with_write_tx-none f failed body s s' h = elim (Bool-cases f.begin) [
  | inl e ↦ ground arith
  | inr e ↦ ended-none f failed s s' (body s) (rw (e, with_write_tx) at h)
]

-- A transaction leaves the state of its body, or that of before.
pub with_write_tx_cases :
    {S E : Type 0} (f : TxFaults) (failed : E) (body : S → Option E × S) (s : S)
    → ((with_write_tx f failed body s).1 ≡ s) ⊎ ((with_write_tx f failed body s).1 ≡ (body s).1)
unfolding with_write_tx
with_write_tx_cases {S} {E} f failed body s = elim (Bool-cases f.begin) [
  | inl e ↦ inl (rw e)
  | inr e ↦ rw e (ended (body s))
]
  where
    ended :
        (r : Option E × S)
        → ((commit_or_roll_back f failed s r).1 ≡ s) ⊎ ((commit_or_roll_back f failed s r).1 ≡ r.1)
    ended (some e, s') = inl refl
    ended (none, s') = elim (Bool-cases f.commit) [ inl e ↦ inl (rw e) | inr e ↦ inr (rw e) ]

-- A transaction that ends with an error leaves the state as it was.
pub with_write_tx-some :
    {S E : Type 0} (f : TxFaults) (failed : E) (body : S → Option E × S) (s s' : S) (e : E)
    → with_write_tx f failed body s ≡ (some e, s')
    → s' ≡ s
unfolding with_write_tx
with_write_tx-some {S} {E} f failed body s s' e h = elim (Bool-cases f.begin) [
  | inl b ↦ ground arith
  | inr b ↦ ended (body s) (rw (b, with_write_tx) at h)
]
  where
    ended : (r : Option E × S) → commit_or_roll_back f failed s r ≡ (some e, s') → s' ≡ s
    ended (some d, t) k = ground arith
    ended (none, t) k = ground arith

pub with_write_tx-error :
    {S E : Type 0} (f : TxFaults) (failed : E) (body : S → Option E × S) (s : S) (e : E)
    → (with_write_tx f failed body s).0 ≡ some e
    → (with_write_tx f failed body s).1 ≡ s
with_write_tx-error f failed body s e h =
    with_write_tx-some f failed body s (with_write_tx f failed body s).1 e
      (ap (λ z. (z, (with_write_tx f failed body s).1)) h)
