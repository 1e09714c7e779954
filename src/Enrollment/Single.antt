-- ===== src/Enrollment/Single.antt =====
-- internal/sshenroll/token.go: for how long and how often a token is good.
use forge_proxy.Base.{
  ℕ, ◌+◌, ◌≤◌, ◌<◌, Bytes, false, [], ◌∷◌, ◌≡◌, ◌≢◌, refl, Option, none, some, arith, ltb, lt→ltb,
  ap, ◌∙◌, if◌then◌else◌, ◌=ᵇ◌, =ᵇ_refl, =ᵇ_iff,
}
use forge_proxy.Base.Dict.{lookup, lookup-insert, lookup-delete}
use forge_proxy.Enrollment.{
  Enrollment, not_found, expired, ok, err, Store, default_ttl, sweep, mint, checked, peek, consume,
}

abbrev minted : ℕ → Bytes → Bytes → Bytes → Enrollment
minted now fingerprint key_type public_key = record {
  fingerprint = fingerprint;
  key_type = key_type;
  public_key = public_key;
  expires_at = now + default_ttl;
}

checked-ok :
    (now : ℕ) (found : Option Enrollment) (e : Enrollment)
    → checked now found ≡ ok e
    → (found ≡ some e) × (now < e.expires_at)
unfolding checked
checked-ok now none e h = cc
checked-ok now (some d) e h = ground arith

differ : (a b : Bytes) → a ≢ b → (a =ᵇ b) ≡ false
differ a b ne = ground (arith, =ᵇ_iff a b)

-- A consumed token is unknown from then on, and every other token is as it was.
pub peek-consume :
    (token other : Bytes) (now later : ℕ) (s : Store)
    → peek other later (consume token now s).1
      ≡ (if token =ᵇ other then err not_found else peek other later s)
unfolding peek consume checked
peek-consume token other now later s = ground (arith, lookup-delete token other s)

-- A second consumption never succeeds.
pub consume_twice :
    (token : Bytes) (now later : ℕ) (s : Store)
    → (consume token later (consume token now s).1).0 ≡ err not_found
unfolding consume checked
consume_twice token now later s = ground (arith, lookup-delete token token s, =ᵇ_refl token)

-- A minted token gives the key that it was minted for until ten minutes have passed, and
-- afterwards it has expired.
pub peek-mint :
    (token : Bytes) (now later : ℕ) (fingerprint key_type public_key : Bytes) (s : Store)
    → peek token later (mint (some token) now fingerprint key_type public_key s).1 ≡ (
        if ltb later (now + default_ttl)
        then ok (record {
          fingerprint = fingerprint;
          key_type = key_type;
          public_key = public_key;
          expires_at = now + default_ttl;
        })
        else err expired)
unfolding peek mint
peek-mint token now later fingerprint key_type public_key s =
    ap (checked later) {y = some (minted now fingerprint key_type public_key)} (
      lookup-insert token token (minted now fingerprint key_type public_key) (sweep now s)
      ∙ rw (=ᵇ_refl token))
    ∙ (unfold checked in refl)

lookup-sweep :
    (k : Bytes) (now : ℕ) (s : Store) {e : Enrollment}
    → lookup k s ≡ some e
    → now < e.expires_at
    → lookup k (sweep now s) ≡ some e
unfolding lookup sweep
lookup-sweep k now [] h live = cc
lookup-sweep k now ((j, d) ∷ s) {e} h live = ground (arith, lookup-sweep k now s {e = e})

-- Minting a token takes away no other token that is alive when it is looked up later.
pub peek-mint_other :
    (token other : Bytes) (now later : ℕ) (fingerprint key_type public_key : Bytes) (s : Store)
    (e : Enrollment)
    → token ≢ other
    → now ≤ later
    → peek other later s ≡ ok e
    → peek other later (mint (some token) now fingerprint key_type public_key s).1 ≡ ok e
unfolding peek mint
peek-mint_other token other now later fingerprint key_type public_key s e ne le h =
    let (found, live) = checked-ok later (lookup other s) e h in
    ap (checked later) {y = some e} (
      lookup-insert token other (minted now fingerprint key_type public_key) (sweep now s)
      ∙ rw (differ token other ne) (lookup-sweep other now s {e = e} found (omega arith)))
    ∙ (unfold checked in rw (lt→ltb later e.expires_at live))
