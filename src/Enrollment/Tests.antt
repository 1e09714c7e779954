-- ===== src/Enrollment/Tests.antt =====
-- internal/sshenroll/token.go on a concrete store.
use forge_proxy.Base.{ℕ, ◌+◌, Bytes, codes, [], ◌∷◌, ◌≡◌, ◌≢◌, refl, some, arith}
use forge_proxy.Enrollment.{
  Enrollment, not_found, expired, ok, err, Store, default_ttl, mint, peek, consume,
}
use forge_proxy.Enrollment.Single.{peek-consume, consume_twice, peek-mint, peek-mint_other}

enrolling : Unit {0}
unfolding mint peek consume
enrolling = tt

abbrev minted : ℕ → Bytes → Enrollment
minted now fingerprint = record {
  fingerprint = fingerprint;
  key_type = codes "ssh-ed25519";
  public_key = 1 ∷ 2 ∷ [];
  expires_at = now + default_ttl;
}

abbrev one : Store
one = (mint (some (codes "t1")) 100 (codes "f1") (codes "ssh-ed25519") (1 ∷ 2 ∷ []) []).1

peek-consume_concrete : peek (codes "t1") 102 (consume (codes "t1") 101 one).1 ≡ err not_found
unfolding enrolling
peek-consume_concrete = peek-consume (codes "t1") (codes "t1") 101 102 one

consume_tests :
    ((consume (codes "t1") 101 one).0 ≡ ok (minted 100 (codes "f1")))
    × ((consume (codes "t1") (100 + default_ttl) one).0 ≡ err expired)
unfolding enrolling
consume_tests = (refl, refl)

consume_twice_concrete :
    (consume (codes "t1") 102 (consume (codes "t1") 101 one).1).0 ≡ err not_found
consume_twice_concrete = consume_twice (codes "t1") 101 102 one

peek-mint_concrete :
    peek
      (codes "t1")
      101
      (mint (some (codes "t1")) 100 (codes "f1") (codes "ssh-ed25519") (1 ∷ 2 ∷ []) one).1
    ≡ ok (minted 100 (codes "f1"))
unfolding enrolling
peek-mint_concrete =
    peek-mint (codes "t1") 100 101 (codes "f1") (codes "ssh-ed25519") (1 ∷ 2 ∷ []) one

other-ne : codes "t2" ≢ codes "t1"
other-ne e = ground arith

peek-mint_other_concrete :
    peek (codes "t1") 103 (mint (some (codes "t2")) 102 (codes "f2") (codes "ssh-rsa") [] one).1
    ≡ ok (minted 100 (codes "f1"))
unfolding enrolling
peek-mint_other_concrete =
    peek-mint_other (codes "t2") (codes "t1") 102 103 (codes "f2") (codes "ssh-rsa") [] one
      (minted 100 (codes "f1")) other-ne (omega arith) refl
