-- ===== src/SshCa/Tests.antt =====
-- internal/sshca/sign.go: one certificate.
use forge_proxy.Base.{ℕ, ◌+◌, ◌-◌, ◌*◌, ◌≤◌, codes, true, false, [], ◌∷◌, ◌≡◌, ◌≢◌, refl, arith}
use forge_proxy.Clock.{second, unix}
use forge_proxy.SshCa.{Certificate, bad_ttl, ok, err, mint, IsValidAt, mint-ok}

signing : Unit {0}
unfolding mint
signing = tt

abbrev minute : ℕ
minute = 60 * second

abbrev issued : Certificate
issued = record {
  key_id = codes "ann@x.io";
  valid_principals = codes "ann@x.io" ∷ [];
  valid_after = 570;
  valid_before = 660;
  extensions = (codes "permit-pty", []) ∷ [];
}

mint_tests :
    (mint true (codes "ann@x.io") minute false false (10 * minute) ≡ ok issued)
    × (mint true (codes "ann@x.io") 0 false false (10 * minute) ≡ err bad_ttl)
unfolding signing
mint_tests = (refl, refl)

mint-ok_concrete :
    (issued.valid_principals ≡ codes "ann@x.io" ∷ [])
    × (codes "ann@x.io" ≢ [])
    × (issued.key_id ≡ codes "ann@x.io")
    × (issued.extensions ≡ (codes "permit-pty", []) ∷ [])
    × (issued.valid_before * second ≤ 10 * minute + minute)
    × IsValidAt (unix (10 * minute - 20 * second)) issued
unfolding signing
mint-ok_concrete =
    mint-ok true (codes "ann@x.io") minute false false (10 * minute) (20 * second) issued refl
      (omega arith) (omega arith) (omega arith)
