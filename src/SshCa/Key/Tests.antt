-- ===== src/SshCa/Key/Tests.antt =====
-- Tests of internal/sshca/ca.go, with numbers for keys.
use forge_proxy.Base.{ℕ, Bytes, codes, false, [], ◌∷◌, Option, none, some, ◌≡◌, ◌⊎◌, refl}
use forge_proxy.Base.Dict.{lookup}
use forge_proxy.SshCa.Key.{
  Error, Result, no_parse, no_public_write, ok, err, Keys, Outside, Files, public_path,
  load_or_generate,
}
use forge_proxy.SshCa.Key.Kept.{load_or_generate_twice}

parse_number : Bytes → Option ℕ
parse_number [] = none
parse_number (c ∷ s) = some c

abbrev numbers : Keys ℕ
numbers = record {
  private_text = λ k. k ∷ [];
  public_text = λ k. codes "public";
  parse = parse_number;
}

abbrev system : Outside ℕ
system = record {
  stat_fails = false;
  read_fails = false;
  mkdir_fails = false;
  new_key = some 7;
  text_fails = false;
  write_fails = none;
  public_fails = false;
  public_write_fails = none;
  signer_fails = false;
}

abbrev later_system : Outside ℕ
later_system = record system { new_key = some 8 }

abbrev path : Bytes
path = codes "/k"

abbrev no_files : Files
no_files = []

abbrev written : Files
written = (path, 7 ∷ []) ∷ (codes "/k.pub", codes "public") ∷ []

key_tests :
    (load_or_generate numbers system path [] ≡ (ok 7, written))
    × (load_or_generate numbers (record system { public_write_fails = some none }) path []
        ≡ (err no_public_write, (path, 7 ∷ []) ∷ []))
    × (load_or_generate numbers system path ((path, []) ∷ []) ≡ (err no_parse, (path, []) ∷ []))
unfolding load_or_generate parse_number
key_tests = (refl, refl, refl)

load_or_generate_twice_example :
    ((lookup path no_files ≡ none) ⊎ (written ≡ no_files))
    × (lookup (codes "/other") written ≡ none)
    × (((e : Error) × (◌≡◌ {A = Result ℕ} (ok 7) (err e)))
        ⊎ ((k : ℕ) × (◌≡◌ {A = Result ℕ} (ok 7) (ok k))
            × (load_or_generate numbers later_system path written ≡ (ok k, written))))
unfolding load_or_generate parse_number public_path
load_or_generate_twice_example =
    load_or_generate_twice numbers system later_system path (codes "/other") no_files written
      (λ a. refl) refl refl refl refl refl
