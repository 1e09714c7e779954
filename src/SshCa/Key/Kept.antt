-- ===== src/SshCa/Key/Kept.antt =====
-- internal/sshca/ca.go: what a start leaves in the files, and what the next one reads.
use forge_proxy.Base.{
  Bytes, codes, is_empty, false, ◌++◌, [], ◌∷◌, Option, none, some, ◌≡◌, refl, ap, ◌∙◌, ◌⊎◌, inl,
  inr, arith, ◌=ᵇ◌, =ᵇ_refl, Bool-cases,
}
use forge_proxy.Base.Dict.{lookup, insert, lookup-insert}
use forge_proxy.SshCa.Key.{
  Error, no_directory, no_key, no_text, no_write, no_public_key, no_public_write, no_signer, Result,
  ok, err, Keys, Outside, Files, left, public_path, signed, write_public, write_private, with_key,
  generate, parsed, loaded, load_or_generate,
}

longer : (s : Bytes) → (s ++ codes ".pub" =ᵇ s) ≡ false
unfolding ◌=ᵇ◌
longer [] = refl
longer (c ∷ s) = ground (arith, longer s)

apart : (path : Bytes) → (public_path path =ᵇ path) ≡ false
unfolding public_path
apart = longer

module _ {K : Type 0} (keys : Keys K) (o : Outside K) (path : Bytes) where
  -- Every other file is as it was.
  abbrev Near : Files → Files → Type 0
  Near fs g =
      (j : Bytes) → (path =ᵇ j) ≡ false → (public_path path =ᵇ j) ≡ false → lookup j g ≡ lookup j fs

  -- What a new key leaves: its text, where a success says so.
  abbrev Leaves : Files → Result K × Files → Type 0
  Leaves fs r = ((k : K) → r.0 ≡ ok k → lookup path r.1 ≡ some (keys.private_text k)) × Near fs r.1

  insert-Near :
      (at text : Bytes) (fs g : Files)
      → (at ≡ path) ⊎ (at ≡ public_path path)
      → Near fs g
      → Near fs (insert at text g)
  insert-Near at text fs g (inl h) near =
      λ j p q. rw (h, lookup-insert path j text g, p) (near j p q)
  insert-Near at text fs g (inr h) near =
      λ j p q. rw (h, lookup-insert (public_path path) j text g, q) (near j p q)

  err-Leaves : (e : Error) (fs g : Files) → Near fs g → Leaves fs (err e, g)
  err-Leaves e fs g near = ((λ k q. cc), near)

  left-Leaves :
      (e : Error) (at : Bytes) (rest : Option Bytes) (fs g : Files)
      → (at ≡ path) ⊎ (at ≡ public_path path)
      → Near fs g
      → Leaves fs (err e, left at rest g)
  unfolding left
  left-Leaves e at none fs g h near = err-Leaves e fs g near
  left-Leaves e at (some text) fs g h near =
      err-Leaves e fs (insert at text g) (insert-Near at text fs g h near)

  signed-Leaves :
      (k : K) (fs g : Files)
      → Near fs g
      → lookup path g ≡ some (keys.private_text k)
      → Leaves fs (signed keys o k g)
  unfolding signed
  signed-Leaves k fs g near has = elim (Bool-cases o.signer_fails) [
    | inl fails ↦ rw fails (err-Leaves no_signer fs g near)
    | inr signs ↦ rw signs ((λ k' q. has ∙ ap (λ r. some (keys.private_text r)) (the_key q)), near)
  ]
    where
      the_key : {a b : K} → ok a ≡ ok b → a ≡ b
      the_key q = cc

  write_public-Leaves :
      (k : K) (out : Option (Option Bytes)) (fs g : Files)
      → Near fs g
      → lookup path g ≡ some (keys.private_text k)
      → Leaves fs (write_public keys o path k out g)
  unfolding write_public
  write_public-Leaves k (some rest) fs g near has =
      left-Leaves no_public_write (public_path path) rest fs g (inr refl) near
  write_public-Leaves k none fs g near has =
      signed-Leaves k fs (insert (public_path path) (keys.public_text k) g)
        (insert-Near (public_path path) (keys.public_text k) fs g (inr refl) near)
        (rw (lookup-insert (public_path path) path (keys.public_text k) g, apart path) has)

  write_private-Leaves :
      (k : K) (out : Option (Option Bytes)) (fs : Files)
      → Leaves fs (write_private keys o path k out fs)
  unfolding write_private
  write_private-Leaves k (some rest) fs =
      left-Leaves no_write path rest fs fs (inl refl) (λ j p q. refl)
  write_private-Leaves k none fs =
      let g = insert path (keys.private_text k) fs in
      let near = insert-Near path (keys.private_text k) fs fs (inl refl) (λ j p q. refl) in
      elim (Bool-cases o.public_fails) [
        | inl fails ↦ rw fails (err-Leaves no_public_key fs g near)
        | inr makes ↦ rw makes (
            write_public-Leaves k o.public_write_fails fs g near
              (rw (lookup-insert path path (keys.private_text k) fs, =ᵇ_refl path) refl))
      ]

  with_key-Leaves : (k : Option K) (fs : Files) → Leaves fs (with_key keys o path k fs)
  unfolding with_key
  with_key-Leaves none fs = err-Leaves no_key fs fs (λ j p q. refl)
  with_key-Leaves (some k) fs = elim (Bool-cases o.text_fails) [
    | inl fails ↦ rw fails (err-Leaves no_text fs fs (λ j p q. refl))
    | inr writes ↦ rw writes (write_private-Leaves k o.write_fails fs)
  ]

  generate-Leaves : (fs : Files) → Leaves fs (generate keys o path fs)
  unfolding generate
  generate-Leaves fs = elim (Bool-cases o.mkdir_fails) [
    | inl fails ↦ rw fails (err-Leaves no_directory fs fs (λ j p q. refl))
    | inr makes ↦ rw makes (with_key-Leaves o.new_key fs)
  ]

-- How a call with a path ends: an old file is read and nothing changes, or there was none.
abbrev Loads : {K : Type 0} → Keys K → Bytes → Files → Result K × Files → Type 0
Loads {K} keys path fs r =
    ((r.1 ≡ fs)
      × ((k : K)
          → r.0 ≡ ok k
          → (text : Bytes) × (lookup path fs ≡ some text) × (keys.parse text ≡ some k)))
    ⊎ ((lookup path fs ≡ none)
        × ((k : K) → r.0 ≡ ok k → lookup path r.1 ≡ some (keys.private_text k))
        × ((j : Bytes)
            → (path =ᵇ j) ≡ false
            → (public_path path =ᵇ j) ≡ false
            → lookup j r.1 ≡ lookup j fs))

parsed-ok :
    {K : Type 0} (keys : Keys K) (o : Outside K) (p : Option K) (k : K)
    → parsed keys o p ≡ ok k
    → p ≡ some k
unfolding parsed
parsed-ok keys o none k h = cc
parsed-ok keys o (some k') k h = cc

loaded-Loads :
    {K : Type 0} (keys : Keys K) (o : Outside K) (path : Bytes) (found : Option Bytes) (fs : Files)
    → lookup path fs ≡ found
    → Loads keys path fs (loaded keys o path found fs)
unfolding loaded
loaded-Loads keys o path none fs h =
    let made = generate-Leaves keys o path fs in inr (h, made.0, made.1)
loaded-Loads keys o path (some text) fs h = elim (Bool-cases o.read_fails) [
  | inl fails ↦ rw fails (inl (refl, λ k q. cc))
  | inr reads ↦ rw reads (inl (refl, λ k q. (text, h, parsed-ok keys o (keys.parse text) k q)))
]

load_or_generate-Loads :
    {K : Type 0} (keys : Keys K) (o : Outside K) (path : Bytes) (fs : Files)
    → Loads keys path fs (load_or_generate keys o path fs)
unfolding load_or_generate
load_or_generate-Loads keys o path fs = elim (Bool-cases (is_empty path)) [
  | inl none_given ↦ rw none_given (inl (refl, λ k q. cc))
  | inr given ↦ elim (Bool-cases o.stat_fails) [
    | inl fails ↦ rw (given, fails) (inl (refl, λ k q. cc))
    | inr stats ↦ rw (given, stats) (loaded-Loads keys o path (lookup path fs) fs refl)
  ]
]

ok-given :
    {K : Type 0} (keys : Keys K) (o : Outside K) (path : Bytes) (fs : Files) (k : K)
    → (load_or_generate keys o path fs).0 ≡ ok k
    → is_empty path ≡ false
unfolding load_or_generate
ok-given keys o [] fs k h = cc
ok-given keys o (c ∷ path) fs k h = refl

reads :
    {K : Type 0} (keys : Keys K) (o : Outside K) (path text : Bytes) (fs : Files) (k : K)
    → is_empty path ≡ false
    → o.stat_fails ≡ false
    → o.read_fails ≡ false
    → lookup path fs ≡ some text
    → keys.parse text ≡ some k
    → load_or_generate keys o path fs ≡ (ok k, fs)
unfolding load_or_generate loaded parsed
reads keys o path text fs k given stats readable has parses =
    rw (given, stats, has) (rw (readable, parses) refl)

result_cases : {K : Type 0} (r : Result K) → ((e : Error) × (r ≡ err e)) ⊎ ((k : K) × (r ≡ ok k))
result_cases (err e) = inl (e, refl)
result_cases (ok k) = inr (k, refl)

Loads-files :
    {K : Type 0} (keys : Keys K) (path other : Bytes) (fs : Files) (r : Result K × Files)
    → (path =ᵇ other) ≡ false
    → (public_path path =ᵇ other) ≡ false
    → Loads keys path fs r
    → ((lookup path fs ≡ none) ⊎ (r.1 ≡ fs)) × (lookup other r.1 ≡ lookup other fs)
Loads-files keys path other fs r p q (inl (same, from)) = (inr same, ap (lookup other) same)
Loads-files keys path other fs r p q (inr (absent, has, near)) = (inl absent, near other p q)

-- A key that a start has got is there for a later one.
Loads-again :
    {K : Type 0} (keys : Keys K) (o' : Outside K) (path : Bytes) (fs gs : Files)
    (r : Result K × Files) (k : K)
    → ((a : K) → keys.parse (keys.private_text a) ≡ some a)
    → is_empty path ≡ false
    → r.0 ≡ ok k
    → lookup path gs ≡ lookup path r.1
    → o'.stat_fails ≡ false
    → o'.read_fails ≡ false
    → Loads keys path fs r
    → load_or_generate keys o' path gs ≡ (ok k, gs)
Loads-again keys o' path fs gs r k back given success kept stats readable (inl (same, from)) =
    let (text, has, parses) = from k success in
    reads keys o' path text gs k given stats readable (kept ∙ ap (lookup path) same ∙ has) parses
Loads-again keys o' path fs gs r k back given success kept stats readable
      (inr (absent, has, near)) =
    reads keys o' path (keys.private_text k) gs k given stats readable (kept ∙ has k success)
      (back k)

-- Whatever fails, a file that is at the path is never overwritten, and no other file than it and its
-- public half is touched. A start ends with an error, or it gets a key, read or new; then a later start
-- that can read the file gets the same key and changes nothing, as long as nobody changes the file, for
-- a library that reads back the keys that it writes.
pub load_or_generate_twice :
    {K : Type 0} (keys : Keys K) (o o' : Outside K) (path other : Bytes) (fs gs : Files)
    → ((a : K) → keys.parse (keys.private_text a) ≡ some a)
    → (path =ᵇ other) ≡ false
    → (public_path path =ᵇ other) ≡ false
    → lookup path gs ≡ lookup path (load_or_generate keys o path fs).1
    → o'.stat_fails ≡ false
    → o'.read_fails ≡ false
    → let r = load_or_generate keys o path fs in
      ((lookup path fs ≡ none) ⊎ (r.1 ≡ fs))
      × (lookup other r.1 ≡ lookup other fs)
      × (((e : Error) × (r.0 ≡ err e))
          ⊎ ((k : K) × (r.0 ≡ ok k) × (load_or_generate keys o' path gs ≡ (ok k, gs))))
load_or_generate_twice keys o o' path other fs gs back p q kept stats readable =
    let r = load_or_generate keys o path fs in
    let loads = load_or_generate-Loads keys o path fs in
    let files = Loads-files keys path other fs r p q loads in
    (
      files.0,
      files.1,
      elim (result_cases r.0) [
        | inl failed ↦ inl failed
        | inr (k, success) ↦ inr (
          k,
          success,
          Loads-again keys o' path fs gs r k back (ok-given keys o path fs k success) success kept
              stats readable loads,
        )
      ],
    )
