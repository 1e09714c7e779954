-- ===== src/Proxy/Headers/Stripped.antt =====
-- What `strip_forge_headers` leaves of each header.
use forge_proxy.Base.{
  ℕ, Bytes, codes, Bool, true, false, List, [], ◌∷◌, ◌≡◌, ◌≢◌, ◌⊎◌, inl, inr, refl, ◌∙◌, ap, Option,
  none, some, arith, if◌then◌else◌, Bool-cases, ◌=ᵇ◌, =ᵇ_iff, Holds,
}
use forge_proxy.Base.Dict
use forge_proxy.Base.Dict.{lookup, lookup-insert, lookup-delete}
use forge_proxy.Strings.{has_prefix}
use forge_proxy.Net.Header.{Header, canonical, del}
use forge_proxy.Proxy.Headers.{
  Outbound, forge_header_prefix, is_forge, strip_keys, clean, store, clean_found, clean_header,
  drops_name, drops_cookie, strip_forge_headers,
}
use forge_proxy.Proxy.Headers.Entries.{entries, without, entries-clean}

-- A name that the map can hold, and that begins with "X-Forge-".
pub record IsTrusted (k : Bytes) : Type 0 where
  pub is_canonical : canonical k ≡ k
  pub prefixed : has_prefix k forge_header_prefix ≡ true

lookup-del :
    (h : Header) (j k : Bytes)
    → lookup k (del h j) ≡ (if canonical j =ᵇ k then none else lookup k h)
unfolding del
lookup-del h j k = lookup-delete (canonical j) k h

is_forge_of_IsTrusted : (k : Bytes) → IsTrusted k → is_forge k ≡ true
unfolding is_forge
is_forge_of_IsTrusted k t = rw t.is_canonical t.prefixed

-- A key that is gone stays gone.
strip_keys-none :
    (ks : List Bytes) (h : Header) (k : Bytes)
    → lookup k h ≡ none
    → lookup k (strip_keys ks h) ≡ none
unfolding strip_keys
strip_keys-none [] h k e = e
strip_keys-none (j ∷ ks) h k e =
    strip_keys-none ks (if is_forge j then del h j else h) k (ground (arith, lookup-del h j k))

strip_keys-Holds :
    (ks : List Bytes) (h : Header) (k : Bytes)
    → IsTrusted k
    → Holds k ks
    → lookup k (strip_keys ks h) ≡ none
unfolding strip_keys
strip_keys-Holds [] h k t m = absurd m
strip_keys-Holds (j ∷ ks) h k t (inl e) = strip_keys-none ks (if is_forge j then del h j else h) k (
    rw e (
      rw (is_forge_of_IsTrusted k t)
        (ground (arith, lookup-del h k k, =ᵇ_iff (canonical k) k, t.is_canonical))))
strip_keys-Holds (j ∷ ks) h k t (inr m) =
    strip_keys-Holds ks (if is_forge j then del h j else h) k t m

lookup-keys : (h : Header) (k : Bytes) → (lookup k h ≡ none) ⊎ Holds k (Dict.keys h)
unfolding lookup
lookup-keys [] k = inl refl
lookup-keys ((j, v) ∷ h) k = ground (arith, =ᵇ_iff j k, lookup-keys h k)

strip_keys-absent :
    (h : Header) (k : Bytes) → IsTrusted k → lookup k (strip_keys (Dict.keys h) h) ≡ none
strip_keys-absent h k t = elim (lookup-keys h k) [
  | inl e ↦ strip_keys-none (Dict.keys h) h k e
  | inr m ↦ strip_keys-Holds (Dict.keys h) h k t m
]

forge_key-ne :
    (j k : Bytes)
    → is_forge j ≡ true
    → has_prefix k forge_header_prefix ≡ false
    → (canonical j =ᵇ k) ≡ false
unfolding is_forge
forge_key-ne j k forge e = ground (arith, =ᵇ_iff (canonical j) k)

strip_keys-other :
    (ks : List Bytes) (h : Header) (k : Bytes)
    → has_prefix k forge_header_prefix ≡ false
    → lookup k (strip_keys ks h) ≡ lookup k h
unfolding strip_keys
strip_keys-other [] h k e = refl
strip_keys-other (j ∷ ks) h k e =
    strip_keys-other ks (if is_forge j then del h j else h) k e ∙ (elim (Bool-cases (is_forge j)) [
      | inl forge ↦ rw forge (lookup-del h j k ∙ rw (forge_key-ne j k forge e))
      | inr plain ↦ rw plain
    ])

-- The values of a header that the map does not hold are none.
abbrev pub values : Option (List Bytes) → List Bytes
values none = []
values (some vs) = vs

module _ (name : Bytes) (drops : Bytes → Bool) (sep : ℕ) (named : canonical name ≡ name) where
  lookup-store : (vs : List Bytes) (h : Header) → values (lookup name (store name vs h)) ≡ vs
  unfolding store
  lookup-store [] h = ground (arith, lookup-del h name name, =ᵇ_iff (canonical name) name, named)
  lookup-store (v ∷ vs) h = ground (arith, lookup-insert name name (v ∷ vs) h, =ᵇ_iff name name)

  store-other :
      (vs : List Bytes) (h : Header) (k : Bytes)
      → name ≢ k
      → lookup k (store name vs h) ≡ lookup k h
  unfolding store
  store-other [] h k ne = ground (arith, lookup-del h name k, =ᵇ_iff (canonical name) k, named)
  store-other (v ∷ vs) h k ne = ground (arith, lookup-insert name k (v ∷ vs) h, =ᵇ_iff name k)

  clean_found-other :
      (h : Header) (found : Option (List Bytes)) (k : Bytes)
      → name ≢ k
      → lookup k (clean_found name drops sep h found) ≡ lookup k h
  unfolding clean_found
  clean_found-other h none k ne = refl
  clean_found-other h (some vs) k ne = store-other (clean drops sep vs) h k ne

  clean_header-other :
      (h : Header) (k : Bytes) → name ≢ k → lookup k (clean_header name drops sep h) ≡ lookup k h
  unfolding clean_header
  clean_header-other h k ne = clean_found-other h (lookup name h) k ne

  clean_found-entries :
      (h : Header) (found : Option (List Bytes))
      → 32 ≢ sep
      → lookup name h ≡ found
      → entries sep (values (lookup name (clean_found name drops sep h found)))
        ≡ without drops (entries sep (values found))
  unfolding clean_found
  clean_found-entries h none ne e = rw e (unfold entries without in refl)
  clean_found-entries h (some vs) ne e =
      rw (lookup-store (clean drops sep vs) h) (entries-clean drops sep vs ne)

  clean_header-entries :
      (h : Header)
      → 32 ≢ sep
      → entries sep (values (lookup name (clean_header name drops sep h)))
        ≡ without drops (entries sep (values (lookup name h)))
  unfolding clean_header
  clean_header-entries h ne = clean_found-entries h (lookup name h) ne refl

abbrev pub cookie : Bytes
cookie = codes "Cookie"

abbrev pub announced : Bytes
announced = codes "Trailer"

named_cookie : canonical cookie ≡ cookie
unfolding canonical
named_cookie = refl

named_trailer : canonical announced ≡ announced
unfolding canonical
named_trailer = refl

trusted-ne : (name k : Bytes) → has_prefix name forge_header_prefix ≡ false → IsTrusted k → name ≢ k
trusted-ne name k e t p = ground (arith, t.prefixed)

plain_cookie : has_prefix cookie forge_header_prefix ≡ false
unfolding has_prefix
plain_cookie = refl

plain_trailer : has_prefix announced forge_header_prefix ≡ false
unfolding has_prefix
plain_trailer = refl

-- After the strip neither the headers nor the trailers hold a canonical name that begins with
-- "X-Forge-".
pub strip_forge_headers-absent :
    (out : Outbound) (k : Bytes)
    → IsTrusted k
    → (lookup k (strip_forge_headers out).header ≡ none)
      × (lookup k (strip_forge_headers out).trailer ≡ none)
unfolding strip_forge_headers
strip_forge_headers-absent out k t = (
  clean_header-other cookie drops_cookie b';' named_cookie _ k (trusted-ne cookie k plain_cookie t)
      ∙ clean_header-other announced drops_name b',' named_trailer _ k
          (trusted-ne announced k plain_trailer t)
      ∙ strip_keys-absent out.header k t,
  strip_keys-absent out.trailer k t,
)

-- A header that is not `Cookie` or `Trailer` and does not begin with "X-Forge-" stays as it was,
-- and so does the trailer of that name.
pub strip_forge_headers-other :
    (out : Outbound) (k : Bytes)
    → has_prefix k forge_header_prefix ≡ false
    → cookie ≢ k
    → announced ≢ k
    → (lookup k (strip_forge_headers out).header ≡ lookup k out.header)
      × (lookup k (strip_forge_headers out).trailer ≡ lookup k out.trailer)
unfolding strip_forge_headers
strip_forge_headers-other out k e c a = (
  clean_header-other cookie drops_cookie b';' named_cookie _ k c
      ∙ clean_header-other announced drops_name b',' named_trailer _ k a
      ∙ strip_keys-other (Dict.keys out.header) out.header k e,
  strip_keys-other (Dict.keys out.trailer) out.trailer k e,
)

-- The entries of the Cookie header that goes out, trimmed and in order, are those that came in
-- without the entries whose text before "=" is the name of the session cookie; the announced
-- trailers are those that came in without the empty names and those that begin with "X-Forge-".
pub strip_forge_headers-entries :
    (out : Outbound)
    → (entries b';' (values (lookup cookie (strip_forge_headers out).header))
        ≡ without drops_cookie (entries b';' (values (lookup cookie out.header))))
      × (entries b',' (values (lookup announced (strip_forge_headers out).header))
          ≡ without drops_name (entries b',' (values (lookup announced out.header))))
unfolding strip_forge_headers
strip_forge_headers-entries out = (
  clean_header-entries cookie drops_cookie b';' named_cookie
        (clean_header announced drops_name b',' (strip_keys (Dict.keys out.header) out.header))
        (omega arith)
      ∙ ap (λ v. without drops_cookie (entries b';' (values v)))
          (clean_header-other announced drops_name b',' named_trailer
              (strip_keys (Dict.keys out.header) out.header) cookie (cc)
            ∙ strip_keys-other (Dict.keys out.header) out.header cookie plain_cookie),
  ap (λ v. entries b',' (values v))
        (clean_header-other cookie drops_cookie b';' named_cookie
          (clean_header announced drops_name b',' (strip_keys (Dict.keys out.header) out.header))
          announced (cc))
      ∙ clean_header-entries announced drops_name b',' named_trailer
          (strip_keys (Dict.keys out.header) out.header) (omega arith)
      ∙ ap (λ v. without drops_name (entries b',' (values v)))
          (strip_keys-other (Dict.keys out.header) out.header announced plain_trailer),
)
