-- ===== src/HttpLog/Address.antt =====
-- internal/httplog/middleware.go: the address of the client, and `net.SplitHostPort`.
use forge_proxy.Base.{
  ℕ, Bytes, false, not, ◌||◌, [], ◌∷◌, ◌++◌, ◌≡◌, ◌≢◌, refl, Option, none, some, arith, ◌==◌,
  if◌then◌else◌, All, All-append,
}
use forge_proxy.Strings.{has_byte, cut}
use forge_proxy.Strings.Splitting.{Lacks}
use forge_proxy.Net.Url.{cut_last}

-- What follows the address in brackets: a colon and the port, which has no other colon or bracket.
bracketed : Bytes → Option (Bytes × Bytes) → Option Bytes
unfolding has_byte
bracketed rest none = none
bracketed rest (some (host, [])) = none
bracketed rest (some (host, c ∷ port)) =
    if not (c == b':') || has_byte b':' port || has_byte b'[' rest || has_byte b']' port
    then none
    else some host

bare : Bytes → Option (Bytes × Bytes) → Option Bytes
unfolding has_byte
bare whole none = none
bare whole (some (host, port)) =
    if has_byte b':' host || has_byte b'[' whole || has_byte b']' whole then none else some host

-- The host of `net.SplitHostPort`; none is an error.
unfoldable pub split_host : Bytes → Option Bytes
unfolding bracketed bare cut cut_last
split_host [] = none
split_host (c ∷ s) =
    if c == b'[' then bracketed s (cut b']' s) else bare (c ∷ s) (cut_last b':' (c ∷ s))

or_whole : Bytes → Option Bytes → Bytes
or_whole whole none = whole
or_whole whole (some host) = host

-- `clientIP` and `ClientIP`
unfoldable pub client_ip : Bytes → Bytes
unfolding or_whole split_host
client_ip remote_addr = or_whole remote_addr (split_host remote_addr)

has_byte-Lacks : (b : ℕ) (s : Bytes) → Lacks b s → has_byte b s ≡ false
unfolding has_byte
has_byte-Lacks b [] h = refl
has_byte-Lacks b (c ∷ s) (h, hs) = ground (arith, has_byte-Lacks b s hs)

has_byte-append : (b : ℕ) (s t : Bytes) → has_byte b (s ++ t) ≡ (has_byte b s || has_byte b t)
unfolding has_byte
has_byte-append b [] t = refl
has_byte-append b (c ∷ s) t = ground (arith, has_byte-append b s t)

cut_last-none : (b : ℕ) (s : Bytes) → Lacks b s → cut_last b s ≡ none
unfolding cut_last
cut_last-none b [] h = refl
cut_last-none b (c ∷ s) (h, hs) = rw (cut_last-none b s hs) (ground arith)

cut_last-append :
    (b : ℕ) (host port : Bytes) → Lacks b port → cut_last b (host ++ b ∷ port) ≡ some (host, port)
unfolding cut_last
cut_last-append b [] port h = rw (cut_last-none b port h) (ground arith)
cut_last-append b (c ∷ host) port h = rw (cut_last-append b host port h) refl

cut-append :
    (b : ℕ) (host rest : Bytes) → Lacks b host → cut b (host ++ b ∷ rest) ≡ some (host, rest)
unfolding cut
cut-append b [] rest h = ground arith
cut-append b (c ∷ host) rest (h, hs) = rw (cut-append b host rest hs) (ground arith)

-- No bracket.
abbrev pub IsPlain : Bytes → Type 0
IsPlain = All (λ c. (c ≢ b'[') × (c ≢ b']'))

plain-no_open : (s : Bytes) → IsPlain s → has_byte b'[' s ≡ false
unfolding has_byte
plain-no_open [] h = refl
plain-no_open (c ∷ s) (h, hs) = ground (arith, plain-no_open s hs)

plain-no_close : (s : Bytes) → IsPlain s → has_byte b']' s ≡ false
unfolding has_byte
plain-no_close [] h = refl
plain-no_close (c ∷ s) (h, hs) = ground (arith, plain-no_close s hs)

plain-Lacks : (s : Bytes) → IsPlain s → Lacks b']' s
plain-Lacks [] h = tt
plain-Lacks (c ∷ s) (h, hs) = (h.1, plain-Lacks s hs)

-- The whole address has no bracket either.
joined-IsPlain : (host port : Bytes) → IsPlain host → IsPlain port → IsPlain (host ++ b':' ∷ port)
joined-IsPlain host port h p =
    All-append (λ c. (c ≢ b'[') × (c ≢ b']')) host (b':' ∷ port) h ((omega arith, omega arith), p)

bare-host :
    (host port : Bytes)
    → IsPlain host
    → IsPlain port
    → Lacks b':' host
    → bare (host ++ b':' ∷ port) (some (host, port)) ≡ some host
unfolding bare
bare-host host port h p l =
    let whole = joined-IsPlain host port h p in
    rw
      (
        has_byte-Lacks b':' host l,
        plain-no_open (host ++ b':' ∷ port) whole,
        plain-no_close (host ++ b':' ∷ port) whole,
      )
      refl

split_host-bare :
    (host port : Bytes)
    → IsPlain host
    → IsPlain port
    → Lacks b':' host
    → Lacks b':' port
    → split_host (host ++ b':' ∷ port) ≡ some host
unfolding split_host
split_host-bare [] port h p l m = rw (cut_last-append b':' [] port m) (bare-host [] port h p l)
split_host-bare (c ∷ host) port (h, hs) p l m =
    rw (cut_last-append b':' (c ∷ host) port m)
      (ground (arith, bare-host (c ∷ host) port (h, hs) p l))

bracketed-host :
    (host port : Bytes)
    → IsPlain host
    → IsPlain port
    → Lacks b':' port
    → bracketed (host ++ b']' ∷ b':' ∷ port) (some (host, b':' ∷ port)) ≡ some host
unfolding bracketed
bracketed-host host port h p m =
    rw
      (
        has_byte-Lacks b':' port m,
        has_byte-append b'[' host (b']' ∷ b':' ∷ port),
        plain-no_open host h,
        plain-no_close port p,
      )
      (rw (plain-no_open port p) refl)

split_host-bracketed :
    (host port : Bytes)
    → IsPlain host
    → IsPlain port
    → Lacks b':' port
    → split_host (b'[' ∷ (host ++ b']' ∷ b':' ∷ port)) ≡ some host
unfolding split_host
split_host-bracketed host port h p m =
    rw (cut-append b']' host (b':' ∷ port) (plain-Lacks host h)) (bracketed-host host port h p m)

-- The client of a connection has one address, whatever its port: of a host or an IPv4 address it is
-- what stands before the colon, of an IPv6 address what stands between the brackets.
pub client_ip_lem :
    (host six port : Bytes)
    → IsPlain host
    → Lacks b':' host
    → IsPlain six
    → IsPlain port
    → Lacks b':' port
    → (client_ip (host ++ b':' ∷ port) ≡ host)
      × (client_ip (b'[' ∷ (six ++ b']' ∷ b':' ∷ port)) ≡ six)
unfolding client_ip or_whole
client_ip_lem host six port h l v p m =
    ((rw (split_host-bare host port h p l m) refl), (rw (split_host-bracketed six port v p m) refl))
