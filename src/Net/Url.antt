-- ===== src/Net/Url.antt =====
-- `net/url`: a parsed URL, with the parts that the program reads. The parser itself is a parameter
-- of the code that calls it.
use forge_proxy.Base.{
  ℕ, Bytes, Bool, false, ◌&&◌, [], ◌∷◌, Option, none, some, all, ◌==◌, if◌then◌else◌,
}
use forge_proxy.Strings.{is_digit}

pub record Url : Type 0 where
  pub scheme : Bytes
  -- Whether the authority has a userinfo part.
  pub has_user : Bool
  -- The host with its port.
  pub host : Bytes
  -- What `String` prints.
  pub text : Bytes

last_or : ℕ → Bool → Bytes → Option (Bytes × Bytes) → Option (Bytes × Bytes)
last_or c here s (some (l, r)) = some (c ∷ l, r)
last_or c here s none = if here then some ([], s) else none

-- The text before and after the last `b`.
unfoldable pub cut_last : ℕ → Bytes → Option (Bytes × Bytes)
unfolding last_or
cut_last b [] = none
cut_last b (c ∷ s) = last_or c (c == b) s (cut_last b s)

split_at : Bytes → Option (Bytes × Bytes) → Bytes × Bytes
unfolding is_digit
split_at whole none = (whole, [])
split_at whole (some (h, p)) = if all is_digit p then (h, p) else (whole, [])

drop_last : Bytes → Bytes
drop_last [] = []
drop_last (c ∷ []) = []
drop_last (c ∷ d ∷ s) = c ∷ drop_last (d ∷ s)

ends_with : ℕ → Bytes → Bool
ends_with b [] = false
ends_with b (c ∷ []) = c == b
ends_with b (c ∷ d ∷ s) = ends_with b (d ∷ s)

unbracket : Bytes → Bytes
unfolding drop_last ends_with
unbracket [] = []
unbracket (c ∷ s) = if c == b'[' && ends_with b']' (c ∷ s) then drop_last s else c ∷ s

-- `splitHostPort`: the host without its brackets, and the port.
unfoldable pub split_host_port : Bytes → Bytes × Bytes
unfolding split_at cut_last unbracket
split_host_port hp = let r = split_at hp (cut_last b':' hp) in (unbracket r.0, r.1)

unfoldable pub hostname : Url → Bytes
unfolding split_host_port
hostname u = (split_host_port u.host).0

unfoldable pub port : Url → Bytes
unfolding split_host_port
port u = (split_host_port u.host).1
