-- ===== src/Enrollment.antt =====
-- internal/sshenroll/token.go: single-use tokens for enrolling an SSH key. The mutex makes each
-- operation one step.
pub mod Single
pub mod Pages
pub mod Tests
use forge_proxy.Base.{
  ℕ, ◌+◌, Bytes, Bool, true, false, List, [], ◌∷◌, Option, none, some, ltb, if◌then◌else◌,
}
use forge_proxy.Base.Dict
use forge_proxy.Base.Dict.{Dict}

-- Ten minutes.
abbrev pub default_ttl : ℕ
default_ttl = 600_000_000_000

pub record Enrollment : Type 0 where
  pub fingerprint : Bytes
  pub key_type : Bytes
  pub public_key : Bytes
  pub expires_at : ℕ

pub data Error : Type 0 where
  not_found expired : Error

pub data Result : Type 0 where
  ok : Enrollment → Result
  err : Error → Result

abbrev pub Store : Type 0
Store = Dict Enrollment

-- `sweepLocked`
unfoldable pub sweep : ℕ → Store → Store
sweep now [] = []
sweep now ((token, e) ∷ rest) =
    let kept = sweep now rest in if ltb now e.expires_at then (token, e) ∷ kept else kept

-- `Mint`, for the token that the random source gave, or none.
unfoldable pub mint : Option Bytes → ℕ → Bytes → Bytes → Bytes → Store → Option Bytes × Store
unfolding sweep Dict.insert
mint none now fingerprint key_type public_key s = (none, s)
mint (some token) now fingerprint key_type public_key s = (
  some token,
  Dict.insert token
      (record {
        fingerprint = fingerprint;
        key_type = key_type;
        public_key = public_key;
        expires_at = now + default_ttl;
      })
      (sweep now s),
)

checked : ℕ → Option Enrollment → Result
checked now none = err not_found
checked now (some e) = if ltb now e.expires_at then ok e else err expired

-- `Peek`
unfoldable pub peek : Bytes → ℕ → Store → Result
unfolding checked Dict.lookup
peek token now s = checked now (Dict.lookup token s)

-- `Consume`: the entry goes, whether it is alive or not.
unfoldable pub consume : Bytes → ℕ → Store → Result × Store
unfolding checked Dict.lookup Dict.delete
consume token now s = (checked now (Dict.lookup token s), Dict.delete token s)
