-- ===== src/Base/Octets.antt =====
-- A Go string is a sequence of bytes. Equality of strings, and membership in a slice of them.
use Prim.Native.Nat.{ℕ}
use Prim.Native.Char.{code}
use Prim.Native.String.{String}
use mathlib.Core.Path.{◌≡◌, refl}
use mathlib.Core.Logic.{◌↔◌, ◌⊎◌}
use mathlib.Core.Bool.{Bool, true, false, ◌&&◌, ◌||◌}
use mathlib.Core.List.{List, [], ◌∷◌}
use native.Mathlib.Omega.{arith}
use forge_proxy.Base.Tests.{◌==◌}

abbrev pub Bytes : Type 0
Bytes = List ℕ

-- The bytes of an ASCII literal.
abbrev pub codes : String → Bytes
codes String.[] = []
codes (String.◌∷◌ c s) = code c ∷ codes s

abbrev pub no_bytes : Bytes
no_bytes = []

-- `s == ""`
abbrev pub is_empty {ℓ} : {A : Type ℓ} → List A → Bool
is_empty [] = true
is_empty (x ∷ xs) = false

infix 50 ◌=ᵇ◌
unfoldable pub ◌=ᵇ◌ : Bytes → Bytes → Bool
[] =ᵇ [] = true
(x ∷ xs) =ᵇ (y ∷ ys) = (x == y) && (xs =ᵇ ys)
[] =ᵇ (y ∷ ys) = false
(x ∷ xs) =ᵇ [] = false

pub =ᵇ_iff : (a b : Bytes) → ((a =ᵇ b) ≡ true) ↔ (a ≡ b)
unfolding ◌=ᵇ◌
=ᵇ_iff [] [] = ground arith
=ᵇ_iff (x ∷ xs) (y ∷ ys) = ground (arith, =ᵇ_iff xs ys)
=ᵇ_iff [] (y ∷ ys) = ground arith
=ᵇ_iff (x ∷ xs) [] = ground arith

pub =ᵇ_refl : (a : Bytes) → (a =ᵇ a) ≡ true
=ᵇ_refl a = (=ᵇ_iff a a).1 refl

-- `slices.Contains`
unfoldable pub contains : List Bytes → Bytes → Bool
unfolding ◌=ᵇ◌
contains [] a = false
contains (x ∷ xs) a = (x =ᵇ a) || contains xs a

abbrev pub Holds : Bytes → List Bytes → Type 0
Holds a [] = ⊥
Holds a (x ∷ xs) = (x ≡ a) ⊎ Holds a xs

pub contains_iff : (xs : List Bytes) (a : Bytes) → (contains xs a ≡ true) ↔ Holds a xs
unfolding contains
contains_iff [] a = ground arith
contains_iff (x ∷ xs) a = ground (arith, =ᵇ_iff x a, contains_iff xs a)
