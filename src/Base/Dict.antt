-- ===== src/Base/Dict.antt =====
-- A Go map keyed by strings: an association list, whose laws speak of `lookup` alone.
use mathlib.Core.Path.{◌≡◌, refl}
use mathlib.Core.Option.{Option, none, some}
use mathlib.Core.List.{List, [], ◌∷◌, map}
use native.Mathlib.Omega.{arith}
use forge_proxy.Base.Tests.{if◌then◌else◌}
use forge_proxy.Base.Octets.{Bytes, ◌=ᵇ◌, =ᵇ_iff}

abbrev pub Dict {ℓ} : Type ℓ → Type ℓ
Dict V = List (Bytes × V)

module _ {ℓ} {V : Type ℓ} where
  unfoldable pub lookup : Bytes → Dict V → Option V
  unfolding ◌=ᵇ◌
  lookup k [] = none
  lookup k ((j, v) ∷ m) = if j =ᵇ k then some v else lookup k m

  -- `m[k] = v`
  unfoldable pub insert : Bytes → V → Dict V → Dict V
  unfolding ◌=ᵇ◌
  insert k v [] = (k, v) ∷ []
  insert k v ((j, w) ∷ m) = let rest = insert k v m in if j =ᵇ k then (k, v) ∷ m else (j, w) ∷ rest

  -- `delete(m, k)`
  unfoldable pub delete : Bytes → Dict V → Dict V
  unfolding ◌=ᵇ◌
  delete k [] = []
  delete k ((j, w) ∷ m) = let rest = delete k m in if j =ᵇ k then rest else (j, w) ∷ rest

  abbrev pub keys : Dict V → List Bytes
  keys = map (λ e. e.0)

  pub lookup-insert :
      (k j : Bytes) (v : V) (m : Dict V)
      → lookup j (insert k v m) ≡ (if k =ᵇ j then some v else lookup j m)
  unfolding lookup insert
  lookup-insert k j v [] = refl
  lookup-insert k j v ((i, w) ∷ m) =
      ground (arith, =ᵇ_iff k j, =ᵇ_iff i k, =ᵇ_iff i j, lookup-insert k j v m)

  pub lookup-delete :
      (k j : Bytes) (m : Dict V) → lookup j (delete k m) ≡ (if k =ᵇ j then none else lookup j m)
  unfolding lookup delete
  lookup-delete k j [] = ground arith
  lookup-delete k j ((i, w) ∷ m) =
      ground (arith, =ᵇ_iff k j, =ᵇ_iff i k, =ᵇ_iff i j, lookup-delete k j m)
