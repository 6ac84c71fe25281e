-- ===== src/Base/Maps.antt =====
-- Go maps as association lists: lookup, assignment and `delete`, over any key with a Boolean test
-- that decides equality.
use mathlib.Core.Path.{◌≡◌, refl}
use mathlib.Core.Logic.{◌↔◌}
use mathlib.Core.Bool.{Bool, true}
use mathlib.Core.List.{List, [], ◌∷◌}
use mathlib.Core.Option.{Option, none, some}
use native.Mathlib.Omega.{arith}
use go_cmms.Base.Tests.{if◌then◌else◌}

-- An equality test on keys.
pub record Eq {ℓ} (K : Type ℓ) : Type ℓ where
  pub beq : K → K → Bool
  pub beq_iff : (a b : K) → (beq a b ≡ true) ↔ (a ≡ b)

abbrev pub Map {ℓ κ} : Type ℓ → Type κ → Type (ℓ ⊔ κ)
Map K V = List (K × V)

module _ {ℓ κ} {K : Type ℓ} {V : Type κ} ⦃e : Eq K⦄ where
  -- `m[k]`, with `none` for a missing key.
  unfoldable pub lookup : K → Map K V → Option V
  lookup k [] = none
  lookup k ((j, v) ∷ m) = if e.beq j k then some v else lookup k m

  -- `m[k] = v`
  unfoldable pub insert : K → V → Map K V → Map K V
  insert k v [] = (k, v) ∷ []
  insert k v ((j, w) ∷ m) = if e.beq j k then (k, v) ∷ m else (j, w) ∷ insert k v m

  -- `delete(m, k)`
  unfoldable pub erase : K → Map K V → Map K V
  erase k [] = []
  erase k ((j, w) ∷ m) = let rest = erase k m in if e.beq j k then rest else (j, w) ∷ rest

module _ {ℓ κ} {K : Type ℓ} {V : Type κ} where
  -- `for k, v := range m { if drop(v) { delete(m, k) } }`
  unfoldable pub sweep : (V → Bool) → Map K V → Map K V
  sweep drop [] = []
  sweep drop ((j, w) ∷ m) = let rest = sweep drop m in if drop w then rest else (j, w) ∷ rest

module _ {κ} {V : Type κ} where
  -- A value that survives a removal by its test.
  abbrev pub unless : (V → Bool) → Option V → Option V
  unless drop none = none
  unless drop (some v) = if drop v then none else some v

module _ {ℓ κ} {K : Type ℓ} {V : Type κ} ⦃e : Eq K⦄ where
  pub lookup-insert :
      (k j : K) (v : V) (m : Map K V)
      → lookup j (insert k v m) ≡ (if e.beq k j then some v else lookup j m)
  unfolding lookup insert
  lookup-insert k j v [] = refl
  lookup-insert k j v ((i, w) ∷ m) =
      ground (arith, e.beq_iff k j, e.beq_iff i k, e.beq_iff i j, lookup-insert k j v m)

  pub lookup-erase :
      (k j : K) (m : Map K V) → lookup j (erase k m) ≡ (if e.beq k j then none else lookup j m)
  unfolding lookup erase
  lookup-erase k j [] = ground arith
  lookup-erase k j ((i, w) ∷ m) =
      ground (arith, e.beq_iff k j, e.beq_iff i k, e.beq_iff i j, lookup-erase k j m)

  -- No key is listed twice.
  abbrev pub IsUnique : Map K V → Type κ
  IsUnique [] = Unit
  IsUnique ((j, w) ∷ m) = (lookup j m ≡ none) × IsUnique m

  pub insert-IsUnique : (k : K) (v : V) (m : Map K V) → IsUnique m → IsUnique (insert k v m)
  unfolding insert lookup
  insert-IsUnique k v [] u = (refl, tt)
  insert-IsUnique k v ((i, w) ∷ m) u =
      ground (arith, e.beq_iff i k, insert-IsUnique k v m u.1, lookup-insert k i v m, e.beq_iff k i)

  pub erase-IsUnique : (k : K) (m : Map K V) → IsUnique m → IsUnique (erase k m)
  unfolding erase
  erase-IsUnique k [] u = tt
  erase-IsUnique k ((i, w) ∷ m) u = ground (arith, erase-IsUnique k m u.1, lookup-erase k i m)

  pub lookup-sweep :
      (drop : V → Bool) (k : K) (m : Map K V)
      → IsUnique m
      → lookup k (sweep drop m) ≡ unless drop (lookup k m)
  unfolding lookup sweep
  lookup-sweep drop k [] u = refl
  lookup-sweep drop k ((i, w) ∷ m) u = ground (arith, lookup-sweep drop k m u.1, e.beq_iff i k)

  pub sweep-IsUnique : (drop : V → Bool) (m : Map K V) → IsUnique m → IsUnique (sweep drop m)
  unfolding sweep
  sweep-IsUnique drop [] u = tt
  sweep-IsUnique drop ((i, w) ∷ m) u =
      ground (arith, sweep-IsUnique drop m u.1, lookup-sweep drop i m u.1)
