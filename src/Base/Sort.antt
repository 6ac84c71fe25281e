-- ===== src/Base/Sort.antt =====
-- `ORDER BY`: comparisons by several keys, and sorting by a comparison.
pub mod Laws
use Prim.Native.Nat.{Ordering, lt, eq, gt}
use mathlib.Core.Bool.{Bool, true, false}
use mathlib.Core.Option.{Option, none, some}
use mathlib.Core.List.{List, [], ◌∷◌}
use go_cmms.Base.Tests.{if◌then◌else◌}

abbrev pub Comparison {ℓ} : Type ℓ → Type ℓ
Comparison A = A → A → Ordering

abbrev pub flip : Ordering → Ordering
flip lt = gt
flip eq = eq
flip gt = lt

abbrev pub is_le : Ordering → Bool
is_le lt = true
is_le eq = true
is_le gt = false

abbrev pub or_next : Ordering → Ordering → Ordering
or_next lt o = lt
or_next eq o = o
or_next gt o = gt

module _ {ℓ} {A : Type ℓ} where
  -- `ORDER BY a, b`
  abbrev pub then_by : Comparison A → Comparison A → Comparison A
  then_by c d x y = or_next (c x y) (d x y)

  -- `DESC`
  abbrev pub descending : Comparison A → Comparison A
  descending c x y = c y x

  -- `NULLS LAST`
  abbrev pub nulls_last : Comparison A → Comparison (Option A)
  nulls_last c none none = eq
  nulls_last c none (some y) = gt
  nulls_last c (some x) none = lt
  nulls_last c (some x) (some y) = c x y

  abbrev pub on {κ} : {B : Type κ} → (B → A) → Comparison A → Comparison B
  on f c x y = c (f x) (f y)

  abbrev pub place : Comparison A → A → List A → List A
  place c x [] = x ∷ []
  place c x (y ∷ ys) = let rest = place c x ys in if is_le (c x y) then x ∷ y ∷ ys else y ∷ rest

  unfoldable pub sort_by : Comparison A → List A → List A
  sort_by c [] = []
  sort_by c (x ∷ xs) = place c x (sort_by c xs)
