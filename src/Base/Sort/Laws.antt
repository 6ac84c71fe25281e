-- ===== src/Base/Sort/Laws.antt =====
-- Sorting gives the same rows in order, for comparisons that are total and transitive; comparisons
-- by several keys are.
use Prim.Native.Nat.{compare}
use mathlib.Core.Path.{◌≡◌, refl}
use mathlib.Core.Bool.{true}
use mathlib.Core.Option.{Option, none, some}
use mathlib.Core.List.{List, [], ◌∷◌, Perm}
use mathlib.Core.List.Perm
use native.Mathlib.Omega.{arith}
use go_cmms.Base.Lists.{All}
use mathlib.Core.Logic.{inl, inr}
use go_cmms.Base.Tests.{Bool-cases}
use go_cmms.Base.Sort.{Comparison, flip, is_le, then_by, descending, nulls_last, on, place, sort_by}

-- A comparison that is total and transitive.
pub record IsOrder {ℓ} {A : Type ℓ} (c : Comparison A) : Type ℓ where
  pub total : (x y : A) → c y x ≡ flip (c x y)
  pub transitive : (x y z : A) → is_le (c x y) ≡ true → is_le (c y z) ≡ true → is_le (c x z) ≡ true

pub compare-IsOrder : IsOrder compare
compare-IsOrder = record { total = λ x y. ground arith; transitive = λ x y z p q. ground arith }

module _ {ℓ} {A : Type ℓ} where
  pub then_by-IsOrder : (c d : Comparison A) → IsOrder c → IsOrder d → IsOrder (then_by c d)
  then_by-IsOrder c d h k = record {
    total = λ x y. ground (arith, h.total x y, k.total x y);
    transitive = λ x y z p q. ground (
      arith,
      h.total x y,
      h.total y z,
      h.total x z,
      h.transitive x y z,
      h.transitive z x y,
      h.transitive y z x,
      k.transitive x y z,
    );
  }

  pub descending-IsOrder : (c : Comparison A) → IsOrder c → IsOrder (descending c)
  descending-IsOrder c h = record {
    total = λ x y. h.total y x;
    transitive = λ x y z p q. h.transitive z y x q p;
  }

  pub on-IsOrder {κ} : {B : Type κ} (f : B → A) (c : Comparison A) → IsOrder c → IsOrder (on f c)
  on-IsOrder f c h = record {
    total = λ x y. h.total (f x) (f y);
    transitive = λ x y z p q. h.transitive (f x) (f y) (f z) p q;
  }

  nulls_last-total :
      (c : Comparison A) → IsOrder c → (x y : Option A) → nulls_last c y x ≡ flip (nulls_last c x y)
  nulls_last-total c h none none = refl
  nulls_last-total c h none (some y) = refl
  nulls_last-total c h (some x) none = refl
  nulls_last-total c h (some x) (some y) = h.total x y

  nulls_last-transitive :
      (c : Comparison A)
      → IsOrder c
      → (x y z : Option A) → is_le (nulls_last c x y) ≡ true
      → is_le (nulls_last c y z) ≡ true
      → is_le (nulls_last c x z) ≡ true
  nulls_last-transitive c h none none none p q = refl
  nulls_last-transitive c h none none (some z) p q = q
  nulls_last-transitive c h none (some y) z p q = cc
  nulls_last-transitive c h (some x) y none p q = refl
  nulls_last-transitive c h (some x) none (some z) p q = cc
  nulls_last-transitive c h (some x) (some y) (some z) p q = h.transitive x y z p q

  pub nulls_last-IsOrder : (c : Comparison A) → IsOrder c → IsOrder (nulls_last c)
  nulls_last-IsOrder c h = record {
    total = nulls_last-total c h;
    transitive = nulls_last-transitive c h;
  }

  -- Every row is at most as great as all the later ones.
  abbrev pub IsSorted : Comparison A → List A → Type ℓ
  IsSorted c [] = Unit
  IsSorted c (x ∷ xs) = All (λ y. is_le (c x y) ≡ true) xs × IsSorted c xs

  place-Perm : (c : Comparison A) (x : A) (xs : List A) → Perm (place c x xs) (x ∷ xs)
  place-Perm c x [] = Perm.rfl
  place-Perm c x (y ∷ ys) = elim (Bool-cases (is_le (c x y))) [
    | inl e ↦ rw e Perm.rfl
    | inr e ↦ rw e (Perm.trans (Perm.cons y (place-Perm c x ys)) (Perm.swap x y ys))
  ]

  pub sort_by-Perm : (c : Comparison A) (xs : List A) → Perm (sort_by c xs) xs
  unfolding sort_by
  sort_by-Perm c [] = Perm.rfl
  sort_by-Perm c (x ∷ xs) =
      Perm.trans (place-Perm c x (sort_by c xs)) (Perm.cons x (sort_by-Perm c xs))

  All-le :
      (c : Comparison A) (x y : A) (zs : List A)
      → IsOrder c
      → is_le (c x y) ≡ true
      → All (λ z. is_le (c y z) ≡ true) zs
      → All (λ z. is_le (c x z) ≡ true) zs
  All-le c x y [] h p a = tt
  All-le c x y (z ∷ zs) h p (a, rest) = (h.transitive x y z p a, All-le c x y zs h p rest)

  All-place :
      (c : Comparison A) (w x : A) (xs : List A)
      → is_le (c w x) ≡ true
      → All (λ z. is_le (c w z) ≡ true) xs
      → All (λ z. is_le (c w z) ≡ true) (place c x xs)
  All-place c w x [] p a = (p, tt)
  All-place c w x (y ∷ ys) p (a, rest) = ground (arith, All-place c w x ys p rest)

  place-IsSorted :
      (c : Comparison A) (x : A) (xs : List A)
      → IsOrder c
      → IsSorted c xs
      → IsSorted c (place c x xs)
  place-IsSorted c x [] h s = (tt, tt)
  place-IsSorted c x (y ∷ ys) h (a, s) = elim (Bool-cases (is_le (c x y))) [
    | inl e ↦ rw e ((e, All-le c x y ys h e a), (a, s))
    | inr e ↦ rw e (All-place c y x ys (ground (arith, h.total x y)) a, place-IsSorted c x ys h s)
  ]

  pub sort_by-IsSorted : (c : Comparison A) (xs : List A) → IsOrder c → IsSorted c (sort_by c xs)
  unfolding sort_by
  sort_by-IsSorted c [] h = tt
  sort_by-IsSorted c (x ∷ xs) h = place-IsSorted c x (sort_by c xs) h (sort_by-IsSorted c xs h)

module _ {ℓ κ} {A : Type ℓ} (P : A → Type κ) where
  All-place_any : (c : Comparison A) (x : A) (xs : List A) → P x → All P xs → All P (place c x xs)
  All-place_any c x [] p a = (p, tt)
  All-place_any c x (y ∷ ys) p (a, rest) = ground (arith, All-place_any c x ys p rest)

  pub All-sort_by : (c : Comparison A) (xs : List A) → All P xs → All P (sort_by c xs)
  unfolding sort_by
  All-sort_by c [] a = tt
  All-sort_by c (x ∷ xs) (a, rest) = All-place_any c x (sort_by c xs) a (All-sort_by c xs rest)
