-- ===== src/Slug/Spec.antt =====
-- The slugs that the regular expression accepts.
use go_cmms.Base.{ℕ, zero, suc, ◌+◌, ◌≤◌, ◌≡◌, ◌↔◌, Bool, true, false, [], ◌∷◌, arith}
use go_cmms.Base.Lists.{length, all}
use go_cmms.Text.{Text}
use go_cmms.Slug.{alnum, alnum_dash, class, up_to, at_end, slug_re, is_valid_slug}

-- The last byte passes a test.
abbrev pub ends : (ℕ → Bool) → Text → Bool
ends p [] = false
ends p (c ∷ []) = p c
ends p (c ∷ d ∷ s) = ends p (d ∷ s)

-- The text is as the comment above `slugRE` says: 3 to 32 bytes, each a lower-case letter, a digit
-- or a hyphen, neither the first nor the last a hyphen.
pub record IsSlug (s : Text) : Type 0 where
  pub at_least : 3 ≤ length s
  pub at_most : length s ≤ 32
  pub allowed : all alnum_dash s ≡ true
  pub first : class alnum (λ r. true) s ≡ true
  pub last : ends alnum s ≡ true

up_to_iff :
    (n : ℕ) (s : Text)
    → (up_to n alnum_dash (class alnum at_end) s ≡ true)
      ↔ ((1 ≤ length s) × (length s ≤ n + 1) × (all alnum_dash s ≡ true) × (ends alnum s ≡ true))
unfolding up_to class at_end
up_to_iff zero [] = ground arith
up_to_iff zero (c ∷ []) = ground arith
up_to_iff zero (c ∷ d ∷ s) = ground arith
up_to_iff (suc n) [] = ground arith
up_to_iff (suc n) (c ∷ []) = ground (arith, up_to_iff n [])
up_to_iff (suc n) (c ∷ d ∷ s) = ground (arith, up_to_iff n (d ∷ s))

-- `isValidSlug` accepts exactly the texts of 3 to 32 lower-case letters, digits and hyphens that
-- neither start nor end with a hyphen.
pub is_valid_slug_iff : (s : Text) → (is_valid_slug s ≡ true) ↔ IsSlug s
unfolding is_valid_slug slug_re class
is_valid_slug_iff [] = ground arith
is_valid_slug_iff (c ∷ []) = ground arith
is_valid_slug_iff (c ∷ d ∷ []) = ground (arith, up_to_iff 29 [])
is_valid_slug_iff (c ∷ d ∷ e ∷ s) = ground (arith, up_to_iff 29 (e ∷ s))
