-- ===== src/Slug.antt =====
-- `slugRE` and `isValidSlug` of internal/auth/local.go. The regular expression is built from the
-- combinators of a backtracking matcher: each takes what has to match after it.
pub mod Spec
use go_cmms.Base.{ℕ, zero, suc, ◌-◌, Bool, true, false, ◌&&◌, ◌||◌, [], ◌∷◌, leb, ◌==◌}
use go_cmms.Text.{Text}

abbrev pub Matcher : Type 0
Matcher = Text → Bool

-- A character class, then the rest.
unfoldable pub class : (ℕ → Bool) → Matcher → Matcher
class p k [] = false
class p k (c ∷ s) = p c && k s

-- `{lo,hi}` of a class, with hi = lo + more, then the rest.
unfoldable pub up_to : ℕ → (ℕ → Bool) → Matcher → Matcher
up_to zero p k s = k s
up_to (suc n) p k [] = k []
up_to (suc n) p k (c ∷ s) = let more = p c && up_to n p k s in k (c ∷ s) || more

-- `$`
unfoldable pub at_end : Matcher
at_end [] = true
at_end (c ∷ s) = false

-- `[a-z0-9]` and `[a-z0-9-]`
abbrev pub alnum : ℕ → Bool
alnum c = (leb b'a' c && leb c b'z') || (leb b'0' c && leb c b'9')

abbrev pub alnum_dash : ℕ → Bool
alnum_dash c = alnum c || c == b'-'

-- `^[a-z0-9](?:[a-z0-9-]{1,30}[a-z0-9])$`
unfoldable pub slug_re : Matcher
slug_re = class alnum (class alnum_dash (up_to 29 alnum_dash (class alnum at_end)))

unfoldable pub is_valid_slug : Text → Bool
is_valid_slug s = slug_re s
