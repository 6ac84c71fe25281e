-- ===== src/Db/Like.antt =====
-- `ILIKE … ESCAPE '\'` of PostgreSQL, and the pattern that the search of
-- internal/db/gen/work_orders.sql.go builds from a term.
pub mod Laws
use go_cmms.Base.{ℕ, Bool, true, false, ◌&&◌, ◌||◌, List, [], ◌∷◌, ◌++◌, ◌==◌, if◌then◌else◌}
use go_cmms.Text.{Text, is_empty, to_lower}

-- A pattern: `_`, `%`, or a character for itself.
pub data Wild : Type 0 where
  one many : Wild
  lit : ℕ → Wild

abbrev pub wild : ℕ → Wild
wild c = if c == b'%' then many else if c == b'_' then one else lit c

-- The pattern of a text; the flag says that a backslash came before.
unfoldable pub parse_like : Bool → Text → List Wild
parse_like escaped [] = []
parse_like true (c ∷ p) = lit c ∷ parse_like false p
parse_like false (c ∷ p) =
    let next = parse_like true p in
    let rest = parse_like false p in if c == b'\\' then next else wild c ∷ rest

-- Does a test accept the text or one of its ends?
unfoldable pub any_suffix : (Text → Bool) → Text → Bool
any_suffix f [] = f []
any_suffix f (c ∷ s) = f (c ∷ s) || any_suffix f s

abbrev pub starts : (ℕ → Bool) → (Text → Bool) → Text → Bool
starts here rest [] = false
starts here rest (d ∷ s) = here d && rest s

unfoldable pub matches : List Wild → Text → Bool
matches [] s = is_empty s
matches (one ∷ p) s = starts (λ d. true) (matches p) s
matches (many ∷ p) s = any_suffix (matches p) s
matches (lit c ∷ p) s = starts (λ d. d == c) (matches p) s

-- `s ILIKE p ESCAPE '\'`
unfoldable pub ilike : Text → Text → Bool
ilike s p = matches (parse_like false (to_lower p)) (to_lower s)

-- `replace(s, c, '\' || c)` for one character.
abbrev pub escape_byte : ℕ → Text → Text
escape_byte c [] = []
escape_byte c (d ∷ s) = let rest = escape_byte c s in if d == c then b'\\' ∷ d ∷ rest else d ∷ rest

-- `replace(replace(replace(term, '\', '\\'), '%', '\%'), '_', '\_')`
unfoldable pub escape_like : Text → Text
escape_like term = escape_byte b'_' (escape_byte b'%' (escape_byte b'\\' term))

-- `'%' || … || '%'`
unfoldable pub search_pattern : Text → Text
search_pattern term = b'%' ∷ (escape_like term ++ (b'%' ∷ []))
