-- ===== src/Db/Like/Laws.antt =====
-- The escaped pattern of a search term matches the term literally.
use go_cmms.Base.{ℕ, ◌≡◌, refl, true, false, ◌||◌, List, [], ◌∷◌, ◌++◌, arith, ◌==◌, if◌then◌else◌}
use go_cmms.Text.{Text, lower_byte, to_lower, contains, has_prefix}
use go_cmms.Db.Like.{
  Wild, many, lit, parse_like, any_suffix, matches, ilike, escape_like, search_pattern,
}

-- What one character becomes.
abbrev escape_one : ℕ → Text → Text
escape_one c rest = if c == b'\\' || c == b'%' || c == b'_' then b'\\' ∷ c ∷ rest else c ∷ rest

escape_like-cons : (c : ℕ) (t : Text) → escape_like (c ∷ t) ≡ escape_one c (escape_like t)
unfolding escape_like
escape_like-cons c t = ground arith

-- The pattern of an escaped term: its characters for themselves, then `%`.
abbrev literally : Text → List Wild
literally [] = many ∷ []
literally (c ∷ t) = lit c ∷ literally t

parse_one :
    (c : ℕ) (rest : Text)
    → parse_like false (to_lower (escape_one c rest))
      ≡ lit (lower_byte c) ∷ parse_like false (to_lower rest)
unfolding parse_like to_lower lower_byte
parse_one c rest = ground arith

escape_one-append : (c : ℕ) (s t : Text) → escape_one c s ++ t ≡ escape_one c (s ++ t)
escape_one-append c s t = ground arith

parse_like-escape_like :
    (t : Text) → parse_like false (to_lower (escape_like t ++ (b'%' ∷ []))) ≡ literally (to_lower t)
unfolding to_lower lower_byte parse_like escape_like
parse_like-escape_like [] = refl
parse_like-escape_like (c ∷ t) =
    rw
      (
        escape_like-cons c t,
        escape_one-append c (escape_like t) (b'%' ∷ []),
        parse_one c (escape_like t ++ (b'%' ∷ [])),
        parse_like-escape_like t,
      )
      refl

parse_top :
    (p s : Text)
    → matches (parse_like false (to_lower (b'%' ∷ p))) s
      ≡ any_suffix (matches (parse_like false (to_lower p))) s
unfolding parse_like to_lower lower_byte matches
parse_top p s = refl

any_suffix_top : (s : Text) → any_suffix (matches []) s ≡ true
unfolding any_suffix matches
any_suffix_top [] = refl
any_suffix_top (c ∷ s) = ground (arith, any_suffix_top s)

matches-literally : (t s : Text) → matches (literally t) s ≡ has_prefix s t
unfolding matches has_prefix any_suffix
matches-literally [] s = any_suffix_top s
matches-literally (c ∷ t) [] = refl
matches-literally (c ∷ t) (d ∷ s) = ground (arith, matches-literally t s)

any_suffix-literally : (t s : Text) → any_suffix (matches (literally t)) s ≡ contains s t
unfolding any_suffix contains
any_suffix-literally t [] = matches-literally t []
any_suffix-literally t (c ∷ s) = rw (matches-literally t (c ∷ s), any_suffix-literally t s) refl

-- A search term matches a column exactly when the column contains it, case aside, whatever
-- wildcards or backslashes the term has.
pub ilike-search_pattern :
    (s term : Text) → ilike s (search_pattern term) ≡ contains (to_lower s) (to_lower term)
unfolding ilike search_pattern
ilike-search_pattern s term =
    rw (parse_top (escape_like term ++ (b'%' ∷ [])) (to_lower s), parse_like-escape_like term)
      (any_suffix-literally (to_lower term) (to_lower s))
