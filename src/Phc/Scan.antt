-- ===== src/Phc/Scan.antt =====
-- fmt.Sscanf: a literal of the format, and the verb `%d` into an int.
use go_cmms.Base.{
  ℕ, zero, suc, ◌+◌, ◌-◌, ◌*◌, ◌^◌, Bool, true, false, ◌&&◌, ◌||◌, Option, none, some, [], ◌∷◌, ltb,
  leb, ◌==◌, if◌then◌else◌,
}
use go_cmms.Base.Int.{ℤ, pos, negsuc}
use go_cmms.Text.{Text}

-- The literal has to stand there; what follows it is left.
unfoldable pub scan_literal : Text → Text → Option Text
scan_literal [] s = some s
scan_literal (c ∷ p) [] = none
scan_literal (c ∷ p) (d ∷ s) = if c == d then scan_literal p s else none

-- `SkipSpace`, for which a line break is an error.
unfoldable pub skip_space : Text → Option Text
skip_space [] = some []
skip_space (c ∷ s) =
    let rest = skip_space s in
    if c == 10 then none else if c == 32 || (leb 9 c && leb c 13) then rest else some (c ∷ s)

abbrev pub is_digit : ℕ → Bool
is_digit c = leb b'0' c && leb c b'9'

-- The digits at the front, as a number, and the rest.
unfoldable pub scan_digits : ℕ → Text → ℕ × Text
scan_digits n [] = (n, [])
scan_digits n (c ∷ s) =
    let rest = scan_digits (n * 10 + (c - b'0')) s in if is_digit c then rest else (n, c ∷ s)

abbrev pub negated : ℕ → ℤ
negated zero = pos 0
negated (suc m) = negsuc m

-- `strconv.ParseInt(tok, 10, 64)` of the sign and the digits.
abbrev pub in_range : Bool → ℕ → Option ℤ
in_range negative n =
    if negative
    then (if leb n (2 ^ 63) then some (negated n) else none)
    else if ltb n (2 ^ 63)
    then some (pos n)
    else none

abbrev pub with_rest : Option ℤ → Text → Option (ℤ × Text)
with_rest none s = none
with_rest (some v) s = some (v, s)

-- At least one digit.
unfoldable pub scan_number : Bool → Text → Option (ℤ × Text)
scan_number negative [] = none
scan_number negative (c ∷ s) =
    let (n, rest) = scan_digits 0 (c ∷ s) in
    if is_digit c then with_rest (in_range negative n) rest else none

unfoldable pub scan_signed : Text → Option (ℤ × Text)
scan_signed [] = none
scan_signed (c ∷ s) =
    if c == b'-'
    then scan_number true s
    else if c == b'+'
    then scan_number false s
    else scan_number false (c ∷ s)

-- The verb `%d`.
unfoldable pub scan_d : Text → Option (ℤ × Text)
scan_d s = elim (skip_space s) [ none ↦ none | some t ↦ scan_signed t ]
