-- ===== src/Phc/Base64.antt =====
-- encoding/base64: `RawStdEncoding`, three bytes to four characters with no padding. Bytes are
-- numbers below 256.
use go_cmms.Base.{
  ℕ, ◌+◌, ◌-◌, ◌*◌, ◌/◌, ◌%◌, ◌&&◌, ◌||◌, not, Option, none, some, [], ◌∷◌, ltb, leb, ◌==◌,
  if◌then◌else◌,
}
use go_cmms.Base.Lists.{keep}
use go_cmms.Text.{Text}

-- The alphabet: A-Z, a-z, 0-9, '+', '/'.
unfoldable pub char_of : ℕ → ℕ
char_of n =
    if ltb n 26
    then b'A' + n
    else if ltb n 52
    then b'a' + (n - 26)
    else if ltb n 62
    then b'0' + (n - 52)
    else if n == 62
    then b'+'
    else b'/'

unfoldable pub value_of : ℕ → Option ℕ
value_of c =
    if leb b'A' c && leb c b'Z'
    then some (c - b'A')
    else if leb b'a' c && leb c b'z'
    then some (c - b'a' + 26)
    else if leb b'0' c && leb c b'9'
    then some (c - b'0' + 52)
    else if c == b'+'
    then some 62
    else if c == b'/'
    then some 63
    else none

-- `EncodeToString`
unfoldable pub encode : Text → Text
encode [] = []
encode (a ∷ []) = char_of (a / 4) ∷ char_of (a % 4 * 16) ∷ []
encode (a ∷ b ∷ []) = char_of (a / 4) ∷ char_of (a % 4 * 16 + b / 16) ∷ char_of (b % 16 * 4) ∷ []
encode (a ∷ b ∷ c ∷ s) =
    char_of (a / 4)
    ∷ char_of (a % 4 * 16 + b / 16)
    ∷ char_of (b % 16 * 4 + c / 64)
    ∷ char_of (c % 64)
    ∷ encode s

abbrev pub with_two : Option ℕ → Option ℕ → (ℕ → ℕ → Option Text) → Option Text
with_two none w k = none
with_two (some v) none k = none
with_two (some v) (some w) k = k v w

abbrev pub cons_three : ℕ → ℕ → ℕ → Option Text → Option Text
cons_three a b c none = none
cons_three a b c (some s) = some (a ∷ b ∷ c ∷ s)

-- The decoder without line breaks: a last group of one character is an error; the spare bits of a
-- last group are ignored.
unfoldable pub decode_groups : Text → Option Text
decode_groups [] = some []
decode_groups (a ∷ []) = none
decode_groups (a ∷ b ∷ []) =
    with_two (value_of a) (value_of b) (λ v w. some ((v * 4 + w / 16) ∷ []))
decode_groups (a ∷ b ∷ c ∷ []) = with_two (value_of a) (value_of b) (λ v w.
    with_two (value_of c) (some 0) (λ x y. some ((v * 4 + w / 16) ∷ (w % 16 * 16 + x / 4) ∷ [])))
decode_groups (a ∷ b ∷ c ∷ d ∷ s) =
    let rest = decode_groups s in
    with_two (value_of a) (value_of b) (λ v w.
      with_two (value_of c) (value_of d)
        (λ x y. cons_three (v * 4 + w / 16) (w % 16 * 16 + x / 4) (x % 4 * 64 + y) rest))

-- `DecodeString`, which skips CR and LF.
unfoldable pub decode : Text → Option Text
decode s = decode_groups (keep (λ c. not (c == 10 || c == 13)) s)
