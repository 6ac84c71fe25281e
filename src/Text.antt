-- ===== src/Text.antt =====
-- Go strings as lists of bytes, with the parts of package strings that the program uses.
-- `ToLower` and `TrimSpace` are modelled on ASCII: bytes from 128 up are left as they are.
use Prim.Native.Char.{code}
use Prim.Native.String.{String}
use mathlib.Core.List.{reverse}
use go_cmms.Base.{
  ℕ, ◌+◌, ◌-◌, ◌/◌, ◌%◌, ltb, ◌≡◌, ◌↔◌, ==_iff, Bool, true, false, ◌&&◌, ◌||◌, List, [], ◌∷◌, map,
  arith, leb, ◌==◌, if◌then◌else◌,
}
use go_cmms.Base.Maps.{Eq}

abbrev pub Text : Type 0
Text = List ℕ

-- A literal: the code points of a text, which are its bytes if it is ASCII.
abbrev pub codes : String → Text
codes String.[] = []
codes (String.◌∷◌ c s) = code c ∷ codes s

-- `a == b` on strings.
unfoldable pub text_eq : Text → Text → Bool
text_eq [] [] = true
text_eq (a ∷ s) (b ∷ t) = a == b && text_eq s t
text_eq _ _ = false

pub text_eq_iff : (s t : Text) → (text_eq s t ≡ true) ↔ (s ≡ t)
unfolding text_eq
text_eq_iff [] [] = ground arith
text_eq_iff [] (b ∷ t) = ground arith
text_eq_iff (a ∷ s) [] = ground arith
text_eq_iff (a ∷ s) (b ∷ t) = ground (arith, text_eq_iff s t)

instance abbrev pub text_key : Eq Text
text_key = record { beq = text_eq; beq_iff = text_eq_iff }

-- `s == ""`
abbrev pub is_empty : Text → Bool
is_empty [] = true
is_empty (c ∷ s) = false

unfoldable pub lower_byte : ℕ → ℕ
lower_byte c = if leb b'A' c && leb c b'Z' then c + 32 else c

-- `strings.ToLower`
unfoldable pub to_lower : Text → Text
unfolding lower_byte
to_lower s = map lower_byte s

upper_byte : ℕ → ℕ
upper_byte c = if leb b'a' c && leb c b'z' then c - 32 else c

-- `upper` of PostgreSQL.
unfoldable pub to_upper : Text → Text
unfolding upper_byte
to_upper s = map upper_byte s

is_space : ℕ → Bool
is_space c = c == 32 || (leb 9 c && leb c 13)

trim_front : (ℕ → Bool) → Text → Text
trim_front p [] = []
trim_front p (c ∷ s) = let rest = trim_front p s in if p c then rest else c ∷ s

trim_back : (ℕ → Bool) → Text → Text
unfolding trim_front
trim_back p s = reverse (trim_front p (reverse s))

-- `strings.TrimSpace`
unfoldable pub trim_space : Text → Text
unfolding is_space trim_front trim_back
trim_space s = trim_back is_space (trim_front is_space s)

-- `strings.TrimLeft`, `strings.TrimRight` and `strings.Trim` with the cutset of one byte.
unfoldable pub trim_left : ℕ → Text → Text
unfolding trim_front
trim_left c = trim_front (λ d. d == c)

unfoldable pub trim_right : ℕ → Text → Text
unfolding trim_back
trim_right c = trim_back (λ d. d == c)

unfoldable pub trim : ℕ → Text → Text
unfolding trim_left trim_right
trim c s = trim_right c (trim_left c s)

-- `strings.HasPrefix`
unfoldable pub has_prefix : Text → Text → Bool
has_prefix s [] = true
has_prefix [] (c ∷ p) = false
has_prefix (d ∷ s) (c ∷ p) = d == c && has_prefix s p

-- `strings.Contains`
unfoldable pub contains : Text → Text → Bool
unfolding has_prefix
contains [] p = has_prefix [] p
contains (c ∷ s) p = has_prefix (c ∷ s) p || contains s p

-- `==` on UUIDs.
instance abbrev pub uuid_key : Eq ℕ
uuid_key = record { beq = ◌==◌; beq_iff = ==_iff }

abbrev pub hex_digit : ℕ → ℕ
hex_digit n = if ltb n 10 then b'0' + n else b'a' + (n - 10)

-- `hex.EncodeToString`
unfoldable pub hex : Text → Text
hex [] = []
hex (b ∷ s) = hex_digit (b / 16) ∷ hex_digit (b % 16) ∷ hex s
