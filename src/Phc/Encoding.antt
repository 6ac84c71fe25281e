-- ===== src/Phc/Encoding.antt =====
-- What base64 encodes, it decodes.
use go_cmms.Base.{
  ℕ, ◌+◌, ◌*◌, ◌/◌, ◌%◌, ◌<◌, ◌≡◌, refl, Bool, true, ◌||◌, not, Option, some, [], ◌∷◌, ◌==◌, arith,
  ap,
}
use go_cmms.Base.Lists.{keep, All}
use go_cmms.Text.{Text}
use go_cmms.Phc.Base64.{char_of, value_of, encode, decode, decode_groups}

value-char : (n : ℕ) → n < 64 → value_of (char_of n) ≡ some n
unfolding value_of char_of
value-char n h = ground arith

abbrev is_kept : ℕ → Bool
is_kept c = not (c == 10 || c == 13)

char-kept : (n : ℕ) → is_kept (char_of n) ≡ true
unfolding char_of
char-kept n = ground arith

-- Every character is a byte.
abbrev pub Bytes : Text → Type 0
Bytes s = All (λ c. c < 256) s

keep-encode : (s : Text) → keep is_kept (encode s) ≡ encode s
unfolding encode
keep-encode [] = refl
keep-encode (a ∷ []) = rw (char-kept (a / 4), char-kept (a % 4 * 16)) refl
keep-encode (a ∷ b ∷ []) =
    rw (char-kept (a / 4), char-kept (a % 4 * 16 + b / 16), char-kept (b % 16 * 4)) refl
keep-encode (a ∷ b ∷ c ∷ s) =
    rw
      (
        char-kept (a / 4),
        char-kept (a % 4 * 16 + b / 16),
        char-kept (b % 16 * 4 + c / 64),
        char-kept (c % 64),
        keep-encode s,
      )
      refl

one : {a b : ℕ} → a ≡ b → ◌≡◌ {A = Option Text} (some (a ∷ [])) (some (b ∷ []))
one e = ap (λ n. some (n ∷ [])) e

two : {a b c d : ℕ} → a ≡ b → c ≡ d → ◌≡◌ {A = Option Text} (some (a ∷ c ∷ [])) (some (b ∷ d ∷ []))
two e f = cc

three :
    {a b c d e f : ℕ} (s : Text)
    → a ≡ b
    → c ≡ d
    → e ≡ f
    → ◌≡◌ {A = Option Text} (some (a ∷ c ∷ e ∷ s)) (some (b ∷ d ∷ f ∷ s))
three s g h k = cc

decode_groups-encode : (s : Text) → Bytes s → decode_groups (encode s) ≡ some s
unfolding encode decode_groups
decode_groups-encode [] h = refl
decode_groups-encode (a ∷ []) h =
    rw (value-char (a / 4) (omega arith), value-char (a % 4 * 16) (omega arith)) (one (omega arith))
decode_groups-encode (a ∷ b ∷ []) h =
    rw
      (
        value-char (a / 4) (omega arith),
        value-char (a % 4 * 16 + b / 16) (omega arith),
        value-char (b % 16 * 4) (omega arith),
      )
      (two (omega arith) (omega arith))
decode_groups-encode (a ∷ b ∷ c ∷ s) h =
    rw
      (
        value-char (a / 4) (omega arith),
        value-char (a % 4 * 16 + b / 16) (omega arith),
        value-char (b % 16 * 4 + c / 64) (omega arith),
        value-char (c % 64) (omega arith),
        decode_groups-encode s h.1.1.1,
      )
      (three s (omega arith) (omega arith) (omega arith))

-- Bytes that are encoded by `RawStdEncoding` are what its decoder returns.
pub decode-encode : (s : Text) → Bytes s → decode (encode s) ≡ some s
unfolding decode
decode-encode s h = rw (keep-encode s) (decode_groups-encode s h)
