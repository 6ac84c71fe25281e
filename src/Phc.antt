-- ===== src/Phc.antt =====
-- The PHC strings of internal/auth/local.go: `phcEncode` and `phcParse`, with the parts of
-- strconv, fmt and encoding/base64 that they use.
pub mod Base64
pub mod Scan
pub mod RoundTrip
pub mod Encoding
pub mod Numbers
use go_cmms.Base.{
  ℕ, zero, suc, ◌*◌, ◌^◌, ◌%◌, ◌+◌, ◌-◌, ◌/◌, Bool, true, ◌&&◌, ◌||◌, not, Option, none, some, List,
  [], ◌∷◌, ◌++◌, ltb, ◌==◌, if◌then◌else◌,
}
use go_cmms.Base.Int.{ℤ, pos, negsuc}
use go_cmms.Text.{Text, codes, text_eq, has_prefix}
use Base64.{encode, decode}
use Scan.{scan_literal, scan_d}

pub record ArgonParams : Type 0 where
  pub memory : ℕ
  pub time : ℕ
  pub threads : ℕ
  pub salt_len : ℕ
  pub key_len : ℕ

unfoldable pub default_argon_params : ArgonParams
default_argon_params = record {
  memory = 64 * 1024;
  time = 1;
  threads = 4;
  salt_len = 16;
  key_len = 32;
}

-- `%d` of a number below 10²⁰, digit by digit from the right.
unfoldable pub digits : ℕ → ℕ → Text → Text
digits zero n out = out
digits (suc fuel) n out =
    let more = digits fuel (n / 10) ((b'0' + n % 10) ∷ out) in
    if ltb n 10 then (b'0' + n) ∷ out else more

unfoldable pub print_d : ℕ → Text
print_d n = digits 20 n []

-- `phcEncode`
unfoldable pub phc_encode : ArgonParams → Text → Text → Text
phc_encode p salt key =
    codes "$argon2id$v=19$m="
    ++ (print_d p.memory
        ++ (codes ",t="
            ++ (print_d p.time
                ++ (codes ",p="
                    ++ (print_d p.threads ++ (b'$' ∷ (encode salt ++ (b'$' ∷ encode key))))))))

-- `strings.Split(s, "$")`: the part before the first separator, and the others.
unfoldable pub split_at : ℕ → Text → Text × List Text
split_at sep [] = ([], [])
split_at sep (c ∷ s) =
    let (part, parts) = split_at sep s in if c == sep then ([], part ∷ parts) else (c ∷ part, parts)

-- `uint32(m)` of an int: its value modulo 2ʷ.
abbrev pub wrap : ℕ → ℤ → ℕ
wrap w (pos n) = n % 2 ^ w
wrap w (negsuc n) = (2 ^ w - 1) - n % 2 ^ w

pub record PhcParts : Type 0 where
  pub memory : ℕ
  pub time : ℕ
  pub threads : ℕ
  pub salt : Text
  pub key : Text

infixl 5 ◌>>=◌
abbrev pub ◌>>=◌ {ℓ κ} : {A : Type ℓ} {B : Type κ} → Option A → (A → Option B) → Option B
none >>= k = none
some a >>= k = k a

-- `fmt.Sscanf(parts[3], "m=%d,t=%d,p=%d", &m, &t, &p)`, which ignores what follows.
unfoldable pub scan_params : Text → Option (ℤ × ℤ × ℤ)
scan_params s = do
  s1 ← scan_literal (codes "m=") s
  (m, s2) ← scan_d s1
  s3 ← scan_literal (codes ",t=") s2
  (t, s4) ← scan_d s3
  s5 ← scan_literal (codes ",p=") s4
  (p, s6) ← scan_d s5
  some (m, t, p)

-- The parts of a PHC string between its separators.
unfoldable pub phc_parts : Text × List Text → Option PhcParts
phc_parts (p0, p1 ∷ p2 ∷ p3 ∷ p4 ∷ p5 ∷ []) =
    if text_eq p1 (codes "argon2id") && has_prefix p2 (codes "v=")
    then (do
      (m, t, p) ← scan_params p3
      salt ← decode p4
      key ← decode p5
      some (record {
        memory = wrap 32 m;
        time = wrap 32 t;
        threads = wrap 8 p;
        salt = salt;
        key = key;
      }))
    else none
phc_parts _ = none

-- `phcParse`; `none` is `ok == false`.
unfoldable pub phc_parse : Text → Option PhcParts
phc_parse phc = phc_parts (split_at b'$' phc)
