-- ===== src/Phc/RoundTrip.antt =====
-- What is printed into a PHC string is read back from it.
use go_cmms.Base.{
  ℕ, zero, suc, ◌+◌, ◌*◌, ◌/◌, ◌%◌, ◌^◌, ◌<◌, ◌≡◌, refl, false, some, List, [], ◌∷◌, ◌++◌, ltb,
  ◌==◌, arith, ap,
}
use go_cmms.Base.Lists.{All}
use go_cmms.Text.{Text, codes}
use go_cmms.Base.{Bool-cases, inl, inr}
use go_cmms.Base.Int.{pos}
use go_cmms.Phc.{
  digits, print_d, split_at, ArgonParams, phc_encode, phc_parse, phc_parts, scan_params,
}
use go_cmms.Phc.Scan.{scan_literal}
use go_cmms.Phc.Numbers.{scan_d-print_d}
use go_cmms.Phc.Base64.{char_of, encode}
use go_cmms.Phc.Encoding.{Bytes, decode-encode}

-- No character is the separator.
abbrev Plain : Text → Type 0
Plain s = All (λ c. (c == b'$') ≡ false) s

append-nil : (s : Text) → s ++ [] ≡ s
append-nil [] = refl
append-nil (c ∷ s) = ap (λ t. c ∷ t) (append-nil s)

append-Plain : (s t : Text) → Plain s → Plain t → Plain (s ++ t)
append-Plain [] t h k = k
append-Plain (c ∷ s) t h k = (h.0, append-Plain s t h.1 k)

digits-Plain : (fuel n : ℕ) (out : Text) → Plain out → Plain (digits fuel n out)
unfolding digits
digits-Plain zero n out h = h
digits-Plain (suc fuel) n out h = elim (Bool-cases (ltb n 10)) [
  | inl e ↦ rw e (ground arith, h)
  | inr e ↦ rw e (digits-Plain fuel (n / 10) ((b'0' + n % 10) ∷ out) (ground arith, h))
]

char-plain : (n : ℕ) → (char_of n == b'$') ≡ false
unfolding char_of
char-plain n = ground arith

encode-Plain : (s : Text) → Plain (encode s)
unfolding encode
encode-Plain [] = tt
encode-Plain (a ∷ []) = (char-plain (a / 4), (char-plain (a % 4 * 16), tt))
encode-Plain (a ∷ b ∷ []) =
    (char-plain (a / 4), (char-plain (a % 4 * 16 + b / 16), (char-plain (b % 16 * 4), tt)))
encode-Plain (a ∷ b ∷ c ∷ s) = (
  char-plain (a / 4),
  (
    char-plain (a % 4 * 16 + b / 16),
    (char-plain (b % 16 * 4 + c / 64), (char-plain (c % 64), encode-Plain s)),
  ),
)

split_at-last : (s : Text) → Plain s → split_at b'$' s ≡ (s, [])
unfolding split_at
split_at-last [] h = refl
split_at-last (c ∷ s) h = rw (h.0, split_at-last s h.1) refl

split_at-append :
    (s t part : Text) (parts : List Text)
    → Plain s
    → split_at b'$' t ≡ (part, parts)
    → split_at b'$' (s ++ t) ≡ (s ++ part, parts)
unfolding split_at
split_at-append [] t part parts h e = e
split_at-append (c ∷ s) t part parts h e = rw (h.0, split_at-append s t part parts h.1 e) refl

split_at-sep :
    (t part : Text) (parts : List Text)
    → split_at b'$' t ≡ (part, parts)
    → split_at b'$' (b'$' ∷ t) ≡ ([], part ∷ parts)
unfolding split_at
split_at-sep t part parts e = rw e refl

-- The part of the parameters.
abbrev params_part : ArgonParams → Text
params_part p =
    codes "m="
    ++ (print_d p.memory
        ++ (codes ",t=" ++ (print_d p.time ++ (codes ",p=" ++ (print_d p.threads ++ [])))))

print_d-Plain : (n : ℕ) → Plain (print_d n)
unfolding print_d
print_d-Plain n = digits-Plain 20 n [] tt

split_at-phc_encode :
    (p : ArgonParams) (salt key : Text)
    → split_at b'$' (phc_encode p salt key) ≡ (
      [],
      codes "argon2id" ∷ codes "v=19" ∷ params_part p ∷ (encode salt ++ []) ∷ encode key ∷ [],
    )
unfolding phc_encode split_at
split_at-phc_encode p salt key = rw tail refl
  where
    ends :
        split_at b'$' (b'$' ∷ (encode salt ++ (b'$' ∷ encode key)))
        ≡ ([], (encode salt ++ []) ∷ encode key ∷ [])
    ends = split_at-sep (encode salt ++ (b'$' ∷ encode key)) (encode salt ++ []) (encode key ∷ []) (
        split_at-append (encode salt) (b'$' ∷ encode key) [] (encode key ∷ []) (encode-Plain salt) (
          split_at-sep (encode key) (encode key) []
            (split_at-last (encode key) (encode-Plain key))))

    rest : Text
    rest = b'$' ∷ (encode salt ++ (b'$' ∷ encode key))

    parts : List Text
    parts = (encode salt ++ []) ∷ encode key ∷ []

    after_time :
        split_at b'$' (codes ",p=" ++ (print_d p.threads ++ rest))
        ≡ (codes ",p=" ++ (print_d p.threads ++ []), parts)
    after_time =
        split_at-append (codes ",p=") (print_d p.threads ++ rest) (print_d p.threads ++ []) parts
          (refl, (refl, (refl, tt)))
          (split_at-append (print_d p.threads) rest [] parts (print_d-Plain p.threads) ends)

    after_memory :
        split_at b'$'
          (codes ",t=" ++ (print_d p.time ++ (codes ",p=" ++ (print_d p.threads ++ rest))))
        ≡ (codes ",t=" ++ (print_d p.time ++ (codes ",p=" ++ (print_d p.threads ++ []))), parts)
    after_memory =
        split_at-append (codes ",t=")
          (print_d p.time ++ (codes ",p=" ++ (print_d p.threads ++ rest)))
          (print_d p.time ++ (codes ",p=" ++ (print_d p.threads ++ []))) parts
          (refl, (refl, (refl, tt)))
          (split_at-append (print_d p.time) (codes ",p=" ++ (print_d p.threads ++ rest))
            (codes ",p=" ++ (print_d p.threads ++ [])) parts (print_d-Plain p.time) after_time)

    tail :
        split_at b'$' (
          print_d p.memory
          ++ (codes ",t=" ++ (print_d p.time ++ (codes ",p=" ++ (print_d p.threads ++ rest)))))
        ≡ (
          print_d p.memory
              ++ (codes ",t=" ++ (print_d p.time ++ (codes ",p=" ++ (print_d p.threads ++ [])))),
          parts,
        )
    tail =
        split_at-append (print_d p.memory)
          (codes ",t=" ++ (print_d p.time ++ (codes ",p=" ++ (print_d p.threads ++ rest))))
          (codes ",t=" ++ (print_d p.time ++ (codes ",p=" ++ (print_d p.threads ++ [])))) parts
          (print_d-Plain p.memory) after_memory

-- The parameters that are printed are scanned back.
scan_params-part :
    (p : ArgonParams)
    → p.memory < 2 ^ 32
    → p.time < 2 ^ 32
    → p.threads < 2 ^ 8
    → scan_params (params_part p) ≡ some (pos p.memory, pos p.time, pos p.threads)
unfolding scan_params scan_literal
scan_params-part p a b c =
    rw
      (
        scan_d-print_d p.memory
            (codes ",t=" ++ (print_d p.time ++ (codes ",p=" ++ (print_d p.threads ++ []))))
            (omega arith) refl,
        scan_d-print_d p.time (codes ",p=" ++ (print_d p.threads ++ [])) (omega arith) refl,
        scan_d-print_d p.threads [] (omega arith) tt,
      )
      refl

-- What `phcEncode` writes, `phcParse` reads: the parameters, if they fit their machine types, and the
-- bytes of the salt and the key.
pub phc_parse-encode :
    (p : ArgonParams) (salt key : Text)
    → p.memory < 2 ^ 32
    → p.time < 2 ^ 32
    → p.threads < 2 ^ 8
    → Bytes salt
    → Bytes key
    → phc_parse (phc_encode p salt key)
      ≡ some
          (record { memory = p.memory; time = p.time; threads = p.threads; salt = salt; key = key })
unfolding phc_parse phc_parts go_cmms.Text.text_eq go_cmms.Text.has_prefix
phc_parse-encode p salt key a b c h k =
    rw
      (
        split_at-phc_encode p salt key,
        append-nil (encode salt),
        scan_params-part p a b c,
        decode-encode salt h,
        decode-encode key k,
        fits32 p.memory a,
        fits32 p.time b,
        fits8 p.threads c,
      )
      refl
  where
    fits32 : (n : ℕ) → n < 2 ^ 32 → n % 2 ^ 32 ≡ n
    fits32 n h = omega arith

    fits8 : (n : ℕ) → n < 2 ^ 8 → n % 2 ^ 8 ≡ n
    fits8 n h = omega arith
