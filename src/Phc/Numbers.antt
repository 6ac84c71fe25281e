-- ===== src/Phc/Numbers.antt =====
-- A number that `%d` prints is the number that `%d` scans.
use go_cmms.Base.{
  ℕ, zero, suc, ◌+◌, ◌-◌, ◌*◌, ◌/◌, ◌%◌, ◌^◌, ◌<◌, ◌≡◌, refl, true, false, some, [], ◌∷◌, ◌++◌, ltb,
  arith, ◌∙◌, Bool-cases, inl, inr,
}
use go_cmms.Base.Int.{pos}
use go_cmms.Text.{Text}
use go_cmms.Phc.{digits, print_d}
use go_cmms.Phc.Scan.{scan_d, scan_signed, scan_number, scan_digits, skip_space, is_digit}

next_digit : (n : ℕ) (out : Text) → scan_digits (n / 10) ((b'0' + n % 10) ∷ out) ≡ scan_digits n out
unfolding scan_digits
next_digit n out = rw (digit n, value n) refl
  where
    digit : (n : ℕ) → is_digit (b'0' + n % 10) ≡ true
    digit n = ground arith

    value : (n : ℕ) → n / 10 * 10 + (b'0' + n % 10 - b'0') ≡ n
    value n = omega arith

scan_digits-digits :
    (fuel n : ℕ) (out : Text)
    → n < 10 ^ suc fuel
    → scan_digits 0 (digits (suc fuel) n out) ≡ scan_digits n out
unfolding digits scan_digits
scan_digits-digits zero n out h = ground arith
scan_digits-digits (suc fuel) n out h = elim (Bool-cases (ltb n 10)) [
  | inl e ↦ ground arith
  | inr e ↦ rw e (
      scan_digits-digits fuel (n / 10) ((b'0' + n % 10) ∷ out) (omega (arith, h))
      ∙ next_digit n out)
]

-- The text starts with a digit.
abbrev Starts : Text → Type 0
Starts [] = ⊥
Starts (c ∷ s) = is_digit c ≡ true

digits-Starts-on :
    (fuel n d : ℕ) (out : Text) → is_digit d ≡ true → Starts (digits fuel n (d ∷ out))
unfolding digits
digits-Starts-on zero n d out h = h
digits-Starts-on (suc fuel) n d out h = elim (Bool-cases (ltb n 10)) [
  | inl e ↦ ground arith
  | inr e ↦ rw e (digits-Starts-on fuel (n / 10) (b'0' + n % 10) (d ∷ out) (ground arith))
]

digits-Starts : (fuel n : ℕ) (out : Text) → Starts (digits (suc fuel) n out)
unfolding digits
digits-Starts fuel n out = elim (Bool-cases (ltb n 10)) [
  | inl e ↦ ground arith
  | inr e ↦ rw e (digits-Starts-on fuel (n / 10) (b'0' + n % 10) out (ground arith))
]

scan_d-Starts : (s : Text) → Starts s → scan_d s ≡ scan_number false s
unfolding scan_d scan_signed skip_space
scan_d-Starts [] h = elim h [ ]
scan_d-Starts (c ∷ s) h = ground arith

scan_number-Starts :
    (s rest : Text) (n : ℕ)
    → Starts s
    → scan_digits 0 s ≡ (n, rest)
    → n < 2 ^ 63
    → scan_number false s ≡ some (pos n, rest)
unfolding scan_number
scan_number-Starts [] rest n h e b = elim h [ ]
scan_number-Starts (c ∷ s) rest n h e b = ground arith

digits-append :
    (fuel n : ℕ) (out rest : Text) → digits fuel n out ++ rest ≡ digits fuel n (out ++ rest)
unfolding digits
digits-append zero n out rest = refl
digits-append (suc fuel) n out rest = elim (Bool-cases (ltb n 10)) [
  | inl e ↦ rw e refl
  | inr e ↦ rw e (digits-append fuel (n / 10) ((b'0' + n % 10) ∷ out) rest)
]

-- The text does not go on with a digit.
abbrev pub Ends : Text → Type 0
Ends [] = Unit
Ends (c ∷ s) = is_digit c ≡ false

scan_digits-Ends : (n : ℕ) (s : Text) → Ends s → scan_digits n s ≡ (n, s)
unfolding scan_digits
scan_digits-Ends n [] h = refl
scan_digits-Ends n (c ∷ s) h = rw h refl

-- A number below 2⁶³ that is printed before a text that does not go on with a digit is scanned back,
-- and the text is left.
pub scan_d-print_d :
    (n : ℕ) (s : Text) → n < 2 ^ 63 → Ends s → scan_d (print_d n ++ s) ≡ some (pos n, s)
unfolding print_d
scan_d-print_d n s h e = rw (digits-append 20 n [] s) (
    scan_d-Starts (digits 20 n s) (digits-Starts 19 n s)
    ∙ scan_number-Starts (digits 20 n s) s n (digits-Starts 19 n s)
        (scan_digits-digits 19 n s (omega (arith, h)) ∙ scan_digits-Ends n s e) h)
