-- ===== src/Transfer/Numerals.antt =====
-- Which arguments `isInteger` of ex5/srftp.cpp and ex5/clftp.cpp accepts, and what `atoi` makes of
-- them.
use os_huji.Prelude.{
  ℕ, ◌+◌, ◌-◌, ◌*◌, ◌^◌, ◌<◌, ◌≡◌, ◌≢◌, refl, ◌↔◌, ◌⊎◌, inl, inr, true, [], ◌∷◌, All, ◌==◌,
  if◌then◌else◌, Bool-cases, pos, arith,
}
use os_huji.Prelude.Numbers.{
  Text, is_digit, is_sign, starts_with_digit, skip_spaces, scan, strtol, atoi, clamp,
}
use os_huji.Transfer.Numbers.{is_integer}
use os_huji.Transfer.Decimal.{strtol-digit}

-- One digit or more, and nothing else.
abbrev pub IsDigits : Text → Type 0
IsDigits s = (s ≢ []) × All (λ c. is_digit c ≡ true) s

-- Digits, with or without a sign.
abbrev pub IsNumeral : Text → Type 0
IsNumeral [] = ⊥
IsNumeral (c ∷ s) = IsDigits (c ∷ s) ⊎ ((is_sign c ≡ true) × IsDigits s)

-- The number that digits spell behind `n`, with no bound.
abbrev pub value : ℕ → Text → ℕ
value n [] = n
value n (c ∷ s) = value (n * 10 + (c - b'0')) s

pub scan-value : (n : ℕ) (s : Text) → All (λ c. is_digit c ≡ true) s → scan n s ≡ (value n s, [])
unfolding scan
scan-value n [] h = refl
scan-value n (c ∷ s) h = ground (arith, scan-value (n * 10 + (c - b'0')) s h.1)

scan_all : (n : ℕ) (s : Text) → (scan n s).1 ≡ [] → All (λ c. is_digit c ≡ true) s
unfolding scan
scan_all n [] h = tt
scan_all n (c ∷ s) h = ground (arith, scan_all (n * 10 + (c - b'0')) s)

strtol-sign :
    (c : ℕ) (s : Text)
    → is_sign c ≡ true
    → strtol (c ∷ s) ≡ (
        if starts_with_digit s
        then (clamp (c == b'-') (scan 0 s).0, (scan 0 s).1)
        else (pos 0, c ∷ s))
unfolding strtol skip_spaces
strtol-sign c s h = ground arith

pub IsDigits-starts : (s : Text) → IsDigits s → starts_with_digit s ≡ true
IsDigits-starts [] h = absurd (h.0 refl)
IsDigits-starts (c ∷ s) h = h.1.0

starts_ne : (s : Text) → starts_with_digit s ≡ true → s ≢ []
starts_ne [] h = absurd (ground arith)
starts_ne (c ∷ s) h = ground arith

-- `isInteger` accepts exactly the numerals: digits, one or more, with or without a sign in front of
-- them.
pub is_integer-iff-IsNumeral : (s : Text) → (is_integer s ≡ true) ↔ IsNumeral s
unfolding is_integer
is_integer-iff-IsNumeral [] = ground arith
is_integer-iff-IsNumeral (c ∷ s) = (accepted, accepts)
  where
    accepted : is_integer (c ∷ s) ≡ true → IsNumeral (c ∷ s)
    accepted h = elim (Bool-cases (is_digit c)) [
      | inl digit ↦
          inl (
            starts_ne (c ∷ s) digit,
            scan_all 0 (c ∷ s) (ground (arith, strtol-digit (c ∷ s) digit)),
          )
      | inr other ↦ elim (Bool-cases (starts_with_digit s)) [
        | inl digit ↦
            inr (ground arith, (starts_ne s digit, scan_all 0 s (ground (arith, strtol-sign c s))))
        | inr none ↦ absurd (ground (arith, strtol-sign c s))
      ]
    ]

    accepts : IsNumeral (c ∷ s) → is_integer (c ∷ s) ≡ true
    accepts (inl d) = ground (arith, strtol-digit (c ∷ s) d.1.0, scan-value 0 (c ∷ s) d.1)
    accepts (inr (sign, d)) =
        ground (arith, strtol-sign c s sign, IsDigits-starts s d, scan-value 0 s d.1)

-- Digits are read as the number that they spell, if it is an `int`.
pub atoi-digits : (s : Text) → IsDigits s → value 0 s < 2 ^ 31 → atoi s ≡ pos (value 0 s)
unfolding atoi
atoi-digits s d fits = ground (arith, strtol-digit s (IsDigits-starts s d), scan-value 0 s d.1)
