-- ===== src/Transfer/Decimal.antt =====
-- The sizes that ex5/clftp.cpp prints and ex5/srftp.cpp reads back.
use os_huji.Prelude.{
  ℕ, zero, suc, ◌+◌, ◌/◌, ◌%◌, ◌^◌, ◌<◌, ◌≤◌, ◌≡◌, refl, true, false, [], ◌∷◌, length, ◌==◌,
  Bool-cases, inl, inr, pos, arith, ZeroFree, ap,
}
use os_huji.Prelude.Numbers.{
  Text, starts_with_digit, skip_spaces, scan, strtol, atoi, digits, to_string, clamp,
}
use os_huji.Transfer.Numbers.{is_integer}

-- Scanning the printed digits goes on behind them as from the number itself.
scan-digits : (fuel n : ℕ) (out : Text) → n < 10 ^ fuel → scan 0 (digits fuel n out) ≡ scan n out
unfolding scan digits
scan-digits zero n out h = let e : n ≡ 0 = omega arith in rw e refl
scan-digits (suc fuel) n out h = elim (Bool-cases (n / 10 == 0)) [
  | inl last ↦ ground arith
  | inr more ↦ ground (arith, scan-digits fuel (n / 10) ((b'0' + n % 10) ∷ out) (grind arith))
]

digits-starts :
    (fuel n : ℕ) (out : Text)
    → starts_with_digit out ≡ true
    → starts_with_digit (digits fuel n out) ≡ true
unfolding digits
digits-starts zero n out h = h
digits-starts (suc fuel) n out h =
    ground (arith, digits-starts fuel (n / 10) ((b'0' + n % 10) ∷ out))

digits-starts_suc : (fuel n : ℕ) (out : Text) → starts_with_digit (digits (suc fuel) n out) ≡ true
unfolding digits
digits-starts_suc fuel n out = ground (arith, digits-starts fuel (n / 10) ((b'0' + n % 10) ∷ out))

-- A text that starts with a digit has neither blanks nor a sign in front of its number.
pub strtol-digit :
    (s : Text) → starts_with_digit s ≡ true → strtol s ≡ (clamp false (scan 0 s).0, (scan 0 s).1)
unfolding strtol skip_spaces
strtol-digit [] h = ground arith
strtol-digit (c ∷ s) h = ground arith

digits-length : (fuel n : ℕ) (out : Text) → length (digits fuel n out) ≤ fuel + length out
unfolding digits
digits-length zero n out = omega arith
digits-length (suc fuel) n out = ground (arith, digits-length fuel (n / 10) ((b'0' + n % 10) ∷ out))

digits-ZeroFree : (fuel n : ℕ) (out : Text) → ZeroFree out → ZeroFree (digits fuel n out)
unfolding digits
digits-ZeroFree zero n out h = h
digits-ZeroFree (suc fuel) n out h =
    ground (arith, digits-ZeroFree fuel (n / 10) ((b'0' + n % 10) ∷ out))

pub to_string-ZeroFree : (n : ℕ) → ZeroFree (to_string n)
unfolding to_string
to_string-ZeroFree n = digits-ZeroFree 10 n [] tt

pub to_string-length : (n : ℕ) → length (to_string n) ≤ 10
unfolding to_string
to_string-length n = digits-length 10 n []

is_integer-digit : (s : Text) → starts_with_digit s ≡ true → (scan 0 s).1 ≡ [] → is_integer s ≡ true
unfolding is_integer
is_integer-digit [] h e = ground arith
is_integer-digit (c ∷ s) h e = ground (arith, strtol-digit (c ∷ s) h)

-- Every size that is an `int` and not negative is read back from its print by `atoi`; `isInteger`
-- accepts the print, which has at most 10 characters.
pub atoi-to_string :
    (n : ℕ)
    → n < 2 ^ 31
    → (atoi (to_string n) ≡ pos n) × (is_integer (to_string n) ≡ true) × (length (to_string n) ≤ 10)
unfolding atoi to_string scan
atoi-to_string n fits =
    let first : starts_with_digit (digits 10 n []) ≡ true = digits-starts_suc 9 n [] in
    let all : scan 0 (digits 10 n []) ≡ (n, []) = scan-digits 10 n [] (omega arith) in
    (
      ground (arith, strtol-digit (digits 10 n []) first, all),
      is_integer-digit (digits 10 n []) first (ap (λ r. r.1) all),
      to_string-length n,
    )
