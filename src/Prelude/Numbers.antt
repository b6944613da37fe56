-- ===== src/Prelude/Numbers.antt =====
-- What the programs use of the standard library to turn text into numbers and numbers into text. A
-- text is the list of its bytes, without a zero.
use Prim.Native.Nat.{ℕ, zero, suc, ◌+◌, ◌-◌, ◌*◌, ◌/◌, ◌%◌, ◌^◌}
use mathlib.Core.Bool.{Bool, true, false, ◌&&◌, ◌||◌}
use mathlib.Core.List.{List, [], ◌∷◌}
use os_huji.Prelude.Tests.{ltb, leb, ◌==◌, if◌then◌else◌}
use os_huji.Prelude.Signed.{ℤ, pos, negsuc}

abbrev pub Text : Type 0
Text = List ℕ

abbrev pub is_digit : ℕ → Bool
is_digit c = leb b'0' c && leb c b'9'

-- `isspace` in the C locale: a blank, and the characters 9 to 13.
abbrev pub is_space : ℕ → Bool
is_space c = (c == 32) || (leb 9 c && leb c 13)

abbrev pub is_sign : ℕ → Bool
is_sign c = (c == b'-') || (c == b'+')

unfoldable pub skip_spaces : Text → Text
skip_spaces [] = []
skip_spaces (c ∷ s) = if is_space c then skip_spaces s else c ∷ s

-- The number that the leading digits spell behind `n`, and what follows them.
unfoldable pub scan : ℕ → Text → ℕ × Text
scan n [] = (n, [])
scan n (c ∷ s) = if is_digit c then scan (n * 10 + (c - b'0')) s else (n, c ∷ s)

abbrev pub starts_with_digit : Text → Bool
starts_with_digit [] = false
starts_with_digit (c ∷ s) = is_digit c

abbrev pub minus : ℕ → ℤ
minus zero = pos 0
minus (suc n) = negsuc n

-- `strtol` clamps to LONG_MIN and LONG_MAX.
abbrev pub clamp : Bool → ℕ → ℤ
clamp true n = minus (if ltb n (2 ^ 63) then n else 2 ^ 63)
clamp false n = pos (if ltb n (2 ^ 63) then n else 2 ^ 63 - 1)

abbrev pub is_negative : Text → Bool
is_negative [] = false
is_negative (c ∷ s) = c == b'-'

abbrev pub skip_sign : Text → Text
skip_sign [] = []
skip_sign (c ∷ s) = if is_sign c then s else c ∷ s

-- `strtol(s, &p, 10)`: the value, and the text at `p`, which is `s` itself without a number.
unfoldable pub strtol : Text → ℤ × Text
strtol s =
    let t = skip_spaces s in
    let u = skip_sign t in
    if starts_with_digit u
    then (let (n, rest) = scan 0 u in (clamp (is_negative t) n, rest))
    else (pos 0, s)

abbrev pub signed32 : ℕ → ℤ
signed32 w = if ltb w (2 ^ 31) then pos w else negsuc (2 ^ 32 - w - 1)

-- A `long` as an `int`: the lower 32 bits.
abbrev pub to_int : ℤ → ℤ
to_int (pos n) = signed32 (n % 2 ^ 32)
to_int (negsuc n) = signed32 (2 ^ 32 - 1 - n % 2 ^ 32)

-- `atoi` as the C library of the system has it; the standard leaves it open beyond `int`.
unfoldable pub atoi : Text → ℤ
atoi s = to_int (strtol s).0

abbrev pub is_empty : Text → Bool
is_empty [] = true
is_empty (c ∷ s) = false

-- The digits of `n` in front of `out`, for `fuel` of them.
unfoldable pub digits : ℕ → ℕ → Text → Text
digits zero n out = out
digits (suc fuel) n out =
    let rest = digits fuel (n / 10) ((b'0' + n % 10) ∷ out) in
    if n / 10 == 0 then (b'0' + n % 10) ∷ out else rest

-- `to_string` of an `int` that is not negative, which has at most 10 digits.
unfoldable pub to_string : ℕ → Text
to_string n = digits 10 n []
