-- ===== src/Prelude/Counts.antt =====
-- How often a number stands in a list, and what the list operations do to it.
use Prim.Native.Nat.{ℕ, suc, ◌+◌, ◌≤◌, ◌<◌}
use mathlib.Core.Path.{◌≡◌, refl}
use mathlib.Core.Bool.{Bool, true, false}
use mathlib.Core.List.{List, [], ◌∷◌, ◌++◌}
use native.Mathlib.Omega.{arith}
use os_huji.Prelude.Tests.{◌==◌, if◌then◌else◌}
use os_huji.Prelude.Lists.{length}

-- 1 for the same number, 0 for another.
abbrev pub hit : ℕ → ℕ → ℕ
hit a b = if a == b then 1 else 0

abbrev pub count : ℕ → List ℕ → ℕ
count a [] = 0
count a (x ∷ xs) = hit a x + count a xs

-- The first occurrence goes, as `v.erase(find(v.begin(), v.end(), a))`.
abbrev pub erase : ℕ → List ℕ → List ℕ
erase a [] = []
erase a (x ∷ xs) = if a == x then xs else x ∷ erase a xs

-- `find(v.begin(), v.end(), a) != v.end()`.
abbrev pub contains : ℕ → List ℕ → Bool
contains a [] = false
contains a (x ∷ xs) = if a == x then true else contains a xs

pub count-append :
    (c : ℕ) (front back : List ℕ) → count c (front ++ back) ≡ count c front + count c back
count-append c [] back = omega arith
count-append c (x ∷ front) back = omega (arith, count-append c front back)

pub contains-count : (a : ℕ) (xs : List ℕ) → contains a xs ≡ true → 0 < count a xs
contains-count a [] h = ground arith
contains-count a (x ∷ xs) h = ground (arith, contains-count a xs)

pub not-contains-count : (a : ℕ) (xs : List ℕ) → contains a xs ≡ false → count a xs ≡ 0
not-contains-count a [] h = refl
not-contains-count a (x ∷ xs) h = ground (arith, not-contains-count a xs)

pub count-contains : (a : ℕ) (xs : List ℕ) → 0 < count a xs → contains a xs ≡ true
count-contains a [] h = ground arith
count-contains a (x ∷ xs) h = ground (arith, count-contains a xs)

-- Exactly one occurrence goes, and no other number is touched.
pub count-erase-hit :
    (a b : ℕ) (xs : List ℕ) → 0 < count a xs → count b (erase a xs) + hit b a ≡ count b xs
count-erase-hit a b [] h = ground arith
count-erase-hit a b (x ∷ xs) h = ground (arith, count-erase-hit a b xs)

pub erase_absent : (a : ℕ) (xs : List ℕ) → count a xs ≡ 0 → erase a xs ≡ xs
erase_absent a [] h = refl
erase_absent a (x ∷ xs) h = ground (arith, erase_absent a xs)

pub count-le-length : (a : ℕ) (xs : List ℕ) → count a xs ≤ length xs
count-le-length a [] = omega arith
count-le-length a (x ∷ xs) = ground (arith, count-le-length a xs)

pub length-erase : (a : ℕ) (xs : List ℕ) → 0 < count a xs → suc (length (erase a xs)) ≡ length xs
length-erase a [] h = ground arith
length-erase a (x ∷ xs) h = ground (arith, length-erase a xs)

pub erase-append : (a : ℕ) (xs : List ℕ) → count a xs ≡ 0 → erase a (xs ++ a ∷ []) ≡ xs
erase-append a [] h = ground arith
erase-append a (x ∷ xs) h = ground (arith, erase-append a xs)
