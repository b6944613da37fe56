-- ===== src/Prelude/Sorting.antt =====
-- `std::sort` of integers: every way to sort gives the same list, this one by insertion.
use Prim.Native.Nat.{ℕ, ◌+◌, ◌≤◌}
use mathlib.Core.Path.{◌≡◌, refl}
use mathlib.Core.List.{List, [], ◌∷◌}
use native.Mathlib.Omega.{arith}
use os_huji.Prelude.Tests.{ltb, if◌then◌else◌}
use os_huji.Prelude.Counts.{hit, count}

abbrev pub put : ℕ → List ℕ → List ℕ
put a [] = a ∷ []
put a (x ∷ xs) = if ltb x a then x ∷ put a xs else a ∷ x ∷ xs

abbrev pub sort : List ℕ → List ℕ
sort [] = []
sort (x ∷ xs) = put x (sort xs)

-- Each element is at least as large as `i` and all before it.
abbrev pub IsAscending : ℕ → List ℕ → Type 0
IsAscending i [] = Unit
IsAscending i (x ∷ xs) = (i ≤ x) × IsAscending x xs

count-put : (c a : ℕ) (xs : List ℕ) → count c (put a xs) ≡ hit c a + count c xs
count-put c a [] = refl
count-put c a (x ∷ xs) = ground (arith, count-put c a xs)

pub count-sort : (c : ℕ) (xs : List ℕ) → count c (sort xs) ≡ count c xs
count-sort c [] = refl
count-sort c (x ∷ xs) = ground (arith, count-put c x (sort xs), count-sort c xs)

IsAscending-lower : (i j : ℕ) (xs : List ℕ) → i ≤ j → IsAscending j xs → IsAscending i xs
IsAscending-lower i j [] h v = tt
IsAscending-lower i j (x ∷ xs) h v = (omega (arith, v.0), v.1)

put-IsAscending : (i a : ℕ) (xs : List ℕ) → i ≤ a → IsAscending i xs → IsAscending i (put a xs)
put-IsAscending i a [] h v = (h, tt)
put-IsAscending i a (x ∷ xs) h v = ground (arith, put-IsAscending x a xs)

pub sort-IsAscending : (xs : List ℕ) → IsAscending 0 (sort xs)
sort-IsAscending [] = tt
sort-IsAscending (x ∷ xs) = put-IsAscending 0 x (sort xs) (omega arith) (sort-IsAscending xs)
