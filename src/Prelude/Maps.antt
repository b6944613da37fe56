-- ===== src/Prelude/Maps.antt =====
-- A `map<int, T*>` of the C++ standard library as a list of keys with addresses, and its laws.
use Prim.Native.Nat.{ℕ, suc, ◌+◌, ◌≤◌, ◌<◌}
use mathlib.Core.Path.{◌≡◌, refl}
use mathlib.Core.Logic.{◌≢◌, inl, inr}
use mathlib.Core.Option.{Option, none, some}
use mathlib.Core.List.{List, [], ◌∷◌, map}
use native.Mathlib.Omega.{arith}
use os_huji.Prelude.Tests.{ltb, ◌==◌, if◌then◌else◌, Bool-cases}
use os_huji.Prelude.Lists.{length}
use os_huji.Prelude.Counts.{hit, count}

-- A `map<int, T*>`: the entries in the order of iteration, which for `std::map` is that of the
-- keys.
abbrev pub Table : Type 0
Table = List (ℕ × ℕ)

abbrev pub keys : Table → List ℕ
keys m = map (λ e. e.0) m

abbrev pub addresses : Table → List ℕ
addresses m = map (λ e. e.1) m

-- `find` and `at`: `none` stands for the exception of `at`.
unfoldable pub lookup : ℕ → Table → Option ℕ
lookup k [] = none
lookup k ((j, a) ∷ m) = if k == j then some a else lookup k m

-- `map::insert` keeps an entry that is there.
unfoldable pub insert : ℕ → ℕ → Table → Table
insert k a [] = (k, a) ∷ []
insert k a ((j, b) ∷ m) =
    if ltb k j then (k, a) ∷ (j, b) ∷ m else if k == j then (j, b) ∷ m else (j, b) ∷ insert k a m

-- `map::erase` by key.
unfoldable pub remove : ℕ → Table → Table
remove k [] = []
remove k ((j, b) ∷ m) = if k == j then m else (j, b) ∷ remove k m

-- `m[k] = a` on a std::map.
unfoldable pub assign : ℕ → ℕ → Table → Table
assign k a [] = (k, a) ∷ []
assign k a ((j, b) ∷ m) =
    let rest = assign k a m in
    if k == j then (k, a) ∷ m else if ltb k j then (k, a) ∷ (j, b) ∷ m else (j, b) ∷ rest

-- Keys from `i` on, each larger than the one before it.
abbrev pub IsFrom : ℕ → Table → Type 0
IsFrom i [] = Unit
IsFrom i ((j, a) ∷ m) = (i ≤ j) × IsFrom (suc j) m

abbrev pub IsSorted : Table → Type 0
IsSorted m = IsFrom 0 m

pub IsFrom-mono : (i j : ℕ) (m : Table) → i ≤ j → IsFrom j m → IsFrom i m
IsFrom-mono i j [] h v = tt
IsFrom-mono i j ((k, a) ∷ m) h v = (omega arith, v.1)

pub lookup_below : (i k : ℕ) (m : Table) → IsFrom i m → k < i → lookup k m ≡ none
unfolding lookup
lookup_below i k [] v h = refl
lookup_below i k ((j, a) ∷ m) v h = ground (arith, lookup_below (suc j) k m v.1)

pub lookup-insert :
    (k a j : ℕ) (m : Table)
    → lookup k m ≡ none
    → lookup j (insert k a m) ≡ (if j == k then some a else lookup j m)
unfolding lookup insert
lookup-insert k a j [] e = refl
lookup-insert k a j ((i, b) ∷ m) e = ground (arith, lookup-insert k a j m)

pub lookup-remove :
    (i k j : ℕ) (m : Table)
    → IsFrom i m
    → lookup j (remove k m) ≡ (if j == k then none else lookup j m)
unfolding lookup remove
lookup-remove i k j [] v = ground arith
lookup-remove i k j ((l, b) ∷ m) v =
    ground (arith, lookup-remove (suc l) k j m v.1, lookup_below (suc l) j m v.1)

pub insert-IsFrom : (i k a : ℕ) (m : Table) → i ≤ k → IsFrom i m → IsFrom i (insert k a m)
unfolding insert
insert-IsFrom i k a [] h v = (h, tt)
insert-IsFrom i k a ((j, b) ∷ m) h v = ground (arith, insert-IsFrom (suc j) k a m)

pub remove-IsFrom : (i k : ℕ) (m : Table) → IsFrom i m → IsFrom i (remove k m)
unfolding remove
remove-IsFrom i k [] v = tt
remove-IsFrom i k ((j, b) ∷ m) v =
    ground (arith, remove-IsFrom (suc j) k m v.1, IsFrom-mono i (suc j) m)

pub length-insert :
    (k a : ℕ) (m : Table) → lookup k m ≡ none → length (insert k a m) ≡ suc (length m)
unfolding lookup insert
length-insert k a [] e = refl
length-insert k a ((j, b) ∷ m) e = ground (arith, length-insert k a m)

pub length-remove :
    (k a : ℕ) (m : Table) → lookup k m ≡ some a → suc (length (remove k m)) ≡ length m
unfolding lookup remove
length-remove k a [] e = ground arith
length-remove k a ((j, b) ∷ m) e = ground (arith, length-remove k a m)

pub count-insert :
    (k a c : ℕ) (m : Table)
    → lookup k m ≡ none
    → count c (addresses (insert k a m)) ≡ hit c a + count c (addresses m)
unfolding lookup insert
count-insert k a c [] e = refl
count-insert k a c ((j, b) ∷ m) e = ground (arith, count-insert k a c m)

pub count-remove :
    (k a c : ℕ) (m : Table)
    → lookup k m ≡ some a
    → count c (addresses (remove k m)) + hit c a ≡ count c (addresses m)
unfolding lookup remove
count-remove k a c [] e = ground arith
count-remove k a c ((j, b) ∷ m) e = ground (arith, count-remove k a c m)

pub count_of_lookup : (k a : ℕ) (m : Table) → lookup k m ≡ some a → 0 < count a (addresses m)
unfolding lookup
count_of_lookup k a [] e = ground arith
count_of_lookup k a ((j, b) ∷ m) e = ground (arith, count_of_lookup k a m)

-- An address of the table stands under some key.
pub key_of :
    (a i : ℕ) (m : Table) → IsFrom i m → 0 < count a (addresses m) → (k : ℕ) × (lookup k m ≡ some a)
unfolding lookup
key_of a i [] v h = absurd (omega arith)
key_of a i ((j, b) ∷ m) v h = elim (Bool-cases (a == b)) [
  | inl e ↦ (j, ground arith)
  | inr e ↦
      let (k, found) = key_of a (suc j) m v.1 (ground arith) in
      (k, ground (arith, lookup_below (suc j) k m v.1))
]

pub lookup-assign : (k a j : ℕ) (m : Table) → lookup j m ≢ none → lookup j (assign k a m) ≢ none
unfolding lookup assign
lookup-assign k a j [] e = absurd (e refl)
lookup-assign k a j ((i, b) ∷ m) e = ground (arith, lookup-assign k a j m)

pub lookup-assign_self : (k a : ℕ) (m : Table) → lookup k (assign k a m) ≡ some a
unfolding lookup assign
lookup-assign_self k a [] = ground arith
lookup-assign_self k a ((i, b) ∷ m) = ground (arith, lookup-assign_self k a m)
