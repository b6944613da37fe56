-- ===== src/Uthreads/Ids.antt =====
-- `getNextId` of ex2/uthreads.cpp returns the least free id.
use os_huji.Prelude.{
  ℕ, suc, ◌+◌, ◌≤◌, ◌<◌, ◌≡◌, ◌≢◌, refl, none, [], ◌∷◌, length, arith, Table, IsFrom, IsSorted,
  IsFrom-mono, lookup, lookup_below,
}
use os_huji.Uthreads.Table.{next_id_from, get_next_id}

next_id_from-le : (i : ℕ) (m : Table) → IsFrom i m → i ≤ next_id_from i m
unfolding next_id_from
next_id_from-le i [] v = omega arith
next_id_from-le i ((j, a) ∷ m) v =
    ground (arith, next_id_from-le (suc i) m (IsFrom-mono (suc i) (suc j) m (omega arith) v.1))

next_id_from_free : (i : ℕ) (m : Table) → IsFrom i m → lookup (next_id_from i m) m ≡ none
unfolding lookup next_id_from
next_id_from_free i [] v = refl
next_id_from_free i ((j, a) ∷ m) v =
    let w : IsFrom (suc i) m = IsFrom-mono (suc i) (suc j) m (omega arith) v.1 in
    ground (
      arith,
      next_id_from-le (suc i) m w,
      next_id_from_free (suc i) m w,
      lookup_below (suc j) i m v.1,
    )

next_id_from_taken :
    (i k : ℕ) (m : Table) → IsFrom i m → i ≤ k → k < next_id_from i m → lookup k m ≢ none
unfolding lookup next_id_from
next_id_from_taken i k [] v h l = ground arith
next_id_from_taken i k ((j, a) ∷ m) v h l =
    let w : IsFrom (suc i) m = IsFrom-mono (suc i) (suc j) m (omega arith) v.1 in
    ground (arith, next_id_from_taken (suc i) k m w)

next_id_from-le-length : (i : ℕ) (m : Table) → next_id_from i m ≤ i + length m
unfolding next_id_from
next_id_from-le-length i [] = omega arith
next_id_from-le-length i ((j, a) ∷ m) = ground (arith, next_id_from-le-length (suc i) m)

-- On a table in the order of its keys, `getNextId` returns an id that no thread has, every smaller
-- id belongs to a thread, and the id is at most the number of threads.
pub get_next_id_lowest :
    (m : Table)
    → IsSorted m
    → (lookup (get_next_id m) m ≡ none)
      × ((k : ℕ) → k < get_next_id m → lookup k m ≢ none)
      × (get_next_id m ≤ length m)
unfolding get_next_id
get_next_id_lowest m v = (
  next_id_from_free 0 m v,
  λ k h. next_id_from_taken 0 k m v (omega arith) h,
  omega (arith, next_id_from-le-length 0 m),
)
