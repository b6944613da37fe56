-- ===== src/Blockchain/Indexes.antt =====
-- `findMinIdx` of ex3/blockchain.cpp returns the least index that no block has.
use os_huji.Prelude.{
  ℕ, suc, ◌≤◌, ◌<◌, ◌≡◌, List, [], ◌∷◌, count, sort, count-sort, IsAscending, sort-IsAscending,
  refl, arith,
}
use os_huji.Blockchain.Chain.{Chain, min_idx_from}
use os_huji.Blockchain.Library.{find_min_idx}

-- Each element is at least `i` and larger than all before it.
IsStrict : ℕ → List ℕ → Type 0
IsStrict i [] = Unit
IsStrict i (x ∷ xs) = (i ≤ x) × IsStrict (suc x) xs

absent_below : (i k : ℕ) (xs : List ℕ) → IsStrict i xs → k < i → count k xs ≡ 0
unfolding IsStrict
absent_below i k [] v h = ground arith
absent_below i k (x ∷ xs) v h = ground (arith, absent_below (suc x) k xs v.1)

IsAscending-strict :
    (i x : ℕ) (xs : List ℕ) → i ≤ x → IsAscending x xs → count x xs ≡ 0 → IsAscending (suc x) xs
IsAscending-strict i x [] h v e = tt
IsAscending-strict i x (y ∷ ys) h v e = ground arith

IsAscending→IsStrict :
    (i : ℕ) (xs : List ℕ) → IsAscending i xs → ((k : ℕ) → count k xs ≤ 1) → IsStrict i xs
unfolding IsStrict
IsAscending→IsStrict i [] v once = tt
IsAscending→IsStrict i (x ∷ xs) v once = (
  v.0,
  IsAscending→IsStrict (suc x) xs (IsAscending-strict i x xs v.0 v.1 (ground (arith, once x)))
      (λ k. ground (arith, once k)),
)

min_idx_from-le : (i : ℕ) (xs : List ℕ) → i ≤ min_idx_from i xs
unfolding min_idx_from
min_idx_from-le i [] = omega arith
min_idx_from-le i (x ∷ xs) = ground (arith, min_idx_from-le (suc i) xs)

min_idx_from_free : (i : ℕ) (xs : List ℕ) → IsStrict i xs → count (min_idx_from i xs) xs ≡ 0
unfolding min_idx_from IsStrict
min_idx_from_free i [] v = ground arith
min_idx_from_free i (x ∷ xs) v = ground (
  arith,
  min_idx_from-le (suc i) xs,
  min_idx_from_free (suc x) xs v.1,
  absent_below (suc x) i xs v.1,
)

min_idx_from_taken :
    (i k : ℕ) (xs : List ℕ) → IsStrict i xs → i ≤ k → k < min_idx_from i xs → 0 < count k xs
unfolding min_idx_from IsStrict
min_idx_from_taken i k [] v h l = ground arith
min_idx_from_taken i k (x ∷ xs) v h l = ground (arith, min_idx_from_taken (suc i) k xs)

-- If no index stands twice in `vecIndex`, `findMinIdx` returns one that does not stand there, every
-- smaller one stands there, and it changes nothing but the order of `vecIndex`.
pub find_min_idx_lowest :
    (s : Chain)
    → ((k : ℕ) → count k s.vec_index ≤ 1)
    → (count (find_min_idx s).0 s.vec_index ≡ 0)
      × ((k : ℕ) → k < (find_min_idx s).0 → 0 < count k s.vec_index)
      × ((find_min_idx s).1 ≡ record s { vec_index = sort s.vec_index })
      × ((k : ℕ) → count k (sort s.vec_index) ≡ count k s.vec_index)
unfolding find_min_idx
find_min_idx_lowest s once =
    let w : IsStrict 0 (sort s.vec_index) =
      IsAscending→IsStrict 0 (sort s.vec_index) (sort-IsAscending s.vec_index)
        (λ k. omega (arith, once k, count-sort k s.vec_index)) in
    let idx = min_idx_from 0 (sort s.vec_index) in
    (
      omega (arith, count-sort idx s.vec_index, min_idx_from_free 0 (sort s.vec_index) w),
      λ k h. omega (
        arith,
        count-sort k s.vec_index,
        min_idx_from_taken 0 k (sort s.vec_index) w (omega arith) h,
      ),
      refl,
      λ k. count-sort k s.vec_index,
    )
