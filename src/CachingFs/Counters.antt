-- ===== src/CachingFs/Counters.antt =====
-- What `searchMinCounter` of ex4/CachingFileSystem.cpp finds.
use os_huji.Prelude.{
  ℕ, zero, suc, ◌+◌, ◌≤◌, ◌<◌, ◌≡◌, ◌⊎◌, inl, inr, refl, some, List, [], ◌∷◌, length, get_elem?,
  All, All-mono, Bool-cases, ltb, arith,
}
use os_huji.CachingFs.Block.{CacheBlock}
use os_huji.CachingFs.Cache.{search_min_from, search_min_counter}

-- Every counter before position `i` is larger than `x`.
abbrev pub LargerBefore : ℕ → ℕ → List CacheBlock → Type 0
LargerBefore i x blocks =
    (j : ℕ) (c : CacheBlock) → j < i → get_elem? blocks j ≡ some c → x < c.counter

LargerBefore-suc :
    (i x : ℕ) (b : CacheBlock) (bs : List CacheBlock)
    → x < b.counter
    → LargerBefore i x bs
    → LargerBefore (suc i) x (b ∷ bs)
LargerBefore-suc i x b bs h first zero c l e = let same : b ≡ c = cc in rw (← same) h
LargerBefore-suc i x b bs h first (suc j) c l e = first j c (omega arith) e

search_min_cases :
    (n m x : ℕ) (blocks : List CacheBlock)
    → ((search_min_from n m x blocks ≡ x) × All (λ b. m ≤ b.counter) blocks)
      ⊎ ((i : ℕ) × (b : CacheBlock) × (search_min_from n m x blocks ≡ n + i)
          × (get_elem? blocks i ≡ some b)
          × (b.counter < m)
          × All (λ c. b.counter ≤ c.counter) blocks
          × LargerBefore i b.counter blocks)
unfolding search_min_from
search_min_cases n m x [] = inl (refl, tt)
search_min_cases n m x (b ∷ bs) = elim (Bool-cases (ltb b.counter m)) [
  | inl less ↦ elim (search_min_cases (suc n) b.counter n bs) [
    | inl (e, least) ↦ inr (
      0,
      b,
      rw less (omega arith),
      refl,
      ground arith,
      (omega arith, least),
      (λ j c h. absurd (omega arith)),
    )
    | inr (i, c, e, at, lt, least, first) ↦ inr (
      suc i,
      c,
      rw less (omega arith),
      at,
      ground arith,
      (omega arith, least),
      LargerBefore-suc i c.counter b bs (omega arith) first,
    )
  ]
  | inr more ↦ elim (search_min_cases (suc n) m x bs) [
    | inl (e, least) ↦ inl (rw more e, (ground arith, least))
    | inr (i, c, e, at, lt, least, first) ↦ inr (
      suc i,
      c,
      rw more (omega arith),
      at,
      lt,
      (ground arith, least),
      LargerBefore-suc i c.counter b bs (ground arith) first,
    )
  ]
]

-- `searchMinCounter` returns the position of a block with the least counter, the first of those, if
-- there is a block and every counter is an `int`.
pub search_min_counter_least :
    (b : CacheBlock) (bs : List CacheBlock)
    → All (λ c. c.counter ≤ 2147483647) (b ∷ bs)
    → (v : CacheBlock) × (get_elem? (b ∷ bs) (search_min_counter (b ∷ bs)) ≡ some v)
      × All (λ c. v.counter ≤ c.counter) (b ∷ bs)
      × LargerBefore (search_min_counter (b ∷ bs)) v.counter (b ∷ bs)
unfolding search_min_counter
search_min_counter_least b bs ints = elim (search_min_cases 0 2147483647 0 (b ∷ bs)) [
  | inl (e, least) ↦ (
    b,
    rw e refl,
    All-mono (b ∷ bs) (λ c h. omega arith) least,
    rw e (λ j c h. absurd (omega arith)),
  )
  | inr (i, c, e, at, lt, least, first) ↦
      let e' : search_min_from 0 2147483647 0 (b ∷ bs) ≡ i = omega arith in
      (c, rw e' at, least, rw e' first)
]

-- In a cache with a block, the position that `searchMinCounter` returns is in range.
pub search_min_counter_in_range :
    (blocks : List CacheBlock)
    → 0 < length blocks
    → (b : CacheBlock) × (get_elem? blocks (search_min_counter blocks) ≡ some b)
unfolding search_min_counter
search_min_counter_in_range [] h = absurd (omega arith)
search_min_counter_in_range (b ∷ bs) h = elim (search_min_cases 0 2147483647 0 (b ∷ bs)) [
  | inl (e, least) ↦ (b, rw e refl)
  | inr (i, c, e, at, lt, least, first) ↦
      let e' : search_min_from 0 2147483647 0 (b ∷ bs) ≡ i = omega arith in (c, rw e' at)
]
