-- ===== src/CachingFs/Search.antt =====
-- What `isInCache` of ex4/CachingFileSystem.cpp finds.
use os_huji.Prelude.{
  ℕ, zero, suc, ◌+◌, ◌<◌, ◌≡◌, ◌⊎◌, inl, inr, refl, ap, true, false, Option, none, some, List, [],
  ◌∷◌, get_elem?, All, Bool-cases, arith,
}
use os_huji.CachingFs.Block.{CacheBlock, same_string}
use os_huji.CachingFs.Cache.{holds, is_in_cache_from, is_in_cache}

pub same_string→eq : (s t : List ℕ) → same_string s t ≡ true → s ≡ t
unfolding same_string
same_string→eq [] [] h = refl
same_string→eq [] (c ∷ cs) h = absurd (ground arith)
same_string→eq (b ∷ bs) [] h = absurd (ground arith)
same_string→eq (b ∷ bs) (c ∷ cs) h = ground (arith, same_string→eq bs cs)

pub same_string_refl : (s : List ℕ) → same_string s s ≡ true
unfolding same_string
same_string_refl [] = refl
same_string_refl (b ∷ bs) = ground (arith, same_string_refl bs)

-- The block holds the numbered part of the file.
abbrev pub Labelled : List ℕ → ℕ → CacheBlock → Type 0
Labelled path enumerator b = (b.path ≡ some path) × (b.block_enumerator ≡ enumerator)

pub holds→Labelled :
    (path : List ℕ) (enumerator : ℕ) (b : CacheBlock)
    → holds path enumerator b ≡ true
    → Labelled path enumerator b
unfolding holds
holds→Labelled path enumerator b h = go b.path refl
  where
    go : (o : Option (List ℕ)) → b.path ≡ o → Labelled path enumerator b
    go none e = absurd (ground arith)
    go (some p) e = ground (arith, same_string→eq p path)

pub Labelled→holds :
    (path : List ℕ) (enumerator : ℕ) (b : CacheBlock)
    → Labelled path enumerator b
    → holds path enumerator b ≡ true
unfolding holds
Labelled→holds path enumerator b l = ground (arith, same_string_refl path)

in_cache_hit :
    (n k : ℕ) (path : List ℕ) (enumerator : ℕ) (blocks : List CacheBlock)
    → is_in_cache_from n path enumerator blocks ≡ some k
    → (i : ℕ) × (b : CacheBlock) × (k ≡ n + i)
      × (get_elem? blocks i ≡ some b)
      × Labelled path enumerator b
      × ((j : ℕ) (c : CacheBlock)
          → j < i
          → get_elem? blocks j ≡ some c
          → ¬ Labelled path enumerator c)
unfolding is_in_cache_from
in_cache_hit n k path enumerator [] h = absurd (ground arith)
in_cache_hit n k path enumerator (b ∷ bs) h = elim (Bool-cases (holds path enumerator b)) [
  | inl here ↦ (
    0,
    b,
    ground arith,
    refl,
    holds→Labelled path enumerator b here,
    (λ j c l e. absurd (omega arith)),
  )
  | inr other ↦
      let (i, c, e, at, l, first) = in_cache_hit (suc n) k path enumerator bs (ground arith) in
      (suc i, c, omega arith, at, l, first_of_rest b bs i other first)
]
  where
    first_of_rest :
        (b : CacheBlock) (bs : List CacheBlock) (i : ℕ)
        → holds path enumerator b ≡ false
        → ((j : ℕ) (c : CacheBlock)
            → j < i
            → get_elem? bs j ≡ some c
            → ¬ Labelled path enumerator c)
        → (j : ℕ) (c : CacheBlock) → j < suc i
        → get_elem? (b ∷ bs) j ≡ some c
        → ¬ Labelled path enumerator c
    first_of_rest b bs i other first zero c l e =
        λ w. ground (arith, Labelled→holds path enumerator c w)
    first_of_rest b bs i other first (suc j) c l e = first j c (omega arith) e

in_cache_miss :
    (n : ℕ) (path : List ℕ) (enumerator : ℕ) (blocks : List CacheBlock)
    → is_in_cache_from n path enumerator blocks ≡ none
    → All (λ b. ¬ Labelled path enumerator b) blocks
unfolding is_in_cache_from
in_cache_miss n path enumerator [] h = tt
in_cache_miss n path enumerator (b ∷ bs) h = elim (Bool-cases (holds path enumerator b)) [
  | inl here ↦ absurd (ground arith)
  | inr other ↦ (
    (λ w. ground (arith, Labelled→holds path enumerator b w)),
    in_cache_miss (suc n) path enumerator bs (ground arith),
  )
]

-- `isInCache` returns a position exactly if some block is labelled with the path and the number,
-- and then it is the first such position.
pub is_in_cache_first :
    (path : List ℕ) (enumerator : ℕ) (blocks : List CacheBlock)
    → ((is_in_cache path enumerator blocks ≡ none) × All (λ b. ¬ Labelled path enumerator b) blocks)
      ⊎ ((i : ℕ) × (b : CacheBlock) × (is_in_cache path enumerator blocks ≡ some i)
          × (get_elem? blocks i ≡ some b)
          × Labelled path enumerator b
          × ((j : ℕ) (c : CacheBlock)
              → j < i
              → get_elem? blocks j ≡ some c
              → ¬ Labelled path enumerator c))
unfolding is_in_cache
is_in_cache_first path enumerator blocks = go (is_in_cache_from 0 path enumerator blocks) refl
  where
    go :
        (o : Option ℕ)
        → is_in_cache_from 0 path enumerator blocks ≡ o
        → ((o ≡ none) × All (λ b. ¬ Labelled path enumerator b) blocks)
          ⊎ ((i : ℕ) × (b : CacheBlock) × (o ≡ some i)
              × (get_elem? blocks i ≡ some b)
              × Labelled path enumerator b
              × ((j : ℕ) (c : CacheBlock)
                  → j < i
                  → get_elem? blocks j ≡ some c
                  → ¬ Labelled path enumerator c))
    go none e = inl (refl, in_cache_miss 0 path enumerator blocks e)
    go (some k) e =
        let (i, b, same, at, l, first) = in_cache_hit 0 k path enumerator blocks e in
        inr (i, b, ap some (omega arith), at, l, first)
