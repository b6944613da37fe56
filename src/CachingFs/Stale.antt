-- ===== src/CachingFs/Stale.antt =====
-- `caching_rename` of ex4/CachingFileSystem.cpp over a file that is in the cache.
use os_huji.Prelude.{
  ℕ, zero, suc, ◌+◌, ◌<◌, ◌≡◌, ◌≢◌, inl, inr, refl, ap, ◌∙◌, true, false, none, some, List, [], ◌∷◌,
  length, get_elem?, map, All, Bool-cases, arith,
}
use os_huji.CachingFs.Block.{CacheBlock, done}
use os_huji.CachingFs.Cache.{holds, is_in_cache_from, is_in_cache, has_path, caching_rename}
use os_huji.CachingFs.Search.{Labelled, holds→Labelled, Labelled→holds}
use os_huji.CachingFs.Labels.{
  relabel, relabel→Labelled, Labelled→relabel, get_elem?-map, rename_blocks-map, has_path→eq,
}

module _ (path newpath : List ℕ) (k : ℕ) where
  -- No block before position `i` has the number under the old or the new path.
  abbrev pub NoneBefore : ℕ → List CacheBlock → Type 0
  NoneBefore i blocks =
      (j : ℕ) (c : CacheBlock)
      → j < i
      → get_elem? blocks j ≡ some c
      → (¬ Labelled path k c) × (¬ Labelled newpath k c)

  unlabelled :
      (c : CacheBlock)
      → (¬ Labelled path k c) × (¬ Labelled newpath k c)
      → holds newpath k (relabel path newpath c) ≡ false
  unlabelled c free = elim (Bool-cases (holds newpath k (relabel path newpath c))) [
    | inl here ↦
        absurd
          (elim (relabel→Labelled path newpath c k
            (holds→Labelled newpath k (relabel path newpath c) here)) [
              | inl l ↦ free.0 l
              | inr l ↦ free.1 l
            ])
    | inr other ↦ other
  ]

  found :
      (n i : ℕ) (b : CacheBlock) (blocks : List CacheBlock)
      → get_elem? blocks i ≡ some b
      → Labelled newpath k b
      → NoneBefore i blocks
      → is_in_cache_from n newpath k (map (relabel path newpath) blocks) ≡ some (n + i)
  unfolding is_in_cache_from
  found n i b [] at l before = absurd (ground arith)
  found n zero b (c ∷ bs) at l before =
      let same : c ≡ b = ground (arith, at) in
      let here =
        Labelled→holds newpath k (relabel path newpath b)
          (Labelled→relabel path newpath b k (inr l)) in
      rw same (ground (arith, here))
  found n (suc i) b (c ∷ bs) at l before =
      let rest = found (suc n) i b bs at l (λ j d h e. before (suc j) d (omega (arith, h)) e) in
      ground (arith, unlabelled c (before 0 c (omega arith) refl), rest)

-- Let a block have a number under the new path, with no block before it that has the number under
-- the old or the new path. A rename to that path which the file system below accepts, where the
-- buffers have room and the paths differ, leaves the block as it is, and `isInCache` finds it for
-- the new path and the number.
pub caching_rename-stale :
    (path newpath : List ℕ) (k i : ℕ) (b : CacheBlock) (blocks : List CacheBlock)
    → path ≢ newpath
    → All (λ c. (has_path path c ≡ true) → length newpath < c.path_room) blocks
    → get_elem? blocks i ≡ some b
    → Labelled newpath k b
    → NoneBefore path newpath k i blocks
    → (blocks' : List CacheBlock) × (caching_rename none path newpath blocks ≡ done blocks')
      × (is_in_cache newpath k blocks' ≡ some i)
      × (get_elem? blocks' i ≡ some b)
unfolding caching_rename is_in_cache
caching_rename-stale path newpath k i b blocks ne rooms at l before = (
  map (relabel path newpath) blocks,
  rename_blocks-map path newpath blocks rooms,
  found path newpath k 0 i b blocks at l before ∙ ap some (omega arith),
  get_elem?-map (relabel path newpath) blocks i b at
      ∙ ap some (ground (arith, l.0, ne, has_path→eq path b)),
)
