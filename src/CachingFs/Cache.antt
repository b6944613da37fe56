-- ===== src/CachingFs/Cache.antt =====
-- The table `cacheBlocks` of ex4/CachingFileSystem.cpp and the functions that search and change it.
-- `caching_init` gives it `numOfBlocks` blocks, and nothing changes their number, so a loop from 0
-- to `numOfBlocks` goes through the list.
use os_huji.Prelude.{
  ℕ, suc, Bool, false, Option, none, some, List, [], ◌∷◌, replicate, ltb, ◌==◌, ◌&&◌, if◌then◌else◌,
}
use os_huji.CachingFs.Block.{
  CacheBlock, Io, done, ◌>>=◌, same_string, new_block, set_data, set_path,
}

-- The test of the loop body of `isInCache`.
unfoldable pub holds : List ℕ → ℕ → CacheBlock → Bool
holds path enumerator b = elim b.path [
  | none ↦ false
  | some p ↦ same_string p path && (b.block_enumerator == enumerator)
]

-- `isInCache`, from the position `i` on; `none` is FAIL.
unfoldable pub is_in_cache_from : ℕ → List ℕ → ℕ → List CacheBlock → Option ℕ
is_in_cache_from i path enumerator [] = none
is_in_cache_from i path enumerator (b ∷ bs) =
    if holds path enumerator b then some i else is_in_cache_from (suc i) path enumerator bs

unfoldable pub is_in_cache : List ℕ → ℕ → List CacheBlock → Option ℕ
is_in_cache path enumerator blocks = is_in_cache_from 0 path enumerator blocks

-- The loop of `searchMinCounter`: `i` is its counter.
unfoldable pub search_min_from : ℕ → ℕ → ℕ → List CacheBlock → ℕ
search_min_from i min_count index_of_min [] = index_of_min
search_min_from i min_count index_of_min (b ∷ bs) =
    search_min_from (suc i) (if ltb b.counter min_count then b.counter else min_count)
      (if ltb b.counter min_count then i else index_of_min) bs

-- INT_MAX is 2 ^ 31 - 1.
unfoldable pub search_min_counter : List CacheBlock → ℕ
search_min_counter blocks = search_min_from 0 2147483647 0 blocks

unfoldable pub update_block : ℕ → List ℕ → List ℕ → ℕ → CacheBlock → Io CacheBlock
update_block block_size path bytes enumerator b = do
  let b1 = record b { block_enumerator = enumerator; counter = 0 }
  b2 ← set_data block_size bytes b1
  set_path path b2

unfoldable pub caching_init : ℕ → List CacheBlock
caching_init num_of_blocks = replicate num_of_blocks new_block

-- The test of the loop of `caching_rename`.
unfoldable pub has_path : List ℕ → CacheBlock → Bool
has_path path b = elim b.path [ none ↦ false | some p ↦ same_string p path ]

-- The loop of `caching_rename`, behind a `rename` that succeeded.
unfoldable pub rename_blocks : List ℕ → List ℕ → List CacheBlock → Io (List CacheBlock)
rename_blocks path newpath [] = done []
rename_blocks path newpath (b ∷ bs) = do
  b' ← (if has_path path b then set_path newpath b else done b)
  bs' ← rename_blocks path newpath bs
  done (b' ∷ bs')

-- `caching_rename`, given the `errno` of `rename`, if it failed.
unfoldable pub caching_rename : Option ℕ → List ℕ → List ℕ → List CacheBlock → Io (List CacheBlock)
caching_rename (some errno) path newpath blocks = Io.failed errno blocks
caching_rename none path newpath blocks = rename_blocks path newpath blocks

-- A line that `caching_ioctl` writes: the path, the number of the block and its counter.
pub record Row : Type 0 where
  pub path : List ℕ
  pub block_enumerator : ℕ
  pub counter : ℕ

unfoldable pub ioctl_rows : List CacheBlock → List Row
ioctl_rows [] = []
ioctl_rows (b ∷ bs) =
    let rest = ioctl_rows bs in
    elim b.path [
      | none ↦ rest
      | some p ↦
          record { path = p; block_enumerator = b.block_enumerator; counter = b.counter } ∷ rest
    ]
