-- ===== src/CachingFs/Tests.antt =====
-- Runs of the cache model of ex4/CachingFileSystem.cpp at concrete inputs.
mod Mounts
use os_huji.Prelude.{
  c_string, ℕ, ◌≤◌, ◌<◌, ◌≡◌, ◌≢◌, ◌↔◌, ◌⊎◌, inl, inr, refl, none, some, List, [], ◌∷◌, length,
  get_elem?, All, take, drop, arith,
}
use os_huji.CachingFs.Block.{
  CacheBlock, Io, done, failed, overflow, same_string, new_block, set_data, set_path,
}
use os_huji.CachingFs.Cache.{
  holds, is_in_cache_from, is_in_cache, search_min_from, search_min_counter, update_block,
  caching_init, has_path, rename_blocks, caching_rename,
}
use os_huji.CachingFs.Read.{
  OpenFile, bytes, use_block, replace_block, store_read, fetch_block, read_round, read_loop,
  loop_extent, rounds, caching_read,
}
use os_huji.CachingFs.Search.{Labelled, is_in_cache_first}
use os_huji.CachingFs.Counters.{LargerBefore, search_min_counter_least}
use os_huji.CachingFs.Labels.{Roomy, update_block_overflows, caching_rename-Labelled}
use os_huji.CachingFs.Parts.{Serves, Genuine}
use os_huji.CachingFs.Whole.{caching_read_whole}
use os_huji.CachingFs.Later.{caching_read_later}

program : Unit {0}
unfolding c_string same_string new_block set_data set_path holds is_in_cache_from is_in_cache
    search_min_from search_min_counter update_block caching_init has_path rename_blocks
    caching_rename use_block replace_block store_read fetch_block read_round read_loop loop_extent
    rounds caching_read
program = tt

-- A file that the system below serves.
abbrev open_file : List ℕ → OpenFile
open_file content = record {
  pread = λ n o. bytes (take n (drop o content));
  st_size = length content;
}

open_file-Serves : (content : List ℕ) → Serves (open_file content) content
open_file-Serves content = record { reads = λ n o. refl; size = refl }

abbrev slash_a : List ℕ
slash_a = 47 ∷ 97 ∷ []

abbrev five_bytes : List ℕ
five_bytes = 1 ∷ 2 ∷ 3 ∷ 4 ∷ 5 ∷ []

abbrev two_blocks : List CacheBlock
two_blocks =
    record {
      path = some slash_a;
      path_room = 3;
      contents = 3 ∷ 4 ∷ [];
      block_enumerator = 2;
      counter = 4;
    }
    ∷ record { path = none; path_room = 0; contents = []; block_enumerator = 0; counter = 0 }
    ∷ []

abbrev used_block : CacheBlock
used_block = record {
  path = some slash_a;
  path_room = 3;
  contents = 3 ∷ 4 ∷ [];
  block_enumerator = 2;
  counter = 4;
}

abbrev unused_block : CacheBlock
unused_block = record {
  path = none;
  path_room = 0;
  contents = [];
  block_enumerator = 0;
  counter = 0;
}

search_min_counter_least_example :
    (v : CacheBlock) × (get_elem? two_blocks (search_min_counter two_blocks) ≡ some v)
    × All (λ c. v.counter ≤ c.counter) two_blocks
    × LargerBefore (search_min_counter two_blocks) v.counter two_blocks
search_min_counter_least_example =
    search_min_counter_least used_block (unused_block ∷ []) (omega arith)

caching_rename-Labelled_example :
    (blocks' : List CacheBlock) × (caching_rename none slash_a (47 ∷ 98 ∷ []) two_blocks
      ≡ done blocks')
    × ((i : ℕ) (b : CacheBlock)
        → get_elem? two_blocks i ≡ some b
        → (b' : CacheBlock) × (get_elem? blocks' i ≡ some b')
          × ((k : ℕ)
              → Labelled (47 ∷ 98 ∷ []) k b' ↔ (Labelled slash_a k b ⊎ Labelled (47 ∷ 98 ∷ []) k b))
          × (◌≢◌ {A = List ℕ} slash_a (47 ∷ 98 ∷ []) → b'.path ≢ some slash_a)
          × (b'.contents ≡ b.contents)
          × (b'.counter ≡ b.counter))
unfolding program
caching_rename-Labelled_example =
    caching_rename-Labelled slash_a (47 ∷ 98 ∷ []) two_blocks
      ((λ h. omega arith), ((λ h. ground arith), tt))

-- Every path has the same five bytes.
abbrev same_content : List ℕ → List ℕ
same_content p = five_bytes

two_blocks-Genuine : All (Genuine 2 same_content) two_blocks
two_blocks-Genuine = (
  (λ p e. record { index = 1; number = refl; inside = omega arith; same = refl }),
  ((λ p e. absurd (ground arith)), tt),
)

caching_read_whole_example :
    (blocks' : List CacheBlock) × (caching_read (open_file five_bytes) 2 slash_a 8 0 two_blocks
      ≡ done (blocks', five_bytes))
    × All (Genuine 2 same_content) blocks'
    × All (Roomy slash_a) blocks'
    × (0 < length blocks')
caching_read_whole_example =
    caching_read_whole (open_file five_bytes) 2 slash_a same_content 8 two_blocks (omega arith)
      (open_file-Serves five_bytes) (omega arith) (omega arith) two_blocks-Genuine
      (inr (omega arith), (inl refl, tt)) (omega arith) (omega arith) (omega arith)

caching_read_later_example :
    caching_read (open_file five_bytes) 1 slash_a 2 3 two_blocks ≡ done (two_blocks, [])
caching_read_later_example =
    caching_read_later (open_file five_bytes) 1 slash_a 2 3 two_blocks (omega arith) (omega arith)
      (omega arith) (omega arith) (omega arith)

abbrev cached_blocks : Io (List CacheBlock × List ℕ) → List CacheBlock
cached_blocks (done r) = r.0
cached_blocks (failed e blocks) = blocks
cached_blocks overflow = []

abbrev bytes_of : Io (List CacheBlock × List ℕ) → List ℕ
bytes_of (done r) = r.1
bytes_of (failed e blocks) = []
bytes_of overflow = []

-- Two reads from offset 0 of the five bytes, through three unused blocks of two bytes.
read_twice : ℕ → ℕ → List ℕ
unfolding program
read_twice first second = bytes_of (
    caching_read (open_file five_bytes) 2 slash_a second 0
      (cached_blocks (caching_read (open_file five_bytes) 2 slash_a first 0 (caching_init 3))))

read_twice_whole : read_twice 8 8 ≡ five_bytes
unfolding read_twice
read_twice_whole = refl

-- A read of one byte leaves a block of one byte, which the next read takes twice.
read_twice_short : read_twice 1 8 ≡ 1 ∷ 1 ∷ 3 ∷ 4 ∷ []
unfolding read_twice
read_twice_short = refl

-- With the file in the cache, a read of two bytes returns four.
read_twice_warm : read_twice 8 2 ≡ 1 ∷ 2 ∷ 3 ∷ 4 ∷ []
unfolding read_twice
read_twice_warm = refl
