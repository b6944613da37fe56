-- ===== src/CachingFs/Labels.antt =====
-- What overwriting a block and `caching_rename` do to the labels of the cache, and when they write
-- past the end of a buffer (ex4/CachingFileSystem.cpp).
use os_huji.Prelude.{
  c_string, ℕ, suc, ◌+◌, ◌≤◌, ◌<◌, ◌≡◌, ◌≢◌, ◌⊎◌, inl, inr, refl, zero, ◌↔◌, map, true, false,
  Option, none, some, List, [], ◌∷◌, length, get_elem?, All, Bool-cases, if◌then◌else◌, arith,
}
use os_huji.CachingFs.Block.{CacheBlock, done, overflow, set_data, set_path}
use os_huji.CachingFs.Cache.{update_block, has_path, rename_blocks, caching_rename}
use os_huji.CachingFs.Search.{Labelled, same_string→eq, same_string_refl}

-- The path fits into the buffer that the block has, or the block has none yet.
abbrev pub Roomy : List ℕ → CacheBlock → Type 0
Roomy path b = (b.path ≡ none) ⊎ (length path < b.path_room)

pub set_path-Roomy :
    (path : List ℕ) (b : CacheBlock)
    → Roomy path b
    → (b' : CacheBlock) × (set_path path b ≡ done b')
      × (b'.path ≡ some path)
      × (length path < b'.path_room)
      × (b'.contents ≡ b.contents)
      × (b'.block_enumerator ≡ b.block_enumerator)
      × (b'.counter ≡ b.counter)
      × ((b.path ≡ none) ⊎ (b'.path_room ≡ b.path_room))
unfolding set_path
set_path-Roomy path b (inl e) = (
  record b { path = some path; path_room = length path + 1 },
  ground arith,
  refl,
  omega arith,
  refl,
  refl,
  refl,
  inl e,
)
set_path-Roomy path b (inr h) = go b.path refl
  where
    go :
        (o : Option (List ℕ))
        → b.path ≡ o
        → (b' : CacheBlock) × (set_path path b ≡ done b')
          × (b'.path ≡ some path)
          × (length path < b'.path_room)
          × (b'.contents ≡ b.contents)
          × (b'.block_enumerator ≡ b.block_enumerator)
          × (b'.counter ≡ b.counter)
          × ((b.path ≡ none) ⊎ (b'.path_room ≡ b.path_room))
    go none e = (
      record b { path = some path; path_room = length path + 1 },
      ground arith,
      refl,
      omega arith,
      refl,
      refl,
      refl,
      inl e,
    )
    go (some p) e =
        (record b { path = some path }, ground arith, refl, h, refl, refl, refl, inr refl)

-- A block whose buffer was allocated for a shorter path is written past its end, whatever the rest
-- of the call is.
pub update_block_overflows :
    (block_size : ℕ) (path p bytes : List ℕ) (enumerator : ℕ) (b : CacheBlock)
    → b.path ≡ some p
    → b.path_room ≤ length path
    → update_block block_size path bytes enumerator b ≡ overflow
unfolding update_block set_data set_path
update_block_overflows block_size path p bytes enumerator b e h = ground arith

-- With room for the path and at most a block of bytes, the block holds the bytes before the first
-- zero under the path and the number, with its counter reset.
pub update_block-Roomy :
    (block_size : ℕ) (path bytes : List ℕ) (enumerator : ℕ) (b : CacheBlock)
    → length (c_string bytes) ≤ block_size
    → Roomy path b
    → (b' : CacheBlock) × (update_block block_size path bytes enumerator b ≡ done b')
      × (b'.path ≡ some path)
      × (length path < b'.path_room)
      × (b'.contents ≡ c_string bytes)
      × (b'.block_enumerator ≡ enumerator)
      × (b'.counter ≡ 0)
      × ((b.path ≡ none) ⊎ (b'.path_room ≡ b.path_room))
unfolding update_block set_data
update_block-Roomy block_size path bytes enumerator b short room =
    let b2 : CacheBlock = record b {
      block_enumerator = enumerator;
      counter = 0;
      contents = c_string bytes;
    } in
    let (b', e, p, r, d, n, c, q) = set_path-Roomy path b2 room in
    (b', ground arith, p, r, d, n, c, q)

-- What a rename makes of one block.
abbrev pub relabel : List ℕ → List ℕ → CacheBlock → CacheBlock
relabel path newpath b = if has_path path b then record b { path = some newpath } else b

pub has_path→eq : (path : List ℕ) (b : CacheBlock) → has_path path b ≡ true → b.path ≡ some path
unfolding has_path
has_path→eq path b h = go b.path refl
  where
    go : (o : Option (List ℕ)) → b.path ≡ o → b.path ≡ some path
    go none e = absurd (ground arith)
    go (some p) e = ground (arith, same_string→eq p path)

pub not_path→ne : (path : List ℕ) (b : CacheBlock) → has_path path b ≡ false → b.path ≢ some path
unfolding has_path
not_path→ne path b h = λ e. ground (arith, same_string_refl path)

module _ (path newpath : List ℕ) (b : CacheBlock) where
  pub relabel→Labelled :
      (k : ℕ)
      → Labelled newpath k (relabel path newpath b)
      → Labelled path k b ⊎ Labelled newpath k b
  relabel→Labelled k w = elim (Bool-cases (has_path path b)) [
    | inl here ↦ inl (has_path→eq path b here, ground arith)
    | inr other ↦ inr (ground arith)
  ]

  pub Labelled→relabel :
      (k : ℕ)
      → Labelled path k b ⊎ Labelled newpath k b
      → Labelled newpath k (relabel path newpath b)
  Labelled→relabel k w = ground (arith, not_path→ne path b)

  relabel-ne : path ≢ newpath → (relabel path newpath b).path ≢ some path
  relabel-ne ne = λ e. ground (arith, not_path→ne path b)

pub rename_blocks-map :
    (path newpath : List ℕ) (blocks : List CacheBlock)
    → All (λ b. (has_path path b ≡ true) → length newpath < b.path_room) blocks
    → rename_blocks path newpath blocks ≡ done (map (relabel path newpath) blocks)
unfolding rename_blocks set_path
rename_blocks-map path newpath [] rooms = refl
rename_blocks-map path newpath (b ∷ bs) rooms = elim (Bool-cases (has_path path b)) [
  | inl here ↦
      ground (arith, has_path→eq path b here, rooms.0, rename_blocks-map path newpath bs rooms.1)
  | inr other ↦ ground (arith, rename_blocks-map path newpath bs rooms.1)
]

pub get_elem?-map :
    (g : CacheBlock → CacheBlock) (bs : List CacheBlock) (i : ℕ) (b : CacheBlock)
    → get_elem? bs i ≡ some b
    → get_elem? (map g bs) i ≡ some (g b)
get_elem?-map g [] i b e = ground arith
get_elem?-map g (c ∷ bs) zero b e = ground arith
get_elem?-map g (c ∷ bs) (suc i) b e = get_elem?-map g bs i b e

-- A rename that the file system below accepts, where every block of the old path has room for the
-- new one, succeeds, and position for position a block is labelled with the new path afterwards
-- exactly if it was labelled with the old or the new one before, under the same number. No block
-- keeps the old path if the two differ, and contents and counters do not change.
pub caching_rename-Labelled :
    (path newpath : List ℕ) (blocks : List CacheBlock)
    → All (λ b. (has_path path b ≡ true) → length newpath < b.path_room) blocks
    → (blocks' : List CacheBlock) × (caching_rename none path newpath blocks ≡ done blocks')
      × ((i : ℕ) (b : CacheBlock)
          → get_elem? blocks i ≡ some b
          → (b' : CacheBlock) × (get_elem? blocks' i ≡ some b')
            × ((k : ℕ) → Labelled newpath k b' ↔ (Labelled path k b ⊎ Labelled newpath k b))
            × (path ≢ newpath → b'.path ≢ some path)
            × (b'.contents ≡ b.contents)
            × (b'.counter ≡ b.counter))
unfolding caching_rename
caching_rename-Labelled path newpath blocks rooms = (
  map (relabel path newpath) blocks,
  rename_blocks-map path newpath blocks rooms,
  λ i b e. (
    relabel path newpath b,
    get_elem?-map (relabel path newpath) blocks i b e,
    (λ k. (relabel→Labelled path newpath b k, Labelled→relabel path newpath b k)),
    (λ ne. relabel-ne path newpath b ne),
    ground arith,
    ground arith,
  ),
)
