-- ===== src/CachingFs/Refinement.antt =====
-- The cache of ex4/CachingFileSystem.cpp against the files below it.
use os_huji.Prelude.{
  ℕ, zero, suc, ◌/◌, ◌^◌, ◌<◌, ◌≤◌, ◌≡◌, inl, inr, refl, ap, sym, subst, none, Option-cases, List,
  [], ◌∷◌, length, length-map, map, All, All-mono, replicate, length-replicate, ZeroFree, arith,
}
use os_huji.CachingFs.Block.{CacheBlock, done, new_block}
use os_huji.CachingFs.Cache.{caching_rename, caching_init}
use os_huji.CachingFs.Read.{caching_read}
use os_huji.CachingFs.Labels.{relabel, rename_blocks-map}
use os_huji.CachingFs.Parts.{Genuine}
use os_huji.CachingFs.Whole.{caching_read_whole}
use os_huji.CachingFs.Session.{
  Files, moved, Request, reads, renames, directly, cached, served, or_empty, content_of, Either,
  Legal,
}
use os_huji.CachingFs.Renaming.{served-Serves, relabel-All, RoomFor, relabel-RoomFor, rename_room}

module _ (block_size room : ℕ) (positive : 0 < block_size) where
  -- The cache behind the files: parts of them, with room for the paths.
  pub record Behind (files : Files) (blocks : List CacheBlock) : Type 0 where
    pub genuine : All (Genuine block_size (content_of files)) blocks
    pub roomy : All (RoomFor room) blocks
    pub inhabited : 0 < length blocks

  rename-Behind :
      (path newpath : List ℕ) (files : Files) (blocks : List CacheBlock)
      → length newpath ≡ room
      → files newpath ≡ none
      → Behind files blocks
      → (blocks' : List CacheBlock) × (caching_rename none path newpath blocks ≡ done blocks')
        × Behind (moved path newpath files) blocks'
  unfolding caching_rename
  rename-Behind path newpath files blocks fits gone v = (
    map (relabel path newpath) blocks,
    rename_blocks-map path newpath blocks (rename_room room path newpath blocks fits v.roomy),
    record {
      genuine = relabel-All block_size path newpath files blocks gone v.genuine;
      roomy = relabel-RoomFor room path newpath blocks v.roomy;
      inhabited = omega (arith, length-map blocks (relabel path newpath), v.inhabited);
    },
  )

  read-Behind :
      (path : List ℕ) (size : ℕ) (files : Files) (blocks : List CacheBlock)
      → length path ≡ room
      → ZeroFree (content_of files path)
      → length (content_of files path) ≤ size
      → size < 2 ^ 32
      → length (content_of files path) / block_size < 2 ^ 31
      → Behind files blocks
      → (blocks' : List CacheBlock) × (caching_read
            (served (content_of files path))
            block_size
            path
            size
            0
            blocks
          ≡ done (blocks', content_of files path))
        × Behind files blocks'
  read-Behind path size files blocks fits free more small few v =
      let (blocks', ran, genuine, roomy, inhabited) =
        caching_read_whole (served (content_of files path)) block_size path (content_of files) size
          blocks positive (served-Serves (content_of files path)) free v.inhabited v.genuine
          (All-mono blocks (λ b h. subst (λ k. RoomFor k b) (sym fits) h) v.roomy) more small few in
      (
        blocks',
        ran,
        record {
          genuine = genuine;
          roomy = All-mono blocks' (λ b h. subst (λ k. RoomFor k b) fits h) roomy;
          inhabited = inhabited;
        },
      )

  cached-Behind :
      (rs : List Request) (files : Files) (blocks : List CacheBlock)
      → Behind files blocks
      → Legal room block_size rs files
      → cached block_size rs files blocks ≡ done (directly rs files)
  unfolding cached directly
  cached-Behind [] files blocks v legal = refl
  cached-Behind (reads path size ∷ rs) files blocks v (fits, free, more, small, few, legal) =
      let (blocks', ran, v') = read-Behind path size files blocks fits free more small few v in
      let missed = cached-Behind rs files blocks v legal in
      let hit = cached-Behind rs files blocks' v' legal in
      elim (Option-cases (files path)) [
        | inl absent ↦ ground (arith, absent, missed)
        | inr (content, there) ↦
            let same : content_of files path ≡ content = ap or_empty there in
            ground (arith, there, ran, same, hit)
      ]
  cached-Behind (renames path newpath ∷ rs) files blocks v (fits, gone, legal) =
      let (blocks', ran, v') = rename-Behind path newpath files blocks fits gone v in
      elim (Option-cases (files path)) [
        | inl absent ↦ ground (
          arith,
          absent,
          cached-Behind rs files blocks v (
              subst
                (λ o.
                  Either o (Legal room block_size rs files)
                    (Legal room block_size rs (moved path newpath files)))
                absent legal),
        )
        | inr (content, there) ↦ ground (
          arith,
          there,
          ran,
          cached-Behind rs (moved path newpath files) blocks' v' (
              subst
                (λ o.
                  Either o (Legal room block_size rs files)
                    (Legal room block_size rs (moved path newpath files)))
                there legal),
        )
      ]

init-Behind :
    (block_size room n : ℕ) (positive : 0 < block_size) (files : Files)
    → 0 < n
    → Behind block_size room positive files (caching_init n)
unfolding caching_init new_block
init-Behind block_size room n positive files some_block = record {
  genuine = unused n;
  roomy = empty n;
  inhabited = omega (arith, length-replicate n new_block, some_block);
}
  where
    unused : (k : ℕ) → All (Genuine block_size (content_of files)) (replicate k new_block)
    unused zero = tt
    unused (suc k) = ((λ p e. absurd (ground arith)), unused k)

    empty : (k : ℕ) → All (RoomFor room) (replicate k new_block)
    empty zero = tt
    empty (suc k) = (inl refl, empty k)

-- From an empty cache, legal requests are answered as without it.
pub cached-directly :
    (block_size room num_of_blocks : ℕ) (rs : List Request) (files : Files)
    → 0 < block_size
    → 0 < num_of_blocks
    → Legal room block_size rs files
    → cached block_size rs files (caching_init num_of_blocks) ≡ done (directly rs files)
cached-directly block_size room num_of_blocks rs files positive some_block legal =
    cached-Behind block_size room positive rs files (caching_init num_of_blocks)
      (init-Behind block_size room num_of_blocks positive files some_block) legal
