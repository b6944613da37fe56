-- ===== src/CachingFs/Whole.antt =====
-- Reading a whole file through the cache, `caching_read` of ex4/CachingFileSystem.cpp from offset
-- 0.
use native.Mathlib.Nat.{zero-mul}
use os_huji.Prelude.{
  ZeroFree, ℕ, zero, suc, ◌+◌, ◌*◌, ◌/◌, ◌^◌, ◌≤◌, ◌<◌, ◌≡◌, ◌∙◌, inl, inr, refl, ap, true, false,
  Bool-cases, List, [], length, take_of_length-le, All, ltb, if◌then◌else◌, arith,
}
use os_huji.CachingFs.Block.{CacheBlock, Io, done}
use os_huji.CachingFs.Read.{
  OpenFile, Reading, Round, next, stops, store_read, fetch_block, read_round, read_loop,
  loop_extent, rounds, caching_read,
}
use os_huji.CachingFs.Search.{is_in_cache_first}
use os_huji.CachingFs.Labels.{Roomy}
use os_huji.CachingFs.Coherence.{
  Finished, Progress, RoundIsGood, used, asked, asked-part, length-gathered, use_genuine,
  store_part, current_number,
}
use os_huji.CachingFs.Parts.{Serves, Genuine, part}

le_of_beyond : (l b i : ℕ) → 0 < b → i ≡ l / b + 1 → l ≤ i * b
le_of_beyond l b i h e = grind arith

le_of_quotient : (l b i : ℕ) → 0 < b → i ≤ l / b → i * b ≤ l
le_of_quotient l b i h e = grind arith

module _ (file : OpenFile) (block_size : ℕ) (path : List ℕ) (content : List ℕ → List ℕ)
    (positive : 0 < block_size) (serves : Serves file (content path))
    (zero_free : ZeroFree (content path)) where
  abbrev Good : ℕ → Round → Type 0
  Good = RoundIsGood file block_size path content positive serves zero_free

  abbrev After : ℕ → Reading → Type 0
  After = Progress file block_size path content positive serves zero_free

  abbrev Whole : Reading → Type 0
  Whole = Finished file block_size path content positive serves zero_free

  fetch_block-part :
      (i : ℕ) (r : Reading)
      → After i r
      → i * block_size ≤ length (content path)
      → fetch_block file block_size path 0 r
        ≡ store_read block_size path 0
            (record r { to_read = asked file block_size path content positive serves zero_free r })
            (part block_size (content path) i)
  unfolding fetch_block asked
  fetch_block-part i r p h =
      let o : r.adv_offset ≡ i * block_size = omega (
        arith,
        p.offset,
        length-gathered file block_size path content positive serves zero_free i r p h,
      ) in
      rw
        (
          serves.reads (if ltb r.left block_size then r.left else r.to_read) r.adv_offset,
          fetch_block,
        )
        (rw o (
          ap
            (store_read block_size path 0 (record r {
              adv_offset = i * block_size;
              to_read = asked file block_size path content positive serves zero_free r;
            }))
            (asked-part file block_size path content positive serves zero_free i r p h)))

  read_round-Good :
      (i : ℕ) (r : Reading)
      → After i r
      → i * block_size ≤ length (content path)
      → (o : Round) × (read_round file block_size path 0 r ≡ done o) × Good i o
  unfolding read_round
  read_round-Good i r p h = elim (is_in_cache_first path (i + 1) r.blocks) [
    | inl (e, absent) ↦
        let (o, ran, good) =
          store_part file block_size path content positive serves zero_free i r p h in
        (
          o,
          rw
              (
                current_number file block_size path content positive serves zero_free i r p h,
                read_round,
              )
              (rw e (fetch_block-part i r p h ∙ ran)),
          good,
        )
    | inr (k, b, e, at, l, first) ↦
        let (ran, progress) =
          use_genuine file block_size path content positive serves zero_free i k r b p at l in
        (
          next (used file block_size path content positive serves zero_free k b r),
          rw
              (
                current_number file block_size path content positive serves zero_free i r p h,
                read_round,
              )
              (rw e ran),
          ((λ f. absurd (ground (arith, p.going))), (λ f. progress)),
        )
  ]

  read_loop_finished :
      (n : ℕ) (r : Reading) → r.finish ≡ true → read_loop file block_size path 0 n r ≡ done r
  unfolding read_loop
  read_loop_finished zero r e = refl
  read_loop_finished (suc n) r e = ground arith

  -- What the loop does with the outcome of a round when `n` rounds are left.
  abbrev continue : ℕ → Round → Io Reading
  continue n (next r) = read_loop file block_size path 0 n r
  continue n (stops r) = done r

  read_loop-suc :
      (n : ℕ) (r : Reading) (o : Round)
      → r.finish ≡ false
      → read_round file block_size path 0 r ≡ done o
      → read_loop file block_size path 0 (suc n) r ≡ continue n o
  unfolding read_loop
  read_loop-suc n r o going ran = ground arith

  abbrev Ends : Io Reading → Type 0
  Ends x = (r : Reading) × (x ≡ done r) × Whole r

  continue-Ends :
      (n i : ℕ) (o : Round)
      → Good i o
      → ((r : Reading) → After (suc i) r → Ends (read_loop file block_size path 0 n r))
      → Ends (continue n o)
  continue-Ends n i (next r) g loop = elim (Bool-cases r.finish) [
    | inl finished ↦ (r, read_loop_finished n r finished, g.0 finished)
    | inr going ↦ loop r (g.1 going)
  ]
  continue-Ends n i (stops r) g loop = (r, refl, g)

  read_loop-Whole :
      (n i : ℕ) (r : Reading)
      → n + i ≡ length (content path) / block_size + 1
      → After i r
      → Ends (read_loop file block_size path 0 n r)
  read_loop-Whole zero i r e p = (
    r,
    unfold read_loop in refl,
    record {
      sound = p.sound;
      whole =
          p.gathered
          ∙ take_of_length-le (i * block_size) (content path)
              (le_of_beyond (length (content path)) block_size i positive (omega arith));
    },
  )
  read_loop-Whole (suc n) i r e p =
      let (o, ran, good) =
        read_round-Good i r p
          (le_of_quotient (length (content path)) block_size i positive (omega arith)) in
      rw (read_loop-suc n r o p.going ran)
        (continue-Ends n i o good (λ r' p'. read_loop-Whole n (suc i) r' (omega arith) p'))

loop_extent_start : (l size : ℕ) → l ≤ size → size < 2 ^ 32 → loop_extent l size 0 ≡ l
unfolding loop_extent
loop_extent_start l size more fits = ground arith

rounds_start :
    (l size b : ℕ)
    → 0 < b
    → l ≤ size
    → size < 2 ^ 32
    → l / b < 2 ^ 31
    → rounds (0 / b) (loop_extent l size 0 / b) ≡ l / b + 1
unfolding rounds
rounds_start l size b h more fits few =
    let zero_first : 0 / b ≡ 0 = omega arith in
    rw (loop_extent_start l size more fits, zero_first) (ground arith)

abbrev start : ℕ → ℕ → List CacheBlock → Reading
start block_size size blocks = record {
  blocks = blocks;
  gathered = [];
  adv_offset = 0;
  left = size;
  to_read = block_size;
  finish = false;
}

caching_read-loop :
    (file : OpenFile) (block_size : ℕ) (path : List ℕ) (size n : ℕ) (blocks : List CacheBlock)
    (r : Reading)
    → rounds (0 / block_size) (loop_extent file.st_size size 0 / block_size) ≡ n
    → read_loop file block_size path 0 n (start block_size size blocks) ≡ done r
    → caching_read file block_size path size 0 blocks ≡ done (r.blocks, r.gathered)
unfolding caching_read
caching_read-loop file block_size path size n blocks r e ran = rw (e, caching_read) (rw ran refl)

-- A read from offset 0 of at least as many bytes as the file has returns exactly the file, whatever
-- part of it is in the cache and whatever has to be evicted, if the cache holds parts of the files
-- that its blocks are labelled with. The cache still does so afterwards, and is not empty. The file
-- has no zero byte, every used buffer has room for the path, and the sizes fit the program's
-- integers.
pub caching_read_whole :
    (file : OpenFile) (block_size : ℕ) (path : List ℕ) (content : List ℕ → List ℕ) (size : ℕ)
    (blocks : List CacheBlock)
    → 0 < block_size
    → Serves file (content path)
    → ZeroFree (content path)
    → 0 < length blocks
    → All (Genuine block_size content) blocks
    → All (Roomy path) blocks
    → length (content path) ≤ size
    → size < 2 ^ 32
    → length (content path) / block_size < 2 ^ 31
    → (blocks' : List CacheBlock) × (caching_read file block_size path size 0 blocks
        ≡ done (blocks', content path))
      × All (Genuine block_size content) blocks'
      × All (Roomy path) blocks'
      × (0 < length blocks')
caching_read_whole file block_size path content size blocks positive serves zero_free some_block
      genuine roomy more fits few =
    let l : ℕ = length (content path) in
    let n : rounds (0 / block_size) (loop_extent file.st_size size 0 / block_size)
        ≡ l / block_size + 1 =
      rw serves.size (rounds_start l size block_size positive more fits few) in
    let (r, ran, w) =
      read_loop-Whole file block_size path content positive serves zero_free (l / block_size + 1) 0
        (start block_size size blocks) (omega arith)
        (record {
          sound = record { genuine = genuine; roomy = roomy; inhabited = some_block };
          gathered = rw zero-mul refl;
          offset = refl;
          enough = omega arith;
          full = refl;
          going = refl;
        }) in
    (
      r.blocks,
      caching_read-loop file block_size path size (l / block_size + 1) blocks r n ran
          ∙ ap (λ g. done (r.blocks, g)) w.whole,
      w.sound.genuine,
      w.sound.roomy,
      w.sound.inhabited,
    )
