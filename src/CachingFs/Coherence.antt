-- ===== src/CachingFs/Coherence.antt =====
-- A cache whose blocks are parts of the files that they are labelled with, and one round of the
-- loop of `caching_read` (ex4/CachingFileSystem.cpp) over it, in a read from offset 0.
use os_huji.Prelude.{
  c_string, ZeroFree, c_string_of_ZeroFree, ℕ, suc, ◌+◌, ◌-◌, ◌*◌, ◌/◌, ◌≤◌, ◌<◌, ◌≡◌, inl, inr,
  refl, ap, sym, ◌∙◌, true, false, Bool-cases, some, List, ◌++◌, length, take, drop, get_elem?, set,
  All, All-set, All-get_elem?, length-append, length-set, length-take, length-drop,
  take_of_length-le, get_elem?-set_self, lt_of_get_elem?, ltb, ◌==◌, if◌then◌else◌, arith,
}
use os_huji.CachingFs.Block.{CacheBlock, done, increase_count}
use os_huji.CachingFs.Cache.{search_min_counter, update_block}
use os_huji.CachingFs.Read.{
  OpenFile, Reading, Round, next, stops, use_block, replace_block, store_read,
}
use os_huji.CachingFs.Search.{Labelled}
use os_huji.CachingFs.Counters.{search_min_counter_in_range}
use os_huji.CachingFs.Labels.{Roomy, update_block-Roomy}
use os_huji.CachingFs.Parts.{
  Genuine, Serves, part, gathered-part, length-part, part-ZeroFree, short_part_whole,
  empty_part_whole, Genuine-part, stored-Genuine, mul-div_cancel,
}

module _ (file : OpenFile) (block_size : ℕ) (path : List ℕ) (content : List ℕ → List ℕ)
    (positive : 0 < block_size) (serves : Serves file (content path))
    (zero_free : ZeroFree (content path)) where
  -- The cache is genuine and can take the path.
  pub record Sound (blocks : List CacheBlock) : Type 0 where
    pub genuine : All (Genuine block_size content) blocks
    pub roomy : All (Roomy path) blocks
    pub inhabited : 0 < length blocks

  pub record Finished (r : Reading) : Type 0 where
    pub sound : Sound r.blocks
    pub whole : r.gathered ≡ content path

  -- After `i` full rounds.
  pub record Progress (i : ℕ) (r : Reading) : Type 0 where
    pub sound : Sound r.blocks
    pub gathered : r.gathered ≡ take (i * block_size) (content path)
    pub offset : r.adv_offset ≡ length r.gathered
    pub enough : length (content path) ≤ r.left + length r.gathered
    pub full : r.to_read ≡ block_size
    pub going : r.finish ≡ false

  abbrev pub RoundIsGood : ℕ → Round → Type 0
  RoundIsGood i (next r) = (r.finish ≡ true → Finished r) × (r.finish ≡ false → Progress (suc i) r)
  RoundIsGood i (stops r) = Finished r

  -- The state after a block has been counted and appended.
  abbrev pub used : ℕ → CacheBlock → Reading → Reading
  used k b r = record r {
    blocks = set r.blocks k (increase_count b);
    gathered = r.gathered ++ b.contents;
    adv_offset = 0 + length (r.gathered ++ b.contents);
  }

  set-Sound :
      (blocks : List CacheBlock) (k : ℕ) (b : CacheBlock)
      → Sound blocks
      → Genuine block_size content b
      → Roomy path b
      → Sound (set blocks k b)
  set-Sound blocks k b v g room = record {
    genuine = All-set (Genuine block_size content) blocks k b v.genuine g;
    roomy = All-set (Roomy path) blocks k b v.roomy room;
    inhabited = omega (arith, length-set blocks k b, v.inhabited);
  }

  used-Sound :
      (k : ℕ) (b : CacheBlock) (r : Reading)
      → Sound r.blocks
      → get_elem? r.blocks k ≡ some b
      → Sound (used k b r).blocks
  used-Sound k b r v at =
      set-Sound r.blocks k (increase_count b) v
        (All-get_elem? (Genuine block_size content) r.blocks k b v.genuine at)
        (All-get_elem? (Roomy path) r.blocks k b v.roomy at)

  used-gathered :
      (i k : ℕ) (b : CacheBlock) (r : Reading)
      → r.gathered ≡ take (i * block_size) (content path)
      → b.contents ≡ part block_size (content path) i
      → (used k b r).gathered ≡ take (suc i * block_size) (content path)
  used-gathered i k b r g c = rw (g, c) (sym (gathered-part block_size (content path) i))

  -- A block that is in the cache is used as it is.
  pub use_genuine :
      (i k : ℕ) (r : Reading) (b : CacheBlock) (p : Progress i r)
      → get_elem? r.blocks k ≡ some b
      → Labelled path (i + 1) b
      → (use_block 0 k r ≡ done (next (used k b r))) × Progress (suc i) (used k b r)
  unfolding use_block
  use_genuine i k r b p at l =
      let g : Genuine block_size content b =
        All-get_elem? (Genuine block_size content) r.blocks k b p.sound.genuine at in
      (
        rw (at, use_block) refl,
        record {
          sound = used-Sound k b r p.sound at;
          gathered =
              used-gathered i k b r p.gathered (Genuine-part block_size path content i b g l);
          offset = omega arith;
          enough = omega (arith, p.enough, length-append {0} r.gathered b.contents);
          full = p.full;
          going = p.going;
        },
      )

  pub length-gathered :
      (i : ℕ) (r : Reading)
      → Progress i r
      → i * block_size ≤ length (content path)
      → length r.gathered ≡ i * block_size
  length-gathered i r p h =
      omega (arith, ap length p.gathered, length-take (i * block_size) (content path))

  unfoldable pub asked : Reading → ℕ
  asked r = if ltb r.left block_size then r.left else r.to_read

  pub asked-part :
      (i : ℕ) (r : Reading)
      → Progress i r
      → i * block_size ≤ length (content path)
      → take (asked r) (drop (i * block_size) (content path)) ≡ part block_size (content path) i
  unfolding asked part
  asked-part i r p h = elim (Bool-cases (ltb r.left block_size)) [
    | inl less ↦
        let tail : List ℕ = drop (i * block_size) (content path) in
        let short : length tail ≤ r.left =
          omega (
            arith,
            length-gathered i r p h,
            p.enough,
            length-drop (i * block_size) (content path),
          ) in
        rw less (
          take_of_length-le r.left tail short
          ∙ sym (take_of_length-le block_size tail (ground arith)))
    | inr enough ↦ rw (enough, p.full) refl
  ]

  -- `left` and `finish` after the read of a part.
  abbrev pub after_read : List ℕ → Reading → Reading
  after_read chunk r = record r {
    to_read = asked r;
    left = r.left - length chunk;
    finish = if ltb (length chunk) block_size then true else r.finish;
  }

  full_part-asked :
      (i : ℕ) (r : Reading)
      → Progress i r
      → i * block_size ≤ length (content path)
      → block_size ≤ length (part block_size (content path) i)
      → (asked r ≡ block_size) × (block_size ≤ r.left)
  unfolding asked
  full_part-asked i r p h full = elim (Bool-cases (ltb r.left block_size)) [
    | inl less ↦ absurd (
        ground (
          arith,
          ap length (asked-part i r p h),
          length-take r.left (drop (i * block_size) (content path)),
        ))
    | inr enough ↦ (rw enough p.full, ground arith)
  ]

  module _ (i : ℕ) (r : Reading) (p : Progress i r)
      (h : i * block_size ≤ length (content path)) where
    stored-Progress :
        (k : ℕ) (b : CacheBlock) (blocks : List CacheBlock)
        → Sound blocks
        → get_elem? blocks k ≡ some b
        → b.contents ≡ part block_size (content path) i
        → RoundIsGood i (
            next (
              used k b
                (record (after_read (part block_size (content path) i) r) { blocks = blocks })))
    stored-Progress k b blocks v at c = (
      (λ f. record {
        sound = used-Sound k b r2 v at;
        whole = gathered ∙ short_part_whole block_size (content path) i h (ground (arith, p.going));
      }),
      (λ f. record {
        sound = used-Sound k b r2 v at;
        gathered = gathered;
        offset = omega arith;
        enough = omega (
          arith,
          p.enough,
          length-append {0} r.gathered b.contents,
          ap length c,
          (full_part-asked i r p h (ground arith)).1,
          length-part block_size (content path) i h,
        );
        full = (full_part-asked i r p h (ground arith)).0;
        going = f;
      }),
    )
      where
        r2 : Reading
        r2 = record (after_read (part block_size (content path) i) r) { blocks = blocks }

        gathered : (used k b r2).gathered ≡ take (suc i * block_size) (content path)
        gathered = used-gathered i k b r2 p.gathered c

    pub current_number : r.adv_offset / block_size + 1 ≡ i + 1
    current_number =
        let o : r.adv_offset ≡ i * block_size = omega (arith, p.offset, length-gathered i r p h) in
        rw o (ap (λ (n : ℕ). n + 1) (mul-div_cancel i block_size positive))

    store_read_runs :
        (old b : CacheBlock)
        → get_elem? r.blocks (search_min_counter r.blocks) ≡ some old
        → update_block block_size path
            (part block_size (content path) i)
            (r.adv_offset / block_size + 1)
            old
          ≡ done b
        → get_elem? (set r.blocks (search_min_counter r.blocks) b) (search_min_counter r.blocks)
          ≡ some b
        → (length (part block_size (content path) i) == 0) ≡ false
        → store_read block_size path 0
            (record r { to_read = asked r })
            (part block_size (content path) i)
          ≡ done (
              next (
                used
                  (search_min_counter r.blocks)
                  b
                  (record (after_read (part block_size (content path) i) r) {
                    blocks = set r.blocks (search_min_counter r.blocks) b;
                  })))
    unfolding store_read replace_block use_block
    store_read_runs old b at e at_k full =
        rw (full, store_read) (rw (at, replace_block) (rw e (rw (at_k, use_block) refl)))

    -- A part that the round has read is stored in a block and used.
    pub store_part :
        (o : Round) × (store_read block_size path 0
            (record r { to_read = asked r })
            (part block_size (content path) i)
          ≡ done o)
        × RoundIsGood i o
    unfolding store_read replace_block use_block
    store_part =
        let k : ℕ = search_min_counter r.blocks in
        elim (Bool-cases (length (part block_size (content path) i) == 0)) [
          | inl empty ↦ (
            stops (after_read (part block_size (content path) i) r),
            rw (empty, store_read) refl,
            record {
              sound = p.sound;
              whole =
                  p.gathered
                  ∙ empty_part_whole block_size (content path) i positive h (ground arith);
            },
          )
          | inr some_bytes ↦
              let (old, at) = search_min_counter_in_range r.blocks p.sound.inhabited in
              let plain : c_string (part block_size (content path) i)
                  ≡ part block_size (content path) i =
                c_string_of_ZeroFree (part block_size (content path) i)
                  (part-ZeroFree block_size (content path) i zero_free) in
              let (b, e, named, room, c, n, count, kept) =
                update_block-Roomy block_size path (part block_size (content path) i)
                  (r.adv_offset / block_size + 1) old
                  (rw plain (omega (arith, length-part block_size (content path) i h)))
                  (All-get_elem? (Roomy path) r.blocks k old p.sound.roomy at) in
              let number : b.block_enumerator ≡ i + 1 = n ∙ current_number in
              let v : Sound (set r.blocks k b) =
                set-Sound r.blocks k b p.sound
                  (stored-Genuine block_size path content i b
                    (ground (arith, length-part block_size (content path) i h)) named number
                    (c ∙ plain))
                  (inr room) in
              let at_k : get_elem? (set r.blocks k b) k ≡ some b =
                get_elem?-set_self r.blocks k b (lt_of_get_elem? r.blocks k old at) in
              (
                next (
                    used k b (record (after_read (part block_size (content path) i) r) {
                      blocks = set r.blocks k b;
                    })),
                store_read_runs old b at e at_k some_bytes,
                stored-Progress k b (set r.blocks k b) v at_k (c ∙ plain),
              )
        ]
