-- ===== src/CachingFs/Read.antt =====
-- `caching_read` of ex4/CachingFileSystem.cpp, over what the file system below answers.
use os_huji.Prelude.{
  ℕ, zero, suc, ◌+◌, ◌-◌, ◌/◌, ◌%◌, ◌^◌, Bool, true, false, none, some, List, [], ◌++◌, length,
  get_elem?, set, ltb, ◌==◌, if◌then◌else◌,
}
use os_huji.CachingFs.Block.{CacheBlock, Io, done, failed, overflow, ◌>>=◌, increase_count}
use os_huji.CachingFs.Cache.{is_in_cache, search_min_counter, update_block}

-- What `pread` returns: -1 with an `errno`, or the bytes that it read.
pub data Pread : Type 0 where
  errno : ℕ → Pread
  bytes : List ℕ → Pread

-- The open file: `pread` by count and offset, and the size that `fstat` reports.
pub record OpenFile : Type 0 where
  pub pread : ℕ → ℕ → Pread
  pub st_size : ℕ

-- The local variables of `caching_read` that its loop changes, with the cache.
pub record Reading : Type 0 where
  pub blocks : List CacheBlock
  pub gathered : List ℕ
  pub adv_offset : ℕ
  pub left : ℕ
  pub to_read : ℕ
  pub finish : Bool

-- A round of the loop goes on, or returns early with what has been gathered.
pub data Round : Type 0 where
  next : Reading → Round
  stops : Reading → Round

-- The end of a round: block `i` is counted and appended. An index that is out of range does not
-- occur; reading through it would be a fault.
unfoldable pub use_block : ℕ → ℕ → Reading → Io Round
use_block offset i r = elim (get_elem? r.blocks i) [
  | none ↦ overflow
  | some b ↦
      let gathered' = r.gathered ++ b.contents in
      done (
        next (record r {
          blocks = set r.blocks i (increase_count b);
          gathered = gathered';
          adv_offset = offset + length gathered';
        }))
]

-- Block `i` is overwritten by the bytes that were read.
unfoldable pub replace_block : ℕ → List ℕ → List ℕ → ℕ → ℕ → List CacheBlock → Io (List CacheBlock)
replace_block block_size path bs enumerator i blocks = elim (get_elem? blocks i) [
  | none ↦ overflow
  | some b ↦ do b' ← update_block block_size path bs enumerator b; done (set blocks i b')
]

-- The branch of a block that is not in the cache, behind `pread`, which returns no more bytes than
-- were asked for and so no more than are left.
unfoldable pub store_read : ℕ → List ℕ → ℕ → Reading → List ℕ → Io Round
store_read block_size path offset r bs =
    let r1 = record r {
      left = r.left - length bs;
      finish = if ltb (length bs) block_size then true else r.finish;
    } in
    if length bs == 0 then done (stops r1) else (do
      let i = search_min_counter r1.blocks
      blocks' ← replace_block block_size path bs (r1.adv_offset / block_size + 1) i r1.blocks
      use_block offset i (record r1 { blocks = blocks' }))

unfoldable pub fetch_block : OpenFile → ℕ → List ℕ → ℕ → Reading → Io Round
fetch_block file block_size path offset r =
    let r1 = record r { to_read = if ltb r.left block_size then r.left else r.to_read } in
    elim (file.pread r1.to_read r1.adv_offset) [
      | errno e ↦ failed e r1.blocks
      | bytes bs ↦ store_read block_size path offset r1 bs
    ]

unfoldable pub read_round : OpenFile → ℕ → List ℕ → ℕ → Reading → Io Round
read_round file block_size path offset r =
    elim (is_in_cache path (r.adv_offset / block_size + 1) r.blocks) [
      | none ↦ fetch_block file block_size path offset r
      | some i ↦ use_block offset i r
    ]

-- The loop for the rounds that its bound allows, until `finish`.
unfoldable pub read_loop : OpenFile → ℕ → List ℕ → ℕ → ℕ → Reading → Io Reading
read_loop file block_size path offset zero r = done r
read_loop file block_size path offset (suc n) r = elim r.finish [
  | true ↦ done r
  | false ↦ read_round file block_size path offset r >>= λ o. elim o [
    | next r' ↦ read_loop file block_size path offset n r'
    | stops r' ↦ done r'
  ]
]

-- The bound of the loop as it is written: `(offset + (c)) ? st_size - offset : size`, on 64 bits.
unfoldable pub loop_extent : ℕ → ℕ → ℕ → ℕ
loop_extent st_size size offset =
    let past_end = ltb st_size ((offset + size) % 2 ^ 32) in
    if offset + (if past_end then 1 else 0) == 0 then size else (st_size + 2 ^ 64 - offset) % 2 ^ 64

-- `(int) n` of a 64-bit number, counted from -2^31 on, which keeps the order of the signed values.
abbrev pub signed_rank : ℕ → ℕ
signed_rank n = (n + 2 ^ 31) % 2 ^ 32

-- The rounds from `i = (int) first` while `i <= (int) x`, for two quotients: none if the second is
-- converted to something below the first, as when its conversion makes it negative.
unfoldable pub rounds : ℕ → ℕ → ℕ
rounds first x = signed_rank x + 1 - signed_rank first

-- What is copied to `buf` and counted in the result, with the cache afterwards.
unfoldable pub caching_read :
    OpenFile → ℕ → List ℕ → ℕ → ℕ → List CacheBlock → Io (List CacheBlock × List ℕ)
caching_read file block_size path size offset blocks = do
  let n = rounds (offset / block_size) (loop_extent file.st_size size offset / block_size)
  r ← read_loop file block_size path offset n (record {
    blocks = blocks;
    gathered = [];
    adv_offset = offset;
    left = size;
    to_read = block_size;
    finish = false;
  })
  done (r.blocks, r.gathered)
