-- ===== src/CachingFs/Later.antt =====
-- Reads that begin in the later half of a file, `caching_read` of ex4/CachingFileSystem.cpp.
use os_huji.Prelude.{ℕ, ◌-◌, ◌/◌, ◌^◌, ◌≤◌, ◌<◌, ◌≡◌, refl, List, [], arith}
use os_huji.CachingFs.Block.{CacheBlock, done}
use os_huji.CachingFs.Read.{OpenFile, read_loop, loop_extent, rounds, caching_read}

extent_later :
    (l size offset : ℕ)
    → 0 < offset
    → offset ≤ l
    → l < 2 ^ 63
    → loop_extent l size offset ≡ l - offset
unfolding loop_extent
extent_later l size offset p h fits = ground arith

rounds_later :
    (l size offset b : ℕ)
    → offset ≤ l
    → l < 2 ^ 63
    → (l - offset) / b < offset / b
    → offset / b < 2 ^ 31
    → 0 < b
    → rounds (offset / b) (loop_extent l size offset / b) ≡ 0
unfolding rounds
rounds_later l size offset b h fits past few pos =
    rw (extent_later l size offset (grind arith) h fits) (ground arith)

-- The bound of the loop is the number of blocks behind the offset, while its counter starts at the
-- block of the offset. So with blocks of at least a byte, a read that starts before the end of a
-- file of less than 2^63 bytes, in a block whose number is less than 2^31 and larger than the
-- number of whole blocks behind the offset, returns no bytes, whatever its size, though the file
-- goes on, and leaves the cache as it is.
pub caching_read_later :
    (file : OpenFile) (block_size : ℕ) (path : List ℕ) (size offset : ℕ) (blocks : List CacheBlock)
    → 0 < block_size
    → offset < file.st_size
    → file.st_size < 2 ^ 63
    → offset / block_size < 2 ^ 31
    → (file.st_size - offset) / block_size < offset / block_size
    → caching_read file block_size path size offset blocks ≡ done (blocks, [])
unfolding caching_read read_loop
caching_read_later file block_size path size offset blocks pos inside fits few past =
    rw
      (
        rounds_later file.st_size size offset block_size (omega arith) fits past few pos,
        caching_read,
      )
      refl
