-- ===== src/CachingFs/Session.antt =====
-- Programs that open, read to the end and rename files through the cache of
-- ex4/CachingFileSystem.cpp, and what they would see without it.
use os_huji.Prelude.{
  ℕ, ◌/◌, ◌^◌, ◌<◌, ◌≤◌, ◌≡◌, Option, none, some, List, [], ◌∷◌, length, take, drop, ZeroFree,
  if◌then◌else◌,
}
use os_huji.CachingFs.Block.{CacheBlock, Io, done, ◌>>=◌, same_string}
use os_huji.CachingFs.Cache.{caching_rename}
use os_huji.CachingFs.Read.{OpenFile, bytes, caching_read}

-- The files below the root by their paths.
abbrev pub Files : Type 0
Files = List ℕ → Option (List ℕ)

-- `rename` of a path over another.
abbrev pub moved : List ℕ → List ℕ → Files → Files
moved path newpath files p =
    if same_string p newpath then files path else if same_string p path then none else files p

-- A file is opened, read from offset 0 with room for `size` bytes, and released; or renamed.
pub data Request : Type 0 where
  reads : List ℕ → ℕ → Request
  renames : List ℕ → List ℕ → Request

pub data Result : Type 0 where
  got : List ℕ → Result
  renamed : Result
  missing : Result

-- Without a cache.
unfoldable pub directly : List Request → Files → List Result
directly [] files = []
directly (reads path size ∷ rs) files =
    (elim (files path) [ none ↦ missing | some content ↦ got content ]) ∷ directly rs files
directly (renames path newpath ∷ rs) files = elim (files path) [
  | none ↦ missing ∷ directly rs files
  | some _ ↦ renamed ∷ directly rs (moved path newpath files)
]

-- The system below serves the file.
abbrev pub served : List ℕ → OpenFile
served content = record { pread = λ n o. bytes (take n (drop o content)); st_size = length content }

-- Through the cache. ENOENT of `open` and of `rename` is 2.
unfoldable pub cached : ℕ → List Request → Files → List CacheBlock → Io (List Result)
cached block_size [] files blocks = done []
cached block_size (reads path size ∷ rs) files blocks = elim (files path) [
  | none ↦ cached block_size rs files blocks >>= λ results. done (missing ∷ results)
  | some content ↦ caching_read (served content) block_size path size 0 blocks >>= λ r.
      cached block_size rs files r.0 >>= λ results. done (got r.1 ∷ results)
]
cached block_size (renames path newpath ∷ rs) files blocks = elim (files path) [
  | none ↦ cached block_size rs files blocks >>= λ results. done (missing ∷ results)
  | some _ ↦ caching_rename none path newpath blocks >>= λ blocks'.
      cached block_size rs (moved path newpath files) blocks' >>= λ results.
      done (renamed ∷ results)
]

abbrev pub or_empty : Option (List ℕ) → List ℕ
or_empty none = []
or_empty (some content) = content

abbrev pub content_of : Files → List ℕ → List ℕ
content_of files path = or_empty (files path)

-- The first condition if there is no file, or else the second.
abbrev pub Either : Option (List ℕ) → Type 0 → Type 0 → Type 0
Either none A B = A
Either (some content) A B = B

-- The requests that the cache answers as the files do: paths of one length, for the buffers of the
-- blocks; contents without a zero byte, read in one piece; and no rename over an existing file.
abbrev pub Legal : ℕ → ℕ → List Request → Files → Type 0
Legal room block_size [] files = Unit
Legal room block_size (reads path size ∷ rs) files =
    (length path ≡ room)
    × ZeroFree (content_of files path)
    × (length (content_of files path) ≤ size)
    × (size < 2 ^ 32)
    × (length (content_of files path) / block_size < 2 ^ 31)
    × Legal room block_size rs files
Legal room block_size (renames path newpath ∷ rs) files =
    (length newpath ≡ room)
    × (files newpath ≡ none)
    × Either (files path) (Legal room block_size rs files)
        (Legal room block_size rs (moved path newpath files))
