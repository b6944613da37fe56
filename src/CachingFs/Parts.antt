-- ===== src/CachingFs/Parts.antt =====
-- The parts of a file that the blocks of ex4/CachingFileSystem.cpp hold.
use os_huji.Prelude.{
  ZeroFree, ℕ, suc, ◌+◌, ◌-◌, ◌*◌, ◌/◌, ◌≤◌, ◌<◌, ◌≡◌, subst, some, List, ◌++◌, length, take, drop,
  min, All-take, All-drop, length-take, length-drop, take-add, take_of_length-le, arith,
}
use os_huji.CachingFs.Block.{CacheBlock}
use os_huji.CachingFs.Read.{OpenFile, bytes}
use os_huji.CachingFs.Search.{Labelled}

-- `n` is the number of a part of the file, counted from 1, and the bytes are that part.
pub record Part (block_size : ℕ) (file : List ℕ) (n : ℕ) (part : List ℕ) : Type 0 where
  pub index : ℕ
  pub number : n ≡ suc index
  pub inside : index * block_size < length file
  pub same : part ≡ take block_size (drop (index * block_size) file)

-- Whatever the block is labelled with, it holds that part. `content` gives the bytes of each path.
abbrev pub Genuine : ℕ → (List ℕ → List ℕ) → CacheBlock → Type 0
Genuine block_size content b =
    (p : List ℕ) → b.path ≡ some p → Part block_size (content p) b.block_enumerator b.contents

-- The system below serves the bytes of a file as `pread` and `fstat` are documented to.
pub record Serves (file : OpenFile) (content : List ℕ) : Type 0 where
  pub reads : (n o : ℕ) → file.pread n o ≡ bytes (take n (drop o content))
  pub size : file.st_size ≡ length content

module _ (block_size : ℕ) (file : List ℕ) where
  unfoldable pub part : ℕ → List ℕ
  part i = take block_size (drop (i * block_size) file)

  pub gathered-part :
      (i : ℕ) → take (suc i * block_size) file ≡ take (i * block_size) file ++ part i
  unfolding part
  gathered-part i = take-add (i * block_size) block_size (suc i * block_size) file (grind arith)

  pub length-part :
      (i : ℕ)
      → i * block_size ≤ length file
      → length (part i) ≡ min block_size (length file - i * block_size)
  unfolding part
  length-part i h = omega (
    arith,
    length-take block_size (drop (i * block_size) file),
    length-drop (i * block_size) file,
  )

  pub part-ZeroFree : (i : ℕ) → ZeroFree file → ZeroFree (part i)
  unfolding part
  part-ZeroFree i zero_free =
      All-take (λ b. 0 < b) block_size (drop (i * block_size) file)
        (All-drop (λ b. 0 < b) (i * block_size) file zero_free)

  -- The last, short part: the whole file has been gathered.
  pub short_part_whole :
      (i : ℕ)
      → i * block_size ≤ length file
      → length (part i) < block_size
      → take (suc i * block_size) file ≡ file
  short_part_whole i h short =
      take_of_length-le (suc i * block_size) file (grind (arith, length-part i h))

  pub empty_part_whole :
      (i : ℕ)
      → 0 < block_size
      → i * block_size ≤ length file
      → length (part i) ≡ 0
      → take (i * block_size) file ≡ file
  empty_part_whole i positive h empty =
      take_of_length-le (i * block_size) file (omega (arith, length-part i h, positive))

pub Genuine-part :
    (block_size : ℕ) (path : List ℕ) (content : List ℕ → List ℕ) (i : ℕ) (b : CacheBlock)
    → Genuine block_size content b
    → Labelled path (i + 1) b
    → b.contents ≡ part block_size (content path) i
unfolding part
Genuine-part block_size path content i b g l =
    let w : Part block_size (content path) b.block_enumerator b.contents = g path l.0 in
    let same_index : w.index ≡ i = omega (arith, w.number, l.1) in
    subst (λ j. b.contents ≡ take block_size (drop (j * block_size) (content path))) same_index
      w.same

pub stored-Genuine :
    (block_size : ℕ) (path : List ℕ) (content : List ℕ → List ℕ) (i : ℕ) (b : CacheBlock)
    → i * block_size < length (content path)
    → b.path ≡ some path
    → b.block_enumerator ≡ i + 1
    → b.contents ≡ part block_size (content path) i
    → Genuine block_size content b
unfolding part
stored-Genuine block_size path content i b inside e n c p e' =
    let q : path ≡ p = cc in
    subst (λ x. Part block_size (content x) b.block_enumerator b.contents) q
      (record { index = i; number = omega arith; inside = inside; same = c })

pub mul-div_cancel : (i b : ℕ) → 0 < b → i * b / b ≡ i
mul-div_cancel i b h = grind arith
