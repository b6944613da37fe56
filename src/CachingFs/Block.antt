-- ===== src/CachingFs/Block.antt =====
-- The class `CacheBlock` of ex4/CachingFileSystem.cpp. A C string is the list of its bytes before
-- the terminating zero; a buffer that is written to keeps its room.
use os_huji.Prelude.{
  c_string, ℕ, ◌+◌, Bool, true, false, Option, none, some, List, [], ◌∷◌, length, ltb, ◌==◌,
  if◌then◌else◌,
}

-- `!strcmp(s, t)`.
unfoldable pub same_string : List ℕ → List ℕ → Bool
same_string [] [] = true
same_string [] (c ∷ cs) = false
same_string (b ∷ bs) [] = false
same_string (b ∷ bs) (c ∷ cs) = if b == c then same_string bs cs else false

-- `path_room` is the size of the allocation behind `_path`, 0 for a null pointer.
pub record CacheBlock : Type 0 where
  pub path : Option (List ℕ)
  pub path_room : ℕ
  pub contents : List ℕ
  pub block_enumerator : ℕ
  pub counter : ℕ

-- A call returns, fails with an `errno` and the cache as it is then, or writes past the end of a
-- buffer.
pub data Io {ℓ} (A : Type ℓ) : Type ℓ where
  done : A → Io A
  failed : ℕ → List CacheBlock → Io A
  overflow : Io A

infixl 5 ◌>>=◌
abbrev pub ◌>>=◌ {ℓ ℓ'} : {A : Type ℓ} → {B : Type ℓ'} → Io A → (A → Io B) → Io B
done a >>= k = k a
failed e blocks >>= k = failed e blocks
overflow >>= k = overflow

-- `CacheBlock()`. The bytes of the new `_data` are not initialised; nothing reads them before
-- `setData`, since the path is null.
unfoldable pub new_block : CacheBlock
new_block = record { path = none; path_room = 0; contents = []; block_enumerator = 0; counter = 0 }

-- `setData`: `_data` has room for `blockSize + 1` bytes, the zero included.
unfoldable pub set_data : ℕ → List ℕ → CacheBlock → Io CacheBlock
set_data block_size bytes b =
    if ltb (length (c_string bytes)) (block_size + 1)
    then done (record b { contents = c_string bytes })
    else overflow

-- `setPath`: the buffer is allocated for the first path, and written over for each later one.
unfoldable pub set_path : List ℕ → CacheBlock → Io CacheBlock
set_path path b = elim b.path [
  | none ↦ done (record b { path = some path; path_room = length path + 1 })
  | some _ ↦
      if ltb (length path) b.path_room then done (record b { path = some path }) else overflow
]

abbrev pub increase_count : CacheBlock → CacheBlock
increase_count b = record b { counter = b.counter + 1 }
