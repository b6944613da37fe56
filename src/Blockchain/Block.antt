-- ===== src/Blockchain/Block.antt =====
-- ex3/Block.h and ex3/Block.cpp: the object of one block, and the store that `new Block` allocates
-- from and `delete` frees. An address is a position in the store.
use os_huji.Prelude.{
  ℕ, zero, suc, Bool, false, Option, none, some, List, [], ◌∷◌, ◌++◌, length, take,
}

-- An index of -1 and a null pointer are `none`.
pub record Block : Type 0 where
  pub contents : Option (List ℕ)
  pub index : ℕ
  pub father_index : Option ℕ
  pub depth : ℕ
  pub len_data : ℕ
  pub hashed_data : Option (List ℕ)
  pub next : Option ℕ
  pub is_in_longest : Bool
  pub attach_to_longest : Bool

-- `memcpy` of `length` bytes, unless the pointer is null.
abbrev pub copy_data : Option (List ℕ) → ℕ → Option (List ℕ)
copy_data none len = none
copy_data (some bytes) len = some (take len bytes)

unfoldable pub new_block : Option (List ℕ) → ℕ → Option ℕ → ℕ → ℕ → Block
new_block bytes index father_index depth len = record {
  contents = copy_data bytes len;
  index = index;
  father_index = father_index;
  depth = depth;
  len_data = len;
  hashed_data = none;
  next = none;
  is_in_longest = false;
  attach_to_longest = false;
}

abbrev pub set_depth : ℕ → Block → Block
set_depth d b = record b { depth = d }

abbrev pub set_hashed_data : List ℕ → Block → Block
set_hashed_data h b = record b { hashed_data = some h }

abbrev pub set_father_index : Option ℕ → Block → Block
set_father_index f b = record b { father_index = f }

abbrev pub set_next : ℕ → Block → Block
set_next a b = record b { next = some a }

abbrev pub set_is_in_longest : Bool → Block → Block
set_is_in_longest c b = record b { is_in_longest = c }

abbrev pub set_attach_to_longest : Bool → Block → Block
set_attach_to_longest c b = record b { attach_to_longest = c }

-- `none` at an address: the block was deleted.
abbrev pub Heap : Type 0
Heap = List (Option Block)

unfoldable pub deref : Heap → ℕ → Option Block
deref [] a = none
deref (o ∷ h) zero = o
deref (o ∷ h) (suc a) = deref h a

abbrev pub on_some : (Block → Block) → Option Block → Option Block
on_some g none = none
on_some g (some b) = some (g b)

-- A write through a pointer.
unfoldable pub update : Heap → ℕ → (Block → Block) → Heap
update [] a g = []
update (o ∷ h) zero g = on_some g o ∷ h
update (o ∷ h) (suc a) g = o ∷ update h a g

unfoldable pub free : Heap → ℕ → Heap
free [] a = []
free (o ∷ h) zero = none ∷ h
free (o ∷ h) (suc a) = o ∷ free h a

-- `new`: the next address, and the store with the object there.
abbrev pub alloc : Heap → Block → ℕ × Heap
alloc h b = (length h, h ++ some b ∷ [])
