-- ===== src/CachingFs/Number.antt =====
-- The number of blocks of the cache of ex4/CachingFileSystem.cpp never changes.
use os_huji.Prelude.{
  c_string, ℕ, zero, suc, ◌+◌, ◌/◌, ◌≡◌, inl, inr, refl, ap, ◌∙◌, Bool-cases, Option-cases, List,
  [], ◌∷◌, length, length-set, get_elem?, ltb, ◌==◌, if◌then◌else◌,
}
use os_huji.CachingFs.Block.{
  CacheBlock, Io, done, failed, overflow, ◌>>=◌, increase_count, set_data, set_path,
}
use os_huji.CachingFs.Cache.{is_in_cache, search_min_counter, update_block, has_path, rename_blocks}
use os_huji.CachingFs.Read.{
  OpenFile, Pread, errno, bytes, Reading, Round, next, stops, use_block, replace_block, store_read,
  fetch_block, read_round, read_loop, caching_read,
}

-- What holds of the cache that a failing call leaves, and of the result of a call that returns.
abbrev pub OnIo : {A : Type 0} → (List CacheBlock → Type 0) → (A → Type 0) → Io A → Type 0
OnIo F P (done a) = P a
OnIo F P (failed e blocks) = F blocks
OnIo F P overflow = Unit

abbrev pub OnDone : {A : Type 0} → (A → Type 0) → Io A → Type 0
OnDone P x = OnIo (λ bs. Unit) P x

OnIo-bind :
    {A B : Type 0} (F : List CacheBlock → Type 0) (P : A → Type 0) (Q : B → Type 0) (x : Io A)
    (k : A → Io B)
    → OnIo F P x
    → ((a : A) → P a → OnIo F Q (k a))
    → OnIo F Q (x >>= k)
OnIo-bind F P Q (done a) k h f = f a h
OnIo-bind F P Q (failed e blocks) k h f = h
OnIo-bind F P Q overflow k h f = tt

pub OnDone-bind :
    {A B : Type 0} (P : A → Type 0) (Q : B → Type 0) (x : Io A) (k : A → Io B)
    → OnDone P x
    → ((a : A) → P a → OnDone Q (k a))
    → OnDone Q (x >>= k)
OnDone-bind P Q x k h f = OnIo-bind (λ bs. Unit) P Q x k h f

pub OnDone-mono :
    {A : Type 0} (P Q : A → Type 0) (x : Io A) → ((a : A) → P a → Q a) → OnDone P x → OnDone Q x
OnDone-mono P Q (done a) f h = f a h
OnDone-mono P Q (failed e blocks) f h = tt
OnDone-mono P Q overflow f h = tt

pub OnDone-any : {A : Type 0} (x : Io A) → OnDone (λ a. Unit) x
OnDone-any (done a) = tt
OnDone-any (failed e blocks) = tt
OnDone-any overflow = tt

-- Overwriting a block does not fail.
module _ (F : List CacheBlock → Type 0) where
  set_data-OnIo :
      (block_size : ℕ) (bs : List ℕ) (b : CacheBlock)
      → OnIo F (λ c. Unit) (set_data block_size bs b)
  unfolding set_data
  set_data-OnIo block_size bs b = elim (Bool-cases (ltb (length (c_string bs)) (block_size + 1))) [
    | inl e ↦ rw (e, OnIo) tt
    | inr e ↦ rw (e, OnIo) tt
  ]

  set_path-OnIo : (path : List ℕ) (b : CacheBlock) → OnIo F (λ c. Unit) (set_path path b)
  unfolding set_path
  set_path-OnIo path b = elim (Option-cases b.path) [
    | inl e ↦ rw (e, OnIo) tt
    | inr (p, e) ↦
        rw (e, OnIo)
          (elim (Bool-cases (ltb (length path) b.path_room)) [
            | inl f ↦ rw (f, OnIo) tt
            | inr f ↦ rw (f, OnIo) tt
          ])
  ]

  update_block-OnIo :
      (block_size : ℕ) (path bs : List ℕ) (number : ℕ) (b : CacheBlock)
      → OnIo F (λ c. Unit) (update_block block_size path bs number b)
  unfolding update_block
  update_block-OnIo block_size path bs number b =
      let b1 : CacheBlock = record b { block_enumerator = number; counter = 0 } in
      OnIo-bind F (λ c. Unit) (λ c. Unit) (set_data block_size bs b1) (λ c. set_path path c)
        (set_data-OnIo block_size bs b1) (λ c u. set_path-OnIo path c)

module _ (n : ℕ) where
  abbrev pub Sized : List CacheBlock → Type 0
  Sized blocks = length blocks ≡ n

  abbrev pub RoundSized : Round → Type 0
  RoundSized (next r) = Sized r.blocks
  RoundSized (stops r) = Sized r.blocks

  use_block-Sized :
      (offset i : ℕ) (r : Reading) → Sized r.blocks → OnIo Sized RoundSized (use_block offset i r)
  unfolding use_block
  use_block-Sized offset i r v = elim (Option-cases (get_elem? r.blocks i)) [
    | inl e ↦ rw (e, OnIo) tt
    | inr (b, e) ↦ rw (e, OnIo) (length-set r.blocks i (increase_count b) ∙ v)
  ]

  replace_block-Sized :
      (block_size : ℕ) (path bs : List ℕ) (number i : ℕ) (blocks : List CacheBlock)
      → Sized blocks
      → OnIo Sized Sized (replace_block block_size path bs number i blocks)
  unfolding replace_block
  replace_block-Sized block_size path bs number i blocks v =
      elim (Option-cases (get_elem? blocks i)) [
        | inl e ↦ rw (e, OnIo) tt
        | inr (b, e) ↦
            rw (e, OnIo)
              (OnIo-bind Sized (λ b'. Unit) Sized (update_block block_size path bs number b) _
                (update_block-OnIo Sized block_size path bs number b)
                (λ b' u. length-set blocks i b' ∙ v))
      ]

  store_read-Sized :
      (block_size : ℕ) (path : List ℕ) (offset : ℕ) (r : Reading) (bs : List ℕ)
      → Sized r.blocks
      → OnIo Sized RoundSized (store_read block_size path offset r bs)
  unfolding store_read
  store_read-Sized block_size path offset r bs v = elim (Bool-cases (length bs == 0)) [
    | inl e ↦ rw (e, OnIo) v
    | inr e ↦
        rw (e, OnIo)
          (OnIo-bind Sized Sized RoundSized
            (replace_block block_size path bs (r.adv_offset / block_size + 1)
              (search_min_counter r.blocks) r.blocks)
            _ (replace_block-Sized block_size path bs _ _ r.blocks v)
            (λ blocks' v'. use_block-Sized offset _ _ v'))
  ]

  fetch_block-Sized :
      (file : OpenFile) (block_size : ℕ) (path : List ℕ) (offset : ℕ) (r : Reading)
      → Sized r.blocks
      → OnIo Sized RoundSized (fetch_block file block_size path offset r)
  unfolding fetch_block
  fetch_block-Sized file block_size path offset r v =
      go (file.pread (if ltb r.left block_size then r.left else r.to_read) r.adv_offset)
    where
      go :
          (x : Pread)
          → OnIo Sized RoundSized (elim x [
            | errno e ↦ failed e r.blocks
            | bytes bs ↦
                store_read block_size path offset
                  (record r { to_read = if ltb r.left block_size then r.left else r.to_read })
                  bs
          ])
      go (errno e) = v
      go (bytes bs) = store_read-Sized block_size path offset _ bs v

  read_round-Sized :
      (file : OpenFile) (block_size : ℕ) (path : List ℕ) (offset : ℕ) (r : Reading)
      → Sized r.blocks
      → OnIo Sized RoundSized (read_round file block_size path offset r)
  unfolding read_round
  read_round-Sized file block_size path offset r v =
      elim (Option-cases (is_in_cache path (r.adv_offset / block_size + 1) r.blocks)) [
        | inl e ↦ rw (e, OnIo) (fetch_block-Sized file block_size path offset r v)
        | inr (i, e) ↦ rw (e, OnIo) (use_block-Sized offset i r v)
      ]

  continue-Sized :
      (file : OpenFile) (block_size : ℕ) (path : List ℕ) (offset k : ℕ) (o : Round)
      → RoundSized o
      → ((r : Reading)
          → Sized r.blocks
          → OnIo Sized (λ r'. Sized r'.blocks) (read_loop file block_size path offset k r))
      → OnIo Sized
          (λ r'. Sized r'.blocks)
          (elim o [ next r ↦ read_loop file block_size path offset k r | stops r ↦ done r ])
  continue-Sized file block_size path offset k (next r) v loop = loop r v
  continue-Sized file block_size path offset k (stops r) v loop = v

  read_loop-Sized :
      (file : OpenFile) (block_size : ℕ) (path : List ℕ) (offset k : ℕ) (r : Reading)
      → Sized r.blocks
      → OnIo Sized (λ r'. Sized r'.blocks) (read_loop file block_size path offset k r)
  unfolding read_loop
  read_loop-Sized file block_size path offset zero r v = v
  read_loop-Sized file block_size path offset (suc k) r v = elim (Bool-cases r.finish) [
    | inl e ↦ rw (e, OnIo) v
    | inr e ↦
        rw (e, OnIo)
          (OnIo-bind Sized RoundSized (λ r'. Sized r'.blocks)
            (read_round file block_size path offset r) _
            (read_round-Sized file block_size path offset r v)
            (λ o w.
              continue-Sized file block_size path offset k o w
                (λ r' v'. read_loop-Sized file block_size path offset k r' v')))
  ]

  pub caching_read-Sized :
      (file : OpenFile) (block_size : ℕ) (path : List ℕ) (size offset : ℕ)
      (blocks : List CacheBlock)
      → Sized blocks
      → OnIo Sized (λ r. Sized r.0) (caching_read file block_size path size offset blocks)
  unfolding caching_read
  caching_read-Sized file block_size path size offset blocks v =
      OnIo-bind Sized (λ r. Sized r.blocks) (λ r. Sized r.0) _ _
        (read_loop-Sized file block_size path offset _ _ v) (λ r v'. v')

pub rename_blocks-Sized :
    (path newpath : List ℕ) (blocks : List CacheBlock)
    → OnDone (λ bs. length bs ≡ length blocks) (rename_blocks path newpath blocks)
unfolding rename_blocks
rename_blocks-Sized path newpath [] = refl
rename_blocks-Sized path newpath (b ∷ bs) =
    OnDone-bind (λ b'. Unit) _ (if has_path path b then set_path newpath b else done b) _
      (OnDone-any _)
      (λ b' u.
        OnDone-bind _ _ (rename_blocks path newpath bs) _ (rename_blocks-Sized path newpath bs)
          (λ bs' e. ap suc e))
