-- ===== src/CachingFs/Renaming.antt =====
-- What a rename in ex4/CachingFileSystem.cpp makes of a cache that holds parts of the files below.
use os_huji.Prelude.{
  ℕ, ◌<◌, ◌≡◌, ◌≢◌, ◌⊎◌, inl, inr, refl, ap, ◌∙◌, true, false, Bool-cases, none, some, List, [],
  ◌∷◌, length, map, All, arith,
}
use os_huji.CachingFs.Block.{CacheBlock, same_string}
use os_huji.CachingFs.Cache.{has_path}
use os_huji.CachingFs.Search.{same_string→eq, same_string_refl}
use os_huji.CachingFs.Labels.{relabel, has_path→eq, not_path→ne}
use os_huji.CachingFs.Parts.{Part, Genuine, Serves}
use os_huji.CachingFs.Session.{Files, moved, served, or_empty, content_of}

same_string_ne : (s t : List ℕ) → s ≢ t → same_string s t ≡ false
same_string_ne s t ne = elim (Bool-cases (same_string s t)) [
  | inl same ↦ absurd (ne (same_string→eq s t same))
  | inr other ↦ other
]

moved-target :
    (path newpath : List ℕ) (files : Files) → moved path newpath files newpath ≡ files path
moved-target path newpath files = ground (arith, same_string_refl newpath)

moved-other :
    (path newpath p : List ℕ) (files : Files)
    → p ≢ path
    → p ≢ newpath
    → moved path newpath files p ≡ files p
moved-other path newpath p files n m =
    ground (arith, same_string_ne p newpath m, same_string_ne p path n)

pub served-Serves : (content : List ℕ) → Serves (served content) content
served-Serves content = record { reads = λ n o. refl; size = refl }

-- A block of a file that does not exist would hold a part of nothing.
Genuine-exists :
    (block_size : ℕ) (files : Files) (p : List ℕ) (b : CacheBlock)
    → Genuine block_size (content_of files) b
    → files p ≡ none
    → b.path ≢ some p
Genuine-exists block_size files p b g gone = λ e.
    let part = g p e in
    let empty : length (content_of files p) ≡ 0 = ap (λ o. length (or_empty o)) gone in
    omega (arith, part.inside, empty)

Part-transport :
    (block_size : ℕ) (file file' : List ℕ) (n n' : ℕ) (part part' : List ℕ)
    → file' ≡ file
    → n' ≡ n
    → part' ≡ part
    → Part block_size file n part
    → Part block_size file' n' part'
Part-transport block_size file file' n n' part part' e f h p = rw e (rw f (rw h p))

relabel-kept :
    (path newpath : List ℕ) (b : CacheBlock)
    → ((relabel path newpath b).block_enumerator ≡ b.block_enumerator)
      × ((relabel path newpath b).contents ≡ b.contents)
relabel-kept path newpath b = ground arith

relabel-Genuine :
    (block_size : ℕ) (path newpath : List ℕ) (files : Files) (b : CacheBlock)
    → files newpath ≡ none
    → Genuine block_size (content_of files) b
    → Genuine block_size (content_of (moved path newpath files)) (relabel path newpath b)
relabel-Genuine block_size path newpath files b gone g p e = elim (Bool-cases (has_path path b)) [
  | inl here ↦
      let old : b.path ≡ some path = has_path→eq path b here in
      let same : p ≡ newpath = ground (arith, e) in
      let kept : content_of (moved path newpath files) p ≡ content_of files path =
        ap (λ q. content_of (moved path newpath files) q) same
        ∙ ap or_empty (moved-target path newpath files) in
      Part-transport block_size _ _ _ _ _ _ kept (relabel-kept path newpath b).0
        (relabel-kept path newpath b).1 (g path old)
  | inr other ↦
      let named : b.path ≡ some p = ground (arith, e) in
      let not_old : p ≢ path = λ q. not_path→ne path b other (named ∙ ap some q) in
      let not_new : p ≢ newpath =
        λ q. Genuine-exists block_size files newpath b g gone (named ∙ ap some q) in
      let kept : content_of (moved path newpath files) p ≡ content_of files p =
        ap or_empty (moved-other path newpath p files not_old not_new) in
      Part-transport block_size _ _ _ _ _ _ kept (relabel-kept path newpath b).0
        (relabel-kept path newpath b).1 (g p named)
]

pub relabel-All :
    (block_size : ℕ) (path newpath : List ℕ) (files : Files) (blocks : List CacheBlock)
    → files newpath ≡ none
    → All (Genuine block_size (content_of files)) blocks
    → All
        (Genuine block_size (content_of (moved path newpath files)))
        (map (relabel path newpath) blocks)
relabel-All block_size path newpath files [] gone g = tt
relabel-All block_size path newpath files (b ∷ bs) gone g = (
  relabel-Genuine block_size path newpath files b gone g.0,
  relabel-All block_size path newpath files bs gone g.1,
)

-- Every buffer has room for paths of that length.
abbrev pub RoomFor : ℕ → CacheBlock → Type 0
RoomFor room b = (b.path ≡ none) ⊎ (room < b.path_room)

pub relabel-RoomFor :
    (room : ℕ) (path newpath : List ℕ) (blocks : List CacheBlock)
    → All (RoomFor room) blocks
    → All (RoomFor room) (map (relabel path newpath) blocks)
relabel-RoomFor room path newpath [] h = tt
relabel-RoomFor room path newpath (b ∷ bs) h =
    (ground (arith, h.0, has_path→eq path b), relabel-RoomFor room path newpath bs h.1)

pub rename_room :
    (room : ℕ) (path newpath : List ℕ) (blocks : List CacheBlock)
    → length newpath ≡ room
    → All (RoomFor room) blocks
    → All (λ b. (has_path path b ≡ true) → length newpath < b.path_room) blocks
rename_room room path newpath [] same h = tt
rename_room room path newpath (b ∷ bs) same h = (
  (λ has. ground (arith, has_path→eq path b has, h.0)),
  rename_room room path newpath bs same h.1,
)
